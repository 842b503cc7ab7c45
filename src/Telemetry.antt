-- ===== src/Telemetry.antt =====
-- apps/api/src/instrumentation.ts: the attributes of spans and what of them is redacted, and the
-- hooks that put attributes on a span. `URLSearchParams` is a parameter; the SDK is left out.
pub mod Params
pub mod Queries
pub mod Attributes
use Prim.Native.String
use mikrouli.Common.{
  String, Bool, true, false, Option, none, some, List, [], ◌∷◌, ◌++◌, map, str_eq, if◌then◌else◌,
}

abbrev pub redacted_value : String
redacted_value = "[REDACTED]"

abbrev pub sensitive_header_names : List String
sensitive_header_names = "authorization" ∷ "x-api-key" ∷ "cookie" ∷ "set-cookie" ∷ []

abbrev pub sensitive_header_prefixes : List String
sensitive_header_prefixes = "http.request.header." ∷ "http.response.header." ∷ []

abbrev pub sensitive_network_keys : List String
sensitive_network_keys =
    "http.client.ip" ∷ "net.peer.ip" ∷ "net.sock.peer.addr" ∷ "client.address"
    ∷ "client.socket.address" ∷ []

abbrev pub url_attribute_keys : List String
url_attribute_keys = "http.target" ∷ "http.url" ∷ "url.full" ∷ "url.path" ∷ []

abbrev pub pii_query_params : List String
pii_query_params =
    "email" ∷ "password" ∷ "token" ∷ "access_token" ∷ "refresh_token" ∷ "api_key" ∷ "apiKey" ∷ []

-- The loop of `piiHeaderKeys`.
abbrev pub pii_header_keys_from : List String → List String
pii_header_keys_from [] = []
pii_header_keys_from (prefix ∷ prefixes) =
    map (λ name. String.◌++◌ prefix name) sensitive_header_names ++ pii_header_keys_from prefixes

abbrev pub pii_header_keys : List String
pii_header_keys = pii_header_keys_from sensitive_header_prefixes

abbrev pub pii_attribute_keys : List String
pii_attribute_keys = sensitive_network_keys ++ pii_header_keys

pub has : List String → String → Bool
has [] key = false
has (k ∷ ks) key = if str_eq k key then true else has ks key

unfoldable pub is_pii_key : String → Bool
unfolding has
is_pii_key key = has pii_attribute_keys key

unfoldable pub is_url_like_key : String → Bool
unfolding has
is_url_like_key key = has url_attribute_keys key

-- `URLSearchParams`, by its pairs: how it is read from a query and written.
pub record SearchParams : Type 0 where
  pub parse : String → List (String × String)
  pub print : List (String × String) → String

-- `params.has(key)`
pub has_param : String → List (String × String) → Bool
has_param key [] = false
has_param key ((k, v) ∷ ps) = if str_eq k key then true else has_param key ps

-- What `params.set` does to the pairs behind the first that has the name: those of the name go.
pub without : String → List (String × String) → List (String × String)
without key [] = []
without key ((k, v) ∷ ps) =
    let rest = without key ps in if str_eq k key then rest else (k, v) ∷ rest

-- `params.set(key, value)`
pub set_param : String → String → List (String × String) → List (String × String)
unfolding without
set_param key value [] = (key, value) ∷ []
set_param key value ((k, v) ∷ ps) =
    let rest = set_param key value ps in
    if str_eq k key then (k, value) ∷ without key ps else (k, v) ∷ rest

-- The loop of `redactSearchParams`.
unfoldable pub redact_search_params : List String → List (String × String) → List (String × String)
unfolding has_param set_param
redact_search_params [] params = params
redact_search_params (key ∷ keys) params =
    redact_search_params keys
      (if has_param key params then set_param key redacted_value params else params)

-- What is before and what is behind the first '?', where there is one.
abbrev pub split_query : String → Option (String × String)
split_query String.[] = none
split_query (String.◌∷◌ c s) =
    if str_eq (String.◌∷◌ c "") "?"
    then some ("", s)
    else elim (split_query s) [ none ↦ none | some (base, query) ↦ some (String.◌∷◌ c base, query) ]

-- An attribute's value: a text, or anything else.
pub data Value (A : Type 0) : Type 0 where
  text : String → Value A
  other : A → Value A

abbrev pub joined : String → String → String
joined base qs = if str_eq qs "" then base else String.◌++◌ base (String.◌++◌ "?" qs)

module _ (library : SearchParams) where
  redact_split : String → Option (String × String) → String
  unfolding redact_search_params
  redact_split url none = url
  redact_split url (some (base, query)) =
      joined base (library.print (redact_search_params pii_query_params (library.parse query)))

  unfoldable pub redact_query_string : String → String
  unfolding redact_split
  redact_query_string url = redact_split url (split_query url)

  module _ {A : Type 0} where
    unfoldable pub redact_text : String → Value A → Value A
    unfolding redact_query_string is_url_like_key
    redact_text key (text value) =
        if is_url_like_key key then text (redact_query_string value) else text value
    redact_text key (other value) = other value

    unfoldable pub redact_value_for : String → Value A → Value A
    unfolding is_pii_key redact_text
    redact_value_for key value =
        if is_pii_key key then text redacted_value else redact_text key value

    -- The keys of an object are distinct, so its entries are set one beside the other.
    unfoldable pub sanitise_attributes : List (String × Value A) → List (String × Value A)
    unfolding redact_value_for
    sanitise_attributes [] = []
    sanitise_attributes ((key, value) ∷ attrs) =
        (key, redact_value_for key value) ∷ sanitise_attributes attrs

    -- `blankAttributesForPrefix`
    abbrev pub blank_attributes_for_prefix : String → List (String × Value A)
    blank_attributes_for_prefix prefix =
        map (λ name. (String.◌++◌ prefix name, text "")) sensitive_header_names

    -- A span, by the attributes that have been set, the last one first.
    abbrev pub apply_all :
        List (String × Value A) → List (String × Value A) → List (String × Value A)
    apply_all [] span = span
    apply_all (attr ∷ attrs) span = apply_all attrs (attr ∷ span)

    unfoldable pub apply_attribute_map :
        List (String × Value A) → List (String × Value A) → List (String × Value A)
    unfolding sanitise_attributes
    apply_attribute_map attrs span = apply_all (sanitise_attributes attrs) span

    -- The hook of a request; an empty correlation id is falsy.
    unfoldable pub request_hook : Option String → List (String × Value A) → List (String × Value A)
    unfolding apply_attribute_map
    request_hook correlation_id span =
        let redacted =
          apply_attribute_map (blank_attributes_for_prefix "http.request.header.") span in
        elim correlation_id [
          | none ↦ redacted
          | some id ↦ if str_eq id "" then redacted else ("app.correlation_id", text id) ∷ redacted
        ]

    unfoldable pub response_hook : List (String × Value A) → List (String × Value A)
    unfolding apply_attribute_map
    response_hook span =
        apply_attribute_map (blank_attributes_for_prefix "http.response.header.") span
