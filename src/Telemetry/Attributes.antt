-- ===== src/Telemetry/Attributes.antt =====
-- The attributes that apps/api/src/instrumentation.ts lets onto a span.
use mikrouli.Common.{
  String, true, false, ◌≡◌, ◌∙◌, refl, ap, List, [], ◌∷◌, map, All, arith, eq_refl,
}
use mikrouli.Telemetry.{
  redacted_value, has, is_pii_key, is_url_like_key, SearchParams, Value, text, other, redact_text,
  redact_value_for, sanitise_attributes,
}
use mikrouli.Telemetry.Params.{IsRedacted}
use mikrouli.Telemetry.Queries.{query_of, redact_query_string-IsRedacted}

abbrev pub keys_of : {A : Type 0} → List (String × Value A) → List String
keys_of {A} attrs = map (λ (attr : String × Value A). attr.0) attrs

-- The attributes of which no value may be recorded: who the client is, and the headers that carry
-- a credential, of requests and of responses.
abbrev pub private_keys : List String
private_keys =
    "http.client.ip" ∷ "net.peer.ip" ∷ "net.sock.peer.addr" ∷ "client.address"
    ∷ "client.socket.address" ∷ "http.request.header.authorization"
    ∷ "http.request.header.x-api-key" ∷ "http.request.header.cookie"
    ∷ "http.request.header.set-cookie" ∷ "http.response.header.authorization"
    ∷ "http.response.header.x-api-key" ∷ "http.response.header.cookie"
    ∷ "http.response.header.set-cookie" ∷ []

-- The attributes that hold a URL.
abbrev pub url_keys : List String
url_keys = "http.target" ∷ "http.url" ∷ "url.full" ∷ "url.path" ∷ []

-- The parameters of a URL of which no value may be recorded.
abbrev pub private_params : List String
private_params =
    "email" ∷ "password" ∷ "token" ∷ "access_token" ∷ "refresh_token" ∷ "api_key" ∷ "apiKey" ∷ []

All-map :
    {Q S : String → Type 0} → ((k : String) → Q k → S k) → (ks : List String) → All Q ks → All S ks
All-map f [] h = tt
All-map f (k ∷ ks) (q, qs) = (f k q, All-map f ks qs)

-- Every key of a list is found in it.
All-has : (ks : List String) → All (λ k. has ks k ≡ true) ks
unfolding has
All-has [] = tt
All-has (k ∷ ks) = (ground (arith, eq_refl k), All-map (λ j h. ground (arith, h)) ks (All-has ks))

private-pii : All (λ k. is_pii_key k ≡ true) private_keys
unfolding is_pii_key
private-pii = All-has private_keys

urls-like : All (λ k. (is_url_like_key k ≡ true) × (is_pii_key k ≡ false)) url_keys
unfolding is_url_like_key is_pii_key has
urls-like = ((refl, refl), ((refl, refl), ((refl, refl), ((refl, refl), tt))))

module _ (library : SearchParams)
    (parse-print : (ps : List (String × String)) → library.parse (library.print ps) ≡ ps)
    {A : Type 0} where
  -- Nothing in the query of a text; other values have none.
  abbrev pub QueryIsRedacted : Value A → Type 0
  QueryIsRedacted (text url) =
      All (λ key. IsRedacted key (query_of library parse-print url)) private_params
  QueryIsRedacted (other value) = Unit

  -- What may be told of an attribute: nothing where its key is private, and no private parameter
  -- where it is that of a URL.
  abbrev pub IsSafe : String × Value A → Type 0
  IsSafe (key, value) =
      All (λ k. key ≡ k → value ≡ text redacted_value) private_keys
      × All (λ k. key ≡ k → QueryIsRedacted value) url_keys

  redact_text-QueryIsRedacted :
      (key : String) (value : Value A)
      → is_url_like_key key ≡ true
      → QueryIsRedacted (redact_text library key value)
  unfolding redact_text
  redact_text-QueryIsRedacted key (text url) like =
      rw like (redact_query_string-IsRedacted library parse-print url)
  redact_text-QueryIsRedacted key (other value) like = tt

  redact_value_for-IsSafe :
      (key : String) (value : Value A) → IsSafe (key, redact_value_for library key value)
  unfolding redact_value_for
  redact_value_for-IsSafe key value = (
    All-map {Q = λ k. is_pii_key k ≡ true}
        {S = λ k. key ≡ k → redact_value_for library key value ≡ text redacted_value}
        (λ k pii same. rw (ap is_pii_key same ∙ pii) refl) private_keys private-pii,
    All-map {Q = λ k. (is_url_like_key k ≡ true) × (is_pii_key k ≡ false)}
        {S = λ k. key ≡ k → QueryIsRedacted (redact_value_for library key value)}
        (λ k (like, plain) same.
          rw (ap is_pii_key same ∙ plain)
            (redact_text-QueryIsRedacted key value (ap is_url_like_key same ∙ like)))
        url_keys urls-like,
  )

  -- Of the attributes that are recorded none has its value whose key is one of the five of the client's
  -- address or of the eight of the headers authorization, x-api-key, cookie and set-cookie; in none
  -- with one of the four keys of a URL has the query a value of email, password, token, access_token,
  -- refresh_token, api_key or apiKey, where what is written of a query is read back as it was; and no
  -- attribute is lost or added.
  pub sanitise_attributes-IsSafe :
      (attrs : List (String × Value A))
      → All IsSafe (sanitise_attributes library attrs)
        × (keys_of (sanitise_attributes library attrs) ≡ keys_of attrs)
  unfolding sanitise_attributes
  sanitise_attributes-IsSafe [] = (tt, refl)
  sanitise_attributes-IsSafe ((key, value) ∷ attrs) =
      let (safe, same) = sanitise_attributes-IsSafe attrs in
      ((redact_value_for-IsSafe key value, safe), ap (λ keys. key ∷ keys) same)
