-- ===== src/ApiKeys/Guards.antt =====
-- Who is behind a request: apps/api/src/common/credential-presence.ts, the guards of
-- apps/api/src/api-keys and the strategy of apps/api/src/auth/jwt.strategy.ts. The guards take what
-- is injected into them, over any state.
pub mod Admission
pub mod Origin
use Prim.Native.Char.{code}
use Prim.Native.String
use text.Mathlib.Text.{starts_with}
use mikrouli.Common.{
  ℕ, String, Bool, true, false, not, ◌&&◌, ◌||◌, Option, none, some, List, [], ◌∷◌, ◌++◌, ◌==◌,
  str_eq, or_else, is_some, if◌then◌else◌,
}
use mikrouli.Http.{Exception, Result, ok, throw, unauthorized}
use mikrouli.Io.{Io, pure, raise, continue, ◌>>=◌}
use mikrouli.Services.{JwtPayload}
use mikrouli.Urls.{Url, UrlLibrary, includes}
use mikrouli.Auth.{truthy}
use mikrouli.Links.Controller.{AuthenticatedUser}

-- A header that Node gives as one string or as several.
pub data HeaderValue : Type 0 where
  one : String → HeaderValue
  many : List String → HeaderValue

-- What the guards read of a request.
pub record Request : Type 0 where
  pub authorization : Option String
  pub x_api_key : Option HeaderValue
  pub access_cookie : Option String
  pub origin : Option String
  pub referer : Option String
  pub host : Option String

pub data AuthMethod : Type 0 where
  jwt : AuthMethod
  api_key : AuthMethod

abbrev pub has_bearer : Option String → Bool
has_bearer none = false
has_bearer (some header) = starts_with header "Bearer "

-- A list is truthy though it is empty.
abbrev pub has_header : Option HeaderValue → Bool
has_header none = false
has_header (some (one value)) = not (str_eq value "")
has_header (some (many values)) = true

unfoldable pub carries_api_credential : Request → Bool
carries_api_credential req =
    if has_bearer req.authorization
    then true
    else if has_header req.x_api_key
    then true
    else is_some (truthy req.access_cookie)

abbrev pub has_cookie_token : Request → Bool
has_cookie_token req = is_some (truthy req.access_cookie)

unfoldable pub choose_auth_method : Request → Option AuthMethod
choose_auth_method req =
    if has_bearer req.authorization
    then some jwt
    else if has_header req.x_api_key
    then some api_key
    else if has_cookie_token req
    then some jwt
    else none

-- `extractApiKeyHeader`
abbrev pub extract_api_key_header : Option HeaderValue → Option String
extract_api_key_header none = none
extract_api_key_header (some (one value)) = some value
extract_api_key_header (some (many values)) = none

-- `JwtStrategy.validate`: the principal of a verified access token.
unfoldable pub validate_payload : JwtPayload → Result AuthenticatedUser
validate_payload payload =
    if str_eq (or_else payload.type "") "refresh"
    then throw unauthorized
    else ok (record { id = payload.sub; is_guest = false })

-- The character is the one letter or the other.
unfoldable pub letter : ℕ → ℕ → String → Bool × String
letter upper lower String.[] = (false, "")
letter upper lower (String.◌∷◌ c s) = (code c == upper || code c == lower, s)

-- `raw.toLowerCase() === 'true'`
unfoldable pub is_true : String → Bool
unfolding letter
is_true raw =
    let (t, s1) = letter b'T' b't' raw in
    let (r, s2) = letter b'R' b'r' s1 in
    let (u, s3) = letter b'U' b'u' s2 in
    let (e, s4) = letter b'E' b'e' s3 in t && (r && (u && (e && str_eq s4 "")))

unfoldable pub is_truthy_flag : Option String → Bool
unfolding is_true
is_truthy_flag raw = is_true (or_else raw "true")

-- `host.split(':')[0]`
pub before_colon : String → String
before_colon String.[] = ""
before_colon (String.◌∷◌ c s) =
    let rest = before_colon s in if code c == b':' then "" else String.◌∷◌ c rest

-- `[...new Set(hostnames)]`, which keeps the first of equal ones.
pub distinct : List String → List String
distinct [] = []
distinct (x ∷ xs) = x ∷ without x (distinct xs)
  where
    without : String → List String → List String
    without y [] = []
    without y (z ∷ zs) = if str_eq z y then without y zs else z ∷ without y zs

abbrev pub present : Option String → List String
present none = []
present (some name) = name ∷ []

module _ (library : UrlLibrary) where
  unfoldable pub hostname_of : String → Option String
  hostname_of url = elim (library.parse url) [ none ↦ none | some parsed ↦ some parsed.hostname ]

  pub names_host : List String → String → Bool
  unfolding hostname_of
  names_host allowed url = elim (hostname_of url) [
    | none ↦ false
    | some hostname ↦ includes allowed hostname
  ]

  -- The browser's origin decides, and its referer where there is no origin.
  unfoldable pub is_browser_request : Request → List String → Bool
  unfolding names_host
  is_browser_request req [] = false
  is_browser_request req (name ∷ names) = elim (truthy req.origin) [
    | some origin ↦ names_host (name ∷ names) origin
    | none ↦ elim (truthy req.referer) [
      | some referer ↦ names_host (name ∷ names) referer
      | none ↦ false
    ]
  ]

  pub public_hostname : Option String → Option String
  unfolding hostname_of
  public_hostname none = none
  public_hostname (some url) = truthy (hostname_of url)

  pub host_hostname : Option String → Option String
  unfolding before_colon
  host_hostname none = none
  host_hostname (some host) = truthy (some (before_colon host))

  unfoldable pub resolve_allowed_hostnames : (String → Option String) → Request → List String
  unfolding public_hostname host_hostname distinct
  resolve_allowed_hostnames config req = distinct (
      present (public_hostname (truthy (config "PUBLIC_BASE_URL")))
      ++ present (host_hostname (truthy req.host)))

module _ {S : Type 0} where
  authenticated : Option String → Io S AuthenticatedUser
  authenticated none = raise unauthorized
  authenticated (some user_id) = pure (record { id = user_id; is_guest = false })

  validated : (String → Io S (Option String)) → Option String → Io S AuthenticatedUser
  unfolding authenticated
  validated validate none = raise unauthorized
  validated validate (some key) = do owner ← validate key; authenticated owner

  -- `ApiKeyAuthGuard.canActivate`, with the principal that it attaches.
  unfoldable pub api_key_guard : (String → Io S (Option String)) → Request → Io S AuthenticatedUser
  unfolding validated
  api_key_guard validate req = validated validate (truthy (extract_api_key_header req.x_api_key))

  accept_payload : Option JwtPayload → Io S AuthenticatedUser
  unfolding validate_payload
  accept_payload none = raise unauthorized
  accept_payload (some payload) = λ s. (validate_payload payload, s)

  -- `JwtAuthGuard`: `verified` is what passport-jwt makes of a request, none where it refuses it.
  unfoldable pub jwt_guard : (Request → Io S (Option JwtPayload)) → Request → Io S AuthenticatedUser
  unfolding accept_payload
  jwt_guard verified req = do payload ← verified req; accept_payload payload

  -- `BearerOrApiKeyGuard.canActivate` over the two guards.
  unfoldable pub bearer_or_api_key_guard :
      (Request → Io S AuthenticatedUser)
      → (Request → Io S AuthenticatedUser)
      → Request
      → Io S AuthenticatedUser
  bearer_or_api_key_guard jwt_guard key_guard req = elim (choose_auth_method req) [
    | none ↦ raise unauthorized
    | some jwt ↦ jwt_guard req
    | some api_key ↦ key_guard req
  ]

  -- `GuestOrAuthenticatedGuard.canActivate`
  unfoldable pub guest_or_authenticated_guard :
      UrlLibrary
      → (String → Option String)
      → (Request → Io S AuthenticatedUser)
      → Io S String
      → Request
      → Io S AuthenticatedUser
  guest_or_authenticated_guard library config credentialed get_guest_user_id req =
      if carries_api_credential req
      then credentialed req
      else if not (is_truthy_flag (config "GUEST_SHORTEN_ENABLED"))
      then raise unauthorized
      else if not (is_browser_request library req (resolve_allowed_hostnames library config req))
      then raise unauthorized
      else get_guest_user_id >>= λ guest. pure (record { id = guest; is_guest = true })
