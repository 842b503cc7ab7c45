-- ===== src/Auth.antt =====
-- apps/api/src/auth/auth.service.ts: registration, the check of a password, and sessions of an
-- access token and a refresh token whose id stands in Redis under its family. `config` is the
-- environment that ConfigService reads.
pub mod Rotation
pub mod Credentials
pub mod Controller
use Prim.Native.String
use mikrouli.Common.{
  ℕ, String, Bool, true, false, not, ◌||◌, Option, none, some, str_eq, or_else, if◌then◌else◌,
}
use mikrouli.Http.{Exception, other, unauthorized}
use mikrouli.Io.{App, Io, on_pg, on_redis, on_env, pure, raise, ◌>>=◌, ◌>>◌}
use mikrouli.Redis.{get_or_throw, set_or_throw, del_or_throw}
use mikrouli.Users
use mikrouli.Services.{User, UserTable, RedisClient, Runtime, JwtPayload}

abbrev pub refresh_token_ttl_seconds : ℕ
refresh_token_ttl_seconds = 604800

abbrev pub access_token_ttl_seconds : ℕ
access_token_ttl_seconds = 900

abbrev pub decoy_password_hash : String
decoy_password_hash = "$2b$10$abcdefghijklmnopqrstuuVGLMaGqJ8N6mAqfITwHNYOfhBFUEiPi"

-- A Set-Cookie header; every one has HttpOnly, Secure and SameSite=Strict. `Max-Age=0` deletes.
pub record Cookie : Type 0 where
  pub name : String
  pub value : String
  pub path : String
  pub max_age : ℕ

abbrev pub set_cookie : String → String → String → ℕ → Cookie
set_cookie name value path max_age = record {
  name = name;
  value = value;
  path = path;
  max_age = max_age;
}

abbrev pub clear_cookie : String → String → Cookie
clear_cookie name path = set_cookie name "" path 0

pub record Session : Type 0 where
  pub access_token : String
  pub refresh_token : String
  pub access_cookie : Cookie
  pub refresh_cookie : Cookie

pub record PublicUser : Type 0 where
  pub id : String
  pub email : String
  pub created_at : ℕ

unfoldable pub build_revocation_key : String → String
build_revocation_key family = String.◌++◌ "auth:refresh:" family

abbrev pub build_access_payload : User → JwtPayload
build_access_payload user = record {
  sub = user.id;
  email = user.email;
  type = none;
  jti = none;
  family = none;
}

abbrev pub build_refresh_payload : User → String → String → JwtPayload
build_refresh_payload user jti family = record {
  sub = user.id;
  email = user.email;
  type = some "refresh";
  jti = some jti;
  family = some family;
}

-- `configService.getOrThrow`
abbrev pub config_or_throw : {S : Type 0} → (String → Option String) → String → Io S String
config_or_throw config key = elim (config key) [
  | none ↦ raise (other (String.◌++◌ "Configuration key missing: " key))
  | some value ↦ pure value
]

-- A string that is there and not empty.
abbrev pub truthy : Option String → Option String
truthy none = none
truthy (some s) = if str_eq s "" then none else some s

module _ {P R E : Type 0} (config : String → Option String) (users : UserTable P)
    (client : RedisClient R) (runtime : Runtime E) where
  unfoldable pub issue_tokens : User → Io (App P R E) Session
  unfolding build_revocation_key set_or_throw
  issue_tokens user = do
    refresh_secret ← config_or_throw config "JWT_REFRESH_SECRET"
    jti ← on_env runtime.random_uuid
    family ← on_env runtime.random_uuid
    access_token ← on_env (runtime.sign (build_access_payload user) none)
    refresh_token ← on_env (
        runtime.sign (build_refresh_payload user jti family)
          (some (refresh_secret, refresh_token_ttl_seconds)))
    on_redis
        (set_or_throw client (build_revocation_key family) jti (some refresh_token_ttl_seconds))
    pure (record {
      access_token = access_token;
      refresh_token = refresh_token;
      access_cookie = set_cookie "mikrouli_access" access_token "/api" access_token_ttl_seconds;
      refresh_cookie =
          set_cookie "mikrouli_refresh" refresh_token "/api/auth" refresh_token_ttl_seconds;
    })

  -- `decodeRefreshToken`
  decoded : Option JwtPayload → Io (App P R E) JwtPayload
  decoded none = raise unauthorized
  decoded (some payload) = pure payload

  -- `assertRefreshType` and `assertRefreshClaims`: the id and the family.
  unfoldable pub claims :
      Option String → Option String → Option String → Io (App P R E) (String × String)
  claims type jti family =
      if not (str_eq (or_else type "") "refresh") then raise unauthorized else elim (truthy jti) [
        | none ↦ raise unauthorized
        | some id ↦ elim (truthy family) [ none ↦ raise unauthorized | some name ↦ pure (id, name) ]
      ]

  -- What follows the lookup of the stored id.
  check_stored : Option String → String → String → Io (App P R E) (Unit {0})
  unfolding del_or_throw
  check_stored none jti key = raise unauthorized
  check_stored (some stored) jti key =
      if not (str_eq stored jti)
      then on_redis (del_or_throw client key) >> raise unauthorized
      else pure tt

  found : Option User → Io (App P R E) User
  found none = raise unauthorized
  found (some user) = pure user

  unfoldable pub rotate_refresh : String → Io (App P R E) Session
  unfolding decoded check_stored found get_or_throw
  rotate_refresh token = do
    refresh_secret ← config_or_throw config "JWT_REFRESH_SECRET"
    verified ← on_env (runtime.verify token refresh_secret)
    payload ← decoded verified
    (jti, family) ← claims payload.type payload.jti payload.family
    stored_jti ← on_redis (get_or_throw client (build_revocation_key family))
    check_stored stored_jti jti (build_revocation_key family)
    row ← on_pg (users.find_by_id payload.sub)
    user ← found row
    issue_tokens user

  revoke_family : Option String → Io (App P R E) (Unit {0})
  unfolding del_or_throw
  revoke_family none = pure tt
  revoke_family (some family) = on_redis (del_or_throw client (build_revocation_key family))

  revoke_payload : Option JwtPayload → Io (App P R E) (Unit {0})
  unfolding revoke_family
  revoke_payload none = pure tt
  revoke_payload (some payload) = revoke_family (truthy payload.family)

  unfoldable pub revoke_refresh : String → Io (App P R E) (Unit {0})
  unfolding revoke_payload
  revoke_refresh token = do
    refresh_secret ← config_or_throw config "JWT_REFRESH_SECRET"
    verified ← on_env (runtime.verify token refresh_secret)
    revoke_payload verified

  -- `match` of `validateCredentials`, against the decoy where there is no hash.
  hash_to_compare : Option User → String
  hash_to_compare none = decoy_password_hash
  hash_to_compare (some user) = or_else user.password_hash decoy_password_hash

  accepted : Option User → Bool → Option User
  accepted none match = none
  accepted (some user) match = elim (truthy user.password_hash) [
    | none ↦ none
    | some hash ↦ if match then some user else none
  ]

  unfoldable pub validate_credentials : String → String → Io (App P R E) (Option User)
  unfolding hash_to_compare accepted
  validate_credentials email password = do
    user ← on_pg (users.find_by_email email)
    match ← on_env (runtime.bcrypt_compare password (hash_to_compare user))
    pure (accepted user match)

  unfoldable pub register : String → String → Io (App P R E) PublicUser
  register email password = do
    password_hash ← on_env (runtime.bcrypt_hash password)
    user ← Users.create users runtime email (some password_hash)
    pure (record { id = user.id; email = user.email; created_at = user.created_at })

  unfoldable pub login_with_github : String → String → Io (App P R E) Session
  login_with_github provider_user_id email = do
    user ← on_pg (Users.find_or_create_from_provider users provider_user_id email)
    issue_tokens user
