-- ===== src/Oauth.antt =====
-- apps/api/src/auth/github.strategy.ts and github-oauth.errors.ts: the single-use state tokens, the
-- choice of a verified email, and the redirect of a failed sign-in. The exchange with GitHub is
-- passport's; `fetch_emails` is the call of GitHub's list of emails.
pub mod State
pub mod Email
use Prim.Native.String
use mikrouli.Common.{
  ℕ, String, Bool, true, false, Option, none, some, List, [], ◌∷◌, str_eq, if◌then◌else◌,
}
use mikrouli.Http.{
  Response, text, object, validation, problem, Exception, http, query_failed, other, Result, ok,
  throw, github_no_verified_email, github_oauth_failed,
}
use mikrouli.Io.{App, Io, on_redis, on_env, pure, raise, ◌>>=◌, ◌>>◌}
use mikrouli.Redis.{set_or_throw, getdel_or_throw}
use mikrouli.Services.{RedisClient, Runtime}

abbrev pub oauth_state_ttl_seconds : ℕ
oauth_state_ttl_seconds = 600

unfoldable pub state_key : String → String
state_key token = String.◌++◌ "auth:oauth:state:" token

pub record GithubEmail : Type 0 where
  pub email : String
  pub verified : Bool
  pub primary : Bool

pub record GithubIdentity : Type 0 where
  pub provider_user_id : String
  pub email : String

-- `emails.filter((e) => e.verified)`
pub verified_of : List GithubEmail → List GithubEmail
verified_of [] = []
verified_of (e ∷ es) = let rest = verified_of es in if e.verified then e ∷ rest else rest

-- `verified.find((e) => e.primary)`
pub primary_of : List GithubEmail → Option GithubEmail
primary_of [] = none
primary_of (e ∷ es) = let rest = primary_of es in if e.primary then some e else rest

-- The primary one among the verified ones, or the first of them.
pub choose : List GithubEmail → Option String
unfolding primary_of
choose [] = none
choose (e ∷ es) = elim (primary_of (e ∷ es)) [ none ↦ some e.email | some p ↦ some p.email ]

unfoldable pub select_verified_email : List GithubEmail → Option String
unfolding verified_of choose
select_verified_email emails = choose (verified_of emails)

module _ {P R E : Type 0} (client : RedisClient R) (runtime : Runtime E) where
  -- `store` of the state store: the token, or the error that the callback gets.
  unfoldable pub store : Io (App P R E) String
  unfolding state_key set_or_throw
  store = do
    token ← on_env (runtime.random_hex 32)
    on_redis (set_or_throw client (state_key token) "1" (some oauth_state_ttl_seconds))
    pure token

  -- `verify`: whether the state is accepted.
  unfoldable pub verify : String → Io (App P R E) Bool
  unfolding state_key getdel_or_throw
  verify provided_state = do
    value ← on_redis (getdel_or_throw client (state_key provided_state))
    pure (elim value [ none ↦ false | some v ↦ true ])

-- `validate` after the list of emails has been fetched or not: an empty email is falsy.
identity_of : String → Option String → Result GithubIdentity
identity_of profile_id none = throw github_no_verified_email
identity_of profile_id (some email) =
    if str_eq email ""
    then throw github_no_verified_email
    else ok (record { provider_user_id = profile_id; email = email })

unfoldable pub validate : Result (List GithubEmail) → String → Result GithubIdentity
unfolding identity_of select_verified_email
validate (throw err) profile_id = throw github_oauth_failed
validate (ok emails) profile_id = identity_of profile_id (select_verified_email emails)

-- `handleRequest` of the guard: any error, or no user, is one and the same failure.
unfoldable pub handle_request : {A : Type 0} → Option Exception → Option A → Result A
handle_request (some err) user = throw github_oauth_failed
handle_request none none = throw github_oauth_failed
handle_request none (some user) = ok user

-- `GithubOauthRedirectFilter.catch`: where the browser is sent; `none` for what it does not catch.
unfoldable pub redirect_target : Exception → Option String
redirect_target (http status (problem slug title detail)) =
    if str_eq slug "github-no-verified-email"
    then some (String.◌++◌ "/login?error=" slug)
    else if str_eq slug "github-oauth-failed"
    then some (String.◌++◌ "/login?error=" slug)
    else none
redirect_target (http status (text message)) = none
redirect_target (http status (object message)) = none
redirect_target (http status (validation errors)) = none
redirect_target (query_failed code) = none
redirect_target (other message) = none
