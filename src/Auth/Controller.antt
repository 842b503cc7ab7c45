-- ===== src/Auth/Controller.antt =====
-- apps/api/src/auth/auth.controller.ts: a handler's state is the process together with the
-- Set-Cookie headers of the response. `payload_part` is the second part of a token split at its
-- dots, and `parse_subject` is the `sub` of what base64 and JSON.parse make of it.
pub mod Logout
use mikrouli.Common.{ℕ, String, Option, none, some, List, [], ◌∷◌}
use mikrouli.Http.{Exception, Result, ok, throw, unauthorized, service_unavailable}
use mikrouli.Io.{App, Io, on_pg, pure, raise, catch, continue, ◌>>=◌, ◌>>◌}
use mikrouli.Services.{User, UserTable, RedisClient, Runtime}
use mikrouli.Auth.{
  Cookie, Session, PublicUser, clear_cookie, truthy, validate_credentials, issue_tokens,
  rotate_refresh, revoke_refresh, register, login_with_github,
}

abbrev pub Handler : Type 0 → Type 0 → Type 0 → Type 0 → Type 0
Handler P R E A = Io (App P R E × List Cookie) A

-- `buildClearCookieHeaders`
abbrev pub cleared : List Cookie
cleared = clear_cookie "mikrouli_access" "/api" ∷ clear_cookie "mikrouli_refresh" "/api/auth" ∷ []

module _ {P R E : Type 0} where
  abbrev pub service : {A : Type 0} → Io (App P R E) A → Handler P R E A
  service m s = ((m s.0).0, ((m s.0).1, s.1))

  -- `res.setHeader('Set-Cookie', …)` replaces what was set.
  abbrev pub set_cookies : List Cookie → Handler P R E (Unit {0})
  set_cookies cookies s = (ok tt, (s.0, cookies))

  abbrev pub apply_session_cookies : Session → Handler P R E (Unit {0})
  apply_session_cookies session = set_cookies (session.access_cookie ∷ session.refresh_cookie ∷ [])

  abbrev pub apply_clear_cookies : Handler P R E (Unit {0})
  apply_clear_cookies = set_cookies cleared

abbrev pub to_user_profile_response : User → PublicUser
to_user_profile_response user = record {
  id = user.id;
  email = user.email;
  created_at = user.created_at;
}

module _ {P R E : Type 0} (config : String → Option String) (users : UserTable P)
    (client : RedisClient R) (runtime : Runtime E) where
  sign_up : String → String → Handler P R E PublicUser
  sign_up email password = service (register config users client runtime email password)

  log_in : Option User → Handler P R E PublicUser
  log_in none = raise unauthorized
  log_in (some user) = do
    session ← service (issue_tokens config users client runtime user)
    apply_session_cookies session
    pure (to_user_profile_response user)

  unfoldable pub login : String → String → Handler P R E PublicUser
  unfolding log_in
  login email password = do
    user ← service (validate_credentials config users client runtime email password)
    log_in user

  profile : Option User → Handler P R E PublicUser
  profile none = raise unauthorized
  profile (some user) = pure (to_user_profile_response user)

  -- The handler of `GET me` for the id that the guard has read from the access token.
  unfoldable pub me : String → Handler P R E PublicUser
  unfolding profile
  me id = do user ← service (on_pg (users.find_by_id id)); profile user

  subject_or_throw : (String → Result String) → Option String → Handler P R E String
  subject_or_throw parse_subject none = raise unauthorized
  subject_or_throw parse_subject (some part) = λ s. (parse_subject part, s)

  refresh_with :
      (String → Option String) → (String → Result String) → Option String → Handler P R E PublicUser
  unfolding subject_or_throw me
  refresh_with payload_part parse_subject none = raise unauthorized
  refresh_with payload_part parse_subject (some token) = do
    session ← service (rotate_refresh config users client runtime token)
    apply_session_cookies session
    subject ← subject_or_throw parse_subject (truthy (payload_part session.access_token))
    me subject

  unfoldable pub refresh :
      (String → Option String) → (String → Result String) → Option String → Handler P R E PublicUser
  unfolding refresh_with
  refresh payload_part parse_subject token = refresh_with payload_part parse_subject (truthy token)

  log_out : Option String → Handler P R E (Unit {0})
  log_out none = apply_clear_cookies
  log_out (some token) =
      catch (service (revoke_refresh config users client runtime token))
        (λ e. raise (service_unavailable "Session revocation temporarily unavailable"))
      >> apply_clear_cookies

  unfoldable pub logout : Option String → Handler P R E (Unit {0})
  unfolding log_out
  logout token = log_out (truthy token)

  -- The redirect goes to the dashboard.
  unfoldable pub github_callback : String → String → Handler P R E String
  github_callback provider_user_id email = do
    session ← service (login_with_github config users client runtime provider_user_id email)
    apply_session_cookies session
    pure "/dashboard"
