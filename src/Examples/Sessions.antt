-- ===== src/Examples/Sessions.antt =====
-- Runs of the authentication service and its controller.
use mikrouli.Common.{
  ℕ, String, none, some, refl, arith, ◌≡◌, ◌↔◌, [], true, str_eq, ◌⊎◌, eq_iff, ◌≢◌, false,
}
use mikrouli.Http.{ok, throw, unauthorized}
use mikrouli.Services.{User}
use mikrouli.Services.Memory.{redis, redis-laws, redis-up, runtime, payload}
use mikrouli.Services.Memory.Accounts.{users, user_of}
use mikrouli.Auth.{
  Session, PublicUser, Cookie, set_cookie, build_revocation_key, rotate_refresh, revoke_refresh,
  validate_credentials, truthy, decoy_password_hash,
}
use mikrouli.Auth.Rotation.{Presents, rotate_refresh_again}
use mikrouli.Auth.Credentials.{validate_credentials_compares, validate_credentials_iff}
use mikrouli.Auth.Controller.{logout, refresh, cleared}
use mikrouli.Auth.Controller.Logout.{logout-refresh}
use mikrouli.Examples.{world, config}

differ : (a b : String) → str_eq a b ≡ false → a ≢ b
differ a b h e = ground (arith, eq_iff a b)

-- The token of the session, at every state of the runtime.
presents : (n : ℕ) → Presents config runtime "token" n payload "jti" "family"
presents n = record {
  secret = "secret";
  configured = refl;
  verified = refl;
  is_refresh = refl;
  has_jti = refl;
  has_family = refl;
}

abbrev ada_user : User
ada_user = user_of "ada@example.org" (some "hash secret")

rotate_refresh_again_example :
    (s : Session) × ((rotate_refresh config users redis runtime "token"
        (rotate_refresh config users redis runtime "token" (world none)).1).0
      ≡ ok s)
unfolding build_revocation_key rotate_refresh mikrouli.Auth.claims mikrouli.Auth.issue_tokens
rotate_refresh_again_example =
    rotate_refresh_again config users redis runtime redis-laws "token" payload "jti" "family"
      (world none) ada_user ada_user redis-up (presents 0) refl refl (differ "uuid-1" "family" refl)
      (presents 4) refl

validate_credentials_compares_example :
    (hash : String) × ((validate_credentials config users redis runtime "ada@example.org" "secret"
        (world none)).1.env
      ≡ (runtime.bcrypt_compare "secret" hash 0).1)
    × (((user : User) × (some ada_user ≡ some user) × (user.password_hash ≡ some hash))
        ⊎ (hash ≡ decoy_password_hash))
validate_credentials_compares_example =
    validate_credentials_compares config users redis runtime "ada@example.org" "secret" (world none)
      (some ada_user) refl

validate_credentials_iff_example :
    ((validate_credentials config users redis runtime "ada@example.org" "secret" (world none)).0
      ≡ ok (some ada_user))
    ↔ ((hash : String) × (some ada_user ≡ some ada_user)
        × (truthy (some "hash secret") ≡ some hash)
        × ((runtime.bcrypt_compare "secret" hash 0).0 ≡ true))
validate_credentials_iff_example =
    validate_credentials_iff config users redis runtime "ada@example.org" "secret" (world none)
      (some ada_user) ada_user refl

logout-refresh_example :
    ((refresh config users redis runtime
        (λ t. some t)
        (λ t. ok t)
        (some "token")
        (logout config users redis runtime (some "token") (world none, [])).1).0
      ≡ throw unauthorized)
    × ((refresh config users redis runtime
          (λ t. some t)
          (λ t. ok t)
          (some "token")
          (logout config users redis runtime (some "token") (world none, [])).1).1.1
        ≡ cleared)
unfolding logout revoke_refresh
logout-refresh_example =
    logout-refresh config users redis runtime redis-laws (λ t. some t) (λ t. ok t) (some "token")
      "token" payload "jti" "family" (world none) [] redis-up refl (presents 0) refl (presents 0)
