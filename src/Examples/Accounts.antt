-- ===== src/Examples/Accounts.antt =====
-- Runs of the users service, the API keys and the guards.
use mikrouli.Common.{ℕ, String, Option, none, some, refl, ◌≡◌, ◌≢◌, ◌⊎◌, true, false}
use mikrouli.Http.{Exception, ok, throw}
use mikrouli.Io.{App, Io}
use mikrouli.Services.{User, ApiKey, JwtPayload}
use mikrouli.Services.Memory.{Database, Server, runtime, bcrypt}
use mikrouli.Services.Memory.Accounts.{users, users-laws, user_of}
use mikrouli.Services.Memory.Keys.{keys, keys-laws, key_row, key_of, put_key}
use mikrouli.Users.{create, find_or_create_from_provider, decoy_user}
use mikrouli.Users.Provider.{find_or_create_from_provider_twice}
use mikrouli.Users.Decoy.{create_taken}
use mikrouli.ApiKeys.{CreatedApiKey, create_for_user, save_new_key, revoke, validate, parse_prefix}
use mikrouli.ApiKeys.Lifecycle.{validate-revoke, validate-save_new_key}
use mikrouli.ApiKeys.Guards.{
  Request, HeaderValue, one, carries_api_credential, choose_auth_method, is_truthy_flag,
  is_browser_request, resolve_allowed_hostnames,
}
use mikrouli.ApiKeys.Guards.Origin.{SaysOwnOrigin}
use mikrouli.ApiKeys.Guards.Admission.{admit_guest}
use mikrouli.Examples.{world, database, library}

-- The database after Bob has signed in.
abbrev with_bob : Database
with_bob = (find_or_create_from_provider users "42" "bob@example.org" (database none)).1

find_or_create_from_provider_twice_example :
    ((x : Exception) × ((find_or_create_from_provider users "42" "bob@another.example" with_bob).0
        ≡ throw x))
    ⊎ ((v : User) × ((find_or_create_from_provider users "42" "bob@another.example" with_bob).0
          ≡ ok v)
        × (v.id ≡ (user_of "bob@example.org" none).id))
unfolding find_or_create_from_provider mikrouli.Users.resolve_provider_identity
find_or_create_from_provider_twice_example =
    find_or_create_from_provider_twice users users-laws "42" (database none) "bob@example.org"
      "bob@another.example" (user_of "bob@example.org" none) refl

create_taken_example :
    ((u : User) × ((create users runtime "ada@example.org" none (world none)).0 ≡ ok u)
      × (u.email ≡ "ada@example.org")
      × (u.id ≡ "uuid-0"))
    × ((id : String)
        → users-laws.user (create users runtime "ada@example.org" none (world none)).1.pg id
          ≡ users-laws.user (database none) id)
create_taken_example =
    create_taken users runtime users-laws "ada@example.org" none (world none) refl

-- The world after a key has been made for Ada.
abbrev with_key : App Database Server ℕ
with_key = (save_new_key keys users runtime "ada@example.org" "laptop" (world none)).1

abbrev made : CreatedApiKey
made = record {
  id = "abcdefgh";
  label = "laptop";
  key = "mk_abcdefghijklmnop";
  key_prefix = "abcdefgh";
  created_at = 1700000000000;
}

abbrev key_of_ada : ApiKey
key_of_ada = key_of "ada@example.org" "laptop" "hash mk_abcdefghijklmnop" "abcdefgh"

validate-save_new_key_example :
    (validate keys users runtime "mk_abcdefghijklmnop" with_key).0 ≡ ok (some "ada@example.org")
unfolding save_new_key
validate-save_new_key_example =
    validate-save_new_key keys users runtime keys-laws bcrypt "ada@example.org" "laptop"
      (world none) with_key made key_of_ada refl refl refl

-- Bob has a key too.
abbrev with_two : App Database Server ℕ
with_two = record with_key {
  pg = put_key "12345678" (key_of "bob" "desk" "hash mk_12345678xyz" "12345678") with_key.pg;
}

validate-revoke_example :
    (key : ApiKey) × (key_row
        (revoke keys users runtime "ada@example.org" "abcdefgh" with_two).1.pg
        key.id
      ≡ some key)
    × (key.id ≢ "abcdefgh")
    × (key.user_id ≡ "bob")
    × (key.revoked_at ≡ none)
    × (key.key_prefix ≡ parse_prefix "mk_12345678xyz")
    × ((runtime.bcrypt_compare "mk_12345678xyz" key.key_hash
          (revoke keys users runtime "ada@example.org" "abcdefgh" with_two).1.env).0
        ≡ true)
unfolding revoke save_new_key validate
validate-revoke_example =
    validate-revoke keys users runtime keys-laws "bob" "ada@example.org" "abcdefgh" "mk_12345678xyz"
      with_two refl refl

-- A visitor of the landing page.
abbrev pub visitor : Request
visitor = record {
  authorization = none;
  x_api_key = none;
  access_cookie = none;
  origin = some "https://example.org";
  referer = none;
  host = some "example.org:443";
}

abbrev pub no_config : String → Option String
no_config key = none

abbrev verified : Request → Io ℕ (Option JwtPayload)
verified req s = (ok none, s)

abbrev owner : String → Io ℕ (Option String)
owner key s = (ok (some "ada@example.org"), s)

abbrev pub guest_id : Io ℕ String
guest_id s = (ok "guest-id", s)

admit_guest_example :
    (carries_api_credential visitor ≡ false)
    × (choose_auth_method visitor ≡ none)
    × (is_truthy_flag none ≡ true)
    × SaysOwnOrigin library no_config visitor
    × ((guest_id 0).0 ≡ ok "guest-id")
unfolding mikrouli.ApiKeys.Guards.guest_or_authenticated_guard carries_api_credential is_truthy_flag
    is_browser_request resolve_allowed_hostnames
admit_guest_example =
    admit_guest library no_config verified owner guest_id visitor 0
      (record { id = "guest-id"; is_guest = true }) refl refl
