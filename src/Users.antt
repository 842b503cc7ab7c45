-- ===== src/Users.antt =====
-- apps/api/src/users/users.service.ts: the users, registration with a decoy for a taken email, the
-- sign-in through a provider in one transaction that is run again after a lost race, and the cached
-- id of the shared Guest.
pub mod Provider
pub mod Decoy
use mikrouli.Common.{ℕ, String, Bool, true, false, Option, none, some, str_eq, if◌then◌else◌}
use mikrouli.Http.{Exception, Result, ok, throw, http, query_failed, other, not_found}
use mikrouli.Io.{App, Io, on_pg, on_env, pure, raise, catch, ◌>>=◌, ◌>>◌}
use mikrouli.Services.{User, UserTable, Runtime}

-- common/constants.ts
abbrev pub guest_sentinel_email : String
guest_sentinel_email = "guest@mikrouli.local"

abbrev pub is_unique_violation : Exception → Bool
is_unique_violation (query_failed code) = str_eq code "23505"
is_unique_violation (http status response) = false
is_unique_violation (other message) = false

-- The code of any error; only the database's have one.
abbrev pub error_code : Exception → Option String
error_code (query_failed code) = some code
error_code (http status response) = none
error_code (other message) = none

abbrev pub is_duplicate_email_error : Exception → Bool
is_duplicate_email_error err = elim (error_code err) [
  | none ↦ false
  | some code ↦ str_eq code "23505"
]

abbrev pub decoy_user : String → String → ℕ → User
decoy_user email id created_at = record {
  id = id;
  email = email;
  password_hash = some "";
  monthly_link_limit = none;
  monthly_key_limit = none;
  created_at = created_at;
}

module _ {P R E : Type 0} (users : UserTable P) (runtime : Runtime E) where
  build_decoy_user : String → Io (App P R E) User
  build_decoy_user email = do
    id ← on_env runtime.random_uuid
    created_at ← on_env runtime.now
    pure (decoy_user email id created_at)

  -- The handler of a save that has thrown.
  decoy_or_throw : String → Exception → Io (App P R E) User
  unfolding build_decoy_user
  decoy_or_throw email err =
      if is_duplicate_email_error err then build_decoy_user email else raise err

  unfoldable pub create : String → Option String → Io (App P R E) User
  unfolding decoy_or_throw
  create email password_hash = catch (on_pg (users.save email password_hash)) (decoy_or_throw email)

module _ {P : Type 0} (users : UserTable P) where
  link_provider : String → User → Io P User
  link_provider provider_user_id user = users.save_provider provider_user_id user.id >> pure user

  -- The second and the third branch, by the user who has the email.
  link_or_create : String → String → Option User → Io P User
  unfolding link_provider
  link_or_create provider_user_id email none = do
    users.insert email none
    inserted ← users.find_by_email_or_fail email
    link_provider provider_user_id inserted
  link_or_create provider_user_id email (some user) = link_provider provider_user_id user

  unfoldable pub resolve_provider_identity : String → String → Io P User
  unfolding link_or_create
  resolve_provider_identity provider_user_id email = do
    existing ← users.find_provider provider_user_id
    elim existing [
      | some account ↦ users.find_by_id_or_fail account.user_id
      | none ↦ users.find_by_email email >>= link_or_create provider_user_id email
    ]

  unfoldable pub find_or_create_from_provider : String → String → Io P User
  find_or_create_from_provider provider_user_id email =
      let resolve = users.transaction (resolve_provider_identity provider_user_id email) in
      catch resolve (λ err. if is_unique_violation err then resolve else raise err)

  -- What follows the lookup of the Guest's row; the process keeps the id beside the database.
  cache_guest : Result (Option User) → P → Result String × (Option String × P)
  cache_guest (throw err) p = (throw err, (none, p))
  cache_guest (ok none) p = (
    throw (not_found "Guest identity row is missing — run the SeedGuestUser migration"),
    (none, p),
  )
  cache_guest (ok (some guest)) p = (ok guest.id, (some guest.id, p))

  guest_or_lookup : Option String → P → Result String × (Option String × P)
  unfolding cache_guest
  guest_or_lookup (some id) p = (ok id, (some id, p))
  guest_or_lookup none p =
      cache_guest (users.find_by_email guest_sentinel_email p).0
        (users.find_by_email guest_sentinel_email p).1

  unfoldable pub get_guest_user_id : Io (Option String × P) String
  unfolding guest_or_lookup
  get_guest_user_id s = guest_or_lookup s.0 s.1
