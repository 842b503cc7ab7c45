-- ===== src/Services/Laws/People.antt =====
-- What the code relies on of PostgreSQL and bcryptjs for users, their accounts and their API keys.
use mikrouli.Common.{true, suc, ℕ, String, ◌≡◌, Option, none, some}
use mikrouli.Http.{Exception, ok, throw, query_failed}
use mikrouli.Io.{Io}
use mikrouli.Services.{ApiKey, KeyTable, Runtime, ProviderAccount, User, UserTable}

-- The error code of PostgreSQL for a violated unique constraint.
abbrev pub unique_violation : Exception
unique_violation = query_failed "23505"

-- The tables `users` and `provider_accounts`: a user by id, and the id of the user to whom an account
-- at the provider is linked.
pub record UserLaws {P : Type 0} (users : UserTable P) : Type 0 where
  pub user : P → String → Option User
  pub linked : P → String → Option String
  pub find_provider_found :
      (k : String) (p : P) {a : ProviderAccount}
      → (users.find_provider k p).0 ≡ ok (some a)
      → linked p k ≡ some a.user_id
  pub find_provider_missing :
      (k : String) (p : P) → (users.find_provider k p).0 ≡ ok none → linked p k ≡ none
  pub find_provider_keeps :
      (k j : String) (p : P) → linked (users.find_provider k p).1 j ≡ linked p j
  pub find_provider_user : (k i : String) (p : P) → user (users.find_provider k p).1 i ≡ user p i
  pub find_by_email_row :
      (email : String) (p : P) {u : User}
      → (users.find_by_email email p).0 ≡ ok (some u)
      → (u.email ≡ email) × (user p u.id ≡ some u)
  pub find_by_email_user :
      (email i : String) (p : P) → user (users.find_by_email email p).1 i ≡ user p i
  pub find_by_email_linked :
      (email k : String) (p : P) → linked (users.find_by_email email p).1 k ≡ linked p k
  pub find_or_fail_row :
      (i : String) (p : P) {u : User}
      → (users.find_by_id_or_fail i p).0 ≡ ok u
      → (u.id ≡ i) × (user p i ≡ some u)
  pub find_or_fail_user :
      (i j : String) (p : P) → user (users.find_by_id_or_fail i p).1 j ≡ user p j
  pub find_or_fail_linked :
      (i k : String) (p : P) → linked (users.find_by_id_or_fail i p).1 k ≡ linked p k
  pub email_or_fail_row :
      (email : String) (p : P) {u : User}
      → (users.find_by_email_or_fail email p).0 ≡ ok u
      → (u.email ≡ email) × (user p u.id ≡ some u)
  pub email_or_fail_user :
      (email i : String) (p : P) → user (users.find_by_email_or_fail email p).1 i ≡ user p i
  pub insert_linked :
      (email : String) (h : Option String) (k : String) (p : P)
      → linked (users.insert email h p).1 k ≡ linked p k
  pub save_provider_linked :
      (k i : String) (p : P)
      → (users.save_provider k i p).0 ≡ ok tt
      → linked (users.save_provider k i p).1 k ≡ some i
  pub save_provider_user :
      (k i j : String) (p : P) → user (users.save_provider k i p).1 j ≡ user p j
  -- A transaction that returns has committed what its body did; one that throws has changed nothing.
  pub commit :
      (m : Io P User) (p : P) {u : User} → (users.transaction m p).0 ≡ ok u → (m p).0 ≡ ok u
  pub commit_linked :
      (m : Io P User) (k : String) (p : P) {u : User}
      → (users.transaction m p).0 ≡ ok u
      → linked (users.transaction m p).1 k ≡ linked (m p).1 k
  pub commit_user :
      (m : Io P User) (i : String) (p : P) {u : User}
      → (users.transaction m p).0 ≡ ok u
      → user (users.transaction m p).1 i ≡ user (m p).1 i
  pub rollback_linked :
      (m : Io P User) (k : String) (p : P) {e : Exception}
      → (users.transaction m p).0 ≡ throw e
      → linked (users.transaction m p).1 k ≡ linked p k
  -- A save that violates a unique constraint has changed no row.
  pub save_violated :
      (email : String) (h : Option String) (i : String) (p : P)
      → (users.save email h p).0 ≡ throw (query_failed "23505")
      → user (users.save email h p).1 i ≡ user p i

-- The table `api_keys`, by id.
pub record KeyLaws {P : Type 0} (keys : KeyTable P) : Type 0 where
  pub row : P → String → Option ApiKey
  pub save_row :
      (user label hash prefix : String) (p : P) {k : ApiKey}
      → (keys.save user label hash prefix p).0 ≡ ok k
      → (k.user_id ≡ user)
        × (k.key_hash ≡ hash)
        × (k.key_prefix ≡ prefix)
        × (k.revoked_at ≡ none)
        × (row (keys.save user label hash prefix p).1 k.id ≡ some k)
  pub find_active_row :
      (prefix : String) (p : P) {k : ApiKey}
      → (keys.find_active prefix p).0 ≡ ok (some k)
      → (row p k.id ≡ some k) × (k.key_prefix ≡ prefix) × (k.revoked_at ≡ none)
  -- The update changes a row only where it is its owner's and is not revoked; it counts what it
  -- changed.
  pub revoke_row :
      (id user : String) (at n : ℕ) (p : P)
      → (keys.revoke id user at p).0 ≡ ok (suc n)
      → (k : ApiKey) × (row p id ≡ some k)
        × (k.user_id ≡ user)
        × (k.revoked_at ≡ none)
        × (row (keys.revoke id user at p).1 id ≡ some (record k { revoked_at = some at }))
  pub revoke_nothing :
      (id user j : String) (at : ℕ) (p : P)
      → (keys.revoke id user at p).0 ≡ ok 0
      → row (keys.revoke id user at p).1 j ≡ row p j

-- bcryptjs: a password matches its own hash.
pub record BcryptLaws {E : Type 0} (runtime : Runtime E) : Type 0 where
  pub compare_hash :
      (password : String) (e e' : E)
      → (runtime.bcrypt_compare password (runtime.bcrypt_hash password e).0 e').0 ≡ true
