-- ===== src/Services/Memory/Accounts.antt =====
-- The tables `users`, `provider_accounts` and `api_keys` held in memory.
use mikrouli.Common.{
  String, Option, none, some, str_eq, eq_iff, ◌≡◌, refl, ap, ◌∙◌, arith, if◌then◌else◌,
}
use mikrouli.Http.{Exception, Result, ok, throw, other, query_failed}
use mikrouli.Io.{Io}
use mikrouli.Services.{User, UserTable, ProviderAccount}
use mikrouli.Services.Laws.{UserLaws, unique_violation}
use mikrouli.Services.Memory.{Database, set_at, set_at-same}

abbrev pub user_of : String → Option String → User
user_of email hash = record {
  id = email;
  email = email;
  password_hash = hash;
  monthly_link_limit = none;
  monthly_key_limit = none;
  created_at = 1700000000000;
}

-- A user's id is the email.
abbrev pub add_user : String → Option String → Database → Database
add_user email hash p = record p { users = set_at email (some (user_of email hash)) p.users }

abbrev pub with_email : String → Option User → Option User
with_email email none = none
with_email email (some u) =
    if str_eq u.email email then (if str_eq u.id email then some u else none) else none

abbrev pub with_id : String → Option User → Option User
with_id id none = none
with_id id (some u) = if str_eq u.id id then some u else none

abbrev pub user : Database → String → Option User
user p id = with_id id (p.users id)

abbrev pub found_user : Option User → Result User
found_user none = throw (other "EntityNotFoundError")
found_user (some u) = ok u

abbrev pub insert_user : Option User → String → Option String → Io Database (Unit {0})
insert_user none email hash p = (ok tt, add_user email hash p)
insert_user (some u) email hash p = (throw unique_violation, p)

abbrev pub save_user : Option User → String → Option String → Io Database User
save_user none email hash p = (ok (user_of email hash), add_user email hash p)
save_user (some u) email hash p = (throw unique_violation, p)

abbrev pub account : String → Option String → Option ProviderAccount
account k none = none
account k (some id) = some (record { provider_user_id = k; user_id = id })

abbrev pub settle : Result User → Database → Database → Result User × Database
settle (ok l) p' p = (ok l, p')
settle (throw e) p' p = (throw e, p)

abbrev pub users : UserTable Database
users = record {
  find_by_email = λ email p. (ok (with_email email (user p email)), p);
  find_by_id = λ id p. (ok (user p id), p);
  find_by_id_or_fail = λ id p. (found_user (user p id), p);
  find_by_email_or_fail = λ email p. (found_user (with_email email (user p email)), p);
  insert = λ email hash p. insert_user (user p email) email hash p;
  save = λ email hash p. save_user (user p email) email hash p;
  find_provider = λ k p. (ok (account k (p.accounts k)), p);
  save_provider = λ k id p. (ok tt, record p { accounts = set_at k (some id) p.accounts });
  transaction = λ m p. settle (m p).0 (m p).1 p;
}

with_email-user :
    (email : String) (o : Option User) (u : User)
    → with_email email o ≡ some u
    → (u.email ≡ email) × (u.id ≡ email) × (o ≡ some u)
with_email-user email none u h = absurd (ground arith)
with_email-user email (some v) u h = ground (arith, eq_iff v.email email, eq_iff v.id email)

with_id-user :
    (id : String) (o : Option User) (u : User) → with_id id o ≡ some u → (u.id ≡ id) × (o ≡ some u)
with_id-user id none u h = absurd (ground arith)
with_id-user id (some v) u h = ground (arith, eq_iff v.id id)

pub save_user-violated :
    (o : Option User) (email : String) (hash : Option String) (p : Database)
    → (save_user o email hash p).0 ≡ throw (query_failed "23505")
    → (save_user o email hash p).1 ≡ p
save_user-violated none email hash p h = absurd (ground arith)
save_user-violated (some u) email hash p h = refl

pub insert_user-accounts :
    (o : Option User) (email : String) (hash : Option String) (p : Database)
    → (insert_user o email hash p).1.accounts ≡ p.accounts
insert_user-accounts none email hash p = refl
insert_user-accounts (some u) email hash p = refl

pub account-user :
    (k : String) (o : Option String) (a : ProviderAccount)
    → account k o ≡ some a
    → o ≡ some a.user_id
account-user k none a h = absurd (ground arith)
account-user k (some id) a h = ground arith

pub account-none : (k : String) (o : Option String) → account k o ≡ none → o ≡ none
account-none k none h = refl
account-none k (some id) h = absurd (ground arith)

abbrev pub result_value : {A : Type 0} → A → Result A → A
result_value a (ok b) = b
result_value a (throw e) = a

pub ok-injective : {A : Type 0} {a b : A} → ok a ≡ ok b → a ≡ b
ok-injective {a = a} p = ap (result_value a) p

pub found_user-ok : (o : Option User) {u : User} → found_user o ≡ ok u → o ≡ some u
found_user-ok none h = absurd (ground arith)
found_user-ok (some u) h = ap some (ok-injective h)

pub settle-ok :
    (r : Result User) (p' p : Database) (u : User)
    → (settle r p' p).0 ≡ ok u
    → (r ≡ ok u) × ((settle r p' p).1 ≡ p')
settle-ok (ok l') p' p u h = (h, refl)
settle-ok (throw e) p' p u h = absurd (ground arith)

pub settle-throw :
    (r : Result User) (p' p : Database) (e : Exception)
    → (settle r p' p).0 ≡ throw e
    → (settle r p' p).1 ≡ p
settle-throw (ok l') p' p e h = absurd (ground arith)
settle-throw (throw e') p' p e h = refl

-- What is found by an email is the stored user whose id it is.
pub by_email :
    (email : String) (p : Database) (u : User)
    → with_email email (user p email) ≡ some u
    → (u.email ≡ email) × (user p u.id ≡ some u)
by_email email p u h =
    let (email_e, id_e, stored) = with_email-user email (user p email) u h in
    (email_e, ap (user p) id_e ∙ stored)

pub by_id :
    (id : String) (p : Database) (u : User)
    → user p id ≡ some u
    → (u.id ≡ id) × (user p id ≡ some u)
by_id id p u h = ((with_id-user id (p.users id) u h).0, h)

abbrev pub users-laws : UserLaws users
users-laws = record {
  user = user;
  linked = λ p k. p.accounts k;
  find_provider_found = λ k p {a} h. account-user k (p.accounts k) a (ok-injective h);
  find_provider_missing = λ k p h. account-none k (p.accounts k) (ok-injective h);
  find_provider_keeps = λ k j p. refl;
  find_provider_user = λ k i p. refl;
  find_by_email_row = λ email p {u} h. by_email email p u (ok-injective h);
  find_by_email_user = λ email i p. refl;
  find_by_email_linked = λ email k p. refl;
  find_or_fail_row = λ i p {u} h. by_id i p u (found_user-ok (user p i) h);
  find_or_fail_user = λ i j p. refl;
  find_or_fail_linked = λ i k p. refl;
  email_or_fail_row =
      λ email p {u} h. by_email email p u (found_user-ok (with_email email (user p email)) h);
  email_or_fail_user = λ email i p. refl;
  insert_linked = λ email h k p.
      ap (λ (f : String → Option String). f k) (insert_user-accounts (user p email) email h p);
  save_provider_linked = λ k i p h. set_at-same k (some i) p.accounts;
  save_provider_user = λ k i j p. refl;
  commit = λ m p {u} h. (settle-ok (m p).0 (m p).1 p u h).0;
  commit_linked =
      λ m k p {u} h. ap (λ (q : Database). q.accounts k) (settle-ok (m p).0 (m p).1 p u h).1;
  commit_user = λ m i p {u} h. ap (λ q. user q i) (settle-ok (m p).0 (m p).1 p u h).1;
  rollback_linked =
      λ m k p {e} h. ap (λ (q : Database). q.accounts k) (settle-throw (m p).0 (m p).1 p e h);
  save_violated =
      λ email hash i p h. ap (λ q. user q i) (save_user-violated (user p email) email hash p h);
}
