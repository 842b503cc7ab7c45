-- ===== src/Services/Memory.antt =====
-- Services held in memory: a database whose tables are functions of their keys, a Redis server that
-- always answers, and a runtime that counts. They stand for the ones outside the repository in the
-- examples.
pub mod Links
pub mod Accounts
pub mod Keys
use Prim.Native.String
use mikrouli.Common.{
  ℕ, zero, suc, ◌+◌, String, Bool, true, false, Option, none, some, List, [], ◌∷◌, ltb, str_eq,
  eq_iff, eq_refl, take, or_else, ◌≡◌, ◌≢◌, refl, sym, ap, arith, Bool-cases, inl, inr,
  if◌then◌else◌,
}
use mikrouli.Http.{Exception, Result, ok, throw, other}
use mikrouli.Io.{Io}
use mikrouli.Services.{Link, User, ApiKey, RedisClient, Runtime, JwtPayload}
use mikrouli.Services.Laws.{RedisLaws, RedisUp, BcryptLaws}

module _ {A : Type 0} where
  -- The function with another value at one key.
  abbrev pub set_at : String → A → (String → A) → String → A
  set_at k v f t = if str_eq k t then v else f t

  pub set_at-same : (k : String) (v : A) (f : String → A) → set_at k v f k ≡ v
  set_at-same k v f = ap (λ b. if b then v else f k) (eq_refl k)

  pub set_at-other :
      (k : String) (v : A) (f : String → A) (t : String) → k ≢ t → set_at k v f t ≡ f t
  set_at-other k v f t ne = elim (Bool-cases (str_eq k t)) [
    | inl e ↦ absurd (ne ((eq_iff k t).0 e))
    | inr e ↦ ap (λ b. if b then v else f t) e
  ]

-- The database: links by slug and the slugs in use, the outbox, users by id and ids by email, the
-- provider's accounts, API keys by id, and the clock.
pub record Database : Type 0 where
  pub links : String → Option Link
  pub slugs : List String
  pub outbox : List (String × String)
  pub users : String → Option User
  pub emails : String → Option String
  pub accounts : String → Option String
  pub keys : String → Option ApiKey
  pub clock : ℕ

abbrev pub empty_database : Database
empty_database = record {
  links = λ _. none;
  slugs = [];
  outbox = [];
  users = λ _. none;
  emails = λ _. none;
  accounts = λ _. none;
  keys = λ _. none;
  clock = 1700000000000;
}

pub record Server : Type 0 where
  pub values : String → Option String
  pub ttls : String → Option ℕ

abbrev pub empty_server : Server
empty_server = record { values = λ _. none; ttls = λ _. none }

abbrev pub redis : RedisClient Server
redis = record {
  get = λ k s. (ok (s.values k), s);
  set =
      λ k v t s. (ok tt, record { values = set_at k (some v) s.values; ttls = set_at k t s.ttls });
  del = λ k s. (ok tt, record s { values = set_at k none s.values });
  getdel = λ k s. (ok (s.values k), record s { values = set_at k none s.values });
}

abbrev ok_option : {A : Type 0} → Result (Option A) → Option A
ok_option (ok o) = o
ok_option (throw e) = none

abbrev pub redis-laws : RedisLaws redis
redis-laws = record {
  value = λ s. s.values;
  ttl = λ s. s.ttls;
  get_value = λ k s {v} h. sym (ap ok_option h);
  get_keeps = λ k j s. refl;
  set_value = λ k v t s h. set_at-same k (some v) s.values;
  set_ttl = λ k v t s h. set_at-same k t s.ttls;
  set_either = λ k v t s. inr (set_at-same k (some v) s.values);
  set_keeps = λ k v t j s ne. set_at-other k (some v) s.values j ne;
  del_value = λ k s h. set_at-same k none s.values;
  del_either = λ k s. inr (set_at-same k none s.values);
  del_keeps = λ k j s ne. set_at-other k none s.values j ne;
  getdel_value = λ k s {v} h. sym (ap ok_option h);
  getdel_absent = λ k s {v} h. set_at-same k none s.values;
}

abbrev pub redis-up : RedisUp redis redis-laws
redis-up = record { get_up = λ k s. refl; set_up = λ k v t s. refl; del_up = λ k s. refl }

-- The refresh token that verifies.
abbrev pub payload : JwtPayload
payload = record {
  sub = "ada@example.org";
  email = "ada@example.org";
  type = some "refresh";
  jti = some "jti";
  family = some "family";
}

-- A runtime that counts the calls of its random source.
abbrev pub runtime : Runtime ℕ
runtime = record {
  now = λ n. (1700000000000, n);
  random_uuid = λ n. (if ltb n 1 then "uuid-0" else "uuid-1", suc n);
  random_bytes = λ m n. ([], suc n);
  random_base64url = λ m n. ("abcdefghijklmnop", suc n);
  random_hex = λ m n. ("0123456789abcdef", suc n);
  bcrypt_hash = λ p n. (String.◌++◌ "hash " p, suc n);
  bcrypt_compare = λ p h n. (str_eq (String.◌++◌ "hash " p) h, suc n);
  sign = λ p options n. ("signed", suc n);
  verify = λ token secret n. (if str_eq token "token" then some payload else none, n);
}

abbrev pub bcrypt : BcryptLaws runtime
bcrypt = record { compare_hash = λ password e e'. eq_refl (String.◌++◌ "hash " password) }
