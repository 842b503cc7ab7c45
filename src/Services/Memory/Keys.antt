-- ===== src/Services/Memory/Keys.antt =====
-- The table `api_keys` held in memory; a key's id is its prefix.
use mathlib.Core.Path.{subst}
use mikrouli.Common.{
  ℕ, suc, String, Option, none, some, [], str_eq, eq_iff, ◌≡◌, refl, sym, inl, inr, ap, ◌∙◌, arith,
  Bool-cases, Option-cases, if◌then◌else◌,
}
use mikrouli.Http.{Result, ok}
use mikrouli.Services.{ApiKey, KeyTable}
use mikrouli.Services.Laws.{KeyLaws}
use mikrouli.Services.Memory.{Database, set_at, set_at-same}
use mikrouli.Services.Memory.Accounts.{ok-injective}

abbrev pub key_of : String → String → String → String → ApiKey
key_of user label hash prefix = record {
  id = prefix;
  user_id = user;
  label = label;
  key_hash = hash;
  key_prefix = prefix;
  created_at = 1700000000000;
  last_used_at = none;
  revoked_at = none;
}

abbrev pub put_key : String → ApiKey → Database → Database
put_key id key p = record p { keys = set_at id (some key) p.keys }

abbrev pub with_id : String → Option ApiKey → Option ApiKey
with_id id none = none
with_id id (some k) = if str_eq k.id id then some k else none

abbrev pub key_row : Database → String → Option ApiKey
key_row p id = with_id id (p.keys id)

abbrev pub unrevoked : Option ℕ → ApiKey → Option ApiKey
unrevoked none k = some k
unrevoked (some at) k = none

abbrev pub active : String → Option ApiKey → Option ApiKey
active prefix none = none
active prefix (some k) = if str_eq k.key_prefix prefix then unrevoked k.revoked_at k else none

abbrev pub revoke_unrevoked : Option ℕ → ApiKey → String → ℕ → Database → Result ℕ × Database
revoke_unrevoked none k id at p = (ok 1, put_key id (record k { revoked_at = some at }) p)
revoke_unrevoked (some old) k id at p = (ok 0, p)

abbrev pub revoke_where : Option ApiKey → String → String → ℕ → Database → Result ℕ × Database
revoke_where none id user at p = (ok 0, p)
revoke_where (some k) id user at p =
    if str_eq k.user_id user then revoke_unrevoked k.revoked_at k id at p else (ok 0, p)

abbrev pub keys : KeyTable Database
keys = record {
  save = λ user label hash prefix p.
      (ok (key_of user label hash prefix), put_key prefix (key_of user label hash prefix) p);
  find_by_user = λ user p. (ok [], p);
  revoke = λ id user at p. revoke_where (key_row p id) id user at p;
  find_active = λ prefix p. (ok (active prefix (key_row p prefix)), p);
  touch = λ id at p. (ok tt, p);
  count = λ user a b p. (ok 0, p);
}

pub key_row-put :
    (id : String) (k : ApiKey) (p : Database) → k.id ≡ id → key_row (put_key id k p) id ≡ some k
key_row-put id k p e =
    ap (with_id id) (set_at-same id (some k) p.keys)
    ∙ ap (λ b. if b then some k else none) ((eq_iff k.id id).1 e)

pub with_id-id : (id : String) (o : Option ApiKey) (k : ApiKey) → with_id id o ≡ some k → k.id ≡ id
with_id-id id none k h = absurd (ground arith)
with_id-id id (some l) k h = ground (arith, eq_iff l.id id)

pub unrevoked-some : (o : Option ℕ) (k l : ApiKey) → unrevoked o k ≡ some l → (o ≡ none) × (k ≡ l)
unrevoked-some none k l h = (refl, ground arith)
unrevoked-some (some at) k l h = absurd (ground arith)

pub active-some :
    (prefix : String) (o : Option ApiKey) (k : ApiKey)
    → active prefix o ≡ some k
    → (o ≡ some k) × (k.key_prefix ≡ prefix) × (k.revoked_at ≡ none)
active-some prefix none k h = absurd (ground arith)
active-some prefix (some l) k h = elim (Bool-cases (str_eq l.key_prefix prefix)) [
  | inl e ↦
      let (revoked, same) =
        unrevoked-some l.revoked_at l k
          (sym (ap (λ b. if b then unrevoked l.revoked_at l else none) e) ∙ h) in
      (
        ap some same,
        ap (λ (x : ApiKey). x.key_prefix) (sym same) ∙ (eq_iff l.key_prefix prefix).0 e,
        ap (λ (x : ApiKey). x.revoked_at) (sym same) ∙ revoked,
      )
  | inr e ↦ absurd (ground arith)
]

pub revoke_where-suc :
    (o : Option ApiKey) (id user : String) (at n : ℕ) (p : Database)
    → (revoke_where o id user at p).0 ≡ ok (suc n)
    → (k : ApiKey) × (o ≡ some k)
      × (k.user_id ≡ user)
      × (k.revoked_at ≡ none)
      × ((revoke_where o id user at p).1 ≡ put_key id (record k { revoked_at = some at }) p)
revoke_where-suc none id user at n p h = absurd (ground arith)
revoke_where-suc (some k) id user at n p h = elim (Bool-cases (str_eq k.user_id user)) [
  | inl e ↦ elim (Option-cases k.revoked_at) [
    | inl r ↦ (k, refl, (eq_iff k.user_id user).0 e, r, rw (e, r) refl)
    | inr (old, r) ↦ absurd (ground arith)
  ]
  | inr e ↦ absurd (ground arith)
]

pub revoke_where-zero :
    (o : Option ApiKey) (id user : String) (at : ℕ) (p : Database)
    → (revoke_where o id user at p).0 ≡ ok 0
    → (revoke_where o id user at p).1 ≡ p
revoke_where-zero none id user at p h = refl
revoke_where-zero (some k) id user at p h = elim (Bool-cases (str_eq k.user_id user)) [
  | inl e ↦ elim (Option-cases k.revoked_at) [
    | inl r ↦ absurd (ground arith)
    | inr (old, r) ↦ rw (e, r) refl
  ]
  | inr e ↦ rw e refl
]

pub revoke-row :
    (id user : String) (at n : ℕ) (p : Database)
    → (keys.revoke id user at p).0 ≡ ok (suc n)
    → (k : ApiKey) × (key_row p id ≡ some k)
      × (k.user_id ≡ user)
      × (k.revoked_at ≡ none)
      × (key_row (keys.revoke id user at p).1 id ≡ some (record k { revoked_at = some at }))
revoke-row id user at n p h =
    let (k, stored, owner, active_e, after) = revoke_where-suc (key_row p id) id user at n p h in
    (
      k,
      stored,
      owner,
      active_e,
      ap (λ q. key_row q id) after
          ∙ key_row-put id (record k { revoked_at = some at }) p
              (with_id-id id (p.keys id) k stored),
    )

pub save-row :
    (user label hash prefix : String) (p : Database) (k : ApiKey)
    → key_of user label hash prefix ≡ k
    → (k.user_id ≡ user)
      × (k.key_hash ≡ hash)
      × (k.key_prefix ≡ prefix)
      × (k.revoked_at ≡ none)
      × (key_row (keys.save user label hash prefix p).1 k.id ≡ some k)
save-row user label hash prefix p k e =
    subst
      (λ (x : ApiKey).
        (x.user_id ≡ user)
        × (x.key_hash ≡ hash)
        × (x.key_prefix ≡ prefix)
        × (x.revoked_at ≡ none)
        × (key_row (keys.save user label hash prefix p).1 x.id ≡ some x))
      e (refl, refl, refl, refl, key_row-put prefix (key_of user label hash prefix) p refl)

pub find_active-row :
    (prefix : String) (p : Database) (k : ApiKey)
    → active prefix (key_row p prefix) ≡ some k
    → (key_row p k.id ≡ some k) × (k.key_prefix ≡ prefix) × (k.revoked_at ≡ none)
find_active-row prefix p k h =
    let (stored, prefix_e, active_e) = active-some prefix (key_row p prefix) k h in
    (ap (key_row p) (with_id-id prefix (p.keys prefix) k stored) ∙ stored, prefix_e, active_e)

abbrev pub keys-laws : KeyLaws keys
keys-laws = record {
  row = key_row;
  save_row = λ user label hash prefix p {k} h. save-row user label hash prefix p k (ok-injective h);
  find_active_row = λ prefix p {k} h. find_active-row prefix p k (ok-injective h);
  revoke_row = revoke-row;
  revoke_nothing =
      λ id user j at p h. ap (λ q. key_row q j) (revoke_where-zero (key_row p id) id user at p h);
}
