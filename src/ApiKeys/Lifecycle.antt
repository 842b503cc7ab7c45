-- ===== src/ApiKeys/Lifecycle.antt =====
-- The life of an API key in apps/api/src/api-keys/api-keys.service.ts: a new key is accepted, a
-- revoked one is not, and only its owner revokes it.
use Prim.Native.String
use Prim.Native.Char.{Char}
use mikrouli.Common.{
  ℕ, zero, suc, String, true, none, some, ◌≡◌, ◌≢◌, sym, ap, ◌∙◌, inl, inr, arith, Bool-cases, leb,
  if◌then◌else◌,
}
use mikrouli.Http.{ok, throw, Result-cases, monthly_key_limit_exceeded}
use mikrouli.Io.{App}
use mikrouli.Services.{ApiKey, KeyTable, UserTable, Runtime}
use mikrouli.Services.Laws.{KeyLaws, BcryptLaws}
use mikrouli.Usage.{Limits, count_keys_this_month, get_key_limit}
use mikrouli.ApiKeys.{
  CreatedApiKey, parse_prefix, slice_to, slice_from, generate_secret, save_new_key, create_for_user,
  revoke, validate,
}

slice_from-append :
    (n : ℕ) (c : Char) (s t : String)
    → slice_from (suc n) (String.◌++◌ (String.◌∷◌ c s) t) ≡ slice_from n (String.◌++◌ s t)
unfolding slice_from
slice_from-append n c s t = ap (slice_from (suc n)) (λ i. String.append.cons c s t i)

slice_from-namespace : (random : String) → slice_from 3 (String.◌++◌ "mk_" random) ≡ random
unfolding slice_from
slice_from-namespace random =
    slice_from-append 2 "m" "k_" random
    ∙ slice_from-append 1 "k" "_" random
    ∙ slice_from-append 0 "_" "" random
    ∙ (λ i. String.append.nil random i)

module _ {P R E : Type 0} (keys : KeyTable P) (users : UserTable P) (runtime : Runtime E)
    (db : KeyLaws keys) where
  -- A user who has reached the monthly limit gets a 429 and nothing is done after the count and the
  -- limit have been read; below the limit a key is made.
  pub create_for_user_quota :
      (limits : Limits) (user label : String) (w w' w'' : App P R E) (count limit : ℕ)
      → count_keys_this_month runtime keys user w ≡ (ok count, w')
      → get_key_limit users limits user w' ≡ (ok limit, w'')
      → create_for_user keys users runtime limits user label w ≡ (
          if leb limit count
          then (throw monthly_key_limit_exceeded, w'')
          else save_new_key keys users runtime user label w'')
  unfolding create_for_user
  create_for_user_quota limits user label w w' w'' count limit counted limited = ground arith

  -- Whoever a key speaks for owns an active row with the key's prefix, and its hash matches.
  pub validate-active :
      (plaintext user : String) (w : App P R E)
      → (validate keys users runtime plaintext w).0 ≡ ok (some user)
      → (key : ApiKey) × (db.row w.pg key.id ≡ some key)
        × (key.user_id ≡ user)
        × (key.revoked_at ≡ none)
        × (key.key_prefix ≡ parse_prefix plaintext)
        × ((runtime.bcrypt_compare plaintext key.key_hash w.env).0 ≡ true)
  unfolding validate
  validate-active plaintext user w h =
      elim (Result-cases (keys.find_active (parse_prefix plaintext) w.pg).0) [
        | inl (none, e) ↦ absurd (ground arith)
        | inl (some key, e) ↦
            elim (Bool-cases (runtime.bcrypt_compare plaintext key.key_hash w.env).0) [
              | inl m ↦
                  let found = db.find_active_row (parse_prefix plaintext) w.pg e in
                  (key, found.0, ground arith, found.2, found.1, m)
              | inr m ↦ absurd (ground arith)
            ]
        | inr (x, e) ↦ absurd (ground arith)
      ]

  -- A revocation that succeeds was asked for by the owner of an active key, which is revoked now.
  pub revoke-ok :
      (user id : String) (w : App P R E)
      → (revoke keys users runtime user id w).0 ≡ ok tt
      → (k : ApiKey) × (db.row w.pg id ≡ some k)
        × (k.user_id ≡ user)
        × (k.revoked_at ≡ none)
        × (db.row (revoke keys users runtime user id w).1.pg id
            ≡ some (record k { revoked_at = some (runtime.now w.env).0 }))
  unfolding revoke
  revoke-ok user id w h =
      let at = (runtime.now w.env).0 in
      elim (Result-cases (keys.revoke id user at w.pg).0) [
        | inl (zero, e) ↦ absurd (ground arith)
        | inl (suc n, e) ↦
            let (k, stored, owner, active, after) = db.revoke_row id user at n w.pg e in
            (k, stored, owner, active, ground arith)
        | inr (x, e) ↦ absurd (ground arith)
      ]

  -- After a key has been revoked, no presented key is accepted on the strength of its row: whoever
  -- is accepted in the state after the revocation owns another row, which is not revoked, has the
  -- prefix of the presented key and a hash that the presented key matches.
  pub validate-revoke :
      (user owner id plaintext : String) (w : App P R E)
      → (revoke keys users runtime owner id w).0 ≡ ok tt
      → (validate keys users runtime plaintext (revoke keys users runtime owner id w).1).0
        ≡ ok (some user)
      → (key : ApiKey) × (db.row (revoke keys users runtime owner id w).1.pg key.id ≡ some key)
        × (key.id ≢ id)
        × (key.user_id ≡ user)
        × (key.revoked_at ≡ none)
        × (key.key_prefix ≡ parse_prefix plaintext)
        × ((runtime.bcrypt_compare plaintext key.key_hash
              (revoke keys users runtime owner id w).1.env).0
            ≡ true)
  validate-revoke user owner id plaintext w revoked accepted =
      let w' = (revoke keys users runtime owner id w).1 in
      let (key, stored, user_e, active, prefix, matches) =
        validate-active plaintext user w' accepted in
      let (k, _, _, _, after) = revoke-ok owner id w revoked in
      (
        key,
        stored,
        λ same. absurd (ground (arith, sym stored ∙ ap (db.row w'.pg) same ∙ after)),
        user_e,
        active,
        prefix,
        matches,
      )

  -- What a new key's answer and its row have in common.
  save_new_key-row :
      (user label : String) (w : App P R E) (created : CreatedApiKey) (row : ApiKey)
      → (save_new_key keys users runtime user label w).0 ≡ ok created
      → db.row (save_new_key keys users runtime user label w).1.pg created.id ≡ some row
      → (parse_prefix created.key ≡ created.key_prefix)
        × (row.user_id ≡ user)
        × ((e : E) × (row.key_hash ≡ (runtime.bcrypt_hash created.key e).0))
  unfolding save_new_key generate_secret parse_prefix
  save_new_key-row user label w created row made stored =
      let (random, e) = runtime.random_base64url 32 w.env in
      let plaintext = String.◌++◌ "mk_" random in
      let prefix = slice_to 8 random in
      let hash = (runtime.bcrypt_hash plaintext e).0 in
      elim (Result-cases (keys.save user label hash prefix w.pg).0) [
        | inl (k, h) ↦
            let (user_e, hash_e, prefix_e, _, row_e) = db.save_row user label hash prefix w.pg h in
            let same : row ≡ k = ground arith in
            (
              ground (arith, slice_from-namespace random),
              ap (λ (r : ApiKey). r.user_id) same ∙ user_e,
              (e, ap (λ (r : ApiKey). r.key_hash) same ∙ ground arith),
            )
        | inr (x, h) ↦ absurd (ground arith)
      ]

  -- A key that has just been made is accepted whenever its prefix still leads to its row: the
  -- presented plaintext has the stored prefix and matches the stored hash.
  pub validate-save_new_key :
      (bcrypt : BcryptLaws runtime) (user label : String) (w w' : App P R E)
      (created : CreatedApiKey) (row : ApiKey)
      → (save_new_key keys users runtime user label w).0 ≡ ok created
      → db.row (save_new_key keys users runtime user label w).1.pg created.id ≡ some row
      → (keys.find_active created.key_prefix w'.pg).0 ≡ ok (some row)
      → (validate keys users runtime created.key w').0 ≡ ok (some user)
  unfolding validate
  validate-save_new_key bcrypt user label w w' created row made stored active =
      let (prefix_e, user_e, (e, hash_e)) = save_new_key-row user label w created row made stored in
      let w'' = (keys.find_active created.key_prefix w'.pg).1 in
      let matches = bcrypt.compare_hash created.key e w'.env in ground arith
