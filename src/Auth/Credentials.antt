-- ===== src/Auth/Credentials.antt =====
-- The check of a password in apps/api/src/auth/auth.service.ts.
use mathlib.Core.Path.{subst}
use mikrouli.Common.{
  String, true, Option, none, some, ◌≡◌, ◌↔◌, refl, ap, or_else, sym, ◌∙◌, ◌⊎◌, inl, inr, arith,
  eq_iff, Option-cases, Bool-cases, if◌then◌else◌,
}
use mikrouli.Http.{Result, ok, throw}
use mikrouli.Io.{App}
use mikrouli.Services.{User, UserTable, RedisClient, Runtime}
use mikrouli.Auth.{decoy_password_hash, truthy, validate_credentials}

some-injective : {A : Type 0} {a b : A} → some a ≡ some b → a ≡ b
some-injective {a = a} p = ap (λ o. or_else o a) p

ok_value : {A : Type 0} → A → Result A → A
ok_value a (ok b) = b
ok_value a (throw e) = a

ok-injective : {A : Type 0} {a b : A} → ok a ≡ ok b → a ≡ b
unfolding ok_value
ok-injective {a = a} p = ap (ok_value a) p

module _ {P R E : Type 0} (config : String → Option String) (users : UserTable P)
    (client : RedisClient R) (runtime : Runtime E) where
  -- Whoever is found, the runtime makes exactly one comparison, and it is the last thing that
  -- happens: with the hash of the user who is found, or with the decoy.
  pub validate_credentials_compares :
      (email password : String) (w : App P R E) (found : Option User)
      → (users.find_by_email email w.pg).0 ≡ ok found
      → (hash : String) × ((validate_credentials config users client runtime email password w).1.env
          ≡ (runtime.bcrypt_compare password hash w.env).1)
        × (((user : User) × (found ≡ some user) × (user.password_hash ≡ some hash))
            ⊎ (hash ≡ decoy_password_hash))
  unfolding validate_credentials
  validate_credentials_compares email password w none e =
      (decoy_password_hash, ground arith, inr refl)
  validate_credentials_compares email password w (some user) e =
      elim (Option-cases user.password_hash) [
        | inl none_e ↦ (decoy_password_hash, ground arith, inr refl)
        | inr (hash, some_e) ↦ (hash, ground arith, inl (user, refl, some_e))
      ]

  Returns : String → String → App P R E → Option User → Type 0
  Returns email password w result =
      (validate_credentials config users client runtime email password w).0 ≡ ok result

  -- What is returned when a user is found, by the hash that the user has.
  returned_with_hash :
      (email password hash : String) (w : App P R E) (user : User)
      → (users.find_by_email email w.pg).0 ≡ ok (some user)
      → truthy user.password_hash ≡ some hash
      → Returns email password w
          (if (runtime.bcrypt_compare password hash w.env).0 then some user else none)
  unfolding validate_credentials Returns
  returned_with_hash email password hash w user e h = elim (Option-cases user.password_hash) [
    | inl none_e ↦ absurd (ground arith)
    | inr (stored, some_e) ↦ ground (arith, eq_iff stored "")
  ]

  returned_without_hash :
      (email password : String) (w : App P R E) (user : User)
      → (users.find_by_email email w.pg).0 ≡ ok (some user)
      → truthy user.password_hash ≡ none
      → Returns email password w none
  unfolding validate_credentials Returns
  returned_without_hash email password w user e h = ground arith

  returned_on_match :
      (email password hash : String) (w : App P R E) (user : User)
      → (users.find_by_email email w.pg).0 ≡ ok (some user)
      → truthy user.password_hash ≡ some hash
      → (runtime.bcrypt_compare password hash w.env).0 ≡ true
      → Returns email password w (some user)
  unfolding Returns
  returned_on_match email password hash w user e h m =
      ground (arith, returned_with_hash email password hash w user e h)

  returned_nobody :
      (email password : String) (w : App P R E) (user : User)
      → (users.find_by_email email w.pg).0 ≡ ok none
      → ¬ Returns email password w (some user)
  unfolding validate_credentials Returns
  returned_nobody email password w user e h = ground arith

  -- A user is returned exactly when the email is theirs, they have a password that is not empty,
  -- and it matches.
  pub validate_credentials_iff :
      (email password : String) (w : App P R E) (found : Option User) (user : User)
      → (users.find_by_email email w.pg).0 ≡ ok found
      → ((validate_credentials config users client runtime email password w).0 ≡ ok (some user)) ↔ (
          (hash : String) × (found ≡ some user)
          × (truthy user.password_hash ≡ some hash)
          × ((runtime.bcrypt_compare password hash w.env).0 ≡ true))
  unfolding Returns
  validate_credentials_iff email password w none user e = (
    λ h. absurd (returned_nobody email password w user e h),
    λ (hash, some_e, _, _). absurd (ground arith),
  )
  validate_credentials_iff email password w (some user') user e = (
    elim (Option-cases (truthy user'.password_hash)) [
      | inl h ↦ λ r. absurd (ground (arith, returned_without_hash email password w user' e h))
      | inr (hash, h) ↦ λ r. elim (Bool-cases (runtime.bcrypt_compare password hash w.env).0) [
        | inl m ↦
            let same : user' ≡ user =
              some-injective
                (ok-injective (sym (returned_on_match email password hash w user' e h m) ∙ r)) in
            (hash, ap some same, subst (λ u. truthy u.password_hash ≡ some hash) same h, m)
        | inr m ↦ absurd (ground (arith, returned_with_hash email password hash w user' e h))
      ]
    ],
    λ (hash, some_e, h, m).
        let same : user' ≡ user = some-injective some_e in
        subst (λ u. Returns email password w (some u)) same
          (returned_on_match email password hash w user' e
            (subst (λ u. truthy u.password_hash ≡ some hash) (sym same) h) m),
  )
