-- ===== src/Oauth/Email.antt =====
-- Only a verified email signs in: apps/api/src/auth/github.strategy.ts.
use mikrouli.Common.{
  String, Bool, true, false, some, List, [], ◌∷◌, ◌≡◌, ◌⊎◌, if◌then◌else◌, refl, ap, ◌∙◌, arith,
  inl, inr, Option-cases, Bool-cases, str_eq,
}
use mikrouli.Http.{Result, ok, throw}
use mikrouli.Oauth.{
  GithubEmail, GithubIdentity, verified_of, primary_of, choose, select_verified_email, identity_of,
  validate,
}

-- Some member of the list has the property.
abbrev pub Any : {A : Type 0} → (A → Type 0) → List A → Type 0
Any Q [] = ⊥
Any Q (x ∷ xs) = Q x ⊎ Any Q xs

-- A verified email of the account.
abbrev pub VerifiedAs : String → GithubEmail → Type 0
VerifiedAs address e = (e.verified ≡ true) × (e.email ≡ address)

Any-if :
    (b : Bool) (Q : GithubEmail → Type 0) (e : GithubEmail) (es : List GithubEmail)
    → Any Q (if b then e ∷ es else es)
    → ((b ≡ true) × Q e) ⊎ Any Q es
Any-if true Q e es (inl q) = inl (refl, q)
Any-if true Q e es (inr h) = inr h
Any-if false Q e es h = inr h

Any-verified_of :
    (Q : GithubEmail → Type 0) (es : List GithubEmail)
    → Any Q (verified_of es)
    → Any (λ e. (e.verified ≡ true) × Q e) es
unfolding verified_of
Any-verified_of Q [] h = h
Any-verified_of Q (e ∷ es) h = elim (Any-if e.verified Q e (verified_of es) h) [
  | inl q ↦ inl q
  | inr k ↦ inr (Any-verified_of Q es k)
]

Any-map :
    (Q S : GithubEmail → Type 0) (es : List GithubEmail)
    → ((e : GithubEmail) → Q e → S e)
    → Any Q es
    → Any S es
Any-map Q S [] f h = h
Any-map Q S (e ∷ es) f (inl q) = inl (f e q)
Any-map Q S (e ∷ es) f (inr h) = inr (Any-map Q S es f h)

primary_of-Any :
    (es : List GithubEmail) (p : GithubEmail) → primary_of es ≡ some p → Any (λ e. e ≡ p) es
unfolding primary_of
primary_of-Any [] p h = absurd (ground arith)
primary_of-Any (e ∷ es) p h = elim (Bool-cases e.primary) [
  | inl v ↦ inl (ground arith)
  | inr v ↦ inr (primary_of-Any es p (ground arith))
]

choose-Any :
    (es : List GithubEmail) (address : String)
    → choose es ≡ some address
    → Any (λ e. e.email ≡ address) es
unfolding choose
choose-Any [] address h = absurd (ground arith)
choose-Any (e ∷ es) address h = elim (Option-cases (primary_of (e ∷ es))) [
  | inl n ↦ inl (ground arith)
  | inr (p, found) ↦
      Any-map (λ x. x ≡ p) (λ x. x.email ≡ address) (e ∷ es)
        (λ x same. ap (λ (y : GithubEmail). y.email) same ∙ ground arith)
        (primary_of-Any (e ∷ es) p found)
]

-- Whoever is signed in through GitHub has the email of a verified entry of the list that GitHub has
-- sent, and the identity is that of the profile.
pub validate-verified :
    (fetched : Result (List GithubEmail)) (profile_id : String) (identity : GithubIdentity)
    → validate fetched profile_id ≡ ok identity
    → (emails : List GithubEmail) × (fetched ≡ ok emails)
      × Any (VerifiedAs identity.email) emails
      × (identity.provider_user_id ≡ profile_id)
unfolding validate identity_of select_verified_email
validate-verified (throw err) profile_id identity h = absurd (ground arith)
validate-verified (ok emails) profile_id identity h =
    elim (Option-cases (choose (verified_of emails))) [
      | inl n ↦ absurd (ground arith)
      | inr (address, found) ↦ elim (Bool-cases (str_eq address "")) [
        | inl empty ↦ absurd (ground arith)
        | inr full ↦
            let email_e : address ≡ identity.email = ground arith in
            (
              emails,
              refl,
              Any-verified_of (λ e. e.email ≡ identity.email) emails
                  (choose-Any (verified_of emails) identity.email (found ∙ ap some email_e)),
              ground arith,
            )
      ]
    ]
