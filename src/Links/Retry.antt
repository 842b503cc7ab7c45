-- ===== src/Links/Retry.antt =====
-- The retries of apps/api/src/links/links.service.ts on a taken slug.
use mikrouli.Common.{
  ℕ, zero, suc, ◌<◌, ◌≡◌, refl, ap, ◌∙◌, ◌⊎◌, inl, inr, true, false, arith, Bool-cases, eq_iff,
}
use mikrouli.Http.{Exception, http, query_failed, other, Result, throw, conflict, Result-cases}
use mikrouli.Io.{Io}
use mikrouli.Services.{Link}
use mikrouli.Services.Laws.{unique_violation}
use mikrouli.Links.{max_slug_retries, is_unique_violation, retry_rounds, retry_on_slug_conflict}

is_unique_violation_sound : (e : Exception) → is_unique_violation e ≡ true → e ≡ unique_violation
unfolding is_unique_violation
is_unique_violation_sound (query_failed code) h = ap query_failed ((eq_iff code "23505").0 h)
is_unique_violation_sound (http status response) h = cc
is_unique_violation_sound (other message) h = cc

module _ {S : Type 0} (attempt : Io S Link) where
  -- So many attempts in a row, each refused because its slug was taken.
  pub data Refused : ℕ → S → S → Type 0 where
    start : {s : S} → Refused zero s s
    again :
        {n : ℕ} {s t : S}
        → (attempt s).0 ≡ throw unique_violation
        → Refused n (attempt s).1 t
        → Refused (suc n) s t

  -- How a loop over some rounds ends: with the first attempt that is not refused for its slug,
  -- whether that returns or throws, or, where all are, with 409.
  abbrev pub Ends : ℕ → S → Result Link × S → Type 0
  Ends rounds s r =
      ((n : ℕ) × (t : S) × (n < rounds)
        × Refused n s t
        × (r ≡ attempt t)
        × ((attempt t).0 ≡ throw unique_violation → ⊥))
      ⊎ ((t : S) × Refused rounds s t
          × (r ≡ (throw (conflict "failed to generate unique slug after retries"), t)))

  Ends-again :
      {n : ℕ} {s : S} {r : Result Link × S}
      → (attempt s).0 ≡ throw unique_violation
      → Ends n (attempt s).1 r
      → Ends (suc n) s r
  Ends-again e (inl (n, t, lt, run, same, not_taken)) =
      inl (suc n, t, omega arith, again e run, same, not_taken)
  Ends-again e (inr (t, run, same)) = inr (t, again e run, same)

  retry_rounds-stop :
      (rounds : ℕ) (s : S)
      → ((x : Exception) → (attempt s).0 ≡ throw x → is_unique_violation x ≡ false)
      → retry_rounds (suc rounds) attempt s ≡ attempt s
  unfolding retry_rounds
  retry_rounds-stop rounds s h = elim (Result-cases (attempt s).0) [
    | inl (l, e) ↦ ground arith
    | inr (x, e) ↦ let f = h x e in ground arith
  ]

  retry_rounds-again :
      (rounds : ℕ) (s : S)
      → (attempt s).0 ≡ throw unique_violation
      → retry_rounds (suc rounds) attempt s ≡ retry_rounds rounds attempt (attempt s).1
  unfolding retry_rounds
  retry_rounds-again rounds s e = ground arith

  retry_rounds-Ends : (rounds : ℕ) (s : S) → Ends rounds s (retry_rounds rounds attempt s)
  unfolding is_unique_violation
  retry_rounds-Ends zero s = inr (s, start, unfold retry_rounds in refl)
  retry_rounds-Ends (suc rounds) s = elim (Result-cases (attempt s).0) [
    | inl (l, e) ↦
        inl (zero, s, omega arith, start, retry_rounds-stop rounds s (λ x h. cc), λ h. cc)
    | inr (x, e) ↦ elim (Bool-cases (is_unique_violation x)) [
      | inl taken ↦
          let refused : (attempt s).0 ≡ throw unique_violation =
            e ∙ ap throw (is_unique_violation_sound x taken) in
          rw (retry_rounds-again rounds s refused)
            (Ends-again refused (retry_rounds-Ends rounds (attempt s).1))
      | inr free ↦ inl (
        zero,
        s,
        omega arith,
        start,
        retry_rounds-stop rounds s (λ y h. ground arith),
        λ h. ground arith,
      )
    ]
  ]

  -- A creation makes at most five attempts, each from the state that the one before left. It ends
  -- with the first that is not refused for a taken slug, whether that returns a link or throws, and
  -- where all five are refused it throws a 409.
  pub retry_on_slug_conflict-Ends :
      (s : S) → Ends max_slug_retries s (retry_on_slug_conflict attempt s)
  unfolding retry_on_slug_conflict
  retry_on_slug_conflict-Ends s = retry_rounds-Ends max_slug_retries s
