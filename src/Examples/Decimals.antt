-- ===== src/Examples/Decimals.antt =====
-- Numbers as a database writes them.
use mikrouli.Common.{
  ℕ, zero, suc, ◌+◌, ◌*◌, ◌/◌, ◌%◌, ◌<◌, List, [], ◌∷◌, ◌++◌, All, All-append, ◌≡◌, ◌≢◌, refl, ◌∙◌,
  inl, inr, arith, ltb, ltb→lt, Bool-cases, if◌then◌else◌,
}
use mikrouli.ClickHouse.Laws.{IsDecimal, value_of, written}

-- The digits of a number; n + 1 rounds are enough.
unfoldable pub digits_within : ℕ → ℕ → List ℕ
digits_within zero n = n ∷ []
digits_within (suc fuel) n =
    let rest = digits_within fuel (n / 10) in if ltb n 10 then n ∷ [] else rest ++ (n % 10) ∷ []

value_of-append : (acc d : ℕ) (ds : List ℕ) → value_of acc (ds ++ d ∷ []) ≡ value_of acc ds * 10 + d
value_of-append acc d [] = refl
value_of-append acc d (e ∷ ds) = value_of-append (acc * 10 + e) d ds

pub digits_within-value : (fuel n : ℕ) → n < fuel → value_of 0 (digits_within fuel n) ≡ n
unfolding digits_within
digits_within-value zero n h = absurd (omega arith)
digits_within-value (suc fuel) n h = elim (Bool-cases (ltb n 10)) [
  | inl small ↦ rw small (omega arith)
  | inr large ↦ rw large (
      value_of-append 0 (n % 10) (digits_within fuel (n / 10))
      ∙ ground (arith, digits_within-value fuel (n / 10)))
]

pub digits_within-small : (fuel n : ℕ) → n < fuel → All (λ k. k < 10) (digits_within fuel n)
unfolding digits_within
digits_within-small zero n h = absurd (omega arith)
digits_within-small (suc fuel) n h = elim (Bool-cases (ltb n 10)) [
  | inl small ↦ rw small (ltb→lt n 10 small, tt)
  | inr large ↦ rw large (
      All-append (λ k. k < 10) (digits_within fuel (n / 10)) (n % 10 ∷ [])
        (digits_within-small fuel (n / 10) (ground arith)) (omega arith, tt))
]

pub digits_within-IsDecimal :
    (n : ℕ) (ds : List ℕ)
    → All (λ k. k < 10) ds
    → value_of 0 ds ≡ n
    → ds ≢ []
    → IsDecimal (written ds) n
digits_within-IsDecimal n [] small value some_digit = absurd (some_digit refl)
digits_within-IsDecimal n (d ∷ ds) small value some_digit = (d, ds, small, refl, value)

append-ne-nil : (ds : List ℕ) (d : ℕ) → ds ++ d ∷ [] ≢ []
append-ne-nil [] d e = ground arith
append-ne-nil (x ∷ ds) d e = ground arith

pub digits_within-ne-nil : (fuel n : ℕ) → digits_within fuel n ≢ []
unfolding digits_within
digits_within-ne-nil zero n = λ e. ground arith
digits_within-ne-nil (suc fuel) n = elim (Bool-cases (ltb n 10)) [
  | inl small ↦ rw small (λ e. ground arith)
  | inr large ↦ rw large (append-ne-nil (digits_within fuel (n / 10)) (n % 10))
]
