-- ===== src/Services/Slugs.antt =====
-- How PostgreSQL compares the slugs of apps/api/src/links/link.entity.ts: the column is CHAR(6), whose
-- values have six characters and which ignores trailing blanks in comparisons.
use Prim.Native.Char.{Char}
use Prim.Native.String
use text.Mathlib.TextLemmas.{nil-append, cons-append}
use mikrouli.Common.{
  ℕ, suc, String, Bool, ◌&&◌, ◌≡◌, ◌≢◌, inl, inr, refl, sym, ap, ◌∙◌, arith, str_eq, eq_iff,
  Bool-cases, if◌then◌else◌,
}

abbrev pub chars : String → ℕ
chars String.[] = 0
chars (String.◌∷◌ c s) = suc (chars s)

-- A text as long as the column.
abbrev pub FillsColumn : String → Type 0
FillsColumn s = chars s ≡ 6

abbrev pub is_blank : Char → Bool
is_blank c = str_eq (String.◌∷◌ c "") " "

-- A text without its trailing blanks: what the column compares.
abbrev pub bare : String → String
bare String.[] = ""
bare (String.◌∷◌ c s) =
    let rest = bare s in if is_blank c && str_eq rest "" then "" else String.◌∷◌ c rest

cons-eq :
    (c d : Char) (s t : String)
    → String.◌∷◌ c "" ≡ String.◌∷◌ d ""
    → s ≡ t
    → String.◌∷◌ c s ≡ String.◌∷◌ d t
cons-eq c d s t e f =
    sym (cons-append c "" s ∙ ap (String.◌∷◌ c) (nil-append s))
    ∙ ap (λ x. String.◌++◌ x s) e
    ∙ cons-append d "" s
    ∙ ap (String.◌∷◌ d) (nil-append s ∙ f)

cons-ne : (c : Char) (s : String) → "" ≢ String.◌∷◌ c s
cons-ne c s e = omega (arith, ap chars e)

cons-injective : (c d : Char) (s t : String) → String.◌∷◌ c s ≡ String.◌∷◌ d t → (c ≡ d) × (s ≡ t)
cons-injective c d s t e = (cc e, cc e)

-- Texts of the same length that the column does not tell apart are the same.
pub bare-injective : (s t : String) → chars s ≡ chars t → bare s ≡ bare t → s ≡ t
bare-injective String.[] String.[] n e = refl
bare-injective String.[] (String.◌∷◌ d t) n e = absurd (omega arith)
bare-injective (String.◌∷◌ c s) String.[] n e = absurd (omega arith)
bare-injective (String.◌∷◌ c s) (String.◌∷◌ d t) n e =
    elim (Bool-cases (is_blank c && str_eq (bare s) "")) [
      | inl p ↦ elim (Bool-cases (is_blank d && str_eq (bare t) "")) [
        | inl q ↦
            cons-eq c d s t
              (ground (arith, eq_iff (String.◌∷◌ c "") " ", eq_iff (String.◌∷◌ d "") " "))
              (bare-injective s t (omega arith)
                (ground (arith, eq_iff (bare s) "", eq_iff (bare t) "")))
        | inr q ↦ absurd (cons-ne d (bare t) (rw (p, q) at e))
      ]
      | inr p ↦ elim (Bool-cases (is_blank d && str_eq (bare t) "")) [
        | inl q ↦ absurd (cons-ne c (bare s) (sym (rw (p, q) at e)))
        | inr q ↦
            let (head, tail) = cons-injective c d (bare s) (bare t) (rw (p, q) at e) in
            ap (λ x. String.◌∷◌ x s) head
            ∙ ap (String.◌∷◌ d) (bare-injective s t (omega arith) tail)
      ]
    ]

pub FillsColumn-bare : (s t : String) → FillsColumn s → FillsColumn t → s ≢ t → bare s ≢ bare t
FillsColumn-bare s t p q ne e = ne (bare-injective s t (p ∙ sym q) e)
