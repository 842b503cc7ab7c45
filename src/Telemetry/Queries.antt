-- ===== src/Telemetry/Queries.antt =====
-- The query strings that apps/api/src/instrumentation.ts writes.
use mathlib.Core.Path.{subst}
use Prim.Native.Char.{Char}
use Prim.Native.String
use text.Mathlib.TextLemmas.{nil-append, cons-append}
use mikrouli.Common.{
  String, true, false, ◌≡◌, refl, sym, ap, ◌∙◌, ◌⊎◌, inl, inr, Option, none, some, List, [], arith,
  Bool-cases, Option-cases, All, str_eq, if◌then◌else◌,
}
use mikrouli.Telemetry.{
  pii_query_params, SearchParams, redact_search_params, split_query, joined, redact_split,
  redact_query_string,
}
use mikrouli.Telemetry.Params.{IsRedacted, redact_search_params-IsRedacted}

-- How a text with a '?' is split.
split_query-cases :
    (c : Char) (s base query : String)
    → split_query (String.◌∷◌ c s) ≡ some (base, query)
    → ((str_eq (String.◌∷◌ c "") "?" ≡ true) × (base ≡ ""))
      ⊎ ((b : String) × (q : String) × (str_eq (String.◌∷◌ c "") "?" ≡ false)
          × (split_query s ≡ some (b, q))
          × (base ≡ String.◌∷◌ c b))
split_query-cases c s base query h = elim (Bool-cases (str_eq (String.◌∷◌ c "") "?")) [
  | inl mark ↦ inl (mark, ground arith)
  | inr plain ↦ elim (Option-cases (split_query s)) [
    | inl whole ↦ absurd (ground arith)
    | inr ((b, q), e) ↦ inr (b, q, plain, e, ground arith)
  ]
]

split_query-mark : (qs : String) → split_query (String.◌++◌ "?" qs) ≡ some ("", qs)
split_query-mark qs =
    subst (λ s. split_query s ≡ some ("", qs))
      (sym (cons-append "?" "" qs ∙ ap (String.◌∷◌ "?") (nil-append qs))) refl

split_query-joined :
    (s base query qs : String)
    → split_query s ≡ some (base, query)
    → split_query (String.◌++◌ base (String.◌++◌ "?" qs)) ≡ some (base, qs)
split_query-joined String.[] base query qs h = absurd (ground arith)
split_query-joined (String.◌∷◌ c s) base query qs h = elim (split_query-cases c s base query h) [
  | inl (mark, e) ↦
      subst (λ b. split_query (String.◌++◌ b (String.◌++◌ "?" qs)) ≡ some (b, qs)) (sym e)
        (ap split_query (nil-append (String.◌++◌ "?" qs)) ∙ split_query-mark qs)
  | inr (b, q, plain, e, same) ↦
      subst (λ b. split_query (String.◌++◌ b (String.◌++◌ "?" qs)) ≡ some (b, qs)) (sym same)
        (ap split_query (cons-append c b (String.◌++◌ "?" qs))
          ∙ (rw (plain, split_query-joined s b q qs e) refl))
]

split_query-base :
    (s base query : String) → split_query s ≡ some (base, query) → split_query base ≡ none
split_query-base String.[] base query h = absurd (ground arith)
split_query-base (String.◌∷◌ c s) base query h = elim (split_query-cases c s base query h) [
  | inl (mark, e) ↦ subst (λ b. split_query b ≡ none) (sym e) refl
  | inr (b, q, plain, e, same) ↦
      subst (λ b. split_query b ≡ none) (sym same) (rw (plain, split_query-base s b q e) refl)
]

module _ (library : SearchParams)
    (parse-print : (ps : List (String × String)) → library.parse (library.print ps) ≡ ps) where
  -- The parameters of the query of a URL, as a reader of the span sees them.
  abbrev pub query_in : Option (String × String) → List (String × String)
  query_in none = []
  query_in (some (base, query)) = library.parse query

  abbrev pub query_of : String → List (String × String)
  query_of url = query_in (split_query url)

  abbrev AreRedacted : List (String × String) → Type 0
  AreRedacted ps = All (λ key. IsRedacted key ps) pii_query_params

  query_of-plain : (url : String) → split_query url ≡ none → query_of url ≡ []
  query_of-plain url e = ap query_in e

  AreRedacted-nil : AreRedacted []
  AreRedacted-nil = (tt, (tt, (tt, (tt, (tt, (tt, (tt, tt)))))))

  query_of-joined :
      (url base query qs : String)
      → split_query url ≡ some (base, query)
      → str_eq qs "" ≡ false
      → query_of (joined base qs) ≡ library.parse qs
  query_of-joined url base query qs e left =
      rw left (ap query_in (split_query-joined url base query qs e))

  joined-AreRedacted :
      (url base query : String) (ps : List (String × String))
      → split_query url ≡ some (base, query)
      → AreRedacted ps
      → AreRedacted (query_of (joined base (library.print ps)))
  joined-AreRedacted url base query ps e h = elim (Bool-cases (str_eq (library.print ps) "")) [
    | inl empty ↦
        subst
          (λ b. AreRedacted (
            query_of (if b then base else (String.◌++◌ base (String.◌++◌ "?" (library.print ps))))))
          (sym empty)
          (subst AreRedacted (sym (query_of-plain base (split_query-base url base query e)))
            AreRedacted-nil)
    | inr left ↦
        subst AreRedacted
          (sym (query_of-joined url base query (library.print ps) e left ∙ parse-print ps)) h
  ]

  redact_query_string-some :
      (url base query : String)
      → split_query url ≡ some (base, query)
      → redact_query_string library url
        ≡ joined base (library.print (redact_search_params pii_query_params (library.parse query)))
  unfolding redact_query_string redact_split
  redact_query_string-some url base query e = ap (redact_split library url) e

  redact_query_string-none :
      (url : String) → split_query url ≡ none → redact_query_string library url ≡ url
  unfolding redact_query_string redact_split
  redact_query_string-none url e = ap (redact_split library url) e

  -- In the query of a URL that is recorded, no parameter that may carry a credential or an email has
  -- a value other than the mark of redaction, however often and wherever the query names it.
  pub redact_query_string-IsRedacted :
      (url : String)
      → All (λ key. IsRedacted key (query_of (redact_query_string library url))) pii_query_params
  redact_query_string-IsRedacted url = elim (Option-cases (split_query url)) [
    | inl whole ↦
        subst AreRedacted
          (sym (ap query_of (redact_query_string-none url whole) ∙ query_of-plain url whole))
          AreRedacted-nil
    | inr ((base, query), e) ↦
        subst (λ s. AreRedacted (query_of s)) (sym (redact_query_string-some url base query e))
          (joined-AreRedacted url base query
            (redact_search_params pii_query_params (library.parse query)) e
            (redact_search_params-IsRedacted pii_query_params (library.parse query)))
  ]
