-- ===== src/Telemetry/Params.antt =====
-- What `URLSearchParams` holds once apps/api/src/instrumentation.ts has redacted it.
use mathlib.Core.Path.{subst}
use mikrouli.Common.{
  String, false, ◌≡◌, ◌≢◌, refl, inl, inr, List, [], ◌∷◌, arith, Bool-cases, All, str_eq, eq_iff,
  eq_refl, if◌then◌else◌,
}
use mikrouli.Telemetry.{redacted_value, has_param, without, set_param, redact_search_params}

-- `params.getAll(key)`
abbrev pub get_all : String → List (String × String) → List String
get_all key [] = []
get_all key ((k, v) ∷ ps) = let rest = get_all key ps in if str_eq k key then v ∷ rest else rest

-- No value of the parameter is told.
abbrev pub IsRedacted : String → List (String × String) → Type 0
IsRedacted key ps = All (λ v. v ≡ redacted_value) (get_all key ps)

get_all-without : (key : String) (ps : List (String × String)) → get_all key (without key ps) ≡ []
unfolding without
get_all-without key [] = refl
get_all-without key ((k, v) ∷ ps) = elim (Bool-cases (str_eq k key)) [
  | inl same ↦ rw same (get_all-without key ps)
  | inr differs ↦ rw (differs, differs) (get_all-without key ps)
]

get_all-without_other :
    (key j : String) (ps : List (String × String))
    → key ≢ j
    → get_all j (without key ps) ≡ get_all j ps
unfolding without
get_all-without_other key j [] ne = refl
get_all-without_other key j ((k, v) ∷ ps) ne =
    ground (arith, eq_iff k key, eq_iff k j, get_all-without_other key j ps ne)

get_all-set_param :
    (key value : String) (ps : List (String × String))
    → get_all key (set_param key value ps) ≡ value ∷ []
unfolding set_param
get_all-set_param key value [] = ground (arith, eq_refl key)
get_all-set_param key value ((k, v) ∷ ps) =
    ground (arith, get_all-without key ps, get_all-set_param key value ps)

get_all-set_param_other :
    (key value j : String) (ps : List (String × String))
    → key ≢ j
    → get_all j (set_param key value ps) ≡ get_all j ps
unfolding set_param
get_all-set_param_other key value j [] ne = ground (arith, eq_iff key j)
get_all-set_param_other key value j ((k, v) ∷ ps) ne = ground (
  arith,
  eq_iff k key,
  eq_iff k j,
  get_all-without_other key j ps ne,
  get_all-set_param_other key value j ps ne,
)

has_param-get_all :
    (key : String) (ps : List (String × String)) → has_param key ps ≡ false → get_all key ps ≡ []
unfolding has_param
has_param-get_all key [] h = refl
has_param-get_all key ((k, v) ∷ ps) h = ground (arith, has_param-get_all key ps)

-- A round of the loop.
abbrev redact_one : String → List (String × String) → List (String × String)
redact_one key ps = if has_param key ps then set_param key redacted_value ps else ps

redact_one-IsRedacted :
    (key : String) (ps : List (String × String)) → IsRedacted key (redact_one key ps)
redact_one-IsRedacted key ps = elim (Bool-cases (has_param key ps)) [
  | inl there ↦ rw there (rw (get_all-set_param key redacted_value ps) (refl, tt))
  | inr absent ↦ rw absent (rw (has_param-get_all key ps absent) tt)
]

redact_one-keeps :
    (key j : String) (ps : List (String × String))
    → IsRedacted j ps
    → IsRedacted j (redact_one key ps)
redact_one-keeps key j ps h = elim (Bool-cases (str_eq key j)) [
  | inl same ↦
      subst (λ k. IsRedacted k (redact_one key ps)) ((eq_iff key j).0 same)
        (redact_one-IsRedacted key ps)
  | inr differs ↦ elim (Bool-cases (has_param key ps)) [
    | inl there ↦
        let ne : key ≢ j = λ d. ground (arith, eq_iff key j) in
        rw there (rw (get_all-set_param_other key redacted_value j ps ne) h)
    | inr absent ↦ rw absent h
  ]
]

redact_search_params-keeps :
    (keys : List String) (j : String) (ps : List (String × String))
    → IsRedacted j ps
    → IsRedacted j (redact_search_params keys ps)
unfolding redact_search_params
redact_search_params-keeps [] j ps h = h
redact_search_params-keeps (key ∷ keys) j ps h =
    redact_search_params-keeps keys j (redact_one key ps) (redact_one-keeps key j ps h)

pub redact_search_params-IsRedacted :
    (keys : List String) (ps : List (String × String))
    → All (λ key. IsRedacted key (redact_search_params keys ps)) keys
unfolding redact_search_params
redact_search_params-IsRedacted [] ps = tt
redact_search_params-IsRedacted (key ∷ keys) ps = (
  redact_search_params-keeps keys key (redact_one key ps) (redact_one-IsRedacted key ps),
  redact_search_params-IsRedacted keys (redact_one key ps),
)
