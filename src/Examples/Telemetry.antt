-- ===== src/Examples/Telemetry.antt =====
-- A redacted span, and a request with a credential before the throttlers.
use Prim.Native.Char.{Char, code}
use mikrouli.Common.{
  ℕ, suc, String, Bool, true, Option, none, some, List, [], ◌∷◌, ◌≡◌, refl, ap, ◌∙◌, ◌==◌,
  if◌then◌else◌, All,
}
use mikrouli.Http.{ok}
use mikrouli.Io.{Io}
use mikrouli.Telemetry.{SearchParams, Value, text, other, sanitise_attributes}
use mikrouli.Telemetry.Attributes.{IsSafe, keys_of, sanitise_attributes-IsSafe}
use mikrouli.ApiKeys.Guards.{Request, one, choose_auth_method}
use mikrouli.Throttling.{
  Throttler, data_module_budget, build_throttler_options, skip_throttle_when_credentialed,
  create_shed, handle_request,
}
use mikrouli.Throttling.Shedding.{budgets, evaluate, evaluate-skip}

-- A way to write pairs: a character is written behind an 'x', and a name or a value ends with a dot.
abbrev field : String → String → String
field String.[] rest = String.◌∷◌ "." rest
field (String.◌∷◌ c s) rest = String.◌∷◌ "x" (String.◌∷◌ c (field s rest))

abbrev print : List (String × String) → String
print [] = ""
print ((k, v) ∷ ps) = field k (field v (print ps))

abbrev push : Char → List String → List String
push c [] = String.◌∷◌ c "" ∷ []
push c (f ∷ fs) = String.◌∷◌ c f ∷ fs

abbrev fields : String → List String
fields String.[] = []
fields (String.◌∷◌ m String.[]) = "" ∷ []
fields (String.◌∷◌ m (String.◌∷◌ c r)) =
    let ended = "" ∷ fields (String.◌∷◌ c r) in
    let more = push c (fields r) in if code m == b'.' then ended else more

abbrev pairs : List String → List (String × String)
pairs [] = []
pairs (k ∷ []) = []
pairs (k ∷ (v ∷ fs)) = (k, v) ∷ pairs fs

fields-end : (rest : String) → fields (String.◌∷◌ "." rest) ≡ "" ∷ fields rest
fields-end String.[] = refl
fields-end (String.◌∷◌ c r) = refl

fields-field : (s rest : String) → fields (field s rest) ≡ s ∷ fields rest
fields-field String.[] rest = fields-end rest
fields-field (String.◌∷◌ c s) rest = ap (push c) (fields-field s rest)

pairs-print : (ps : List (String × String)) → pairs (fields (print ps)) ≡ ps
pairs-print [] = refl
pairs-print ((k, v) ∷ ps) =
    ap pairs (fields-field k (field v (print ps)) ∙ ap (λ fs. k ∷ fs) (fields-field v (print ps)))
    ∙ ap (λ qs. (k, v) ∷ qs) (pairs-print ps)

abbrev search_params : SearchParams
search_params = record { parse = λ s. pairs (fields s); print = print }

abbrev attributes : List (String × Value ℕ)
attributes =
    ("http.request.header.cookie", text "access=1")
    ∷ ("http.url", text "/api/auth/github/callback?xtxoxkxexn.xsxexcxrxext.")
    ∷ ("http.status_code", other 302)
    ∷ []

sanitise_attributes-IsSafe_example :
    All (IsSafe search_params pairs-print) (sanitise_attributes search_params attributes)
    × (keys_of (sanitise_attributes search_params attributes) ≡ keys_of attributes)
sanitise_attributes-IsSafe_example = sanitise_attributes-IsSafe search_params pairs-print attributes

sanitise_attributes_run :
    sanitise_attributes search_params attributes
    ≡ ("http.request.header.cookie", text "[REDACTED]")
      ∷ ("http.url", text "/api/auth/github/callback?xtxoxkxexn.x[xRxExDxAxCxTxExDx].")
      ∷ ("http.status_code", other 302)
      ∷ []
unfolding sanitise_attributes
sanitise_attributes_run = refl

-- A guard that counts what it is asked for.
abbrev counting : Throttler → Request → Io ℕ Bool
counting t req n = (ok true, suc n)

abbrev create_metadata : Option (List String)
create_metadata = some (skip_throttle_when_credentialed create_shed)

abbrev with_key : Request
with_key = record {
  authorization = none;
  x_api_key = some (one "mk_abcdefghijklmnop");
  access_cookie = none;
  origin = none;
  referer = none;
  host = none;
}

evaluate-skip_example :
    evaluate (handle_request counting create_metadata) with_key build_throttler_options true 0
    ≡ evaluate counting with_key (budgets create_shed with_key build_throttler_options) true 0
evaluate-skip_example = evaluate-skip counting create_shed with_key build_throttler_options true 0

-- The creation of a link is counted against one budget.
budgets_run :
    budgets create_shed with_key build_throttler_options
    ≡ record { name = "data"; budget = data_module_budget } ∷ []
unfolding choose_auth_method
budgets_run = refl
