-- ===== src/Correlation.antt =====
-- apps/api/src/common/correlation-id.ts, correlation-id.middleware.ts and correlation-id.logger.ts: the
-- id of a request. The store of AsyncLocalStorage is the id, where code runs inside a request.
pub mod Trip
use Prim.Native.String
use mikrouli.Common.{String, Option, none, some, List, [], ◌∷◌, or_else, str_eq, if◌then◌else◌}
use mikrouli.Auth.{truthy}

-- A request's headers by their names in lower case, as Node gives them.
abbrev pub header : String → List (String × String) → Option String
header name [] = none
header name ((key, value) ∷ headers) =
    let rest = header name headers in if str_eq key name then some value else rest

-- The id that `use` gives a request, where a fresh one is the last resort.
unfoldable pub correlation_id_of : List (String × String) → String → String
correlation_id_of headers fresh =
    or_else (header "x-correlation-id" headers) (or_else (header "x-request-id" headers) fresh)

-- What runs behind `use`: the X-Correlation-ID of its response is set, and it has the id.
unfoldable pub with_correlation_id :
    {A : Type 0} → List (String × String) → String → (Option String → A) → String × A
unfolding correlation_id_of
with_correlation_id headers fresh next =
    (correlation_id_of headers fresh, next (some (correlation_id_of headers fresh)))

-- `formatMessage` over the line of the logger that it extends.
unfoldable pub format_message : Option String → String → String
format_message correlation_id base = elim (truthy correlation_id) [
  | none ↦ base
  | some id ↦ String.◌++◌ "[cid:" (String.◌++◌ id (String.◌++◌ "] " base))
]
