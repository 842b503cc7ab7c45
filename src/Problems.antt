-- ===== src/Problems.antt =====
-- apps/api/src/common/problem-details.ts and problem-details.filter.ts: exceptions as RFC 9457
-- problems. The statuses that the code names are the keys of `status_slug`.
pub mod Filter
use Prim.Native.Char.{Char, code}
use Prim.Native.String
use mikrouli.Common.{
  ℕ, zero, suc, ◌/◌, ◌%◌, String, Bool, true, false, Option, none, some, List, [], ◌∷◌, ◌++◌, map,
  ltb, ◌==◌, str_eq, or_else, get_elem?, if◌then◌else◌,
}
use mikrouli.Http.{
  ClassValidatorError, Response, text, object, validation, problem, Exception, http, query_failed,
  other,
}
use mikrouli.Slug.{chars}

pub record ErrorEntry : Type 0 where
  pub field : String
  pub message : String
  pub rule : String

pub record ProblemDetails : Type 0 where
  pub type : String
  pub title : String
  pub status : ℕ
  pub detail : Option String
  pub errors : Option (List ErrorEntry)

abbrev status_slugs : List (ℕ × String)
status_slugs =
    (400, "bad-request")
    ∷ (401, "unauthorized")
    ∷ (403, "forbidden")
    ∷ (404, "not-found")
    ∷ (409, "conflict")
    ∷ (410, "gone")
    ∷ (422, "validation")
    ∷ (500, "internal-server-error")
    ∷ []

lookup : ℕ → List (ℕ × String) → Option String
lookup status [] = none
lookup status ((key, slug) ∷ rest) = if status == key then some slug else lookup status rest

-- `STATUS_SLUG_MAP[status] ?? 'unknown'`
unfoldable pub status_slug : ℕ → String
unfolding lookup
status_slug status = or_else (lookup status status_slugs) "unknown"

-- `toUpperCase` on the small letters of ASCII.
upper_from : List Char → List Char → Char → Char
upper_from (small ∷ smalls) (capital ∷ capitals) c =
    if code c == code small then capital else upper_from smalls capitals c
upper_from [] capitals c = c
upper_from (small ∷ smalls) [] c = c

upper : Char → Char
unfolding upper_from
upper c = upper_from (chars "abcdefghijklmnopqrstuvwxyz") (chars "ABCDEFGHIJKLMNOPQRSTUVWXYZ") c

-- The words of a slug, with a capital each; whether a word starts here.
title_from : Bool → String → String
unfolding upper
title_from start String.[] = ""
title_from start (String.◌∷◌ c s) =
    let dash = code c == b'-' in
    let rest = title_from dash s in
    if dash then String.◌++◌ " " rest else String.◌∷◌ (if start then upper c else c) rest

unfoldable pub title_of : String → String
unfolding title_from
title_of slug = title_from true slug

abbrev pub problem_type_uri : String → String
problem_type_uri slug = String.◌++◌ "https://mikrou.li/problems/" slug

abbrev pub build_problem : ℕ → String → String → Option String → ProblemDetails
build_problem status slug title detail = record {
  type = problem_type_uri slug;
  title = title;
  status = status;
  detail = detail;
  errors = none;
}

unfoldable pub build_problem_from_status : ℕ → Option String → ProblemDetails
build_problem_from_status status detail =
    build_problem status (status_slug status) (title_of (status_slug status)) detail

unfoldable pub constraint_to_entry : String → String × String → ErrorEntry
constraint_to_entry field (rule, message) = record { field = field; message = message; rule = rule }

unfoldable pub expand_validator_error : ClassValidatorError → List ErrorEntry
unfolding constraint_to_entry
expand_validator_error e = map (constraint_to_entry e.property) e.constraints

unfoldable pub map_validation_errors : List ClassValidatorError → List ErrorEntry
unfolding expand_validator_error
map_validation_errors [] = []
map_validation_errors (e ∷ es) = expand_validator_error e ++ map_validation_errors es

unfoldable pub build_validation_problem : List ClassValidatorError → ProblemDetails
unfolding map_validation_errors
build_validation_problem errors =
    record (build_problem 422 "validation" "Unprocessable Entity" none) {
      errors = some (map_validation_errors errors);
    }

-- An object that is no string gives no detail.
unfoldable pub resolve_http_problem : ℕ → Response → ProblemDetails
unfolding build_validation_problem build_problem_from_status
resolve_http_problem status (validation errors) = build_validation_problem errors
resolve_http_problem status (problem slug title detail) =
    build_problem status slug title (some detail)
resolve_http_problem status (text detail) = build_problem_from_status status (some detail)
resolve_http_problem status (object message) = build_problem_from_status status none

abbrev pub resolve_query_failed_problem : Bool → ProblemDetails
resolve_query_failed_problem is_prod =
    build_problem_from_status 500 (if is_prod then none else some "Database query failed")

abbrev pub resolve_generic_problem : String → Bool → ProblemDetails
resolve_generic_problem message is_prod =
    build_problem_from_status 500 (if is_prod then none else some message)

-- What is sent: the status, the X-Correlation-ID header where there is one, and the body.
pub record Sent : Type 0 where
  pub status : ℕ
  pub correlation_id : Option String
  pub body : ProblemDetails

abbrev sent : Option String → ℕ → ProblemDetails → Sent
sent correlation_id status body = record {
  status = status;
  correlation_id = correlation_id;
  body = body;
}

-- `dispatchProblem`; an empty correlation id is falsy.
unfoldable pub dispatch_problem : Exception → Option String → Bool → Sent
unfolding resolve_http_problem
dispatch_problem (http status response) correlation_id is_prod =
    let found = resolve_http_problem status response in sent correlation_id found.status found
dispatch_problem (query_failed code) correlation_id is_prod =
    sent correlation_id 500 (resolve_query_failed_problem is_prod)
dispatch_problem (other message) correlation_id is_prod =
    sent correlation_id 500 (resolve_generic_problem message is_prod)

-- `catch` of ProblemDetailsFilter over the environment.
unfoldable pub catch_problem : (String → Option String) → Option String → Exception → Sent
unfolding dispatch_problem
catch_problem config correlation_id exception =
    dispatch_problem exception correlation_id (str_eq (or_else (config "NODE_ENV") "") "production")
