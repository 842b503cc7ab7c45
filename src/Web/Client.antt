-- ===== src/Web/Client.antt =====
-- apps/web/src/api/client.ts: a call of the API. `fetch`, `encodeURIComponent` and the body's JSON
-- are parameters; a response's `json()` is an answer of its own.
pub mod Errors
use Prim.Native.String
use text.Mathlib.Text.{starts_with}
use mikrouli.Common.{
  ℕ, String, Bool, true, false, not, Option, none, some, List, [], ◌∷◌, ◌++◌, ◌==◌, str_eq, or_else,
  is_some, if◌then◌else◌,
}
use mikrouli.Web.{ApiError, Cause, api_error, error, unknown, Answer, resolved, rejected}

unfoldable pub extract_error_message : Cause → String
extract_error_message (api_error e) = e.message
extract_error_message (error message) = message
extract_error_message unknown = "An unexpected error occurred"

pub record ValidationError : Type 0 where
  pub field : String
  pub message : String
  pub rule : String

pub record ProblemDetails : Type 0 where
  pub type : Option String
  pub title : Option String
  pub detail : Option String
  pub message : Option String
  pub errors : Option (List ValidationError)

-- A response: its body as a problem, where it is one, and what `response.json()` settles with.
pub record FetchResponse (A : Type 0) : Type 0 where
  pub status : ℕ
  pub ok : Bool
  pub status_text : String
  pub correlation_id : Option String
  pub problem : Option ProblemDetails
  pub body : Answer A

abbrev pub build_fetch_headers : String → Bool → List (String × String)
build_fetch_headers method has_body =
    if not has_body
    then []
    else if str_eq method "GET"
    then []
    else ("Content-Type", "application/json") ∷ []

-- `errors.map((e) => e.message).join('; ')`
abbrev pub join_messages : String → List ValidationError → String
join_messages first [] = first
join_messages first (e ∷ es) = String.◌++◌ first (String.◌++◌ "; " (join_messages e.message es))

unfoldable pub compose_validation_message : List ValidationError → String
compose_validation_message [] = ""
compose_validation_message (e ∷ es) = join_messages e.message es

-- `body.detail ?? body.title ?? body.message ?? response.statusText`
abbrev pub plain_message : ProblemDetails → String → String
plain_message body status_text =
    or_else body.detail (or_else body.title (or_else body.message status_text))

-- An empty list of errors is passed over.
unfoldable pub problem_message : ProblemDetails → Option (List ValidationError) → String → String
unfolding compose_validation_message
problem_message body none status_text = plain_message body status_text
problem_message body (some []) status_text = plain_message body status_text
problem_message body (some (e ∷ es)) status_text = compose_validation_message (e ∷ es)

abbrev pub problem_type_of : Option ProblemDetails → Option String
problem_type_of none = none
problem_type_of (some body) = body.type

abbrev pub message_of : Option ProblemDetails → String → String
message_of none status_text = status_text
message_of (some body) status_text = problem_message body body.errors status_text

module _ {A : Type 0} where
  unfoldable pub build_api_error : FetchResponse A → ApiError
  unfolding problem_message
  build_api_error response = record {
    status = response.status;
    message = message_of response.problem response.status_text;
    problem_type = problem_type_of response.problem;
    correlation_id = response.correlation_id;
  }

  abbrev pub parsed : Answer A → Answer (Option A)
  parsed (resolved a) = resolved (some a)
  parsed (rejected cause) = rejected cause

  -- `undefined` for a 204.
  unfoldable pub answer_of : FetchResponse A → Answer (Option A)
  unfolding build_api_error
  answer_of response =
      if not response.ok
      then rejected (api_error (build_api_error response))
      else if response.status == 204
      then resolved none
      else parsed response.body

-- What is left behind a text that a text begins with.
abbrev pub behind : String → String → String
behind String.[] s = s
behind (String.◌∷◌ c t) String.[] = ""
behind (String.◌∷◌ c t) (String.◌∷◌ d s) = behind t s

-- `acc.replace(pattern, replacement)`: the first occurrence. An encoded text has no '$'.
abbrev pub replace : String → String → String → String
replace pattern replacement String.[] = ""
replace pattern replacement (String.◌∷◌ c s) =
    let rest = replace pattern replacement s in
    if starts_with (String.◌∷◌ c s) pattern
    then String.◌++◌ replacement (behind pattern (String.◌∷◌ c s))
    else String.◌∷◌ c rest

unfoldable pub resolve_path_params : (String → String) → String → List (String × String) → String
resolve_path_params encode path [] = path
resolve_path_params encode path ((k, v) ∷ params) =
    resolve_path_params encode (replace (String.◌++◌ "{" (String.◌++◌ k "}")) (encode v) path)
      params

pub record FetchRequest : Type 0 where
  pub path : String
  pub method : String
  pub headers : List (String × String)
  pub body : Option String

-- The request of `apiFetch`, with a fresh correlation id. The method comes in upper case.
unfoldable pub build_request :
    (String → String)
    → String
    → String
    → Option String
    → Option (List (String × String))
    → String
    → FetchRequest
unfolding resolve_path_params
build_request encode path method body path_params correlation_id = record {
  path = elim path_params [ none ↦ path | some params ↦ resolve_path_params encode path params ];
  method = method;
  headers = build_fetch_headers method (is_some body) ++ ("X-Correlation-ID", correlation_id) ∷ [];
  body = body;
}

module _ {A : Type 0} (fetch : FetchRequest → Answer (FetchResponse A)) where
  unfoldable pub api_fetch : FetchRequest → Answer (Option A)
  unfolding answer_of
  api_fetch request = elim (fetch request) [
    | resolved response ↦ answer_of response
    | rejected cause ↦ rejected cause
  ]
