-- ===== src/Web/Client/Errors.antt =====
-- What the client of apps/web/src/api/client.ts makes of an exception that the filter of
-- apps/api/src/common/problem-details.filter.ts has sent.
use Prim.Native.String
use mikrouli.Common.{
  ℕ, String, Bool, Option, none, some, ◌≡◌, refl, ap, ◌∙◌, List, [], ◌∷◌, ◌++◌, map, arith, ltb,
  leb, ◌&&◌,
}
use mikrouli.Http.{ClassValidatorError, validation, http}
use mikrouli.Problems.{
  ErrorEntry, Sent, dispatch_problem, resolve_http_problem, build_validation_problem,
  map_validation_errors, expand_validator_error, constraint_to_entry,
}
use mikrouli.Web.{Answer, resolved, rejected, Cause, api_error, unknown}
use mikrouli.Web.Client.{
  ProblemDetails, ValidationError, FetchRequest, FetchResponse, api_fetch, answer_of,
  build_api_error, problem_message, compose_validation_message, join_messages,
}

-- The entries as the client reads them.
read_entry : ErrorEntry → ValidationError
read_entry e = record { field = e.field; message = e.message; rule = e.rule }

read_entries : Option (List ErrorEntry) → Option (List ValidationError)
unfolding read_entry
read_entries none = none
read_entries (some es) = some (map read_entry es)

read_body : Sent → ProblemDetails
unfolding read_entries
read_body sent = record {
  type = some sent.body.type;
  title = some sent.body.title;
  detail = sent.body.detail;
  message = none;
  errors = read_entries sent.body.errors;
}

-- The response that the browser makes of what the API sent: the body as JSON, `ok` for a status of
-- 200 to 299. What an answer's body holds is not looked at.
unfoldable pub received : {A : Type 0} → String → Sent → FetchResponse A
unfolding read_body
received status_text sent = record {
  status = sent.status;
  ok = leb 200 sent.status && ltb sent.status 300;
  status_text = status_text;
  correlation_id = sent.correlation_id;
  problem = some (read_body sent);
  body = rejected unknown;
}

-- The messages of all failed constraints, in order.
unfoldable pub messages : List ClassValidatorError → List String
messages [] = []
messages (e ∷ es) = map (λ (c : String × String). c.1) e.constraints ++ messages es

-- Texts with "; " between them.
pub joined : String → List String → String
joined m [] = m
joined m (n ∷ ns) = String.◌++◌ m (String.◌++◌ "; " (joined n ns))

entry_messages : List ErrorEntry → List String
entry_messages es = map (λ (e : ErrorEntry). e.message) es

map-append : {A B : Type 0} (f : A → B) (xs ys : List A) → map f (xs ++ ys) ≡ map f xs ++ map f ys
map-append f [] ys = refl
map-append f (x ∷ xs) ys = ap (λ zs. f x ∷ zs) (map-append f xs ys)

constraint-messages :
    (field : String) (cs : List (String × String))
    → entry_messages (map (constraint_to_entry field) cs) ≡ map (λ (c : String × String). c.1) cs
unfolding entry_messages constraint_to_entry
constraint-messages field [] = refl
constraint-messages field ((rule, m) ∷ cs) = ap (λ ms. m ∷ ms) (constraint-messages field cs)

map_validation_errors-messages :
    (errors : List ClassValidatorError)
    → entry_messages (map_validation_errors errors) ≡ messages errors
unfolding entry_messages map_validation_errors expand_validator_error messages
map_validation_errors-messages [] = refl
map_validation_errors-messages (e ∷ es) =
    map-append (λ (x : ErrorEntry). x.message) (expand_validator_error e) (map_validation_errors es)
    ∙ ap (λ ms. ms ++ entry_messages (map_validation_errors es))
        (constraint-messages e.property e.constraints)
    ∙ ap (λ ms. map (λ (c : String × String). c.1) e.constraints ++ ms)
        (map_validation_errors-messages es)

join_messages-joined :
    (m : String) (es : List ErrorEntry)
    → join_messages m (map read_entry es) ≡ joined m (entry_messages es)
unfolding entry_messages read_entry joined
join_messages-joined m [] = refl
join_messages-joined m (e ∷ es) =
    ap (λ s. String.◌++◌ m (String.◌++◌ "; " s)) (join_messages-joined e.message es)

problem_message-joined :
    (body : ProblemDetails) (status_text m : String) (ms : List String) (es : List ErrorEntry)
    → entry_messages es ≡ m ∷ ms
    → problem_message body (some (map read_entry es)) status_text ≡ joined m ms
unfolding entry_messages read_entry joined problem_message compose_validation_message
problem_message-joined body status_text m ms [] e = absurd (ground arith)
problem_message-joined body status_text m ms (x ∷ es) e = join_messages-joined x.message es ∙ cc e

validation_error : String → Option String → Cause
validation_error message correlation_id = api_error (record {
  status = 422;
  message = message;
  problem_type = some "https://mikrou.li/problems/validation";
  correlation_id = correlation_id;
})

answer_of-validation :
    {A : Type 0} (status : ℕ) (errors : List ClassValidatorError) (correlation_id : Option String)
    (is_prod : Bool) (status_text m : String) (ms : List String)
    → messages errors ≡ m ∷ ms
    → answer_of {A = A} (
        received status_text
          (dispatch_problem (http status (validation errors)) correlation_id is_prod))
      ≡ rejected (validation_error (joined m ms) correlation_id)
unfolding answer_of build_api_error received dispatch_problem resolve_http_problem
    build_validation_problem validation_error read_entries
answer_of-validation status errors correlation_id is_prod status_text m ms some_failed =
    ap (λ message. rejected (validation_error message correlation_id))
      (problem_message-joined
        (read_body (dispatch_problem (http status (validation errors)) correlation_id is_prod))
        status_text m ms (map_validation_errors errors)
        (map_validation_errors-messages errors ∙ some_failed))

module _ {A : Type 0} (fetch : FetchRequest → Answer (FetchResponse A)) where
  -- A request whose body the API refused rejects as a 422 with the correlation id of the response,
  -- and its message is the message of every failed constraint, in order, with "; " between them.
  pub api_fetch-validation :
      (request : FetchRequest) (status : ℕ) (errors : List ClassValidatorError)
      (correlation_id : Option String) (is_prod : Bool) (status_text m : String) (ms : List String)
      → messages errors ≡ m ∷ ms
      → fetch request
        ≡ resolved (
            received status_text
              (dispatch_problem (http status (validation errors)) correlation_id is_prod))
      → api_fetch fetch request
        ≡ rejected (
            api_error (record {
              status = 422;
              message = joined m ms;
              problem_type = some "https://mikrou.li/problems/validation";
              correlation_id = correlation_id;
            }))
  unfolding api_fetch validation_error
  api_fetch-validation request status errors correlation_id is_prod status_text m ms failed sent =
      ap (λ a. elim a [ resolved response ↦ answer_of response | rejected cause ↦ rejected cause ])
        sent
      ∙ answer_of-validation status errors correlation_id is_prod status_text m ms failed
