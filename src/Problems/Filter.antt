-- ===== src/Problems/Filter.antt =====
-- What a client learns from an exception by way of apps/api/src/common/problem-details.filter.ts.
use mikrouli.Common.{
  ℕ, suc, sym, map, String, Bool, true, Option, some, List, [], ◌∷◌, length, ◌+◌, length-append,
  ◌≡◌, refl, ap, ◌∙◌, ◌⊎◌, inl, inr, arith, str_eq, or_else,
}
use mikrouli.Http.{
  ClassValidatorError, Response, text, object, validation, problem, Exception, http, query_failed,
  other,
}
use mikrouli.Problems.{
  dispatch_problem, resolve_http_problem, build_problem_from_status, catch_problem,
  build_validation_problem, map_validation_errors, expand_validator_error, constraint_to_entry,
}

-- An exception that is the server's own fault: no HttpException.
pub data IsInternalError : Exception → Type 0 where
  database : (code : String) → IsInternalError (query_failed code)
  generic : (message : String) → IsInternalError (other message)

dispatch_problem_internal :
    (correlation_id : Option String) (e : Exception)
    → IsInternalError e
    → dispatch_problem e correlation_id true ≡ dispatch_problem (other "") correlation_id true
unfolding dispatch_problem build_problem_from_status
dispatch_problem_internal c e (database x) = refl
dispatch_problem_internal c e (generic x) = refl

catch_problem-production :
    (config : String → Option String) (correlation_id : Option String) (e : Exception)
    → config "NODE_ENV" ≡ some "production"
    → catch_problem config correlation_id e ≡ dispatch_problem e correlation_id true
unfolding catch_problem
catch_problem-production config c e prod =
    ap (λ o. dispatch_problem e c (str_eq (or_else o "") "production")) prod

-- In production all errors that are not HttpExceptions look the same from outside: one and the same
-- response, whatever the driver's code or the error's message.
pub catch_problem_internal :
    (config : String → Option String) (correlation_id : Option String) (e f : Exception)
    → config "NODE_ENV" ≡ some "production"
    → IsInternalError e
    → IsInternalError f
    → catch_problem config correlation_id e ≡ catch_problem config correlation_id f
catch_problem_internal config c e f prod i j =
    catch_problem-production config c e prod
    ∙ dispatch_problem_internal c e i
    ∙ sym (dispatch_problem_internal c f j)
    ∙ sym (catch_problem-production config c f prod)

-- The status line and the body's status agree, and are the exception's own status unless it carries
-- validation errors, which are a 422, or is no HttpException, which is a 500.
pub dispatch_problem-status :
    (e : Exception) (correlation_id : Option String) (is_prod : Bool)
    → let sent = dispatch_problem e correlation_id is_prod in
      (sent.status ≡ sent.body.status)
      × ((sent.status ≡ 500)
          ⊎ ((sent.status ≡ 422) ⊎ ((response : Response) × (e ≡ http sent.status response))))
unfolding dispatch_problem resolve_http_problem build_problem_from_status build_validation_problem
dispatch_problem-status (http status (validation errors)) c p = (refl, inr (inl refl))
dispatch_problem-status (http status (problem slug title detail)) c p = (refl, inr (inr (_, refl)))
dispatch_problem-status (http status (text detail)) c p = (refl, inr (inr (_, refl)))
dispatch_problem-status (http status (object message)) c p = (refl, inr (inr (_, refl)))
dispatch_problem-status (query_failed code) c p = (refl, inl refl)
dispatch_problem-status (other message) c p = (refl, inl refl)

-- The failed constraints of all errors.
pub failed_constraints : List ClassValidatorError → ℕ
failed_constraints [] = 0
failed_constraints (e ∷ es) = length e.constraints + failed_constraints es

length-map : {A B : Type 0} (f : A → B) (xs : List A) → length (map f xs) ≡ length xs
length-map f [] = refl
length-map f (x ∷ xs) = ap suc (length-map f xs)

-- Each failed constraint gives one entry.
length-map_validation_errors :
    (errors : List ClassValidatorError)
    → length (map_validation_errors errors) ≡ failed_constraints errors
unfolding map_validation_errors expand_validator_error failed_constraints
length-map_validation_errors [] = refl
length-map_validation_errors (e ∷ es) = omega (
  arith,
  length-append (expand_validator_error e) (map_validation_errors es),
  length-map (constraint_to_entry e.property) e.constraints,
  length-map_validation_errors es,
)
