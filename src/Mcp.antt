-- ===== src/Mcp.antt =====
-- apps/api/src/mcp: the tool that creates a short link, and its errors. `validate` is
-- class-validator on CreateLinkDto: the errors it finds. `parse_date` is the expiry as the dto's
-- transformation makes it. Times go out as they are.
pub mod ToolErrors
use Prim.Native.Char.{code}
use Prim.Native.String
use mikrouli.Common.{
  ℕ, zero, suc, ◌/◌, ◌%◌, String, Bool, true, false, Option, none, some, List, [], ◌∷◌, ◌++◌, map,
  ltb, ◌==◌, str_eq, or_else, get_elem?, if◌then◌else◌,
}
use mikrouli.Http.{
  ClassValidatorError, Response, text, object, validation, problem, Exception, http, query_failed,
  other, Result, ok, throw,
}
use mikrouli.Io.{App, Io, pure, raise, catch, continue, ◌>>=◌}
use mikrouli.Services.{Link}
use mikrouli.Links.Controller.{PublicLink, to_public_link_schema}
use mikrouli.Problems.{build_problem_from_status}

-- `CallToolResult`: an error with its text, or the text with its structured content, the public link
-- and the full short link.
pub data CallToolResult : Type 0 where
  tool_error : String → CallToolResult
  created : String → PublicLink → String → CallToolResult

abbrev digits : List String
digits = "0" ∷ "1" ∷ "2" ∷ "3" ∷ "4" ∷ "5" ∷ "6" ∷ "7" ∷ "8" ∷ "9" ∷ []

abbrev digit : ℕ → String
digit n = or_else (get_elem? digits n) ""

decimal_within : ℕ → ℕ → String
decimal_within zero n = ""
decimal_within (suc fuel) n =
    let rest = decimal_within fuel (n / 10) in
    if ltb n 10 then digit n else String.◌++◌ rest (digit (n % 10))

-- A number in decimal, as a template literal prints it; n + 1 digits are enough.
unfoldable pub decimal : ℕ → String
unfolding decimal_within
decimal n = decimal_within (suc n) n

infixr 6 ◌&◌
abbrev ◌&◌ : String → String → String
a & b = String.◌++◌ a b

field_errors : String → List (String × String) → List String
field_errors property [] = []
field_errors property ((rule, message) ∷ constraints) =
    (property & ": " & message & " (" & rule & ")") ∷ field_errors property constraints

all_field_errors : List ClassValidatorError → List String
unfolding field_errors
all_field_errors [] = []
all_field_errors (e ∷ es) = field_errors e.property e.constraints ++ all_field_errors es

-- `entries.join(', ')`
join_comma : List String → String
join_comma [] = ""
join_comma (x ∷ []) = x
join_comma (x ∷ (y ∷ ys)) = x & ", " & join_comma (y ∷ ys)

suffix_of : List String → String
unfolding join_comma
suffix_of [] = ""
suffix_of (x ∷ xs) = "; field errors: " & join_comma (x ∷ xs)

unfoldable pub format_field_errors : List ClassValidatorError → String
unfolding all_field_errors suffix_of
format_field_errors errors = suffix_of (all_field_errors errors)

-- An empty detail is falsy.
detail_suffix : String → String
detail_suffix detail = if str_eq detail "" then "" else ": " & detail

-- An UnprocessableEntityException is the one whose status is 422.
error_suffix : ℕ → Response → String
unfolding format_field_errors detail_suffix
error_suffix status (validation errors) =
    if status == 422 then ": Unprocessable Entity" & format_field_errors errors else ""
error_suffix status (text detail) = detail_suffix detail
error_suffix status (object message) = ""
error_suffix status (problem slug title detail) = ""

unfoldable pub map_http_exception_to_tool_error : ℕ → Response → CallToolResult
unfolding error_suffix decimal
map_http_exception_to_tool_error status response =
    let found = build_problem_from_status status none in
    tool_error (decimal status & " " & found.title & error_suffix status response)

-- `baseUrl.replace(/\/$/, '')`
without_slash : String → String
without_slash String.[] = ""
without_slash (String.◌∷◌ c String.[]) = if code c == b'/' then "" else String.◌∷◌ c String.[]
without_slash (String.◌∷◌ c (String.◌∷◌ d s)) = String.◌∷◌ c (without_slash (String.◌∷◌ d s))

tool_answer : String → Link → CallToolResult
tool_answer base link =
    let public = to_public_link_schema link in
    let short_link = base & "/" & public.short_url in created short_link public short_link

module _ {S : Type 0} where
  -- The `catch` of both calls.
  unfoldable pub as_tool_error : Exception → Io S CallToolResult
  as_tool_error (http status response) = pure (map_http_exception_to_tool_error status response)
  as_tool_error (query_failed code) = raise (query_failed code)
  as_tool_error (other message) = raise (other message)

  validated_input : List ClassValidatorError → Io S (Unit {0})
  validated_input [] = pure tt
  validated_input (e ∷ es) = raise (http 422 (validation (e ∷ es)))

  -- `try { x = await m; } catch (err) { return e(err); }` and what follows with `x`.
  attempt : {A B : Type 0} → Result A → (Exception → Io S B) → (A → Io S B) → Io S B
  attempt (ok a) e k = k a
  attempt (throw err) e k = e err

  -- The handler over `linksService.create`.
  unfoldable pub create_short_link_handler :
      (String → Option String → List ClassValidatorError)
      → (Option String → Option ℕ)
      → (String → String → Option ℕ → Io S Link)
      → String
      → String
      → String
      → Option String
      → Io S CallToolResult
  unfolding validated_input tool_answer attempt without_slash
  create_short_link_handler validate parse_date create user_id base_url url expires_at s =
      let (checked, s1) = validated_input (validate url expires_at) s in
      attempt checked as_tool_error
        (λ _ s.
          let (made, s2) = create url user_id (parse_date expires_at) s in
          attempt made as_tool_error (λ link. pure (tool_answer (without_slash base_url) link)) s2)
        s1
