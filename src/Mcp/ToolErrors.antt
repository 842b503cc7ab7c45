-- ===== src/Mcp/ToolErrors.antt =====
-- The errors of the tool in apps/api/src/mcp/create-short-link.handler.ts and mcp-error-mapper.ts.
use mikrouli.Common.{ℕ, String, Option, List, [], ◌∷◌, ◌≡◌, ◌≢◌, ◌⊎◌, inl, inr, refl, arith}
use mikrouli.Http.{
  ClassValidatorError, Response, http, query_failed, other, ok, throw, Result-cases, validation,
  monthly_link_limit_exceeded,
}
use mikrouli.Io.{Io}
use mikrouli.Services.{Link}
use mikrouli.Problems.{build_problem_from_status, title_of, status_slug}
use mikrouli.Mcp.{
  CallToolResult, tool_error, map_http_exception_to_tool_error, create_short_link_handler,
  as_tool_error,
}

List-cases : {A : Type 0} (xs : List A) → (xs ≡ []) ⊎ ((x : A) × (ys : List A) × (xs ≡ x ∷ ys))
List-cases [] = inl refl
List-cases (x ∷ xs) = inr (x, xs, refl)

as_tool_error-quota :
    {S : Type 0} (s : S)
    → as_tool_error monthly_link_limit_exceeded s ≡ (ok (tool_error "429 Unknown"), s)
unfolding as_tool_error map_http_exception_to_tool_error build_problem_from_status title_of
    status_slug
as_tool_error-quota s = refl

module _ {S : Type 0} (validate : String → Option String → List ClassValidatorError)
    (parse_date : Option String → Option ℕ) (create : String → String → Option ℕ → Io S Link)
    (user base url : String) (expires_at : Option String) where
  abbrev handler : Io S CallToolResult
  handler = create_short_link_handler validate parse_date create user base url expires_at

  -- The tool never lets an HttpException out: it is always answered as an error of the tool.
  pub create_short_link_handler-ne-http :
      (s : S) (status : ℕ) (response : Response) → (handler s).0 ≢ throw (http status response)
  unfolding create_short_link_handler as_tool_error
  create_short_link_handler-ne-http s status response h =
      elim (List-cases (validate url expires_at)) [
        | inl e ↦ elim (Result-cases (create url user (parse_date expires_at) s).0) [
          | inl (link, f) ↦ ground arith
          | inr (http status' response', f) ↦ ground arith
          | inr (query_failed code, f) ↦ ground arith
          | inr (other message, f) ↦ ground arith
        ]
        | inr (x, xs, e) ↦ ground arith
      ]

  -- Input that breaks a rule is answered with the 422 of all its errors, and no link is asked for:
  -- the state is as it was.
  pub create_short_link_handler-invalid :
      (s : S) (e : ClassValidatorError) (es : List ClassValidatorError)
      → validate url expires_at ≡ e ∷ es
      → handler s ≡ (ok (map_http_exception_to_tool_error 422 (validation (e ∷ es))), s)
  unfolding create_short_link_handler as_tool_error
  create_short_link_handler-invalid s e es h = ground arith

  -- A user over the monthly quota gets the text "429 Unknown", without the title and the detail that
  -- the REST interface sends.
  pub create_short_link_handler_quota :
      (s : S)
      → validate url expires_at ≡ []
      → (create url user (parse_date expires_at) s).0 ≡ throw monthly_link_limit_exceeded
      → (handler s).0 ≡ ok (tool_error "429 Unknown")
  unfolding create_short_link_handler
  create_short_link_handler_quota s valid over =
      ground (arith, as_tool_error-quota (create url user (parse_date expires_at) s).1)
