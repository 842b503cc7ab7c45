-- ===== src/Correlation/Trip.antt =====
-- The correlation id of a call from apps/web/src/api/client.ts through the API and back.
use mikrouli.Common.{
  String, Bool, true, false, not, Option, some, List, [], ◌∷◌, ◌++◌, map, is_some, ◌≡◌, refl, ap,
  ◌∙◌, arith, str_eq, if◌then◌else◌,
}
use mikrouli.Http.{Exception, http, query_failed, other}
use mikrouli.Problems.{Sent, dispatch_problem}
use mikrouli.Correlation.{correlation_id_of, with_correlation_id}
use mikrouli.Web.{ApiError, resolved, rejected, api_error}
use mikrouli.Web.Client.{
  FetchRequest, FetchResponse, build_request, api_fetch, answer_of, build_api_error,
}
use mikrouli.Web.Client.Errors.{received}

-- The names of the headers that the client sends, in lower case.
abbrev pub lower_name : String → String
lower_name name =
    if str_eq name "X-Correlation-ID"
    then "x-correlation-id"
    else if str_eq name "Content-Type"
    then "content-type"
    else name

node_headers : List (String × String) → List (String × String)
node_headers headers = map (λ (h : String × String). (lower_name h.0, h.1)) headers

-- The API refuses a request with an exception.
unfoldable pub refusal : Exception → Bool → String → FetchRequest → Sent
unfolding node_headers
refusal e is_prod fresh request =
    (with_correlation_id (node_headers request.headers) fresh
      (λ id. dispatch_problem e id is_prod)).1

sent-correlation_id :
    (e : Exception) (id : Option String) (is_prod : Bool)
    → (dispatch_problem e id is_prod).correlation_id ≡ id
unfolding dispatch_problem
sent-correlation_id (http status response) id is_prod = refl
sent-correlation_id (query_failed code) id is_prod = refl
sent-correlation_id (other message) id is_prod = refl

headers-id :
    (has_body is_get : Bool) (id fresh : String)
    → correlation_id_of
        (node_headers (
          (if not has_body
            then []
            else if is_get
            then []
            else ("Content-Type", "application/json") ∷ [])
          ++ ("X-Correlation-ID", id) ∷ []))
        fresh
      ≡ id
unfolding correlation_id_of node_headers
headers-id true true id fresh = refl
headers-id true false id fresh = refl
headers-id false is_get id fresh = refl

build_request-id :
    (encode : String → String) (path method : String) (body : Option String)
    (params : Option (List (String × String))) (id fresh : String)
    → correlation_id_of
        (node_headers (build_request encode path method body params id).headers)
        fresh
      ≡ id
unfolding build_request
build_request-id encode path method body params id fresh =
    headers-id (is_some body) (str_eq method "GET") id fresh

answer_of-refused :
    {A : Type 0} (response : FetchResponse A) (id : String)
    → response.ok ≡ false
    → response.correlation_id ≡ some id
    → (err : ApiError) × (answer_of response ≡ rejected (api_error err))
      × (err.correlation_id ≡ some id)
unfolding answer_of build_api_error
answer_of-refused response id refused e = (build_api_error response, ground arith, e)

module _ {A : Type 0} where
  -- A call that the API refuses, with whichever exception whose status the browser does not take for
  -- a success, rejects with an error that carries the correlation id that the call was sent with.
  pub api_fetch-correlation_id :
      (encode : String → String) (path method : String) (body : Option String)
      (params : Option (List (String × String))) (id fresh status_text : String) (e : Exception)
      (is_prod : Bool)
      → let request = build_request encode path method body params id in
        let response : FetchResponse A = received status_text (refusal e is_prod fresh request) in
        response.ok ≡ false
        → (err : ApiError) × (api_fetch {A = A}
              (λ r. resolved (received status_text (refusal e is_prod fresh r)))
              request
            ≡ rejected (api_error err))
          × (err.correlation_id ≡ some id)
  unfolding api_fetch received refusal with_correlation_id
  api_fetch-correlation_id encode path method body params id fresh status_text e is_prod refused =
      let request = build_request encode path method body params id in
      answer_of-refused (received status_text (refusal e is_prod fresh request)) id refused (
        sent-correlation_id e (some (correlation_id_of (node_headers request.headers) fresh))
          is_prod
        ∙ ap some (build_request-id encode path method body params id fresh))
