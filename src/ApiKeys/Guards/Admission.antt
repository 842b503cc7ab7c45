-- ===== src/ApiKeys/Guards/Admission.antt =====
-- Who is admitted by the guards of apps/api/src/api-keys, and as whom.
use mikrouli.Common.{
  String, true, false, not, Option, none, some, is_some, ◌≡◌, inl, inr, arith, Option-cases,
  Bool-cases, str_eq, or_else,
}
use mikrouli.Http.{ok, Result-cases}
use mikrouli.Io.{Io}
use mikrouli.Services.{JwtPayload}
use mikrouli.Urls.{UrlLibrary}
use mikrouli.Auth.{truthy}
use mikrouli.Links.Controller.{AuthenticatedUser}
use mikrouli.ApiKeys.Guards.Origin.{SaysOwnOrigin, is_browser_request-Says}
use mikrouli.ApiKeys.Guards.{
  Request, jwt, api_key, has_bearer, has_header, has_cookie_token, carries_api_credential,
  choose_auth_method, extract_api_key_header, is_truthy_flag, is_browser_request,
  resolve_allowed_hostnames, jwt_guard, api_key_guard, validate_payload, bearer_or_api_key_guard,
  guest_or_authenticated_guard,
}

-- Whether a request carries a credential, which the throttler and the guest guard ask, is whether
-- the guard of registered users finds a method of authentication.
pub carries_api_credential-choose_auth_method :
    (req : Request) → carries_api_credential req ≡ is_some (choose_auth_method req)
unfolding carries_api_credential choose_auth_method
carries_api_credential-choose_auth_method req = elim (Bool-cases (has_bearer req.authorization)) [
  | inl e ↦ ground arith
  | inr e ↦ elim (Bool-cases (has_header req.x_api_key)) [
    | inl f ↦ ground arith
    | inr f ↦ elim (Bool-cases (has_cookie_token req)) [
      | inl g ↦ ground arith
      | inr g ↦ ground arith
    ]
  ]
]

no_method : (req : Request) → carries_api_credential req ≡ false → choose_auth_method req ≡ none
no_method req h = elim (Option-cases (choose_auth_method req)) [
  | inl e ↦ e
  | inr (m, e) ↦ absurd (ground (arith, carries_api_credential-choose_auth_method req))
]

module _ {S : Type 0} where
  NeverGuest : (Request → Io S AuthenticatedUser) → Type 0
  NeverGuest guard =
      (req : Request) (s : S) (u : AuthenticatedUser) → (guard req s).0 ≡ ok u → u.is_guest ≡ false

  jwt_guard-NeverGuest :
      (verified : Request → Io S (Option JwtPayload)) → NeverGuest (jwt_guard verified)
  unfolding jwt_guard NeverGuest validate_payload
  jwt_guard-NeverGuest verified req s u h = elim (Result-cases (verified req s).0) [
    | inl (none, e) ↦ absurd (ground arith)
    | inl (some payload, e) ↦ elim (Bool-cases (str_eq (or_else payload.type "") "refresh")) [
      | inl r ↦ absurd (ground arith)
      | inr a ↦ ground arith
    ]
    | inr (x, e) ↦ absurd (ground arith)
  ]

  api_key_guard-NeverGuest :
      (validate : String → Io S (Option String)) → NeverGuest (api_key_guard validate)
  unfolding api_key_guard NeverGuest
  api_key_guard-NeverGuest validate req s u h =
      elim (Option-cases (truthy (extract_api_key_header req.x_api_key))) [
        | inl e ↦ absurd (ground arith)
        | inr (key, e) ↦ elim (Result-cases (validate key s).0) [
          | inl (none, f) ↦ absurd (ground arith)
          | inl (some id, f) ↦ ground arith
          | inr (x, f) ↦ absurd (ground arith)
        ]
      ]

  bearer_or_api_key_guard-NeverGuest :
      (first second : Request → Io S AuthenticatedUser)
      → NeverGuest first
      → NeverGuest second
      → NeverGuest (bearer_or_api_key_guard first second)
  unfolding bearer_or_api_key_guard NeverGuest
  bearer_or_api_key_guard-NeverGuest first second f g req s u h =
      elim (Option-cases (choose_auth_method req)) [
        | inl e ↦ absurd (ground arith)
        | inr (jwt, e) ↦ f req s u (ground arith)
        | inr (api_key, e) ↦ g req s u (ground arith)
      ]

  module _ (library : UrlLibrary) (config : String → Option String)
      (verified : Request → Io S (Option JwtPayload)) (validate : String → Io S (Option String))
      (get_guest_user_id : Io S String) where
    -- The guard of the link creation over those of the tokens and of the API keys.
    abbrev pub admit : Request → Io S AuthenticatedUser
    admit =
        guest_or_authenticated_guard library config
          (bearer_or_api_key_guard (jwt_guard verified) (api_key_guard validate)) get_guest_user_id

    admit_uncredentialed :
        (req : Request) (s : S) (u : AuthenticatedUser)
        → (admit req s).0 ≡ ok u
        → carries_api_credential req ≡ false
        → (u.is_guest ≡ true)
          × (is_truthy_flag (config "GUEST_SHORTEN_ENABLED") ≡ true)
          × (is_browser_request library req (resolve_allowed_hostnames library config req) ≡ true)
          × ((get_guest_user_id s).0 ≡ ok u.id)
    unfolding guest_or_authenticated_guard
    admit_uncredentialed req s u h none_e =
        elim (Bool-cases (is_truthy_flag (config "GUEST_SHORTEN_ENABLED"))) [
          | inl on ↦
              elim (Bool-cases
                (is_browser_request library req (resolve_allowed_hostnames library config req))) [
                  | inl browser ↦ elim (Result-cases (get_guest_user_id s).0) [
                    | inl (id, e) ↦ (ground arith, on, browser, ground arith)
                    | inr (x, e) ↦ absurd (ground arith)
                  ]
                  | inr other ↦ absurd (ground arith)
                ]
          | inr off ↦ absurd (ground arith)
        ]

    admit_as_registered :
        (req : Request) (s : S) (u : AuthenticatedUser)
        → (admit req s).0 ≡ ok u
        → carries_api_credential req ≡ true
        → u.is_guest ≡ false
    unfolding guest_or_authenticated_guard NeverGuest
    admit_as_registered req s u h some_e =
        bearer_or_api_key_guard-NeverGuest (jwt_guard verified) (api_key_guard validate)
          (jwt_guard-NeverGuest verified) (api_key_guard-NeverGuest validate) req s u (ground arith)

    -- Whoever is admitted as the Guest carries no credential, so that the guard of registered users finds
    -- no way to authenticate the request, while the operator's flag is on, says in
    -- the Origin header, or in the Referer where there is no Origin, that the request comes from a page
    -- whose host is that of the configured base URL or of the request's Host header, and acts as the
    -- stored Guest. The headers are what the client sends, so this is no proof of a browser.
    pub admit_guest :
        (req : Request) (s : S) (u : AuthenticatedUser)
        → (admit req s).0 ≡ ok u
        → u.is_guest ≡ true
        → (carries_api_credential req ≡ false)
          × (choose_auth_method req ≡ none)
          × (is_truthy_flag (config "GUEST_SHORTEN_ENABLED") ≡ true)
          × SaysOwnOrigin library config req
          × ((get_guest_user_id s).0 ≡ ok u.id)
    admit_guest req s u h guest = elim (Bool-cases (carries_api_credential req)) [
      | inl some_e ↦ absurd (ground (arith, admit_as_registered req s u h some_e))
      | inr none_e ↦
          let (_, on, browser, id) = admit_uncredentialed req s u h none_e in
          (none_e, no_method req none_e, on, is_browser_request-Says library config req browser, id)
    ]

    -- Whoever carries a credential is not admitted as the Guest, and whoever carries none and is
    -- admitted is the Guest.
    pub admit_credentialed :
        (req : Request) (s : S) (u : AuthenticatedUser)
        → (admit req s).0 ≡ ok u
        → u.is_guest ≡ not (carries_api_credential req)
    admit_credentialed req s u h = elim (Bool-cases (carries_api_credential req)) [
      | inl some_e ↦ ground (arith, admit_as_registered req s u h some_e)
      | inr none_e ↦ ground (arith, admit_uncredentialed req s u h none_e)
    ]
