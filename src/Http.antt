-- ===== src/Http.antt =====
-- The exceptions of apps/api/src: NestJS's `HttpException` with its status and response, TypeORM's
-- `QueryFailedError` with the driver's code, and any other error with its message. `Result` is what
-- a function returns that may throw one.
use mikrouli.Common.{ℕ, String, List, ◌≡◌, refl, ◌⊎◌, inl, inr}

-- A class-validator error: a property and its failed constraints, each a rule and its message.
pub record ClassValidatorError : Type 0 where
  pub property : String
  pub constraints : List (String × String)

-- What `exc.getResponse()` returns, as far as the code tells responses apart.
pub data Response : Type 0 where
  text : String → Response
  object : String → Response
  validation : List ClassValidatorError → Response
  problem : String → String → String → Response

pub data Exception : Type 0 where
  http : ℕ → Response → Exception
  query_failed : String → Exception
  other : String → Exception

pub data Result {ℓ} (A : Type ℓ) : Type ℓ where
  ok : A → Result A
  throw : Exception → Result A

pub Result-cases {ℓ} :
    {A : Type ℓ} (r : Result A) → ((a : A) × (r ≡ ok a)) ⊎ ((e : Exception) × (r ≡ throw e))
Result-cases (ok a) = inl (a, refl)
Result-cases (throw e) = inr (e, refl)

-- NestJS's built-in classes wrap their message in an object.
abbrev pub not_found : String → Exception
not_found m = http 404 (object m)

abbrev pub unauthorized : Exception
unauthorized = http 401 (object "Unauthorized")

abbrev pub forbidden : Exception
forbidden = http 403 (object "Forbidden")

abbrev pub conflict : String → Exception
conflict m = http 409 (object m)

abbrev pub service_unavailable : String → Exception
service_unavailable m = http 503 (object m)

-- usage.errors.ts
abbrev pub monthly_link_limit_exceeded : Exception
monthly_link_limit_exceeded = http 429 (
    problem "monthly-link-limit-exceeded" "Monthly link limit reached"
      "You have reached your monthly short-link creation limit. Please try again next month or contact support to increase your allowance.")

abbrev pub monthly_key_limit_exceeded : Exception
monthly_key_limit_exceeded = http 429 (
    problem "monthly-key-limit-exceeded" "Monthly API key limit reached"
      "You have reached your monthly API key creation limit. Please try again next month or contact support to increase your allowance.")

-- auth/github-oauth.errors.ts
abbrev pub github_no_verified_email : Exception
github_no_verified_email = http 422 (
    problem "github-no-verified-email" "No Verified Email"
      "This GitHub account has no verified email address.")

abbrev pub github_oauth_failed : Exception
github_oauth_failed = http 401 (
    problem "github-oauth-failed" "OAuth Authentication Failed"
      "GitHub authentication could not be completed.")
