-- ===== src/Web.antt =====
-- The web client in apps/web/src: what its pages do, without what they draw. React's state is a
-- record for a page, an awaited call is what is done before it and what is done with its answer.
pub mod Client
pub mod Clipboard
pub mod ThemeMode
pub mod GuestFlag
pub mod Register
pub mod Session
pub mod Shorten
pub mod Regex
pub mod Dashboard
use mikrouli.Common.{ℕ, String, Option}

-- `ApiError` of api/client.ts
pub record ApiError : Type 0 where
  pub status : ℕ
  pub message : String
  pub problem_type : Option String
  pub correlation_id : Option String

-- What a handler may catch: the client's error, any other `Error` by its message, or another value.
pub data Cause : Type 0 where
  api_error : ApiError → Cause
  error : String → Cause
  unknown : Cause

-- How a promise settles.
pub data Answer (A : Type 0) : Type 0 where
  resolved : A → Answer A
  rejected : Cause → Answer A
