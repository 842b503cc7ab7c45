-- ===== src/Web/Register.antt =====
-- What a registration form must hold: apps/web/src/pages/RegisterPage.tsx in the browser, and
-- apps/api/src/auth/dto/register.dto.ts in the API. class-validator's tests of a text's length and of
-- an email address are parameters.
pub mod Accepted
use Prim.Native.Char.{code}
use Prim.Native.String
use mikrouli.Common.{
  ℕ, String, Bool, true, false, not, Option, none, some, ◌&&◌, ◌||◌, ◌==◌, leb, if◌then◌else◌,
}
use mikrouli.Redirect.{js_length}
use mikrouli.Web.{ApiError, Cause, api_error, error, unknown, Answer, resolved, rejected}
use mikrouli.Web.Regex.{is_upper, is_lower, is_digit, is_space, is_line_terminator}

-- A class of characters, tested anywhere in a text.
abbrev pub has : (ℕ → Bool) → String → Bool
has class String.[] = false
has class (String.◌∷◌ c s) = class (code c) || has class s

unfoldable pub validate_password : String → Option String
validate_password password =
    let has_length = leb 8 (js_length password) in
    let has_mixed_case = has is_upper password && has is_lower password in
    let has_digit = has is_digit password in
    if not has_length || not has_mixed_case || not has_digit
    then some "auth:passwordValidationError"
    else none

-- `[^\s@]+$`
abbrev pub ends_plain : String → Bool
ends_plain String.[] = false
ends_plain (String.◌∷◌ c String.[]) = not (is_space (code c) || code c == b'@')
ends_plain (String.◌∷◌ c (String.◌∷◌ d s)) =
    not (is_space (code c) || code c == b'@') && ends_plain (String.◌∷◌ d s)

-- `[^\s@]*\.[^\s@]+$`
abbrev pub dotted : String → Bool
dotted String.[] = false
dotted (String.◌∷◌ c s) =
    (code c == b'.' && ends_plain s) || (not (is_space (code c) || code c == b'@') && dotted s)

-- `[^\s@]+\.[^\s@]+$`
abbrev pub domain : String → Bool
domain String.[] = false
domain (String.◌∷◌ c s) = not (is_space (code c) || code c == b'@') && dotted s

-- `[^\s@]*@[^\s@]+\.[^\s@]+$`
abbrev pub addressed : String → Bool
addressed String.[] = false
addressed (String.◌∷◌ c s) =
    (code c == b'@' && domain s) || (not (is_space (code c) || code c == b'@') && addressed s)

-- `EMAIL_PATTERN`
abbrev pub email_pattern : String → Bool
email_pattern String.[] = false
email_pattern (String.◌∷◌ c s) = not (is_space (code c) || code c == b'@') && addressed s

pub record RegisterFormErrors : Type 0 where
  pub email : Option String
  pub password : Option String

unfoldable pub validate_register_form : String → String → RegisterFormErrors
unfolding validate_password
validate_register_form email password = record {
  email = if not (email_pattern email) then some "auth:invalidEmail" else none;
  password = validate_password password;
}

-- `(?=.*X)` at the start of a text, for a class X.
abbrev pub ahead : (ℕ → Bool) → String → Bool
ahead class String.[] = false
ahead class (String.◌∷◌ c s) =
    class (code c) || (not (is_line_terminator (code c)) && ahead class s)

-- `PASSWORD_COMPLEXITY_PATTERN`, at some place of a text.
abbrev pub is_complex : String → Bool
is_complex String.[] = false
is_complex (String.◌∷◌ c s) =
    (ahead is_upper (String.◌∷◌ c s)
      && (ahead is_lower (String.◌∷◌ c s) && ahead is_digit (String.◌∷◌ c s)))
    || is_complex s

-- class-validator: `minLength`, `maxLength` and `isEmail`.
pub record ClassValidator : Type 0 where
  pub min_length : String → ℕ → Bool
  pub max_length : String → ℕ → Bool
  pub is_email : String → Bool

module _ (validator : ClassValidator) where
  unfoldable pub accepts_password : String → Bool
  accepts_password password =
      validator.min_length password 8 && (validator.max_length password 128 && is_complex password)

  -- `RegisterDto`
  unfoldable pub accepts_registration : String → String → Bool
  unfolding accepts_password
  accepts_registration email password =
      (validator.is_email email && validator.max_length email 255) && accepts_password password
