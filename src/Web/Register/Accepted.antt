-- ===== src/Web/Register/Accepted.antt =====
-- The form of apps/web/src/pages/RegisterPage.tsx beside apps/api/src/auth/dto/register.dto.ts.
use Prim.Native.Char.{Char, code}
use mikrouli.Common.{
  ℕ, suc, ◌+◌, ◌≤◌, String, Bool, true, false, ◌≡◌, refl, arith, none, ltb, leb, ◌&&◌, ◌||◌, not,
  if◌then◌else◌,
}
use mikrouli.Redirect.{js_length}
use mikrouli.Web.Regex.{is_upper, is_lower, is_digit, is_line_terminator}
use mikrouli.Web.Register.{
  has, ahead, is_complex, validate_password, ClassValidator, accepts_password,
}

-- The length of a text that counts a surrogate pair once.
abbrev pub characters : String → ℕ
characters String.[] = 0
characters (String.◌∷◌ c s) = suc (characters s)

one_or_two : (b : Bool) (m n : ℕ) → m ≤ n → suc m ≤ (if b then 1 else 2) + n
one_or_two true m n h = omega (arith, h)
one_or_two false m n h = omega (arith, h)

characters-js_length : (s : String) → characters s ≤ js_length s
characters-js_length String.[] = omega arith
characters-js_length (String.◌∷◌ c s) =
    one_or_two (ltb (code c) 65536) (characters s) (js_length s) (characters-js_length s)

-- The parts of a conjunction, and a disjunction from and to its parts.
both : (a b : Bool) → (a && b) ≡ true → (a ≡ true) × (b ≡ true)
both true b h = (refl, h)
both false b h = absurd (ground arith)

either : (a b c : Bool) → (b ≡ true → c ≡ true) → (a || b) ≡ true → (a || c) ≡ true
either true b c f h = refl
either false b c f h = f h

from_either : (a b : Bool) {P : Type 0} → (a ≡ true → P) → (b ≡ true → P) → (a || b) ≡ true → P
from_either true b f g h = f h
from_either false b f g h = g h

right : (a b : Bool) → b ≡ true → (a || b) ≡ true
right true b h = refl
right false b h = h

ahead-has : (class : ℕ → Bool) (s : String) → ahead class s ≡ true → has class s ≡ true
ahead-has class String.[] h = h
ahead-has class (String.◌∷◌ c s) h =
    either (class (code c)) (not (is_line_terminator (code c)) && ahead class s) (has class s)
      (λ k. ahead-has class s (both (not (is_line_terminator (code c))) (ahead class s) k).1) h

-- A complex text has a capital, a small letter and a digit.
HasClasses : String → Type 0
HasClasses s = (has is_upper s ≡ true) × (has is_lower s ≡ true) × (has is_digit s ≡ true)

longer-HasClasses : (c : Char) (s : String) → HasClasses s → HasClasses (String.◌∷◌ c s)
unfolding HasClasses
longer-HasClasses c s (u, l, d) = (
  right (is_upper (code c)) (has is_upper s) u,
  right (is_lower (code c)) (has is_lower s) l,
  right (is_digit (code c)) (has is_digit s) d,
)

is_complex-HasClasses : (s : String) → is_complex s ≡ true → HasClasses s
unfolding HasClasses
is_complex-HasClasses String.[] h = absurd (ground arith)
is_complex-HasClasses (String.◌∷◌ c s) h =
    let t = String.◌∷◌ c s in
    from_either (ahead is_upper t && (ahead is_lower t && ahead is_digit t)) (is_complex s)
      (λ k.
        let (u, more) = both (ahead is_upper t) (ahead is_lower t && ahead is_digit t) k in
        let (l, d) = both (ahead is_lower t) (ahead is_digit t) more in
        (ahead-has is_upper t u, ahead-has is_lower t l, ahead-has is_digit t d))
      (λ k. longer-HasClasses c s (is_complex-HasClasses s k)) h

leb-true : (m n : ℕ) → m ≤ n → leb m n ≡ true
leb-true m n h = ground (arith, h)

-- A password that the API takes is one that the form sends: it refuses none that would have been
-- taken. `min_length` refuses what is shorter, where a surrogate pair counts once.
pub accepts_password-validate_password :
    (validator : ClassValidator) (password : String)
    → ((s : String) (n : ℕ) → validator.min_length s n ≡ true → n ≤ characters s)
    → accepts_password validator password ≡ true
    → validate_password password ≡ none
unfolding accepts_password validate_password HasClasses
accepts_password-validate_password validator password min_length_lem accepted =
    let (long, more) =
      both (validator.min_length password 8)
        (validator.max_length password 128 && is_complex password) accepted in
    let (u, l, d) =
      is_complex-HasClasses password
        (both (validator.max_length password 128) (is_complex password) more).1 in
    let length_ok =
      leb-true 8 (js_length password)
        (omega (arith, min_length_lem password 8 long, characters-js_length password)) in
    ground arith
