-- ===== src/Web/GuestFlag.antt =====
-- apps/web/scripts/runtime-config.njs and apps/web/src/hooks/useGuestShortenEnabled.ts: the flag
-- that the web server writes into /config.js, and what the page reads out of it.
pub mod Served
use Prim.Native.String
use Prim.Native.Char.{code}
use text.Mathlib.Text.{starts_with}
use mikrouli.Common.{
  ℕ, ◌+◌, str_eq, or_else, String, Bool, true, false, not, Option, none, some, ◌&&◌, ◌==◌,
  if◌then◌else◌,
}
use mikrouli.Web.{Answer, resolved, rejected}
use mikrouli.Web.Client.{behind}
use mikrouli.Web.Regex.{is_space, is_word, is_upper}

abbrev pub flag_text : Bool → String
flag_text true = "true"
flag_text false = "false"

abbrev pub served_body : Bool → String
served_body flag =
    String.◌++◌ "window.__MIKROULI_CONFIG__ = { guestShortenEnabled: "
      (String.◌++◌ (flag_text flag) " };\n")

-- `toLowerCase` within ASCII; no other character becomes a letter of "true".
abbrev pub lower : ℕ → ℕ
lower c = if is_upper c then c + 32 else c

-- `text.toLowerCase() === small`
abbrev pub lowers_to : String → String → Bool
lowers_to String.[] String.[] = true
lowers_to String.[] (String.◌∷◌ d small) = false
lowers_to (String.◌∷◌ c s) String.[] = false
lowers_to (String.◌∷◌ c s) (String.◌∷◌ d small) = lower (code c) == code d && lowers_to s small

-- `emit`'s body.
unfoldable pub emit : Option String → String
emit raw = served_body (lowers_to (or_else raw "true") "true")

-- `\b` behind a letter
abbrev pub at_word_end : String → Bool
at_word_end String.[] = true
at_word_end (String.◌∷◌ c s) = not (is_word (code c))

-- `\s*`
abbrev pub skip_spaces : String → String
skip_spaces String.[] = ""
skip_spaces (String.◌∷◌ c s) =
    let rest = skip_spaces s in if is_space (code c) then rest else String.◌∷◌ c s

-- `(true|false)\b`
abbrev pub match_literal : String → Option Bool
match_literal s =
    if starts_with s "true" && at_word_end (behind "true" s)
    then some true
    else if starts_with s "false" && at_word_end (behind "false" s)
    then some false
    else none

-- `:\s*(true|false)\b`
abbrev pub match_value : String → Option Bool
match_value String.[] = none
match_value (String.◌∷◌ c s) = if code c == b':' then match_literal (skip_spaces s) else none

-- The pattern at the start of a text.
abbrev pub match_here : String → Option Bool
match_here s =
    if starts_with s "guestShortenEnabled"
    then match_value (skip_spaces (behind "guestShortenEnabled" s))
    else none

-- `raw.match(pattern)`, with the literal that it captures: the first place where it matches.
abbrev pub match : String → Option Bool
match String.[] = none
match (String.◌∷◌ c s) =
    let rest = match s in
    elim (match_here (String.◌∷◌ c s)) [ some literal ↦ some literal | none ↦ rest ]

abbrev pub captured_true : Option Bool → Bool
captured_true none = false
captured_true (some literal) = literal

unfoldable pub parse_config_body : String → Bool
parse_config_body raw = captured_true (match raw)

-- A response to /config.js: whether it is `ok`, and its text.
pub record ConfigResponse : Type 0 where
  pub ok : Bool
  pub text : String

abbrev pub flag_of : ConfigResponse → Bool
unfolding parse_config_body
flag_of response = if not response.ok then false else parse_config_body response.text

unfoldable pub fetch_guest_flag : Answer ConfigResponse → Answer Bool
fetch_guest_flag (resolved response) = resolved (flag_of response)
fetch_guest_flag (rejected cause) = rejected cause

pub data GuestFlagState : Type 0 where
  loading enabled disabled : GuestFlagState

-- The hook over its query: without an answer, the query is loading; after the last retry failed, it
-- has no data.
unfoldable pub use_guest_shorten_enabled : Option (Answer Bool) → GuestFlagState
use_guest_shorten_enabled none = loading
use_guest_shorten_enabled (some (resolved true)) = enabled
use_guest_shorten_enabled (some (resolved false)) = disabled
use_guest_shorten_enabled (some (rejected cause)) = disabled
