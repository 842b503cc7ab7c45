-- ===== src/Web/GuestFlag/Served.antt =====
-- What a page that reads the served flag shows, beside what the API's guard does.
use Prim.Native.Char.{Char, code}
use mikrouli.Common.{
  ℕ, ◌&&◌, sym, ◌∙◌, or_else, str_eq, eq_iff, ◌+◌, ◌≤◌, ◌==◌, ◌||◌, String, Bool, true, false,
  Option, some, ◌≡◌, ◌⊎◌, refl, ap, inl, inr, arith, Bool-cases, if◌then◌else◌,
}
use mikrouli.Http.{throw, unauthorized}
use mikrouli.Io.{Io, pure, ◌>>=◌}
use mikrouli.Urls.{UrlLibrary}
use mikrouli.Links.Controller.{AuthenticatedUser}
use mikrouli.ApiKeys.Guards.{
  Request, letter, is_true, carries_api_credential, is_truthy_flag, is_browser_request,
  resolve_allowed_hostnames, guest_or_authenticated_guard,
}
use mikrouli.Web.{resolved}
use mikrouli.Web.Regex.{is_upper}
use mikrouli.Web.GuestFlag.{
  lower, lowers_to, GuestFlagState, enabled, disabled, emit, served_body, parse_config_body,
  fetch_guest_flag, use_guest_shorten_enabled,
}

-- The state of a page that has read what the web server emits.
abbrev pub shown : Option String → GuestFlagState
shown raw =
    use_guest_shorten_enabled
      (some (fetch_guest_flag (resolved (record { ok = true; text = emit raw }))))

parse-served : (flag : Bool) → parse_config_body (served_body flag) ≡ flag
unfolding parse_config_body
parse-served true = refl
parse-served false = refl

state_of : Bool → GuestFlagState
state_of flag = if flag then enabled else disabled

lower-or : (n u : ℕ) → 65 ≤ u → u ≤ 90 → (lower n == u + 32) ≡ (n == u || n == u + 32)
lower-or n u low high = elim (Bool-cases (is_upper n)) [
  | inl e ↦ ground arith
  | inr e ↦ ground arith
]

-- The first letter and the rest.
lowers_to-letter :
    (d : Char) (small : String) (u : ℕ) (f : String → Bool)
    → 65 ≤ u
    → u ≤ 90
    → code d ≡ u + 32
    → ((s : String) → lowers_to s small ≡ f s)
    → (s : String)
    → lowers_to s (String.◌∷◌ d small) ≡ (let (t, rest) = letter u (code d) s in t && f rest)
unfolding letter
lowers_to-letter d small u f low high e h String.[] = refl
lowers_to-letter d small u f low high e h (String.◌∷◌ c s) =
    ap (λ k. lower (code c) == k && lowers_to s small) e
    ∙ ap (λ b. b && lowers_to s small) (lower-or (code c) u low high)
    ∙ ap (λ b. (code c == u || code c == u + 32) && b) (h s)
    ∙ ap (λ k. (code c == u || code c == k) && f s) (sym e)

abbrev is_empty : String → Bool
is_empty String.[] = true
is_empty (String.◌∷◌ c s) = false

lowers_to-nothing : (s : String) → lowers_to s "" ≡ str_eq s ""
lowers_to-nothing String.[] = refl
lowers_to-nothing (String.◌∷◌ c s) = elim (Bool-cases (str_eq (String.◌∷◌ c s) "")) [
  | inl e ↦ absurd (ground (arith, ap is_empty ((eq_iff (String.◌∷◌ c s) "").0 e)))
  | inr e ↦ sym e
]

lowers_to-is_true : (raw : String) → lowers_to raw "true" ≡ is_true raw
unfolding is_true letter
lowers_to-is_true = lowers_to-letter "t" "rue" b'T' _ (omega arith) (omega arith) refl (
    lowers_to-letter "r" "ue" b'R' _ (omega arith) (omega arith) refl (
      lowers_to-letter "u" "e" b'U' _ (omega arith) (omega arith) refl
        (lowers_to-letter "e" "" b'E' _ (omega arith) (omega arith) refl lowers_to-nothing)))

shown-state_of :
    (raw : Option String) (flag : Bool) → is_truthy_flag raw ≡ flag → shown raw ≡ state_of flag
unfolding emit is_truthy_flag parse_config_body state_of fetch_guest_flag use_guest_shorten_enabled
shown-state_of raw true e =
    ap (λ b. use_guest_shorten_enabled (some (resolved (parse_config_body (served_body b)))))
      (lowers_to-is_true (or_else raw "true") ∙ e)
shown-state_of raw false e =
    ap (λ b. use_guest_shorten_enabled (some (resolved (parse_config_body (served_body b)))))
      (lowers_to-is_true (or_else raw "true") ∙ e)

-- To a browser's request that comes from the site and carries no credential, the page and the API
-- agree, where the web server has the same value of the flag's variable: either the page shows its form and the request is let in as the Guest's, or the page hides
-- it and the request is refused.
pub served_flag-guard :
    {S : Type 0} (library : UrlLibrary) (config : String → Option String)
    (credentialed : Request → Io S AuthenticatedUser) (get_guest_user_id : Io S String)
    (req : Request) (s : S)
    → carries_api_credential req ≡ false
    → is_browser_request library req (resolve_allowed_hostnames library config req) ≡ true
    → ((shown (config "GUEST_SHORTEN_ENABLED") ≡ enabled)
        × (guest_or_authenticated_guard library config credentialed get_guest_user_id req s
            ≡ (get_guest_user_id >>= λ guest. pure (record { id = guest; is_guest = true })) s))
      ⊎ ((shown (config "GUEST_SHORTEN_ENABLED") ≡ disabled)
          × (guest_or_authenticated_guard library config credentialed get_guest_user_id req s
              ≡ (throw unauthorized, s)))
unfolding guest_or_authenticated_guard state_of
served_flag-guard library config credentialed get_guest_user_id req s bare from_site =
    elim (Bool-cases (is_truthy_flag (config "GUEST_SHORTEN_ENABLED"))) [
      | inl e ↦ inl (shown-state_of (config "GUEST_SHORTEN_ENABLED") true e, ground arith)
      | inr e ↦ inr (shown-state_of (config "GUEST_SHORTEN_ENABLED") false e, ground arith)
    ]
