-- ===== src/Web/Shorten.antt =====
-- apps/web/src/components/ShortenCard.tsx, and the guest's section of apps/web/src/pages/LandingPage.tsx
-- around it: the card as a machine over what the reader does and how its requests settle.
pub mod Guest
use mikrouli.Common.{
  String, Bool, true, false, not, ◌&&◌, ◌||◌, Option, none, some, is_some, List, [], ◌∷◌, str_eq,
  if◌then◌else◌,
}
use mikrouli.Auth.{PublicUser}
use mikrouli.Links.Controller.{PublicLink}
use mikrouli.Web.{Cause, Answer, resolved, rejected}
use mikrouli.Web.Client.{extract_error_message}
use mikrouli.Web.GuestFlag.{GuestFlagState, loading, enabled, disabled}

-- The card's state, the requests that have not settled by their URLs, and the links that were handed
-- to the host, the last one first.
pub record Card : Type 0 where
  pub url_input : String
  pub loading : Bool
  pub error : Option String
  pub new_link : Option PublicLink
  pub requests : List String
  pub notified : List PublicLink

abbrev pub mounted : Card
mounted = record {
  url_input = "";
  loading = false;
  error = none;
  new_link = none;
  requests = [];
  notified = [];
}

-- The form is shown unless the card is bare and has its link. Its button is disabled while a request
-- is under way, and its field is required.
unfoldable pub may_submit : Bool → Card → Bool
may_submit bare card =
    not (bare && is_some card.new_link) && (not card.loading && not (str_eq card.url_input ""))

-- `handleSubmit` up to the request.
unfoldable pub submit : Bool → Card → Card
unfolding may_submit
submit bare card =
    if may_submit bare card
    then record card { loading = true; requests = card.url_input ∷ card.requests }
    else card

-- `handleSubmit` from the answer on.
unfoldable pub shortened : Answer PublicLink → Card → Card
shortened (resolved link) card = record card {
  new_link = some link;
  error = none;
  url_input = "";
  notified = link ∷ card.notified;
  loading = false;
}
shortened (rejected cause) card = record card {
  error = some (extract_error_message cause);
  loading = false;
}

pub data Event : Type 0 where
  change : String → Event
  press : Event
  settle : Answer PublicLink → Event

-- The oldest request settles; where none is under way nothing does.
unfoldable pub settled : Answer PublicLink → List String → Card → Card
unfolding shortened
settled answer [] card = card
settled answer (url ∷ urls) card = record (shortened answer card) { requests = urls }

unfoldable pub step : Bool → Event → Card → Card
unfolding submit settled
step bare (change text) card = record card { url_input = text }
step bare press card = submit bare card
step bare (settle answer) card = settled answer card.requests card

abbrev pub run : Bool → List Event → Card → Card
run bare [] card = card
run bare (e ∷ es) card = run bare es (step bare e card)

-- What `GuestShortenSection` shows.
pub data Section : Type 0 where
  hidden act : Section
  -- The result, with the register offer or without it.
  moment : PublicLink → Bool → Section

abbrev pub admitted : Option PublicUser → GuestFlagState → Bool
admitted (some user) flag = false
admitted none loading = false
admitted none enabled = true
admitted none disabled = false

-- `momentLink`, which `handleShortened` sets.
abbrev pub moment_link : List PublicLink → Option PublicLink
moment_link [] = none
moment_link (link ∷ links) = some link

unfoldable pub guest_section : Option PublicUser → GuestFlagState → Bool → Card → Section
guest_section user flag offer_declined card =
    if not (admitted user flag) then hidden else elim (moment_link card.notified) [
      | none ↦ act
      | some link ↦ moment link (not offer_declined)
    ]
