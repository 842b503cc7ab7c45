-- ===== src/Web/Dashboard.antt =====
-- apps/web/src/pages/DashboardPage.tsx: the page as a machine over what its reader does and how its
-- calls settle. What a control does is a function on the page; a control that is not shown, or is
-- disabled, does nothing.
pub mod Controls
pub mod Correction
pub mod Listing
pub mod Retire
pub mod Saving
use Prim.Native.Char.{code}
use Prim.Native.String
use text.Mathlib.Text.{starts_with}
use mikrouli.Common.{
  ℕ, zero, suc, ◌+◌, String, Bool, true, false, ltb, length, ◌==◌, str_eq, Option, none, some,
  is_some, List, [], ◌∷◌, if◌then◌else◌,
}
use mikrouli.Auth.{truthy}
use mikrouli.Links.Controller.{PublicLink}
use mikrouli.Web.{Cause, Answer, resolved, rejected}
use mikrouli.Web.Client.{extract_error_message}

pub data Phase : Type 0 where
  editing saving : Phase

pub record CorrectionState : Type 0 where
  pub slug : String
  pub phase : Phase
  pub error : Option String

pub data CorrectionAction : Type 0 where
  open_at : String → CorrectionAction
  save : CorrectionAction
  refuse : String → CorrectionAction
  close : CorrectionAction

unfoldable pub correction_reducer :
    Option CorrectionState → CorrectionAction → Option CorrectionState
correction_reducer state (open_at slug) =
    some (record { slug = slug; phase = editing; error = none })
correction_reducer none save = none
correction_reducer (some state) save = some (record state { phase = saving })
correction_reducer none (refuse message) = none
correction_reducer (some state) (refuse message) =
    some (record state { phase = editing; error = some message })
correction_reducer state close = none

-- The page: its query of the links, its own state, and the calls that have not settled: the slugs
-- of the updates, the latest first, and how many deletions.
pub record Page : Type 0 where
  pub links : List PublicLink
  pub links_error : Option Cause
  pub links_loading : Bool
  pub page_error : Option String
  pub fragment : String
  pub retire_candidate : Option String
  pub correction : Option CorrectionState
  pub updating : List String
  pub deleting : ℕ
  pub refetches : ℕ

abbrev pub mounted : Page
mounted = record {
  links = [];
  links_error = none;
  links_loading = true;
  page_error = none;
  fragment = "";
  retire_candidate = none;
  correction = none;
  updating = [];
  deleting = 0;
  refetches = 0;
}

abbrev pub invalidate_links : Page → Page
invalidate_links page = record page { refetches = suc page.refetches }

abbrev pub dispatch_correction : CorrectionAction → Page → Page
unfolding correction_reducer
dispatch_correction action page = record page {
  correction = correction_reducer page.correction action;
}

abbrev pub handle_shortened : Page → Page
handle_shortened page = invalidate_links page

-- `handleConfirmCorrection` up to the update that it sends.
abbrev pub send_update : String → Page → Page
send_update slug page = record (dispatch_correction save page) { updating = slug ∷ page.updating }

-- The confirm stands in the row that is under correction, and is disabled while it is saved.
abbrev pub confirm_shown : Option CorrectionState → Page → Page
confirm_shown none page = page
confirm_shown (some state) page = elim state.phase [
  | editing ↦ send_update state.slug page
  | saving ↦ page
]

unfoldable pub confirm_correction : Page → Page
confirm_correction page = confirm_shown page.correction page

-- What `handleConfirmCorrection` does when an update has settled.
unfoldable pub update_settled : Answer Unit → Page → Page
update_settled (resolved answer) page = invalidate_links (dispatch_correction close page)
update_settled (rejected cause) page =
    dispatch_correction (refuse (extract_error_message cause)) page

abbrev pub cancel_shown : Option CorrectionState → Page → Page
cancel_shown none page = page
cancel_shown (some state) page = elim state.phase [
  | editing ↦ dispatch_correction close page
  | saving ↦ page
]

unfoldable pub cancel_correction : Page → Page
cancel_correction page = cancel_shown page.correction page

-- `handleRetireConfirm` up to the deletion that it sends.
unfoldable pub retire_confirmed : Page → Page
retire_confirmed page = elim (truthy page.retire_candidate) [
  | none ↦ page
  | some slug ↦ record page { deleting = suc page.deleting }
]

unfoldable pub delete_settled : Answer Unit → Page → Page
delete_settled (resolved answer) page = invalidate_links (record page { retire_candidate = none })
delete_settled (rejected cause) page = record page {
  retire_candidate = none;
  page_error = some (extract_error_message cause);
}

abbrev pub without_nth : ℕ → List String → List String
without_nth n [] = []
without_nth zero (x ∷ xs) = xs
without_nth (suc n) (x ∷ xs) = x ∷ without_nth n xs

pub data Event : Type 0 where
  -- The query of the links has another state.
  queried : List PublicLink → Option Cause → Bool → Event
  shortened : Event
  narrow : String → Event
  open_correction : String → Event
  confirm : Event
  cancel : Event
  -- The update at a place among those under way settles.
  settle_update : ℕ → Answer Unit → Event
  choose : String → Event
  cancel_retire : Event
  confirm_retire : Event
  settle_delete : Answer Unit → Event

-- A call that is not under way does not settle.
unfoldable pub settle_update_at : ℕ → Answer Unit → Page → Page
unfolding update_settled
settle_update_at n answer page =
    if ltb n (length page.updating)
    then record (update_settled answer page) { updating = without_nth n page.updating }
    else page

abbrev pub settle_delete_of : Answer Unit → ℕ → Page → Page
unfolding delete_settled
settle_delete_of answer zero page = page
settle_delete_of answer (suc n) page = record (delete_settled answer page) { deleting = n }

unfoldable pub step : Event → Page → Page
unfolding confirm_correction cancel_correction retire_confirmed
step (queried links error loading) page = record page {
  links = links;
  links_error = error;
  links_loading = loading;
}
step shortened page = handle_shortened page
step (narrow fragment) page = record page { fragment = fragment }
step (open_correction slug) page = dispatch_correction (open_at slug) page
step confirm page = confirm_correction page
step cancel page = cancel_correction page
step (settle_update n answer) page = settle_update_at n answer page
step (choose slug) page = record page { retire_candidate = some slug }
step cancel_retire page = record page { retire_candidate = none }
step confirm_retire page = retire_confirmed page
step (settle_delete answer) page = settle_delete_of answer page.deleting page

abbrev pub run : List Event → Page → Page
run [] page = page
run (e ∷ es) page = run es (step e page)

-- The correction of a row, where it is the one under correction.
unfoldable pub active_correction : Option CorrectionState → String → Option CorrectionState
active_correction none slug = none
active_correction (some state) slug = if str_eq state.slug slug then some state else none
