-- ===== src/Examples/Web.antt =====
-- Runs of the pages of the web client.
use mikrouli.Common.{
  ℕ, String, true, false, none, some, List, [], ◌∷◌, ◌++◌, ◌≡◌, ◌≢◌, ◌⊎◌, ◌≤◌, refl, arith, leb,
  Bool, suc, length,
}
use mikrouli.Http.{Exception, other, ClassValidatorError, throw, unauthorized, validation, http}
use mikrouli.Io.{Io, pure, ◌>>=◌}
use mikrouli.Links.Controller.{AuthenticatedUser, PublicLink}
use mikrouli.ApiKeys.Guards.{
  Request, guest_or_authenticated_guard, carries_api_credential, is_browser_request,
  resolve_allowed_hostnames,
}
use mikrouli.Problems.{dispatch_problem}
use mikrouli.Web.{ApiError, Cause, api_error, error, Answer, resolved, rejected}
use mikrouli.Correlation.Trip.{refusal, api_fetch-correlation_id}
use mikrouli.Web.Client.{
  build_request, FetchRequest, FetchResponse, api_fetch, extract_error_message,
}
use mikrouli.Web.Client.Errors.{messages, joined, received, api_fetch-validation}
use mikrouli.Web.Clipboard
use mikrouli.Web.GuestFlag.{enabled, disabled}
use mikrouli.Web.GuestFlag.Served.{shown, served_flag-guard}
use mikrouli.Web.Dashboard
use mikrouli.Web.Dashboard.Correction.{opened, confirmed, done, refusal-own_row}
use mikrouli.Web.Dashboard.Listing.{links_set, alert}
use mikrouli.Web.Dashboard.Retire.{refused, other, none_left, refused_delete-alert}
use mikrouli.Web.Register.{ClassValidator, validate_password}
use mikrouli.Web.Register.Accepted.{characters, accepts_password-validate_password}
use mikrouli.Web.Session
use mikrouli.Web.Shorten
use mikrouli.Web.Session.SignedOut
use mikrouli.Web.Session.SignedOut.{step-shown, logout-unprotected, visited}
use mikrouli.Examples.Accounts.{visitor, no_config, guest_id}
use mikrouli.Examples.{library}

-- Two takes, of which the first settles after the second.
abbrev two_takes : List Clipboard.Event
two_takes = Clipboard.take true ∷ Clipboard.take true ∷ []

run-settles_example :
    ((Clipboard.run (two_takes ++ Clipboard.take false ∷ []) Clipboard.fresh).outcome
      ≡ Clipboard.failed)
    × ((done : List Bool) (b : Bool)
        → suc (length done) ≡ Clipboard.pending 0 two_takes
        → Clipboard.run (two_takes ++ Clipboard.settles (done ++ b ∷ [])) Clipboard.fresh
          ≡ record { outcome = Clipboard.said b; unsettled = 0 })
run-settles_example = Clipboard.run-settles two_takes

abbrev short_url_body : FetchRequest
short_url_body = record { path = "/api/urls"; method = "POST"; headers = []; body = some "{}" }

-- No credential is good.
abbrev refuse_all : Request → Io ℕ AuthenticatedUser
refuse_all req s = (throw unauthorized, s)

served_flag-guard_example :
    ((shown none ≡ enabled)
      × (guest_or_authenticated_guard library no_config refuse_all guest_id visitor 0
          ≡ (guest_id >>= λ guest. pure (record { id = guest; is_guest = true })) 0))
    ⊎ ((shown none ≡ disabled)
        × (guest_or_authenticated_guard library no_config refuse_all guest_id visitor 0
            ≡ (throw unauthorized, 0)))
unfolding carries_api_credential is_browser_request resolve_allowed_hostnames
served_flag-guard_example =
    served_flag-guard library no_config refuse_all guest_id visitor 0 refl refl

-- A registration with a short password without a digit.
abbrev weak_password : List ClassValidatorError
weak_password =
    record {
      property = "password";
      constraints =
          ("minLength", "password is too short")
          ∷ ("matches", "password must contain upper, lower, and digit")
          ∷ [];
    }
    ∷ []

abbrev weak_messages : List String
weak_messages = "password must contain upper, lower, and digit" ∷ []

-- A network on which the API refuses that registration.
abbrev refusing : FetchRequest → Answer (FetchResponse Unit)
refusing request = resolved (
    received "Unprocessable Entity"
      (dispatch_problem (http 400 (validation weak_password)) (some "id") true))

api_fetch-validation_example :
    api_fetch refusing short_url_body
    ≡ rejected (
        api_error (record {
          status = 422;
          message = joined "password is too short" weak_messages;
          problem_type = some "https://mikrou.li/problems/validation";
          correlation_id = some "id";
        }))
unfolding messages
api_fetch-validation_example =
    api_fetch-validation refusing short_url_body 400 weak_password (some "id") true
      "Unprocessable Entity" "password is too short" weak_messages refl refl

-- The row of one link is opened, and its correction confirmed.
abbrev correcting : List Dashboard.Event
correcting = Dashboard.open_correction "abc123" ∷ Dashboard.confirm ∷ []

abbrev no_others : List String
no_others = []

refusal-own_row_example :
    (no_others ≡ [])
    × ((Dashboard.step
          (Dashboard.settle_update 0 (rejected (error "refused")))
          (Dashboard.run correcting Dashboard.mounted)).correction
        ≡ some (record { slug = "abc123"; phase = Dashboard.editing; error = some "refused" }))
unfolding Dashboard.step Dashboard.correction_reducer Dashboard.confirm_correction
    extract_error_message
refusal-own_row_example =
    refusal-own_row correcting "abc123" no_others (error "refused") (opened refl (confirmed done))
      refl

-- While that correction is saved another row is opened, and then the first is refused.
abbrev overtaken : List Dashboard.Event
overtaken =
    Dashboard.open_correction "abc123"
    ∷ Dashboard.confirm
    ∷ Dashboard.open_correction "xyz789"
    ∷ Dashboard.settle_update 0 (rejected (error "refused"))
    ∷ []

-- The other row then states the refusal.
abbrev other_row : Dashboard.CorrectionState
other_row = record { slug = "xyz789"; phase = Dashboard.editing; error = some "refused" }

run-overtaken : (Dashboard.run overtaken Dashboard.mounted).correction ≡ some other_row
unfolding Dashboard.step Dashboard.correction_reducer Dashboard.confirm_correction
    Dashboard.settle_update_at Dashboard.update_settled extract_error_message
run-overtaken = refl

-- The deletion of a link is confirmed twice.
twice_confirmed :
    (Dashboard.run
      (Dashboard.choose "abc123" ∷ Dashboard.confirm_retire ∷ Dashboard.confirm_retire ∷ [])
      Dashboard.mounted).deleting
    ≡ 2
unfolding Dashboard.step Dashboard.retire_confirmed
twice_confirmed = refl

-- A page on which a deletion has been refused, and the links have been read again.
abbrev refused_and_read : List Dashboard.Event
refused_and_read = Dashboard.queried [] none false ∷ []

abbrev deleting : Dashboard.Page
deleting = record Dashboard.mounted { deleting = 1 }

refused_delete-alert_example :
    (m : String) × (links_set
        (λ s. s)
        (λ s. s)
        (Dashboard.run
          (Dashboard.settle_delete (rejected (error "not found")) ∷ refused_and_read)
          deleting)
      ≡ alert m)
unfolding extract_error_message Dashboard.step
refused_delete-alert_example =
    refused_delete-alert (λ s. s) (λ s. s) deleting 0 (error "not found") refused_and_read refl
      (refused {m = "not found"} refl (other (λ a. ground arith) none_left)) refl refl

-- A validator that counts characters.
abbrev counting_validator : ClassValidator
counting_validator = record {
  min_length = λ s n. leb n (characters s);
  max_length = λ s n. leb (characters s) n;
  is_email = λ s. true;
}

leb-le : (m n : ℕ) → leb m n ≡ true → m ≤ n
leb-le m n h = ground (arith, h)

accepts_password-validate_password_example : validate_password "Abcdefg1" ≡ none
unfolding mikrouli.Web.Register.accepts_password
accepts_password-validate_password_example =
    accepts_password-validate_password counting_validator "Abcdefg1"
      (λ s n h. leb-le n (characters s) h) refl

-- A browser on the dashboard, signed in.
abbrev signed_in : Session.Browser
signed_in = record (Session.started Session.dashboard) {
  user = some (some (record { id = "1"; email = "ada@example.org"; created_at = 0 }));
}

abbrev back : List Session.Event
back = Session.visit (Session.stats "abc123") ∷ []

logout-unprotected_example :
    Session.route_kind
      (Session.run back (Session.step (Session.settle_logout (resolved tt)) signed_in)).place
    ≢ Session.protected
logout-unprotected_example = logout-unprotected back tt signed_in (visited SignedOut.done)

-- A guest's card makes a link; a second press does nothing.
abbrev made_link : PublicLink
made_link = record {
  short_url = "abc123";
  original_url = "https://example.org";
  created_at = 0;
  expires_at = none;
}

run-presses :
    (Shorten.run true
      (Shorten.change "https://example.org"
        ∷ Shorten.press
        ∷ Shorten.press
        ∷ Shorten.settle (resolved made_link)
        ∷ Shorten.change "https://example.org"
        ∷ Shorten.press
        ∷ [])
      Shorten.mounted).requests
    ≡ []
unfolding Shorten.step Shorten.submit Shorten.may_submit Shorten.shortened Shorten.settled
run-presses = refl

-- An error of the API's own.
abbrev broken : Exception
broken = other "no answer"

abbrev list_request : FetchRequest
list_request = build_request (λ s. s) "/api/urls" "GET" none none "id-1"

api_fetch-correlation_id_example :
    (err : ApiError) × (api_fetch {A = Unit}
        (λ r. resolved (received "" (refusal broken true "fresh" r)))
        list_request
      ≡ rejected (api_error err))
    × (err.correlation_id ≡ some "id-1")
unfolding received dispatch_problem mikrouli.Problems.build_problem_from_status
    mikrouli.Correlation.with_correlation_id refusal
api_fetch-correlation_id_example =
    api_fetch-correlation_id (λ s. s) "/api/urls" "GET" none none "id-1" "fresh" "" broken true refl
