-- ===== src/Web/Session.antt =====
-- apps/web/src/auth (AuthContext, GuestRoute, ProtectedRoute), the routes of App.tsx and the forms of
-- LoginPage.tsx and RegisterPage.tsx: who the browser takes for signed in, and which page it shows.
pub mod SignedOut
use mikrouli.Common.{
  ℕ, String, Bool, true, false, not, Option, none, some, is_some, List, [], ◌∷◌, ◌||◌, ◌==◌,
  if◌then◌else◌,
}
use mikrouli.Auth.{PublicUser}
use mikrouli.Web.{ApiError, Cause, api_error, error, unknown, Answer, resolved, rejected}
use mikrouli.Web.Register.{RegisterFormErrors, validate_register_form}

-- The paths that the routes of `App` tell apart.
pub data Place : Type 0 where
  landing login_page register_page : Place
  dashboard api_keys usage : Place
  stats : String → Place
  connect terms privacy : Place
  not_found : String → Place

pub data RouteKind : Type 0 where
  guest_only protected public : RouteKind

-- The group of routes that a path stands in.
unfoldable pub route_kind : Place → RouteKind
route_kind landing = guest_only
route_kind login_page = guest_only
route_kind register_page = guest_only
route_kind dashboard = protected
route_kind api_keys = protected
route_kind usage = protected
route_kind (stats slug) = protected
route_kind connect = public
route_kind terms = public
route_kind privacy = public
route_kind (not_found path) = public

-- The query of the user: none while the first probe is under way, then its data.
abbrev pub UserQuery : Type 0
UserQuery = Option (Option PublicUser)

-- `user ?? null`
abbrev pub user_of : UserQuery → Option PublicUser
user_of none = none
user_of (some user) = user

-- What a guard shows.
pub data Shown : Type 0 where
  spinner : Shown
  navigate : Place → Shown
  outlet : Shown

unfoldable pub guest_route : UserQuery → Shown
guest_route none = spinner
guest_route (some (some user)) = navigate dashboard
guest_route (some none) = outlet

unfoldable pub protected_route : UserQuery → Shown
protected_route none = spinner
protected_route (some none) = navigate login_page
protected_route (some (some user)) = outlet

abbrev pub guarded : RouteKind → UserQuery → Shown
unfolding guest_route protected_route
guarded guest_only query = guest_route query
guarded protected query = protected_route query
guarded public query = outlet

unfoldable pub shown : UserQuery → Place → Shown
unfolding guarded route_kind
shown query place = guarded (route_kind place) query

-- `fetchMe`
abbrev pub fetch_me : Answer (Option PublicUser) → Option PublicUser
fetch_me (resolved user) = user
fetch_me (rejected cause) = none

abbrev pub status_of : Cause → Option ℕ
status_of (api_error e) = some e.status
status_of (error message) = none
status_of unknown = none

abbrev pub has_status : ℕ → Option ℕ → Bool
has_status code none = false
has_status code (some status) = status == code

unfoldable pub map_login_error : Cause → String
map_login_error cause =
    if has_status 401 (status_of cause) then "errors:unauthorized" else "errors:generic"

unfoldable pub map_register_error : Cause → String
map_register_error cause =
    if has_status 409 (status_of cause) then "errors:emailAlreadyRegistered" else "errors:generic"

-- The browser: its query, where it is, and what the forms state.
pub record Browser : Type 0 where
  pub user : UserQuery
  pub place : Place
  pub login_error : Option String
  pub register_error : Option String
  pub form_errors : RegisterFormErrors
  pub requests : List (String × String)

abbrev pub started : Place → Browser
started place = record {
  user = none;
  place = place;
  login_error = none;
  register_error = none;
  form_errors = record { email = none; password = none };
  requests = [];
}

-- The guards' redirections: a place that a guard sends on to is not sent on again.
abbrev pub sent_on : Shown → Place → Place
sent_on spinner place = place
sent_on (navigate to) place = to
sent_on outlet place = place

unfoldable pub render : Browser → Browser
unfolding shown
render b = record b { place = sent_on (shown b.user b.place) b.place }

-- The login form's answer: `attemptLogin` behind `login`, which keeps the user.
unfoldable pub login_settled : Answer PublicUser → Browser → Browser
unfolding map_login_error
login_settled (resolved user) b = record b {
  user = some (some user);
  login_error = none;
  place = dashboard;
}
login_settled (rejected cause) b = record b { login_error = some (map_login_error cause) }

-- `RegisterPage.handleSubmit` up to the request: a form with errors is not sent.
unfoldable pub submit_registration : String → String → Browser → Browser
unfolding validate_register_form
submit_registration email password b =
    let errors = validate_register_form email password in
    if is_some errors.email || is_some errors.password
    then record b { form_errors = errors }
    else record b { requests = (email, password) ∷ b.requests }

-- The registration's answer, which does not sign in.
unfoldable pub register_settled : Answer PublicUser → Browser → Browser
unfolding map_register_error
register_settled (resolved user) b = record b { register_error = none; place = dashboard }
register_settled (rejected cause) b = record b { register_error = some (map_register_error cause) }

-- `logout`: a refused one throws before anything is done.
unfoldable pub logout_settled : Answer Unit → Browser → Browser
logout_settled (resolved answer) b = record b { user = some none; place = login_page }
logout_settled (rejected cause) b = b

pub data Event : Type 0 where
  visit : Place → Event
  -- The probe of the session settles.
  probe : Answer (Option PublicUser) → Event
  settle_login : Answer PublicUser → Event
  register : String → String → Event
  settle_registration : Answer PublicUser → Event
  settle_logout : Answer Unit → Event

abbrev pub handle : Event → Browser → Browser
unfolding login_settled submit_registration register_settled logout_settled
handle (visit place) b = record b { place = place }
handle (probe answer) b = record b { user = some (fetch_me answer) }
handle (settle_login answer) b = login_settled answer b
handle (register email password) b = submit_registration email password b
handle (settle_registration answer) b = register_settled answer b
handle (settle_logout answer) b = logout_settled answer b

unfoldable pub step : Event → Browser → Browser
unfolding render handle
step e b = render (handle e b)

abbrev pub run : List Event → Browser → Browser
run [] b = b
run (e ∷ es) b = run es (step e b)
