-- ===== src/Web/Session/SignedOut.antt =====
-- What apps/web shows to whom.
use mathlib.Core.Path.{subst}
use mikrouli.Common.{
  String, Bool, true, false, none, some, is_some, List, [], ◌∷◌, ◌≡◌, ◌≢◌, refl, ap, sym, ◌∙◌,
  arith, ◌||◌, if◌then◌else◌,
}
use mikrouli.Auth.{PublicUser}
use mikrouli.Web.{Cause, Answer, resolved, rejected}
use mikrouli.Web.Register.{validate_register_form}
use mikrouli.Web.Session.{
  Place, RouteKind, guest_only, protected, public, route_kind, UserQuery, navigate, shown, guarded,
  guest_route, protected_route, sent_on, render, Browser, Event, visit, probe, settle_login,
  register, settle_registration, settle_logout, handle, step, run, login_settled,
  submit_registration, register_settled, logout_settled,
}

ap-ne : {A : Type 0} {x y z : A} → x ≡ y → y ≢ z → x ≢ z
ap-ne e f g = f (sym e ∙ g)

guarded-sent_on :
    (kind : RouteKind) (query : UserQuery) (place to : Place)
    → kind ≡ route_kind place
    → guarded (route_kind (sent_on (guarded kind query) place)) query ≢ navigate to
unfolding guest_route protected_route route_kind guarded
guarded-sent_on guest_only none place to e = ap-ne (ap (λ k. guarded k none) (sym e)) (ground arith)
guarded-sent_on guest_only (some none) place to e =
    ap-ne (ap (λ k. guarded k (some none)) (sym e)) (ground arith)
guarded-sent_on guest_only (some (some user)) place to e = ground arith
guarded-sent_on protected none place to e = ap-ne (ap (λ k. guarded k none) (sym e)) (ground arith)
guarded-sent_on protected (some none) place to e = ground arith
guarded-sent_on protected (some (some user)) place to e =
    ap-ne (ap (λ k. guarded k (some (some user))) (sym e)) (ground arith)
guarded-sent_on public query place to e = ap-ne (ap (λ k. guarded k query) (sym e)) (ground arith)

-- A redirection ends: after any step, the guard of the place where the browser then is shows its
-- spinner or its page, and does not send it on again.
pub step-shown :
    (e : Event) (b : Browser) (to : Place) → shown (step e b).user (step e b).place ≢ navigate to
unfolding step render shown
step-shown e b to =
    guarded-sent_on (route_kind (handle e b).place) (handle e b).user (handle e b).place to refl

-- The events in which nobody signs in: no login is answered with a user, and no probe finds one.
pub data NobodyEnters : List Event → Type 0 where
  done : NobodyEnters []
  visited : {place : Place} {es : List Event} → NobodyEnters es → NobodyEnters (visit place ∷ es)
  empty_probe : {es : List Event} → NobodyEnters es → NobodyEnters (probe (resolved none) ∷ es)
  refused_probe :
      {cause : Cause} {es : List Event}
      → NobodyEnters es
      → NobodyEnters (probe (rejected cause) ∷ es)
  refused_login :
      {cause : Cause} {es : List Event}
      → NobodyEnters es
      → NobodyEnters (settle_login (rejected cause) ∷ es)
  sent_form :
      {email password : String} {es : List Event}
      → NobodyEnters es
      → NobodyEnters (register email password ∷ es)
  registered :
      {answer : Answer PublicUser} {es : List Event}
      → NobodyEnters es
      → NobodyEnters (settle_registration answer ∷ es)
  left :
      {answer : Answer Unit} {es : List Event}
      → NobodyEnters es
      → NobodyEnters (settle_logout answer ∷ es)

render-unprotected :
    (kind : RouteKind) (place : Place)
    → kind ≡ route_kind place
    → route_kind (sent_on (guarded kind (some none)) place) ≢ protected
unfolding guest_route protected_route route_kind guarded
render-unprotected guest_only place e = ap-ne (sym e) (ground arith)
render-unprotected protected place e = ground arith
render-unprotected public place e = ap-ne (sym e) (ground arith)

IsOut : Browser → Type 0
IsOut b = (b.user ≡ some none) × (route_kind b.place ≢ protected)

render-IsOut : (b : Browser) → b.user ≡ some none → IsOut (render b)
unfolding IsOut render shown
render-IsOut b e = (
  e,
  subst (λ q. route_kind (sent_on (guarded (route_kind b.place) q) b.place) ≢ protected) (sym e)
      (render-unprotected (route_kind b.place) b.place refl),
)

registered-user :
    (answer : Answer PublicUser) (b : Browser) → (register_settled answer b).user ≡ b.user
unfolding register_settled
registered-user (resolved user) b = refl
registered-user (rejected cause) b = refl

either_user :
    (c : Bool) (p q : Browser) (user : UserQuery)
    → p.user ≡ user
    → q.user ≡ user
    → (if c then p else q).user ≡ user
either_user true p q user e f = e
either_user false p q user e f = f

submitted-user :
    (email password : String) (b : Browser) → (submit_registration email password b).user ≡ b.user
unfolding submit_registration
submitted-user email password b =
    let errors = validate_register_form email password in
    either_user (is_some errors.email || is_some errors.password)
      (record b { form_errors = errors }) (record b { requests = (email, password) ∷ b.requests })
      b.user refl refl

left-user :
    (answer : Answer Unit) (b : Browser)
    → b.user ≡ some none
    → (logout_settled answer b).user ≡ some none
unfolding logout_settled
left-user (resolved answer) b e = refl
left-user (rejected cause) b e = e

run-IsOut : (es : List Event) (b : Browser) → NobodyEnters es → IsOut b → IsOut (run es b)
unfolding IsOut step handle
run-IsOut es b done h = h
run-IsOut fs b (visited {place} {es} n) (e, h) =
    run-IsOut es _ n (render-IsOut (record b { place = place }) e)
run-IsOut fs b (empty_probe {es} n) (e, h) =
    run-IsOut es _ n (render-IsOut (handle (probe (resolved none)) b) refl)
run-IsOut fs b (refused_probe {cause} {es} n) (e, h) =
    run-IsOut es _ n (render-IsOut (handle (probe (rejected cause)) b) refl)
run-IsOut fs b (refused_login {cause} {es} n) (e, h) =
    run-IsOut es _ n (render-IsOut (login_settled (rejected cause) b) e)
run-IsOut fs b (sent_form {email} {password} {es} n) (e, h) =
    run-IsOut es _ n
      (render-IsOut (submit_registration email password b) (submitted-user email password b ∙ e))
run-IsOut fs b (registered {answer} {es} n) (e, h) =
    run-IsOut es _ n (render-IsOut (register_settled answer b) (registered-user answer b ∙ e))
run-IsOut fs b (left {answer} {es} n) (e, h) =
    run-IsOut es _ n (render-IsOut (logout_settled answer b) (left-user answer b e))

-- Once a logout has been answered, and until a login is answered or a probe finds a user, the
-- browser stands on no protected page, whatever is visited and also after a registration.
pub logout-unprotected :
    (es : List Event) (answer : Unit) (b : Browser)
    → NobodyEnters es
    → route_kind (run es (step (settle_logout (resolved answer)) b)).place ≢ protected
unfolding IsOut step handle logout_settled
logout-unprotected es answer b n =
    (run-IsOut es (step (settle_logout (resolved answer)) b) n
      (render-IsOut (logout_settled (resolved answer) b) refl)).1
