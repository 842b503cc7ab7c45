-- ===== src/Web/Dashboard/Correction.antt =====
-- Which row a correction of apps/web/src/pages/DashboardPage.tsx belongs to, and that it ends.
use mikrouli.Common.{
  ℕ, zero, suc, Bool, String, ◌∙◌, ◌≡◌, refl, arith, Option, none, some, Option-cases, List, [],
  ◌∷◌, inl, inr,
}
use mikrouli.Auth.{truthy}
use mikrouli.Links.Controller.{PublicLink}
use mikrouli.Web.{Cause, Answer, resolved, rejected}
use mikrouli.Web.Client.{extract_error_message}
use mikrouli.Web.Dashboard.{
  Page, mounted, editing, saving, CorrectionState, Event, queried, shortened, narrow,
  open_correction, confirm, cancel, settle_update, choose, cancel_retire, confirm_retire,
  settle_delete, step, run, correction_reducer, confirm_correction, cancel_correction,
  update_settled, retire_confirmed, delete_settled, settle_delete_of, settle_update_at,
}

-- What happens beside the correction: the other steps of the page.
pub data IsApart : Event → Type 0 where
  by_query :
      {links : List PublicLink} {error : Option Cause} {loading : Bool}
      → IsApart (queried links error loading)
  by_shortening : IsApart shortened
  by_narrowing : {fragment : String} → IsApart (narrow fragment)
  by_choice : {slug : String} → IsApart (choose slug)
  by_cancel : IsApart cancel_retire
  by_retire : IsApart confirm_retire
  by_delete : {answer : Answer Unit} → IsApart (settle_delete answer)

unfoldable pub Alike : Page → Page → Type 0
Alike p q = (q.correction ≡ p.correction) × (q.updating ≡ p.updating)

settle_delete-Alike :
    (answer : Answer Unit) (n : ℕ) (p : Page) → Alike p (settle_delete_of answer n p)
unfolding delete_settled Alike
settle_delete-Alike answer zero p = (refl, refl)
settle_delete-Alike (resolved a) (suc n) p = (refl, refl)
settle_delete-Alike (rejected c) (suc n) p = (refl, refl)

retire_confirmed-Alike : (p : Page) → Alike p (retire_confirmed p)
unfolding retire_confirmed Alike
retire_confirmed-Alike p = elim (Option-cases (truthy p.retire_candidate)) [
  | inl e ↦ (ground arith, ground arith)
  | inr (slug, e) ↦ (ground arith, ground arith)
]

pub step-Alike : (e : Event) (p : Page) → IsApart e → Alike p (step e p)
unfolding step Alike
step-Alike e p by_query = (refl, refl)
step-Alike e p by_shortening = (refl, refl)
step-Alike e p by_narrowing = (refl, refl)
step-Alike e p by_choice = (refl, refl)
step-Alike e p by_cancel = (refl, refl)
step-Alike e p by_retire = retire_confirmed-Alike p
step-Alike e p (by_delete {answer}) = settle_delete-Alike answer p.deleting p

-- No row is under correction, or it is open for editing, or its update is under way.
data Tracked (p : Page) : Type 0 where
  closed : p.correction ≡ none → p.updating ≡ [] → Tracked p
  at_rest :
      (s : CorrectionState)
      → p.correction ≡ some s
      → s.phase ≡ editing
      → p.updating ≡ []
      → Tracked p
  under_way :
      (s : CorrectionState)
      → p.correction ≡ some s
      → s.phase ≡ saving
      → p.updating ≡ s.slug ∷ []
      → Tracked p

Alike-Tracked : (p q : Page) → Alike p q → Tracked p → Tracked q
unfolding Alike
Alike-Tracked p q (c, u) (closed e f) = closed (c ∙ e) (u ∙ f)
Alike-Tracked p q (c, u) (at_rest s e g f) = at_rest s (c ∙ e) g (u ∙ f)
Alike-Tracked p q (c, u) (under_way s e g f) = under_way s (c ∙ e) g (u ∙ f)

confirm-Tracked : (p : Page) → Tracked p → Tracked (confirm_correction p)
unfolding confirm_correction correction_reducer
confirm-Tracked p (closed e f) = closed (ground arith) (ground arith)
confirm-Tracked p (at_rest s e g f) =
    under_way (record s { phase = saving }) (ground arith) refl (ground arith)
confirm-Tracked p (under_way s e g f) = under_way s (ground arith) g (ground arith)

cancel-Tracked : (p : Page) → Tracked p → Tracked (cancel_correction p)
unfolding cancel_correction correction_reducer
cancel-Tracked p (closed e f) = closed (ground arith) (ground arith)
cancel-Tracked p (at_rest s e g f) = closed (ground arith) (ground arith)
cancel-Tracked p (under_way s e g f) = under_way s (ground arith) g (ground arith)

settle-Tracked :
    (n : ℕ) (answer : Answer Unit) (p : Page) → Tracked p → Tracked (settle_update_at n answer p)
unfolding correction_reducer update_settled settle_update_at
settle-Tracked n answer p (closed e f) = closed (ground arith) (ground arith)
settle-Tracked n answer p (at_rest s e g f) = at_rest s (ground arith) g (ground arith)
settle-Tracked zero (resolved a) p (under_way s e g f) = closed (ground arith) (ground arith)
settle-Tracked zero (rejected c) p (under_way s e g f) =
    at_rest (record s { phase = editing; error = some (extract_error_message c) }) (ground arith)
      refl (ground arith)
settle-Tracked (suc n) answer p (under_way s e g f) = under_way s (ground arith) g (ground arith)

-- The events of a page on which no row is opened while an update is under way.
pub data Disciplined : Page → List Event → Type 0 where
  done : {p : Page} → Disciplined p []
  apart :
      {p : Page} {e : Event} {es : List Event}
      → IsApart e
      → Disciplined (step e p) es
      → Disciplined p (e ∷ es)
  opened :
      {p : Page} {slug : String} {es : List Event}
      → p.updating ≡ []
      → Disciplined (step (open_correction slug) p) es
      → Disciplined p (open_correction slug ∷ es)
  confirmed :
      {p : Page} {es : List Event} → Disciplined (step confirm p) es → Disciplined p (confirm ∷ es)
  cancelled :
      {p : Page} {es : List Event} → Disciplined (step cancel p) es → Disciplined p (cancel ∷ es)
  settled :
      {p : Page} {n : ℕ} {answer : Answer Unit} {es : List Event}
      → Disciplined (step (settle_update n answer) p) es
      → Disciplined p (settle_update n answer ∷ es)

run-Tracked : (p : Page) (es : List Event) → Disciplined p es → Tracked p → Tracked (run es p)
unfolding step correction_reducer
run-Tracked p fs done h = h
run-Tracked p fs (apart {e} {es} a d) h =
    run-Tracked (step e p) es d (Alike-Tracked p (step e p) (step-Alike e p a) h)
run-Tracked p fs (opened {slug} {es} idle d) h =
    run-Tracked (step (open_correction slug) p) es d
      (at_rest (record { slug = slug; phase = editing; error = none }) refl refl idle)
run-Tracked p fs (confirmed {es} d) h = run-Tracked (step confirm p) es d (confirm-Tracked p h)
run-Tracked p fs (cancelled {es} d) h = run-Tracked (step cancel p) es d (cancel-Tracked p h)
run-Tracked p fs (settled {n} {answer} {es} d) h =
    run-Tracked (step (settle_update n answer) p) es d (settle-Tracked n answer p h)

refusal-Tracked :
    (p : Page) (slug : String) (us : List String) (cause : Cause)
    → Tracked p
    → p.updating ≡ slug ∷ us
    → (us ≡ [])
      × ((step (settle_update 0 (rejected cause)) p).correction
          ≡ some
              (record { slug = slug; phase = editing; error = some (extract_error_message cause) }))
unfolding step correction_reducer update_settled settle_update_at
refusal-Tracked p slug us cause (closed e f) u = absurd (ground arith)
refusal-Tracked p slug us cause (at_rest s e g f) u = absurd (ground arith)
refusal-Tracked p slug us cause (under_way s e g f) u = (ground arith, ground arith)

-- On a page where no row is opened while an update is under way, at most one update is, and if it is
-- refused the row that it corrects stands open for editing, with the error's message.
pub refusal-own_row :
    (es : List Event) (slug : String) (us : List String) (cause : Cause)
    → Disciplined mounted es
    → (run es mounted).updating ≡ slug ∷ us
    → (us ≡ [])
      × ((step (settle_update 0 (rejected cause)) (run es mounted)).correction
          ≡ some
              (record { slug = slug; phase = editing; error = some (extract_error_message cause) }))
refusal-own_row es slug us cause d =
    refusal-Tracked (run es mounted) slug us cause (run-Tracked mounted es d (closed refl refl))
