-- ===== src/Web/Dashboard/Saving.antt =====
-- A row of apps/web/src/pages/DashboardPage.tsx is saved only while an update is under way.
use mikrouli.Common.{
  ℕ, String, ◌≡◌, refl, arith, ◌∙◌, ltb, length, Option, none, some, List, [], ◌∷◌,
}
use mikrouli.Web.{Cause, Answer, resolved, rejected}
use mikrouli.Web.Client.{extract_error_message}
use mikrouli.Web.Dashboard.{
  Page, mounted, editing, CorrectionState, Event, queried, shortened, narrow, open_correction,
  confirm, cancel, settle_update, choose, cancel_retire, confirm_retire, settle_delete, step, run,
  correction_reducer, confirm_correction, cancel_correction, update_settled, settle_update_at,
  without_nth, confirm_shown, cancel_shown, send_update, dispatch_correction, close,
}
use mikrouli.Web.Dashboard.Correction.{
  by_query, by_shortening, by_narrowing, by_choice, by_cancel, by_retire, by_delete, Alike,
  step-Alike,
}
use mikrouli.Web.Dashboard.Controls.{either-holds, control-holds}

-- No row is under correction, or it is open for editing, or some update is under way.
data Ends (p : Page) : Type 0 where
  closed : p.correction ≡ none → Ends p
  at_rest : (s : CorrectionState) → p.correction ≡ some s → s.phase ≡ editing → Ends p
  under_way : (u : String) (us : List String) → p.updating ≡ u ∷ us → Ends p

Alike-Ends : (p q : Page) → Alike p q → Ends p → Ends q
unfolding Alike
Alike-Ends p q (c, u) (closed e) = closed (c ∙ e)
Alike-Ends p q (c, u) (at_rest s e g) = at_rest s (c ∙ e) g
Alike-Ends p q (c, u) (under_way v vs e) = under_way v vs (u ∙ e)

confirm-Ends : (c : Option CorrectionState) (p : Page) → Ends p → Ends (confirm_shown c p)
unfolding correction_reducer
confirm-Ends none p h = h
confirm-Ends (some s) p h =
    control-holds Ends s.phase (send_update s.slug p) p (under_way s.slug p.updating refl) h

cancel-Ends : (c : Option CorrectionState) (p : Page) → Ends p → Ends (cancel_shown c p)
unfolding correction_reducer
cancel-Ends none p h = h
cancel-Ends (some s) p h =
    control-holds Ends s.phase (dispatch_correction close p) p (closed refl) h

refused-Ends :
    (x : Cause) (p : Page) (us : List String) (c : Option CorrectionState)
    → p.correction ≡ c
    → Ends (record (update_settled (rejected x) p) { updating = us })
unfolding update_settled correction_reducer
refused-Ends x p us none e = closed (ground arith)
refused-Ends x p us (some s) e =
    at_rest (record s { phase = editing; error = some (extract_error_message x) }) (ground arith)
      refl

-- Once an update has settled, the row is closed or open for editing.
settled-Ends :
    (n : ℕ) (answer : Answer Unit) (p : Page)
    → Ends (record (update_settled answer p) { updating = without_nth n p.updating })
unfolding update_settled correction_reducer
settled-Ends n (resolved a) p = closed refl
settled-Ends n (rejected x) p = refused-Ends x p (without_nth n p.updating) p.correction refl

settle-Ends :
    (n : ℕ) (answer : Answer Unit) (p : Page) → Ends p → Ends (settle_update_at n answer p)
unfolding settle_update_at
settle-Ends n answer p h =
    either-holds Ends (ltb n (length p.updating))
      (record (update_settled answer p) { updating = without_nth n p.updating }) p
      (settled-Ends n answer p) h

step-Ends : (e : Event) (p : Page) → Ends p → Ends (step e p)
unfolding step confirm_correction cancel_correction correction_reducer
step-Ends (queried links error loading) p h = Alike-Ends p _ (step-Alike _ p by_query) h
step-Ends shortened p h = Alike-Ends p _ (step-Alike _ p by_shortening) h
step-Ends (narrow fragment) p h = Alike-Ends p _ (step-Alike _ p by_narrowing) h
step-Ends (open_correction slug) p h = at_rest _ refl refl
step-Ends confirm p h = confirm-Ends p.correction p h
step-Ends cancel p h = cancel-Ends p.correction p h
step-Ends (settle_update n answer) p h = settle-Ends n answer p h
step-Ends (choose slug) p h = Alike-Ends p _ (step-Alike _ p by_choice) h
step-Ends cancel_retire p h = Alike-Ends p _ (step-Alike _ p by_cancel) h
step-Ends confirm_retire p h = Alike-Ends p _ (step-Alike _ p by_retire) h
step-Ends (settle_delete answer) p h = Alike-Ends p _ (step-Alike _ p by_delete) h

run-Ends : (es : List Event) (p : Page) → Ends p → Ends (run es p)
run-Ends [] p h = h
run-Ends (e ∷ es) p h = run-Ends es (step e p) (step-Ends e p h)

editing_when_idle :
    (p : Page) (s : CorrectionState)
    → Ends p
    → p.updating ≡ []
    → p.correction ≡ some s
    → s.phase ≡ editing
editing_when_idle p s (closed e) idle c = absurd (ground arith)
editing_when_idle p s (at_rest t e g) idle c = ground arith
editing_when_idle p s (under_way u us e) idle c = absurd (ground arith)

-- Whatever the reader does, and in whichever order the updates settle: once none is under way, a row
-- that is still under correction stands open for editing and is not being saved.
pub run-editing :
    (es : List Event) (s : CorrectionState)
    → (run es mounted).updating ≡ []
    → (run es mounted).correction ≡ some s
    → s.phase ≡ editing
run-editing es s = editing_when_idle (run es mounted) s (run-Ends es mounted (closed refl))
