-- ===== src/Web/Dashboard/Retire.antt =====
-- What a refused deletion does to the page of apps/web/src/pages/DashboardPage.tsx.
use mikrouli.Common.{
  ℕ, zero, suc, String, ◌≡◌, ◌≢◌, refl, arith, ◌∙◌, ap, ltb, length, Option, none, some,
  Option-cases, List, [], ◌∷◌, inl, inr, false,
}
use mikrouli.Auth.{truthy}
use mikrouli.Web.Client.{extract_error_message}
use mikrouli.Web.{Cause, Answer, resolved, rejected}
use mikrouli.Web.Dashboard.{
  Page, Event, queried, shortened, narrow, open_correction, confirm, cancel, settle_update, choose,
  cancel_retire, confirm_retire, settle_delete, step, run, settle_delete_of, delete_settled,
  settle_update_at, without_nth, update_settled, confirm_shown, cancel_shown, send_update,
  dispatch_correction, close, CorrectionState, retire_confirmed, confirm_correction,
  cancel_correction,
}
use mikrouli.Web.Dashboard.Listing.{alert, links_set}
use mikrouli.Web.Dashboard.Controls.{either-holds, control-holds}

-- The page has an error that is stated.
HasError : Page → Type 0
HasError p = (m : String) × (truthy p.page_error ≡ some m)

-- The error of every refused deletion has a message.
pub data AreStated : List Event → Type 0 where
  none_left : AreStated []
  refused :
      {cause : Cause} {m : String} {es : List Event}
      → truthy (some (extract_error_message cause)) ≡ some m
      → AreStated es
      → AreStated (settle_delete (rejected cause) ∷ es)
  deleted :
      {a : Unit} {es : List Event} → AreStated es → AreStated (settle_delete (resolved a) ∷ es)
  other :
      {e : Event} {es : List Event}
      → ((a : Answer Unit) → e ≢ settle_delete a)
      → AreStated es
      → AreStated (e ∷ es)

delete-HasError :
    (a : Unit) (n : ℕ) (p : Page) → HasError p → HasError (settle_delete_of (resolved a) n p)
unfolding HasError settle_delete_of delete_settled
delete-HasError a zero p h = h
delete-HasError a (suc n) p h = h

refused-HasError :
    (cause : Cause) (m : String) (n : ℕ) (p : Page)
    → truthy (some (extract_error_message cause)) ≡ some m
    → HasError p
    → HasError (settle_delete_of (rejected cause) n p)
unfolding HasError settle_delete_of delete_settled
refused-HasError cause m zero p e h = h
refused-HasError cause m (suc n) p e h = (m, e)

Kept : Page → Page → Type 0
Kept p q = q.page_error ≡ p.page_error

Kept-HasError : (p q : Page) → Kept p q → HasError p → HasError q
unfolding Kept HasError
Kept-HasError p q e (m, h) = (m, ap truthy e ∙ h)

settled-Kept :
    (n : ℕ) (answer : Answer Unit) (p : Page)
    → Kept p (record (update_settled answer p) { updating = without_nth n p.updating })
unfolding Kept update_settled dispatch_correction
settled-Kept n (resolved a) p = refl
settled-Kept n (rejected c) p = refl

update-Kept : (n : ℕ) (answer : Answer Unit) (p : Page) → Kept p (settle_update_at n answer p)
unfolding Kept settle_update_at
update-Kept n answer p =
    either-holds (Kept p) (ltb n (length p.updating))
      (record (update_settled answer p) { updating = without_nth n p.updating }) p
      (settled-Kept n answer p) refl

confirm-Kept : (c : Option CorrectionState) (p : Page) → Kept p (confirm_shown c p)
unfolding Kept dispatch_correction
confirm-Kept none p = refl
confirm-Kept (some s) p = control-holds (Kept p) s.phase (send_update s.slug p) p refl refl

cancel-Kept : (c : Option CorrectionState) (p : Page) → Kept p (cancel_shown c p)
unfolding Kept dispatch_correction
cancel-Kept none p = refl
cancel-Kept (some s) p = control-holds (Kept p) s.phase (dispatch_correction close p) p refl refl

retire-Kept : (p : Page) → Kept p (retire_confirmed p)
unfolding Kept retire_confirmed
retire-Kept p = elim (Option-cases (truthy p.retire_candidate)) [
  | inl e ↦ ground arith
  | inr (s, e) ↦ ground arith
]

-- The steps beside a settled deletion leave the error.
step-Kept : (e : Event) (p : Page) → ((a : Answer Unit) → e ≢ settle_delete a) → Kept p (step e p)
unfolding Kept step confirm_correction cancel_correction dispatch_correction
step-Kept (queried links error is_loading) p h = refl
step-Kept shortened p h = refl
step-Kept (narrow fragment) p h = refl
step-Kept (open_correction slug) p h = refl
step-Kept confirm p h = confirm-Kept p.correction p
step-Kept cancel p h = cancel-Kept p.correction p
step-Kept (settle_update n answer) p h = update-Kept n answer p
step-Kept (choose slug) p h = refl
step-Kept cancel_retire p h = refl
step-Kept confirm_retire p h = retire-Kept p
step-Kept (settle_delete answer) p h = absurd (h answer refl)

run-HasError : (es : List Event) (p : Page) → AreStated es → HasError p → HasError (run es p)
unfolding step
run-HasError es p none_left h = h
run-HasError fs p (refused {cause} {m} {es} e stated) h =
    run-HasError es (step (settle_delete (rejected cause)) p) stated
      (refused-HasError cause m p.deleting p e h)
run-HasError fs p (deleted {a} {es} stated) h =
    run-HasError es (step (settle_delete (resolved a)) p) stated (delete-HasError a p.deleting p h)
run-HasError fs p (other {e} {es} not_a_delete stated) h =
    run-HasError es (step e p) stated (Kept-HasError p (step e p) (step-Kept e p not_a_delete) h)

links_set-alert :
    (trim to_lower_case : String → String) (p : Page) (m : String)
    → p.links_loading ≡ false
    → p.links_error ≡ none
    → truthy p.page_error ≡ some m
    → links_set trim to_lower_case p ≡ alert m
unfolding links_set
links_set-alert trim to_lower_case p m loaded fine e = cc

refused_delete-HasError :
    (p : Page) (n : ℕ) (cause : Cause) (m : String)
    → p.deleting ≡ suc n
    → truthy (some (extract_error_message cause)) ≡ some m
    → HasError (step (settle_delete (rejected cause)) p)
unfolding HasError step settle_delete_of delete_settled
refused_delete-HasError p n cause m under_way e =
    (m, ap (λ k. truthy (settle_delete_of (rejected cause) k p).page_error) under_way ∙ e)

-- Once a deletion has been refused, the page never lists its links again: whatever is done next, and
-- although the query of the links has been answered, an error stands in place of the set. The
-- errors of the refused deletions are taken to have messages.
pub refused_delete-alert :
    (trim to_lower_case : String → String) (p : Page) (n : ℕ) (cause : Cause) (es : List Event)
    → p.deleting ≡ suc n
    → AreStated (settle_delete (rejected cause) ∷ es)
    → (run (settle_delete (rejected cause) ∷ es) p).links_loading ≡ false
    → (run (settle_delete (rejected cause) ∷ es) p).links_error ≡ none
    → (m : String) × (links_set trim to_lower_case (run (settle_delete (rejected cause) ∷ es) p)
        ≡ alert m)
unfolding HasError
refused_delete-alert trim to_lower_case p n cause es under_way (refused {m} e rest) loaded fine =
    let (k, h) =
      run-HasError es (step (settle_delete (rejected cause)) p) rest
        (refused_delete-HasError p n cause m under_way e) in
    (
      k,
      links_set-alert trim to_lower_case (run (settle_delete (rejected cause) ∷ es) p) k loaded fine
          h,
    )
refused_delete-alert trim to_lower_case p n cause es under_way (other no_delete rest) loaded fine =
    absurd (no_delete (rejected cause) refl)
