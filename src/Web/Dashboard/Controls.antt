-- ===== src/Web/Dashboard/Controls.antt =====
-- What holds of the page of apps/web/src/pages/DashboardPage.tsx on both sides of a test.
use mikrouli.Common.{Bool, true, false, if◌then◌else◌}
use mikrouli.Web.Dashboard.{Page, Phase, editing, saving}

module _ (P : Page → Type 0) where
  pub either-holds : (b : Bool) (p q : Page) → P p → P q → P (if b then p else q)
  either-holds true p q h k = h
  either-holds false p q h k = k

  -- A control that is disabled while a row is saved.
  pub control-holds :
      (phase : Phase) (p q : Page) → P p → P q → P (elim phase [ editing ↦ p | saving ↦ q ])
  control-holds editing p q h k = h
  control-holds saving p q h k = k
