-- ===== src/Web/Clipboard.antt =====
-- apps/web/src/hooks/useCopyToClipboard.ts: the hook as a machine over what the user and the
-- browser's clipboard do. A write settles later, landed or failed.
use mikrouli.Common.{
  ℕ, zero, suc, ◌-◌, Bool, true, false, ◌≡◌, refl, sym, ap, ◌∙◌, List, [], ◌∷◌, ◌++◌, map, length,
  arith, if◌then◌else◌,
}

pub data CopyOutcome : Type 0 where
  idle landed failed : CopyOutcome

-- The hook's outcome, and the writes that have not settled.
pub record Hook : Type 0 where
  pub outcome : CopyOutcome
  pub unsettled : ℕ

pub data Event : Type 0 where
  -- `copy`, where the browser has a clipboard or has none
  take : Bool → Event
  -- A write settles.
  settle : Bool → Event

abbrev pub fresh : Hook
fresh = record { outcome = idle; unsettled = 0 }

unfoldable pub copy : Bool → Hook → Hook
copy true hook = record hook { unsettled = suc hook.unsettled }
copy false hook = record hook { outcome = failed }

-- The handlers of the promise; without a write that is under way there is nothing to settle.
abbrev pub settled : Bool → ℕ → Hook → Hook
settled done zero hook = hook
settled done (suc n) hook = record { outcome = if done then landed else failed; unsettled = n }

unfoldable pub step : Event → Hook → Hook
unfolding copy
step (take available) hook = copy available hook
step (settle done) hook = settled done hook.unsettled hook

abbrev pub run : List Event → Hook → Hook
run [] hook = hook
run (e ∷ es) hook = run es (step e hook)

-- The writes that have been started and have not settled.
abbrev pub pending : ℕ → List Event → ℕ
pending n [] = n
pending n (take true ∷ es) = pending (suc n) es
pending n (take false ∷ es) = pending n es
pending n (settle done ∷ es) = pending (n - 1) es

-- What a settlement says.
abbrev pub said : Bool → CopyOutcome
said true = landed
said false = failed

abbrev pub settles : List Bool → List Event
settles done = map settle done

settled-unsettled :
    (done : Bool) (n : ℕ) (hook : Hook)
    → hook.unsettled ≡ n
    → (settled done n hook).unsettled ≡ n - 1
settled-unsettled done zero hook e = e
settled-unsettled done (suc n) hook e = omega arith

-- No write is lost: the hook waits for each that was started.
run-unsettled :
    (es : List Event) (hook : Hook) → (run es hook).unsettled ≡ pending hook.unsettled es
unfolding step copy
run-unsettled [] hook = refl
run-unsettled (take true ∷ es) hook = run-unsettled es (copy true hook)
run-unsettled (take false ∷ es) hook = run-unsettled es (copy false hook)
run-unsettled (settle done ∷ es) hook =
    run-unsettled es (settled done hook.unsettled hook)
    ∙ ap (λ n. pending n es) (settled-unsettled done hook.unsettled hook refl)

settled-said :
    (b : Bool) (n : ℕ) (hook : Hook)
    → n ≡ 1
    → settled b n hook ≡ record { outcome = said b; unsettled = 0 }
settled-said b zero hook e = absurd (omega arith)
settled-said true (suc n) hook e = ground arith
settled-said false (suc n) hook e = ground arith

-- The last of the settlements is what is stated.
settles-said :
    (done : List Bool) (b : Bool) (hook : Hook)
    → suc (length done) ≡ hook.unsettled
    → run (settles (done ++ b ∷ [])) hook ≡ record { outcome = said b; unsettled = 0 }
unfolding step
settles-said [] b hook e = settled-said b hook.unsettled hook (sym e)
settles-said (d ∷ ds) b hook e =
    settles-said ds b (settled d hook.unsettled hook)
      (omega (arith, settled-unsettled d hook.unsettled hook refl))

run-append : (es fs : List Event) (hook : Hook) → run (es ++ fs) hook ≡ run fs (run es hook)
run-append [] fs hook = refl
run-append (e ∷ es) fs hook = run-append es fs (step e hook)

-- After any takes and settlements: a take where there is no clipboard states at once that it has
-- failed; and once every write that was started and has not settled has done so, in whichever order,
-- the outcome of the last settlement is stated, landed or failed, and no write is waited for.
pub run-settles :
    (es : List Event)
    → ((run (es ++ take false ∷ []) fresh).outcome ≡ failed)
      × ((done : List Bool) (b : Bool)
          → suc (length done) ≡ pending 0 es
          → run (es ++ settles (done ++ b ∷ [])) fresh ≡ record { outcome = said b; unsettled = 0 })
unfolding step copy
run-settles es = (
  ap (λ (hook : Hook). hook.outcome) (run-append es (take false ∷ []) fresh),
  λ done b all.
      run-append es (settles (done ++ b ∷ [])) fresh
      ∙ settles-said done b (run es fresh) (all ∙ sym (run-unsettled es fresh)),
)
