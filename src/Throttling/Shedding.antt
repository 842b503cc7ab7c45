-- ===== src/Throttling/Shedding.antt =====
-- What apps/api/src/common/credentialed-request-throttler.guard.ts spares a request with a
-- credential, whatever the throttlers that the library evaluates for the route.
use mikrouli.Common.{
  Bool, true, false, ◌≡◌, refl, ap, ◌∙◌, inl, inr, Option, List, String, [], ◌∷◌, or_else,
  Bool-cases, if◌then◌else◌, some, is_some, str_eq, arith,
}
use mikrouli.Http.{Result, ok, throw}
use mikrouli.Io.{Io}
use mikrouli.ApiKeys.Guards.{Request, carries_api_credential, choose_auth_method}
use mikrouli.ApiKeys.Guards.Admission.{carries_api_credential-choose_auth_method}
use mikrouli.Throttling.{Throttler, includes, skip_throttle_when_credentialed, handle_request}

-- The throttlers that are left when those with some names are taken away.
abbrev pub unshed : List String → List Throttler → List Throttler
unshed names [] = []
unshed names (t ∷ ts) =
    let rest = unshed names ts in if includes names t.name then rest else t ∷ rest

-- The decorator's argument sets the name to true.
abbrev pub marks : List (String × Bool) → String → Bool
marks [] name = false
marks ((k, set) ∷ skip) name =
    if str_eq k name then (if set then true else marks skip name) else marks skip name

-- The budgets of a request to a handler that is decorated to skip some where a credential comes along.
abbrev pub unmarked : List (String × Bool) → List Throttler → List Throttler
unmarked skip [] = []
unmarked skip (t ∷ ts) = let rest = unmarked skip ts in if marks skip t.name then rest else t ∷ rest

abbrev pub budgets : List (String × Bool) → Request → List Throttler → List Throttler
budgets skip req ts = if is_some (choose_auth_method req) then unmarked skip ts else ts

includes-skip :
    (skip : List (String × Bool)) (name : String)
    → includes (skip_throttle_when_credentialed skip) name ≡ marks skip name
unfolding includes skip_throttle_when_credentialed
includes-skip [] name = refl
includes-skip ((k, true) ∷ skip) name = ground (arith, includes-skip skip name)
includes-skip ((k, false) ∷ skip) name = ground (arith, includes-skip skip name)

unshed-skip :
    (skip : List (String × Bool)) (ts : List Throttler)
    → unshed (skip_throttle_when_credentialed skip) ts ≡ unmarked skip ts
unshed-skip skip [] = refl
unshed-skip skip (t ∷ ts) = rw (includes-skip skip t.name, unshed-skip skip ts) refl

-- Those that count for a request, by the metadata of its route.
abbrev pub counted : Option (List String) → Request → List Throttler → List Throttler
counted metadata req ts = if carries_api_credential req then unshed (or_else metadata []) ts else ts

counted-budgets :
    (skip : List (String × Bool)) (req : Request) (ts : List Throttler)
    → counted (some (skip_throttle_when_credentialed skip)) req ts ≡ budgets skip req ts
counted-budgets skip req ts =
    ap (λ b. if b then unshed (skip_throttle_when_credentialed skip) ts else ts)
      (carries_api_credential-choose_auth_method req)
    ∙ ap (λ (us : List Throttler). if is_some (choose_auth_method req) then us else ts)
        (unshed-skip skip ts)

module _ {S : Type 0} where
  -- The rest of an evaluation, which takes the answer so far.
  abbrev pub after : (Bool → Io S Bool) → Bool → Result Bool × S → Result Bool × S
  after rest admitted (ok true, s) = rest admitted s
  after rest admitted (ok false, s) = rest false s
  after rest admitted (throw e, s) = (throw e, s)

  after-congr :
      (m n : Bool → Io S Bool) (admitted : Bool)
      → ((b : Bool) (s : S) → m b s ≡ n b s)
      → (r : Result Bool × S) → after m admitted r ≡ after n admitted r
  after-congr m n admitted same (ok true, s) = same admitted s
  after-congr m n admitted same (ok false, s) = same false s
  after-congr m n admitted same (throw e, s) = refl

  -- A guard on one throttler after the other, until one throws.
  abbrev pub evaluate :
      (Throttler → Request → Io S Bool) → Request → List Throttler → Bool → Io S Bool
  evaluate guard req [] admitted s = (ok admitted, s)
  evaluate guard req (t ∷ ts) admitted s = after (evaluate guard req ts) admitted (guard t req s)

  module _ (throttler_guard : Throttler → Request → Io S Bool) (metadata : Option (List String))
      (req : Request) where
    abbrev guard : Throttler → Request → Io S Bool
    guard = handle_request throttler_guard metadata

    handle_request-shed :
        (t : Throttler) (s : S)
        → carries_api_credential req ≡ true
        → includes (or_else metadata []) t.name ≡ true
        → guard t req s ≡ (ok true, s)
    unfolding handle_request
    handle_request-shed t s h shed = rw (shed, h) refl

    handle_request-kept :
        (t : Throttler) (s : S)
        → includes (or_else metadata []) t.name ≡ false
        → guard t req s ≡ throttler_guard t req s
    unfolding handle_request
    handle_request-kept t s kept = rw kept refl

    handle_request-uncredentialed :
        (t : Throttler) (s : S)
        → carries_api_credential req ≡ false
        → guard t req s ≡ throttler_guard t req s
    unfolding handle_request
    handle_request-uncredentialed t s none_given =
        elim (Bool-cases (includes (or_else metadata []) t.name)) [
          | inl shed ↦ rw (shed, none_given) refl
          | inr kept ↦ rw kept refl
        ]

    evaluate-unshed :
        carries_api_credential req ≡ true
        → (ts : List Throttler) (admitted : Bool) (s : S)
        → evaluate guard req ts admitted s
          ≡ evaluate throttler_guard req (unshed (or_else metadata []) ts) admitted s
    evaluate-unshed h [] admitted s = refl
    evaluate-unshed h (t ∷ ts) admitted s =
        let rest = evaluate guard req ts in
        elim (Bool-cases (includes (or_else metadata []) t.name)) [
          | inl shed ↦ rw shed (
              ap (after rest admitted) (handle_request-shed t s h shed)
              ∙ evaluate-unshed h ts admitted s)
          | inr kept ↦ rw kept (
              ap (after rest admitted) (handle_request-kept t s kept)
              ∙ after-congr rest (evaluate throttler_guard req (unshed (or_else metadata []) ts))
                  admitted (evaluate-unshed h ts) (throttler_guard t req s))
        ]

    evaluate-all :
        carries_api_credential req ≡ false
        → (ts : List Throttler) (admitted : Bool) (s : S)
        → evaluate guard req ts admitted s ≡ evaluate throttler_guard req ts admitted s
    evaluate-all h [] admitted s = refl
    evaluate-all h (t ∷ ts) admitted s =
        ap (after (evaluate guard req ts) admitted) (handle_request-uncredentialed t s h)
        ∙ after-congr (evaluate guard req ts) (evaluate throttler_guard req ts) admitted
            (evaluate-all h ts) (throttler_guard t req s)

    -- Whichever throttlers the library evaluates for a route, the guard answers and counts as the
    -- library's own does without those that the route sheds, where the request carries a credential,
    -- and with all of them where it carries none.
    pub evaluate-counted :
        (ts : List Throttler) (admitted : Bool) (s : S)
        → evaluate (handle_request throttler_guard metadata) req ts admitted s
          ≡ evaluate throttler_guard req (counted metadata req ts) admitted s
    evaluate-counted ts admitted s = elim (Bool-cases (carries_api_credential req)) [
      | inl given ↦ rw given (evaluate-unshed given ts admitted s)
      | inr none_given ↦ rw none_given (evaluate-all none_given ts admitted s)
    ]

module _ {S : Type 0} (throttler_guard : Throttler → Request → Io S Bool)
    (skip : List (String × Bool)) (req : Request) where
  -- On a handler that is decorated with `SkipThrottleWhenCredentialed`, whichever throttlers the
  -- library evaluates: the guard answers and counts as the library's own does without those whose
  -- names the decorator's argument sets to true, where the guard of registered users finds a
  -- credential in the request, and with all of them where it finds none.
  pub evaluate-skip :
      (ts : List Throttler) (admitted : Bool) (s : S)
      → evaluate
          (handle_request throttler_guard (some (skip_throttle_when_credentialed skip)))
          req
          ts
          admitted
          s
        ≡ evaluate throttler_guard req (budgets skip req ts) admitted s
  evaluate-skip ts admitted s =
      evaluate-counted throttler_guard (some (skip_throttle_when_credentialed skip)) req ts admitted
        s
      ∙ ap (λ us. evaluate throttler_guard req us admitted s) (counted-budgets skip req ts)
