-- ===== src/Throttling.antt =====
-- apps/api/src/common/throttler-policy.ts and credentialed-request-throttler.guard.ts: the budgets,
-- and the guard that sheds some of them for a request with a credential. The guard that it extends,
-- @nestjs/throttler's with its counters, is a parameter.
pub mod Shedding
use mikrouli.Common.{
  ℕ, String, Bool, true, false, Option, none, some, List, [], ◌∷◌, str_eq, or_else, if◌then◌else◌,
}
use mikrouli.Io.{Io, pure}
use mikrouli.ApiKeys.Guards.{Request, carries_api_credential}

abbrev pub default_throttle_name : String
default_throttle_name = "default"

abbrev pub auth_throttle_name : String
auth_throttle_name = "auth"

abbrev pub redirect_throttle_name : String
redirect_throttle_name = "redirect"

abbrev pub data_throttle_name : String
data_throttle_name = "data"

-- So many requests in so many milliseconds.
pub record Budget : Type 0 where
  pub limit : ℕ
  pub ttl : ℕ

abbrev pub default_module_budget : Budget
default_module_budget = record { limit = 300; ttl = 60000 }

abbrev pub auth_module_budget : Budget
auth_module_budget = record { limit = 300; ttl = 60000 }

abbrev pub redirect_module_budget : Budget
redirect_module_budget = record { limit = 120; ttl = 10000 }

abbrev pub data_module_budget : Budget
data_module_budget = record { limit = 1000; ttl = 60000 }

abbrev pub guest_create_budget : Budget
guest_create_budget = record { limit = 30; ttl = 60000 }

-- What a `ThrottlerRequest` says of its throttler: the name, and the budget on the route.
pub record Throttler : Type 0 where
  pub name : String
  pub budget : Budget

abbrev pub build_throttler_options : List Throttler
build_throttler_options =
    record { name = default_throttle_name; budget = default_module_budget }
    ∷ record { name = auth_throttle_name; budget = auth_module_budget }
    ∷ record { name = redirect_throttle_name; budget = redirect_module_budget }
    ∷ record { name = data_throttle_name; budget = data_module_budget }
    ∷ []

-- `Object.keys(skip).filter((name) => skip[name])`: the metadata that the decorator sets.
unfoldable pub skip_throttle_when_credentialed : List (String × Bool) → List String
skip_throttle_when_credentialed [] = []
skip_throttle_when_credentialed ((name, skipped) ∷ skip) =
    let rest = skip_throttle_when_credentialed skip in if skipped then name ∷ rest else rest

-- The decorator of `LinksController.create`.
abbrev pub create_shed : List (String × Bool)
create_shed =
    (default_throttle_name, true) ∷ (auth_throttle_name, true) ∷ (redirect_throttle_name, true) ∷ []

unfoldable pub includes : List String → String → Bool
includes [] name = false
includes (x ∷ xs) name = if str_eq x name then true else includes xs name

-- The metadata of the handler or else of the class, where either has some.
unfoldable pub sheds_for_credentialed_request : Option (List String) → Throttler → Request → Bool
unfolding includes
sheds_for_credentialed_request metadata throttler req =
    if includes (or_else metadata []) throttler.name then carries_api_credential req else false

module _ {S : Type 0} (throttler_guard : Throttler → Request → Io S Bool) where
  unfoldable pub handle_request : Option (List String) → Throttler → Request → Io S Bool
  unfolding sheds_for_credentialed_request
  handle_request metadata throttler req =
      if sheds_for_credentialed_request metadata throttler req
      then pure true
      else throttler_guard throttler req
