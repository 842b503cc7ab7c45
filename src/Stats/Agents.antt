-- ===== src/Stats/Agents.antt =====
-- The ids that apps/api/src/stats/ua-parser.ts gives.
use mikrouli.Common.{
  ℕ, ◌<◌, String, Bool, true, false, Option, none, some, length, arith, if◌then◌else◌,
}
use mikrouli.Auth.{truthy}
use mikrouli.Stats.{
  parse_os_id, parse_browser_id, os_names, browser_names, os_id, browser_id, with_agent,
}

if_lt : (b : Bool) (m n k : ℕ) → m < k → n < k → (if b then m else n) < k
if_lt true m n k p q = p
if_lt false m n k p q = q

os_id-lt : (ua : String) → os_id ua < 6
unfolding os_id
os_id-lt ua = if_lt _ 1 _ 6 (omega arith) (
    if_lt _ 5 _ 6 (omega arith) (
      if_lt _ 4 _ 6 (omega arith)
        (if_lt _ 2 _ 6 (omega arith) (if_lt _ 3 0 6 (omega arith) (omega arith)))))

browser_id-lt : (ua : String) → browser_id ua < 6
unfolding browser_id
browser_id-lt ua = if_lt _ 4 _ 6 (omega arith) (
    if_lt _ 5 _ 6 (omega arith) (
      if_lt _ 2 _ 6 (omega arith)
        (if_lt _ 1 _ 6 (omega arith) (if_lt _ 3 0 6 (omega arith) (omega arith)))))

with_agent-lt :
    (parse : String → ℕ) (ua : Option String) (k : ℕ)
    → 0 < k
    → ((text : String) → parse text < k)
    → with_agent parse ua < k
with_agent-lt parse none k h f = h
with_agent-lt parse (some ua) k h f = f ua

-- Every id that is recorded for a user agent has a name.
pub ids_have_names :
    (ua : Option String)
    → (parse_os_id ua < length os_names) × (parse_browser_id ua < length browser_names)
unfolding parse_os_id parse_browser_id
ids_have_names ua = (
  with_agent-lt os_id (truthy ua) 6 (omega arith) os_id-lt,
  with_agent-lt browser_id (truthy ua) 6 (omega arith) browser_id-lt,
)
