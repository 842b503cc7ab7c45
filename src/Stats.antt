-- ===== src/Stats.antt =====
-- apps/api/src/stats: the row of a click, the user-agent parser, the aggregation of ClickHouse's
-- answers and the handler. The queries are parameters; `parse_int` is JavaScript's parseInt in base
-- ten of the digits that ClickHouse sends.
pub mod Ownership
pub mod Agents
use Prim.Native.Char.{Char, code}
use Prim.Native.String
use mikrouli.Common.{
  ℕ, ◌+◌, ◌-◌, String, Bool, true, false, ◌&&◌, ◌||◌, Option, none, some, List, [], ◌∷◌, map, ltb,
  ◌==◌, str_eq, or_else, get_elem?, if◌then◌else◌,
}
use mikrouli.Http.{Exception, Result, ok, throw, not_found, forbidden}
use mikrouli.Io.{Io, pure, raise, catch, continue, ◌>>=◌, ◌>>◌}
use mikrouli.Services.{Link}
use mikrouli.Slug.{chars}
use mikrouli.Auth.{truthy}

-- ua-parser.ts. A regular expression of letters under /i compares without the case of ASCII letters.
abbrev pub fold_case : ℕ → ℕ
fold_case n = if ltb 64 n && ltb n 91 then n + 32 else n

pub begins : List Char → List Char → Bool
begins [] ys = true
begins (x ∷ xs) [] = false
begins (x ∷ xs) (y ∷ ys) =
    let rest = begins xs ys in (fold_case (code x) == fold_case (code y)) && rest

pub occurs : List Char → List Char → Bool
unfolding begins
occurs xs [] = begins xs []
occurs xs (y ∷ ys) = let rest = occurs xs ys in begins xs (y ∷ ys) || rest

-- `/…/i.test(ua)` of a literal text.
abbrev pub matches : String → String → Bool
matches text ua = occurs (chars text) (chars ua)

os_id : String → ℕ
unfolding occurs
os_id ua =
    if matches "Windows NT" ua
    then 1
    else if matches "Android" ua
    then 5
    else if matches "iPhone" ua || (matches "iPad" ua || matches "iPod" ua)
    then 4
    else if matches "Macintosh" ua || matches "Mac OS X" ua
    then 2
    else if matches "Linux" ua
    then 3
    else 0

browser_id : String → ℕ
unfolding occurs
browser_id ua =
    if matches "Edg/" ua || matches "Edge/" ua
    then 4
    else if matches "OPR/" ua || matches "Opera" ua
    then 5
    else if matches "Firefox" ua
    then 2
    else if matches "Chrome" ua
    then 1
    else if matches "Safari" ua
    then 3
    else 0

abbrev with_agent : (String → ℕ) → Option String → ℕ
with_agent parse none = 0
with_agent parse (some ua) = parse ua

unfoldable pub parse_os_id : Option String → ℕ
unfolding os_id
parse_os_id ua = with_agent os_id (truthy ua)

unfoldable pub parse_browser_id : Option String → ℕ
unfolding browser_id
parse_browser_id ua = with_agent browser_id (truthy ua)

abbrev pub os_names : List String
os_names = "Unknown" ∷ "Windows" ∷ "macOS" ∷ "Linux" ∷ "iOS" ∷ "Android" ∷ []

abbrev pub browser_names : List String
browser_names = "Unknown" ∷ "Chrome" ∷ "Firefox" ∷ "Safari" ∷ "Edge" ∷ "Opera" ∷ []

abbrev pub country_names : List String
country_names = "Unknown" ∷ []

-- stats.service.ts
pub record StatRow : Type 0 where
  pub short_url : String
  pub ip : String
  pub country_id : ℕ
  pub city_id : ℕ
  pub os_id : ℕ
  pub browser_id : ℕ

unfoldable pub build_stat_row : String → Option String → Option String → StatRow
unfolding parse_os_id parse_browser_id
build_stat_row short_url ip ua = record {
  short_url = short_url;
  ip = or_else ip "";
  country_id = 0;
  city_id = 0;
  os_id = parse_os_id ua;
  browser_id = parse_browser_id ua;
}

-- A row of a grouped query: the day or the id, and the clicks.
pub record GroupRow : Type 0 where
  pub group : String
  pub clicks : String

pub record Count : Type 0 where
  pub name : String
  pub clicks : ℕ

pub record AggregatedStats : Type 0 where
  pub total_clicks : ℕ
  pub clicks_by_day : List Count
  pub top_countries : List Count
  pub top_browsers : List Count

module _ (to_int : String → ℕ) where
  map_day_row : GroupRow → Count
  map_day_row r = record { name = r.group; clicks = to_int r.clicks }

  -- `NAMES[toInt(id)] ?? 'Unknown'`
  map_named_row : List String → GroupRow → Count
  map_named_row names r = record {
    name = or_else (get_elem? names (to_int r.group)) "Unknown";
    clicks = to_int r.clicks;
  }

  first_total : List String → String
  first_total [] = "0"
  first_total (total ∷ rows) = total

  unfoldable pub assemble_stats :
      List String → List GroupRow → List GroupRow → List GroupRow → AggregatedStats
  unfolding map_day_row map_named_row first_total
  assemble_stats total by_day countries browsers = record {
    total_clicks = to_int (first_total total);
    clicks_by_day = map map_day_row by_day;
    top_countries = map (map_named_row country_names) countries;
    top_browsers = map (map_named_row browser_names) browsers;
  }

-- The queries of the service, by slug, and the insert.
pub record ClickHouse (S : Type 0) : Type 0 where
  pub insert : StatRow → Io S (Unit {0})
  pub total : String → Io S (List String)
  pub by_day : String → Io S (List GroupRow)
  pub top_countries : String → Io S (List GroupRow)
  pub top_browsers : String → Io S (List GroupRow)

module _ {S : Type 0} (clickhouse : ClickHouse S) (to_int : String → ℕ) where
  -- `record` and `recordSafe`: a failure is only logged.
  unfoldable pub record_click : String → Option String → Option String → Io S (Unit {0})
  unfolding build_stat_row
  record_click short_url ip ua =
      catch (clickhouse.insert (build_stat_row short_url ip ua)) (λ err. pure tt)

  unfoldable pub get_stats : String → Io S AggregatedStats
  get_stats slug = do
    total ← clickhouse.total slug
    by_day ← clickhouse.by_day slug
    countries ← clickhouse.top_countries slug
    browsers ← clickhouse.top_browsers slug
    pure (assemble_stats to_int total by_day countries browsers)

  -- stats.controller.ts
  check_owner : String → String → Option Link → Io S (Unit {0})
  check_owner slug user_id none =
      raise (not_found (String.◌++◌ (String.◌++◌ "Link " slug) " not found"))
  check_owner slug user_id (some link) =
      if str_eq link.user_id user_id then pure tt else raise forbidden

  unfoldable pub verify_link_ownership :
      (String → Io S (Option Link)) → String → String → Io S (Unit {0})
  unfolding check_owner
  verify_link_ownership find_by_slug slug user_id = do
    link ← find_by_slug slug
    check_owner slug user_id link

  unfoldable pub stats_of_link :
      (String → Io S (Option Link)) → String → String → Io S AggregatedStats
  stats_of_link find_by_slug slug user_id =
      verify_link_ownership find_by_slug slug user_id >> get_stats slug
