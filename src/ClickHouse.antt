-- ===== src/ClickHouse.antt =====
-- apps/api/src/clickhouse/clickhouse.service.ts: the schema and the dictionaries that the service
-- makes when it starts. The client of ClickHouse is a parameter, and logging is left out.
pub mod Filled
pub mod Laws
pub mod Seeding
use Prim.Native.Char.{code}
use Prim.Native.String
use mikrouli.Common.{
  ℕ, ◌+◌, ◌*◌, ◌-◌, String, Bool, true, false, Option, none, some, List, [], ◌∷◌, ltb, or_else,
  if◌then◌else◌,
}
use mikrouli.Io.{Io, pure, catch, ◌>>=◌, ◌>>◌}
use mikrouli.Web.Regex.{is_digit}

abbrev pub stats_ddl : List String
stats_ddl =
    "CREATE TABLE IF NOT EXISTS countries (id UInt16, name String) ENGINE = MergeTree() ORDER BY id"
    ∷ "CREATE TABLE IF NOT EXISTS cities (id UInt16, name String) ENGINE = MergeTree() ORDER BY id"
    ∷ "CREATE TABLE IF NOT EXISTS os (id UInt16, name String) ENGINE = MergeTree() ORDER BY id"
    ∷ "CREATE TABLE IF NOT EXISTS browsers (id UInt16, name String) ENGINE = MergeTree() ORDER BY id"
    ∷ "CREATE TABLE IF NOT EXISTS stats (\n     short_url  String,\n     timestamp  DateTime DEFAULT now(),\n     ip         String,\n     country_id UInt16 DEFAULT 0,\n     city_id    UInt16 DEFAULT 0,\n     os_id      UInt16 DEFAULT 0,\n     browser_id UInt16 DEFAULT 0\n   ) ENGINE = MergeTree() PARTITION BY toYYYYMM(timestamp) ORDER BY (short_url, timestamp)"
    ∷ "CREATE TABLE IF NOT EXISTS stats_buffer AS stats\n     ENGINE = Buffer(currentDatabase(), stats, 16, 10, 100, 10000, 1000000, 10000000, 100000000)"
    ∷ []

-- A row of a dictionary.
pub record Entry : Type 0 where
  pub id : ℕ
  pub name : String

abbrev pub os_seed : List Entry
os_seed =
    record { id = 0; name = "Other" }
    ∷ record { id = 1; name = "Windows" }
    ∷ record { id = 2; name = "macOS" }
    ∷ record { id = 3; name = "Linux" }
    ∷ record { id = 4; name = "iOS" }
    ∷ record { id = 5; name = "Android" }
    ∷ []

abbrev pub browser_seed : List Entry
browser_seed =
    record { id = 0; name = "Other" }
    ∷ record { id = 1; name = "Chrome" }
    ∷ record { id = 2; name = "Firefox" }
    ∷ record { id = 3; name = "Safari" }
    ∷ record { id = 4; name = "Edge" }
    ∷ record { id = 5; name = "Opera" }
    ∷ []

abbrev pub country_seed : List Entry
country_seed = record { id = 0; name = "Unknown" } ∷ []

abbrev pub city_seed : List Entry
city_seed = record { id = 0; name = "Unknown" } ∷ []

pub record Dictionary : Type 0 where
  pub table : String
  pub rows : List Entry

abbrev pub dictionary_tables : List Dictionary
dictionary_tables =
    record { table = "os"; rows = os_seed }
    ∷ record { table = "browsers"; rows = browser_seed }
    ∷ record { table = "countries"; rows = country_seed }
    ∷ record { table = "cities"; rows = city_seed }
    ∷ []

-- `parseInt(text, 10)` of a text without white space and sign; none is NaN.
abbrev pub parse_digits : Option ℕ → String → Option ℕ
parse_digits read String.[] = read
parse_digits read (String.◌∷◌ c s) =
    let rest = parse_digits (some (or_else read 0 * 10 + (code c - b'0'))) s in
    if is_digit (code c) then rest else read

-- `count > 0`
abbrev pub is_positive : Option ℕ → Bool
is_positive none = false
is_positive (some n) = ltb 0 n

-- The calls of the client: a command, the `total` of the first row of a count, and an insert.
pub record ClickHouseClient (C : Type 0) : Type 0 where
  pub command : String → Io C (Unit {0})
  pub total : String → Io C (Option String)
  pub insert : String → List Entry → Io C (Unit {0})

module _ {C : Type 0} (client : ClickHouseClient C) where
  unfoldable pub run_ddl_list : List String → Io C (Unit {0})
  run_ddl_list [] = pure tt
  run_ddl_list (ddl ∷ ddls) = client.command ddl >> run_ddl_list ddls

  unfoldable pub fetch_row_count : String → Io C (Option ℕ)
  fetch_row_count table = do
    total ← client.total table
    pure (parse_digits none (or_else total "0"))

  unfoldable pub seed_table_if_empty : String → List Entry → Io C (Unit {0})
  unfolding fetch_row_count
  seed_table_if_empty table rows = do
    count ← fetch_row_count table
    if is_positive count then pure tt else client.insert table rows

  unfoldable pub seed_all_dictionaries : List Dictionary → Io C (Unit {0})
  unfolding seed_table_if_empty
  seed_all_dictionaries [] = pure tt
  seed_all_dictionaries (entry ∷ entries) =
      seed_table_if_empty entry.table entry.rows >> seed_all_dictionaries entries

  -- A failure is logged, and the service runs on.
  unfoldable pub init_schema_and_seed : Io C (Unit {0})
  unfolding run_ddl_list seed_all_dictionaries
  init_schema_and_seed =
      catch (run_ddl_list stats_ddl >> seed_all_dictionaries dictionary_tables) (λ err. pure tt)
