-- ===== src/Usage.antt =====
-- apps/api/src/usage/usage.service.ts with common/constants.ts: the monthly limits of links and API
-- keys. `number` is JavaScript's `Number(raw)` where that is an integer of at least 0.
use mikrouli.Common.{ℕ, ◌-◌, String, Option, none, some, ltb, or_else, if◌then◌else◌}
use mikrouli.Calendar.{month_start, next_month_start}
use mikrouli.Io.{App, Io, on_pg, on_env, pure, ◌>>=◌}
use mikrouli.Services.{User, LinkTable, UserTable, KeyTable, Runtime}

abbrev pub global_link_limit : ℕ
global_link_limit = 100

abbrev pub global_key_limit : ℕ
global_key_limit = 10

abbrev pub retention_ms : ℕ
retention_ms = 94608000000

unfoldable pub parse_positive_int : (String → Option ℕ) → Option String → ℕ → ℕ
parse_positive_int number none fallback = fallback
parse_positive_int number (some raw) fallback = elim (number raw) [
  | none ↦ fallback
  | some parsed ↦ if ltb 0 parsed then parsed else fallback
]

-- The fields that the constructor sets.
pub record Limits : Type 0 where
  pub default_link_limit : ℕ
  pub default_key_limit : ℕ

unfoldable pub usage_limits : (String → Option ℕ) → (String → Option String) → Limits
unfolding parse_positive_int
usage_limits number config = record {
  default_link_limit = parse_positive_int number (config "MONTHLY_LINK_LIMIT") global_link_limit;
  default_key_limit = parse_positive_int number (config "MONTHLY_KEY_LIMIT") global_key_limit;
}

unfoldable pub resolve_link_limit : Limits → User → ℕ
resolve_link_limit limits user = or_else user.monthly_link_limit limits.default_link_limit

unfoldable pub resolve_key_limit : Limits → User → ℕ
resolve_key_limit limits user = or_else user.monthly_key_limit limits.default_key_limit

pub record Summary : Type 0 where
  pub links_created : ℕ
  pub link_limit : ℕ
  pub links_remaining : ℕ
  pub keys_created : ℕ
  pub key_limit : ℕ
  pub keys_remaining : ℕ
  pub reset_date : ℕ
  pub retention : ℕ

module _ {P R E : Type 0} (runtime : Runtime E) where
  unfoldable pub count_links_this_month : LinkTable P → String → Io (App P R E) ℕ
  count_links_this_month links user_id = do
    now ← on_env runtime.now
    on_pg (links.count user_id (month_start now) (next_month_start now))

  unfoldable pub count_keys_this_month : KeyTable P → String → Io (App P R E) ℕ
  count_keys_this_month keys user_id = do
    now ← on_env runtime.now
    on_pg (keys.count user_id (month_start now) (next_month_start now))

module _ {P R E : Type 0} (users : UserTable P) (limits : Limits) where
  unfoldable pub get_link_limit : String → Io (App P R E) ℕ
  unfolding resolve_link_limit
  get_link_limit user_id = do
    user ← on_pg (users.find_by_id_or_fail user_id)
    pure (resolve_link_limit limits user)

  unfoldable pub get_key_limit : String → Io (App P R E) ℕ
  unfolding resolve_key_limit
  get_key_limit user_id = do
    user ← on_pg (users.find_by_id_or_fail user_id)
    pure (resolve_key_limit limits user)

  -- `Math.max(0, limit - created)` is the truncated difference.
  unfoldable pub get_summary :
      LinkTable P → KeyTable P → Runtime E → String → Io (App P R E) Summary
  unfolding resolve_link_limit resolve_key_limit count_links_this_month count_keys_this_month
  get_summary links keys runtime user_id = do
    user ← on_pg (users.find_by_id_or_fail user_id)
    links_created ← count_links_this_month runtime links user_id
    keys_created ← count_keys_this_month runtime keys user_id
    now ← on_env runtime.now
    pure (record {
      links_created = links_created;
      link_limit = resolve_link_limit limits user;
      links_remaining = resolve_link_limit limits user - links_created;
      keys_created = keys_created;
      key_limit = resolve_key_limit limits user;
      keys_remaining = resolve_key_limit limits user - keys_created;
      reset_date = next_month_start now;
      retention = retention_ms;
    })
