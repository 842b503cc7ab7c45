-- ===== src/Links.antt =====
-- apps/api/src/links/links.service.ts: creation under a monthly quota with retries on a taken slug,
-- lookup, deletion and change of destination.
pub mod Retry
pub mod Create
pub mod Ownership
pub mod Controller
use Prim.Native.String
use mikrouli.Common.{
  ℕ, zero, suc, ◌+◌, String, Bool, true, false, Option, none, some, List, leb, str_eq, or_else,
  if◌then◌else◌,
}
use mikrouli.Http.{
  Exception, http, query_failed, other, Result, ok, throw, not_found, forbidden, conflict,
  monthly_link_limit_exceeded,
}
use mikrouli.Io.{App, Io, on_pg, on_env, pure, raise, catch, continue, ◌>>=◌, ◌>>◌}
use mikrouli.Services.Slugs.{FillsColumn}
use mikrouli.Services.{Link, LinkFields, LinkTable, UserTable, KeyTable, Runtime}
use mikrouli.Usage.{Limits, retention_ms, count_links_this_month, get_link_limit}

abbrev pub max_slug_retries : ℕ
max_slug_retries = 5

unfoldable pub is_unique_violation : Exception → Bool
is_unique_violation (query_failed code) = str_eq code "23505"
is_unique_violation (http status response) = false
is_unique_violation (other message) = false

module _ {S : Type 0} where
  -- `tryOnce`: no link where the slug was taken.
  unfoldable pub try_once : Io S Link → Io S (Option Link)
  unfolding is_unique_violation
  try_once attempt =
      catch (do link ← attempt; pure (some link))
        (λ e. if is_unique_violation e then pure none else raise e)

  -- The loop of `retryOnSlugConflict`, over the rounds that are left.
  unfoldable pub retry_rounds : ℕ → Io S Link → Io S Link
  unfolding try_once
  retry_rounds zero attempt = raise (conflict "failed to generate unique slug after retries")
  retry_rounds (suc rounds) attempt = do
    link ← try_once attempt
    elim link [ none ↦ retry_rounds rounds attempt | some l ↦ pure l ]

  unfoldable pub retry_on_slug_conflict : Io S Link → Io S Link
  unfolding retry_rounds
  retry_on_slug_conflict attempt = retry_rounds max_slug_retries attempt

-- `slugGenerator`, an injected dependency of the service.
pub record SlugGenerator (E : Type 0) : Type 0 where
  pub generate : E → String × E
  -- A slug has as many characters as the column.
  pub generate_fills : (e : E) → FillsColumn (generate e).0

module _ {P : Type 0} (table : LinkTable P) where
  -- The body of the transaction.
  unfoldable pub insert_link_with_outbox : LinkFields → Io P Link
  insert_link_with_outbox fields = do
    table.insert fields
    table.save_outbox (record {
      aggregate_type = "link_created";
      slug = fields.short_url;
      original_url = fields.original_url;
    })
    table.find_one_or_fail fields.short_url

module _ {P R E : Type 0} (table : LinkTable P) (users : UserTable P) (runtime : Runtime E)
    (slugs : SlugGenerator E) (limits : Limits) where
  -- `resolveExpiry`, of a time or undefined; an explicit null is left out.
  unfoldable pub resolve_expiry : Option ℕ → Io (App P R E) ℕ
  resolve_expiry (some explicit) = pure explicit
  resolve_expiry none = do now ← on_env runtime.now; pure (now + retention_ms)

  unfoldable pub try_create : String → String → ℕ → Io (App P R E) Link
  unfolding insert_link_with_outbox
  try_create original_url user_id expires_at = do
    short_url ← on_env slugs.generate
    on_pg (
        table.transaction (
          insert_link_with_outbox table (record {
            short_url = short_url;
            original_url = original_url;
            user_id = user_id;
            expires_at = expires_at;
          })))

  unfoldable pub create_guest : String → String → Option ℕ → Io (App P R E) Link
  create_guest original_url guest_user_id explicit_expiry = do
    expires_at ← resolve_expiry explicit_expiry
    retry_on_slug_conflict (try_create original_url guest_user_id expires_at)

  unfoldable pub create : String → String → Option ℕ → Io (App P R E) Link
  create original_url user_id explicit_expiry = do
    count ← count_links_this_month runtime table user_id
    limit ← get_link_limit users limits user_id
    if leb limit count then raise monthly_link_limit_exceeded else do
      expires_at ← resolve_expiry explicit_expiry
      retry_on_slug_conflict (try_create original_url user_id expires_at)

  unfoldable pub list_for_user : String → Io (App P R E) (List Link)
  list_for_user user_id = on_pg (table.find_by_user user_id)

  unfoldable pub find_by_slug : String → Io (App P R E) (Option Link)
  find_by_slug slug = on_pg (table.find_one slug)

  owned : String → String → Option Link → Io (App P R E) Link
  owned slug user_id none = raise (not_found (String.◌++◌ "Link " (String.◌++◌ slug " not found")))
  owned slug user_id (some link) =
      if str_eq link.user_id user_id then pure link else raise forbidden

  unfoldable pub get_owned_link : String → String → Io (App P R E) Link
  unfolding owned
  get_owned_link slug user_id = do link ← on_pg (table.find_one slug); owned slug user_id link

  unfoldable pub delete : String → String → Io (App P R E) (Unit {0})
  delete slug user_id = do get_owned_link slug user_id; on_pg (table.delete slug)

  -- The link that is returned is the one that was read, with the new destination.
  unfoldable pub update_destination : String → String → String → Io (App P R E) Link
  update_destination slug user_id url = do
    link ← get_owned_link slug user_id
    on_pg (table.update slug user_id url)
    pure (record link { original_url = url })
