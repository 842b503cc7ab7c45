-- ===== src/Redirect.antt =====
-- apps/api/src/redirect: the resolution of a slug, first from the cache and then from the database,
-- and the controller's answer.
pub mod Laws
use Prim.Native.Char.{code}
use Prim.Native.String
use mikrouli.Common.{
  ℕ, ◌+◌, String, Bool, true, false, not, Option, none, some, List, [], ◌∷◌, str_eq, ltb, leb, ◌==◌,
  if◌then◌else◌,
}
use mikrouli.Http.{Exception, Result, ok, throw, http, object, not_found}
use mikrouli.Io.{App, Io, on_pg, on_env, pure, raise, ◌>>=◌, ◌>>◌}
use mikrouli.Services.{Link, LinkTable, RedisClient, Runtime}
use mikrouli.Urls.{UrlLibrary, has_http_scheme}
use mikrouli.Cache

-- `RedirectResolution`: the destination is there exactly when the status is 'active'.
pub data Resolution : Type 0 where
  active : String → Resolution
  expired not_found_slug : Resolution

-- `isExpired`, at a reading of the clock
unfoldable pub is_expired : Option ℕ → ℕ → Bool
is_expired none now = false
is_expired (some expires_at) now = leb expires_at now

-- The length of a JavaScript string, in UTF-16 code units.
abbrev pub js_length : String → ℕ
js_length String.[] = 0
js_length (String.◌∷◌ c s) = (if ltb (code c) 65536 then 1 else 2) + js_length s

-- `applyRedirect`: where the 302 goes; an empty destination is falsy.
unfoldable pub apply_redirect : Resolution → Result String
apply_redirect (active url) = if str_eq url "" then throw (not_found "unknown slug") else ok url
apply_redirect expired = throw (http 410 (object "link expired"))
apply_redirect not_found_slug = throw (not_found "unknown slug")

-- `recordStatsIfActive`: the slugs whose click is handed to the statistics, not awaited.
unfoldable pub recorded : String → Resolution → List String
recorded slug (active url) = slug ∷ []
recorded slug expired = []
recorded slug not_found_slug = []

abbrev pub slug_length : ℕ
slug_length = 6

unfoldable pub reject_invalid_slug : String → Result (Unit {0})
reject_invalid_slug slug =
    if js_length slug == slug_length
    then ok tt
    else throw (not_found (String.◌++◌ "unknown slug " slug))

-- What the controller does with a request: its answer, and the clicks that it records.
pub record Reply : Type 0 where
  pub answer : Result String
  pub clicks : List String

abbrev refused : Exception → Reply
refused e = record { answer = throw e; clicks = [] }

module _ {P R E : Type 0} (table : LinkTable P) (client : RedisClient R) (runtime : Runtime E)
    (library : UrlLibrary) where
  -- The clock is read only for an expiry that is not null.
  unfoldable pub expired_now : Option ℕ → Io (App P R E) Bool
  unfolding is_expired
  expired_now none = pure (is_expired none 0)
  expired_now (some expires_at) = do
    now ← on_env runtime.now
    pure (is_expired (some expires_at) now)

  -- The rest of `resolveFromDatabase`, after the test of the expiry.
  unfoldable pub resolve_live : String → Link → Bool → Io (App P R E) Resolution
  resolve_live slug link true = pure expired
  resolve_live slug link false =
      if not (has_http_scheme library link.original_url) then pure not_found_slug else do
        Cache.set client runtime slug link.original_url link.expires_at
        pure (active link.original_url)

  unfoldable pub resolve_found : String → Option Link → Io (App P R E) Resolution
  unfolding resolve_live expired_now
  resolve_found slug none = pure not_found_slug
  resolve_found slug (some link) = do
    gone ← expired_now link.expires_at
    resolve_live slug link gone

  unfoldable pub resolve_from_database : String → Io (App P R E) Resolution
  unfolding resolve_found
  resolve_from_database slug = do link ← on_pg (table.find_one slug); resolve_found slug link

  unfoldable pub resolve_cached : String → Option String → Io (App P R E) Resolution
  unfolding resolve_from_database
  resolve_cached slug none = resolve_from_database slug
  resolve_cached slug (some cached) =
      pure (if not (has_http_scheme library cached) then not_found_slug else active cached)

  unfoldable pub resolve : String → Io (App P R E) Resolution
  unfolding resolve_cached
  resolve slug = do cached ← Cache.get client runtime slug; resolve_cached slug cached

  reply_to : String → Result Resolution → Reply
  reply_to slug (throw e) = refused e
  reply_to slug (ok resolution) = record {
    answer = apply_redirect resolution;
    clicks = recorded slug resolution;
  }

  unfoldable pub redirect : String → App P R E → Reply × App P R E
  unfolding reply_to reject_invalid_slug
  redirect slug w = elim (reject_invalid_slug slug) [
    | throw e ↦ (refused e, w)
    | ok _ ↦ (reply_to slug (resolve slug w).0, (resolve slug w).1)
  ]
