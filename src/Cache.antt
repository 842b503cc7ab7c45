-- ===== src/Cache.antt =====
-- apps/api/src/cache/link-cache.service.ts: the cache of destinations, keyed by slug.
pub mod Laws
use Prim.Native.Nat.{min}
use Prim.Native.String
use mikrouli.Common.{ℕ, ◌-◌, ◌/◌, String, Option, none, some, leb, if◌then◌else◌}
use mikrouli.Io.{App, Io, on_env, on_redis, pure, ◌>>=◌}
use mikrouli.Redis.{safe_get, safe_set, safe_del}
use mikrouli.Services.{RedisClient, Runtime}

abbrev pub cache_ttl_cap_seconds : ℕ
cache_ttl_cap_seconds = 86400

unfoldable pub cache_key : String → String
cache_key slug = String.◌++◌ "link:" slug

-- `ttlSecondsUntil` at a reading of the clock: `none` is `undefined`. Where the expiry is not
-- ahead the difference is not positive, and the truncated subtraction is 0.
unfoldable pub ttl_seconds_until : Option ℕ → ℕ → Option ℕ
ttl_seconds_until none now = some cache_ttl_cap_seconds
ttl_seconds_until (some expires_at) now =
    if leb expires_at now
    then none
    else some (min ((expires_at - now) / 1000) cache_ttl_cap_seconds)

module _ {P R E : Type 0} (client : RedisClient R) (runtime : Runtime E) where
  -- The clock is read only for an expiry that is not null.
  unfoldable pub ttl_of : Option ℕ → Io (App P R E) (Option ℕ)
  unfolding ttl_seconds_until
  ttl_of none = pure (ttl_seconds_until none 0)
  ttl_of (some expires_at) = do
    now ← on_env runtime.now
    pure (ttl_seconds_until (some expires_at) now)

  unfoldable pub get : String → Io (App P R E) (Option String)
  unfolding safe_get cache_key
  get slug = on_redis (safe_get client (cache_key slug))

  unfoldable pub set : String → String → Option ℕ → Io (App P R E) (Unit {0})
  unfolding safe_set cache_key ttl_of
  set slug original_url expires_at = do
    ttl ← ttl_of expires_at
    on_redis (safe_set client (cache_key slug) original_url ttl)

  unfoldable pub del : String → Io (App P R E) (Unit {0})
  unfolding safe_del cache_key
  del slug = on_redis (safe_del client (cache_key slug))
