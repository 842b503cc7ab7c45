-- ===== src/Cache/Laws.antt =====
-- The lifetime that link-cache.service.ts and redis.service.ts give an entry of the cache.
use mikrouli.Common.{ℕ, ◌+◌, ◌*◌, ◌≤◌, ◌<◌, ◌≡◌, ◌↔◌, none, some, arith}
use mikrouli.Redis.{effective_ttl}
use mikrouli.Cache.{cache_ttl_cap_seconds, ttl_seconds_until}

-- A lifetime that reaches Redis is positive and at most a day, and it ends no later than the
-- link's expiry.
pub ttl_seconds_until_bounds :
    (expires_at now t : ℕ)
    → effective_ttl (ttl_seconds_until (some expires_at) now) ≡ some t
    → (0 < t) × (t ≤ cache_ttl_cap_seconds) × (now + t * 1000 ≤ expires_at)
unfolding ttl_seconds_until
ttl_seconds_until_bounds expires_at now t h = (ground arith, ground arith, ground arith)

-- No lifetime reaches Redis exactly when the expiry is less than a second ahead, or past.
pub ttl_seconds_until-eq-none_iff :
    (expires_at now : ℕ)
    → (effective_ttl (ttl_seconds_until (some expires_at) now) ≡ none) ↔ (expires_at < now + 1000)
unfolding ttl_seconds_until
ttl_seconds_until-eq-none_iff expires_at now = (λ h. ground arith, λ h. ground arith)
