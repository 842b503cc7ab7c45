-- ===== src/Links/Controller/Cached.antt =====
-- The cache as links.controller.ts writes it and redirect.service.ts reads it.
use mikrouli.Common.{ℕ, String, ◌≡◌, inl, inr, true, Option, none, some, arith}
use mikrouli.Http.{ok, Result-cases}
use mikrouli.Io.{App}
use mikrouli.Services.{LinkTable, RedisClient, Runtime}
use mikrouli.Services.Laws.{LinkLaws, RedisLaws, RedisUp}
use mikrouli.Urls.{UrlLibrary, has_http_scheme}
use mikrouli.Cache
use mikrouli.Cache.{cache_key, ttl_seconds_until}
use mikrouli.Redis.{effective_ttl}
use mikrouli.Redirect.{Resolution, active, not_found_slug, resolve}

module _ {P R E : Type 0} (table : LinkTable P) (client : RedisClient R) (runtime : Runtime E)
    (library : UrlLibrary) (laws : LinkLaws table) (cache : RedisLaws client)
    (up : RedisUp client cache) where
  -- A cached destination is served.
  pub resolve-hit :
      (slug : String) (w : App P R E) {url : String}
      → cache.value w.redis (cache_key slug) ≡ some url
      → has_http_scheme library url ≡ true
      → (resolve table client runtime library slug w).0 ≡ ok (active url)
  unfolding resolve Cache.get
  resolve-hit slug w h scheme = ground (arith, up.get_up (cache_key slug) w.redis)

  -- Without a cached destination and without a row the slug is unknown, unless the query throws.
  pub resolve-absent :
      (slug : String) (w : App P R E) {x : Resolution}
      → cache.value w.redis (cache_key slug) ≡ none
      → laws.row w.pg slug ≡ none
      → (resolve table client runtime library slug w).0 ≡ ok x
      → x ≡ not_found_slug
  unfolding resolve Cache.get
  resolve-absent slug w {x} h absent e = elim (Result-cases (table.find_one slug w.pg).0) [
    | inl (o, found) ↦
        ground (arith, up.get_up (cache_key slug) w.redis, laws.find_one_row slug w.pg found)
    | inr (y, failed) ↦ absurd (ground (arith, up.get_up (cache_key slug) w.redis))
  ]

  pub set-value :
      (slug url : String) (expiry : Option ℕ) (w : App P R E)
      → cache.value (Cache.set client runtime slug url expiry w).1.redis (cache_key slug) ≡ some url
  unfolding Cache.set
  set-value slug url none w =
      let t = effective_ttl (ttl_seconds_until none 0) in
      ground (
        arith,
        up.set_up (cache_key slug) url t w.redis,
        cache.set_value (cache_key slug) url t w.redis,
      )
  set-value slug url (some e) w =
      let t = effective_ttl (ttl_seconds_until (some e) (runtime.now w.env).0) in
      ground (
        arith,
        up.set_up (cache_key slug) url t w.redis,
        cache.set_value (cache_key slug) url t w.redis,
      )

  pub set-ttl :
      (slug url : String) (e : ℕ) (w : App P R E)
      → cache.ttl (Cache.set client runtime slug url (some e) w).1.redis (cache_key slug)
        ≡ effective_ttl (ttl_seconds_until (some e) (runtime.now w.env).0)
  unfolding Cache.set
  set-ttl slug url e w =
      let t = effective_ttl (ttl_seconds_until (some e) (runtime.now w.env).0) in
      ground (
        arith,
        up.set_up (cache_key slug) url t w.redis,
        cache.set_ttl (cache_key slug) url t w.redis,
      )

  pub set-ok :
      (slug url : String) (expiry : Option ℕ) (w : App P R E)
      → (Cache.set client runtime slug url expiry w).0 ≡ ok tt
  unfolding Cache.set
  set-ok slug url none w = ground arith
  set-ok slug url (some e) w = ground arith

  pub set-pg :
      (slug url : String) (expiry : Option ℕ) (w : App P R E)
      → (Cache.set client runtime slug url expiry w).1.pg ≡ w.pg
  unfolding Cache.set
  set-pg slug url none w = ground arith
  set-pg slug url (some e) w = ground arith

  pub del-value :
      (slug : String) (w : App P R E)
      → cache.value (Cache.del client runtime slug w).1.redis (cache_key slug) ≡ none
  unfolding Cache.del
  del-value slug w =
      ground (arith, up.del_up (cache_key slug) w.redis, cache.del_value (cache_key slug) w.redis)
