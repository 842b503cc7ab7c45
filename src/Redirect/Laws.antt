-- ===== src/Redirect/Laws.antt =====
-- What apps/api/src/redirect resolves where the cache does not hold the slug.
use mikrouli.Common.{
  refl, if◌then◌else◌, ℕ, String, ◌≡◌, ◌∙◌, ◌⊎◌, inl, inr, Option, none, some, arith,
}
use mikrouli.Http.{Exception, ok, throw, Result-cases}
use mikrouli.Io.{App}
use mikrouli.Services.{Link, LinkTable, RedisClient, Runtime}
use mikrouli.Services.Laws.{LinkLaws, RedisLaws}
use mikrouli.Urls.{UrlLibrary, has_http_scheme}
use mikrouli.Cache
use mikrouli.Cache.{cache_key}
use mikrouli.Redirect.{
  Resolution, active, expired, not_found_slug, is_expired, resolve_found, resolve_from_database,
  resolve,
}

module _ {P R E : Type 0} (table : LinkTable P) (client : RedisClient R) (runtime : Runtime E)
    (library : UrlLibrary) where
  -- What a slug resolves to by the table alone, at a time.
  abbrev pub resolution_of : Option Link → ℕ → Resolution
  resolution_of none now = not_found_slug
  resolution_of (some l) now =
      if is_expired l.expires_at now
      then expired
      else (if has_http_scheme library l.original_url
          then active l.original_url
          else not_found_slug)

  resolve_found-eq :
      (slug : String) (o : Option Link) (w : App P R E)
      → (resolve_found table client runtime library slug o w).0
        ≡ ok (resolution_of o (runtime.now w.env).0)
  unfolding resolve_found is_expired Cache.set Cache.ttl_of
  resolve_found-eq slug none w = refl
  resolve_found-eq slug (some l) w = ground arith

  -- After the lookup in the cache.
  abbrev looked_up : String → App P R E → App P R E
  looked_up slug w = record w { redis = (client.get (cache_key slug) w.redis).1 }

  module _ (laws : LinkLaws table) (cache : RedisLaws client) where
    resolve_from_database-lem :
        (slug : String) (w : App P R E)
        → ((x : Exception) × ((table.find_one slug w.pg).0 ≡ throw x)
            × ((resolve_from_database table client runtime library slug w).0 ≡ throw x))
          ⊎ ((resolve_from_database table client runtime library slug w).0
              ≡ ok (resolution_of (laws.row w.pg slug) (runtime.now w.env).0))
    unfolding resolve_from_database
    resolve_from_database-lem slug w =
        let s = record w { pg = (table.find_one slug w.pg).1 } in
        elim (Result-cases (table.find_one slug w.pg).0) [
          | inl (o, e) ↦
              inr (ground (arith, laws.find_one_row slug w.pg e, resolve_found-eq slug o s))
          | inr (x, e) ↦ inl (x, e, ground arith)
        ]

    -- A miss, or an error of Redis, goes on to the database.
    resolve-resolve_from_database :
        (slug : String) (w : App P R E)
        → cache.value w.redis (cache_key slug) ≡ none
        → (resolve table client runtime library slug w).0
          ≡ (resolve_from_database table client runtime library slug (looked_up slug w)).0
    unfolding resolve Cache.get
    resolve-resolve_from_database slug w miss =
        elim (Result-cases (client.get (cache_key slug) w.redis).0) [
          | inl (o, e) ↦ ground (arith, cache.get_value (cache_key slug) w.redis e)
          | inr (x, e) ↦ ground arith
        ]

    -- Where Redis holds no destination for a slug, whether Redis answers or not, the slug resolves to
    -- what its row and the clock say, also where storing the destination fails; only an exception of
    -- the query reaches the visitor, as it is.
    pub resolve-miss :
        (slug : String) (w : App P R E)
        → cache.value w.redis (cache_key slug) ≡ none
        → ((x : Exception) × ((table.find_one slug w.pg).0 ≡ throw x)
            × ((resolve table client runtime library slug w).0 ≡ throw x))
          ⊎ ((resolve table client runtime library slug w).0
              ≡ ok (resolution_of (laws.row w.pg slug) (runtime.now w.env).0))
    resolve-miss slug w miss =
        let same = resolve-resolve_from_database slug w miss in
        elim (resolve_from_database-lem slug (looked_up slug w)) [
          | inl (x, e, thrown) ↦ inl (x, e, same ∙ thrown)
          | inr found ↦ inr (same ∙ found)
        ]
