-- ===== src/Links/Controller/Visit.antt =====
-- What a visitor of a slug gets right after links.controller.ts has changed its link.
use mikrouli.Common.{
  ℕ, ◌≤◌, String, ◌≡◌, refl, sym, ap, ◌∙◌, ◌⊎◌, inl, inr, true, Option, none, some, arith, leb,
  Bool-cases, leb→le,
}
use mathlib.Core.Path.{subst, subst₃}
use mikrouli.Http.{Exception, ok, throw, Result-cases}
use mikrouli.Io.{App}
use mikrouli.Services.{Link, LinkTable, UserTable, RedisClient, Runtime}
use mikrouli.Services.Slugs.{FillsColumn}
use mikrouli.Services.Laws.{LinkLaws, RedisLaws, RedisUp}
use mikrouli.Usage.{Limits}
use mikrouli.Urls.{UrlLibrary, has_http_scheme}
use mikrouli.Cache
use mikrouli.Cache.{cache_key, ttl_seconds_until}
use mikrouli.Redirect.{active, not_found_slug, resolve}
use mikrouli.Links.{SlugGenerator, get_owned_link, delete, update_destination}
use mikrouli.Links.Ownership.{get_owned_link-Owns, get_owned_link-env}
use mikrouli.Links.Controller.{AuthenticatedUser, PublicLink, remove, refresh_cache, update}
use mikrouli.Links.Controller.Cached.{resolve-hit, resolve-absent, set-value, del-value}

module _ {P R E : Type 0} (table : LinkTable P) (users : UserTable P) (client : RedisClient R)
    (runtime : Runtime E) (slugs : SlugGenerator E) (limits : Limits) (library : UrlLibrary)
    (laws : LinkLaws table) (cache : RedisLaws client) (up : RedisUp client cache) where
  delete-row :
      (slug user : String) (w : App P R E)
      → (delete table users runtime slugs limits slug user w).0 ≡ ok tt
      → laws.row (delete table users runtime slugs limits slug user w).1.pg slug ≡ none
  unfolding delete
  delete-row slug user w h =
      let found = get_owned_link table users runtime slugs limits slug user w in
      ground (arith, laws.delete_row slug found.1.pg)

  remove-absent :
      (user : AuthenticatedUser) (slug : String) (w : App P R E)
      → (remove table users client runtime slugs limits user slug w).0 ≡ ok tt
      → (cache.value
            (remove table users client runtime slugs limits user slug w).1.redis
            (cache_key slug)
          ≡ none)
        × (laws.row (remove table users client runtime slugs limits user slug w).1.pg slug ≡ none)
  unfolding remove Cache.del
  remove-absent user slug w h =
      let deleted = (delete table users runtime slugs limits slug user.id w).1 in
      ground (
        arith,
        up.del_up (cache_key slug) deleted.redis,
        cache.del_value (cache_key slug) deleted.redis,
        delete-row slug user.id w,
      )

  -- After a deletion that has succeeded, the next visit of the slug ends with "not found", or with
  -- the exception of a query that throws.
  pub resolve-remove :
      (user : AuthenticatedUser) (slug : String) (w : App P R E)
      → (remove table users client runtime slugs limits user slug w).0 ≡ ok tt
      → ((x : Exception) × ((resolve table client runtime library slug
              (remove table users client runtime slugs limits user slug w).1).0
            ≡ throw x))
        ⊎ ((resolve table client runtime library slug
              (remove table users client runtime slugs limits user slug w).1).0
            ≡ ok not_found_slug)
  resolve-remove user slug w h =
      let (uncached, deleted) = remove-absent user slug w h in
      let visit =
        resolve table client runtime library slug
          (remove table users client runtime slugs limits user slug w).1 in
      elim (Result-cases visit.0) [
        | inl (v, e) ↦
            let unknown =
              resolve-absent table client runtime library laws cache up slug _ uncached deleted e in
            inr (e ∙ ap ok unknown)
        | inr (x, e) ↦ inl (x, e)
      ]

  -- What `update` leaves in the cache for a link, at a reading of the clock.
  abbrev Refreshed : Link → Option ℕ → ℕ → R → Type 0
  Refreshed link expiry now r =
      (cache.value r (cache_key link.short_url) ≡ some link.original_url)
      ⊎ ((e : ℕ) × (expiry ≡ some e)
          × (e ≤ now)
          × (cache.value r (cache_key link.short_url) ≡ none))

  refresh_cache-Refreshed :
      (link : Link) (expiry : Option ℕ) (w : App P R E)
      → Refreshed link expiry
          (runtime.now w.env).0
          (refresh_cache table users client runtime slugs limits link expiry link.short_url
            w).1.redis
  unfolding refresh_cache
  refresh_cache-Refreshed link none w = inl (
      set-value table client runtime library laws cache up link.short_url link.original_url
        link.expires_at w)
  refresh_cache-Refreshed link (some e) w = elim (Bool-cases (leb e (runtime.now w.env).0)) [
    | inl past ↦
        let evicted = del-value table client runtime library laws cache up link.short_url _ in
        rw past (inr (e, refl, leb→le _ _ past, evicted))
    | inr ahead ↦ rw ahead (
        inl (
          set-value table client runtime library laws cache up link.short_url link.original_url
            link.expires_at _))
  ]

  update_destination-lem :
      (slug user url : String) (w : App P R E) {l : Link}
      → FillsColumn slug
      → (update_destination table users runtime slugs limits slug user url w).0 ≡ ok l
      → (l.short_url ≡ slug)
        × (l.original_url ≡ url)
        × ((update_destination table users runtime slugs limits slug user url w).1.env ≡ w.env)
  unfolding update_destination
  update_destination-lem slug user url w {l} six h =
      let found = get_owned_link table users runtime slugs limits slug user w in
      elim (Result-cases found.0) [
        | inl (old, e) ↦
            let owns = get_owned_link-Owns table laws users runtime slugs limits slug user w e in
            let same = laws.row_slug slug w.pg six owns.0 in
            ground
              (arith, same, get_owned_link-env table laws users runtime slugs limits slug user w)
        | inr (x, e) ↦ absurd (ground arith)
      ]

  update-parts :
      (user : AuthenticatedUser) (slug url : String) (w : App P R E) {l : PublicLink}
      → (update table users client runtime slugs limits user slug url w).0 ≡ ok l
      → (link : Link) × ((update_destination table users runtime slugs limits slug user.id url w).0
          ≡ ok link)
        × ((update table users client runtime slugs limits user slug url w).1
            ≡ (refresh_cache table users client runtime slugs limits link link.expires_at slug
                (update_destination table users runtime slugs limits slug user.id url w).1).1)
        × (l.expires_at ≡ link.expires_at)
  unfolding update
  update-parts user slug url w {l} h =
      let changed = update_destination table users runtime slugs limits slug user.id url w in
      elim (Result-cases changed.0) [
        | inl (link, e) ↦ (link, e, ground arith, ground arith)
        | inr (x, e) ↦ absurd (ground arith)
      ]

  -- The next visitor of the slug is sent to the destination; or the link has expired at a reading
  -- of the clock, and no destination is cached.
  abbrev pub Visited : String → String → Option ℕ → ℕ → App P R E → Type 0
  Visited slug url expiry now w =
      ((resolve table client runtime library slug w).0 ≡ ok (active url))
      ⊎ ((e : ℕ) × (expiry ≡ some e) × (e ≤ now) × (cache.value w.redis (cache_key slug) ≡ none))

  visit-Refreshed :
      (link : Link) (expiry : Option ℕ) (now : ℕ) (slug url : String) (w : App P R E)
      → link.short_url ≡ slug
      → link.original_url ≡ url
      → has_http_scheme library url ≡ true
      → Refreshed link expiry now w.redis
      → Visited slug url expiry now w
  visit-Refreshed link expiry now slug url w same_slug same_url scheme (inl hit) = inl (
      resolve-hit table client runtime library laws cache up slug w
        (subst (λ s. cache.value w.redis (cache_key s) ≡ some url) same_slug
          (hit ∙ ap some same_url))
        scheme)
  visit-Refreshed link expiry now slug url w same_slug same_url scheme (inr (e, is, past, miss)) =
      inr (e, is, past, subst (λ s. cache.value w.redis (cache_key s) ≡ none) same_slug miss)

  -- Where Redis answers every call, the slug has six characters and the new destination is a web
  -- address: after a change of destination that has succeeded the next visitor is sent to the new one,
  -- or the link has expired by then and no destination is cached.
  pub resolve-update :
      (user : AuthenticatedUser) (slug url : String) (w : App P R E) {l : PublicLink}
      → FillsColumn slug
      → has_http_scheme library url ≡ true
      → (update table users client runtime slugs limits user slug url w).0 ≡ ok l
      → Visited slug url l.expires_at
          (runtime.now w.env).0
          (update table users client runtime slugs limits user slug url w).1
  resolve-update user slug url w {l} six scheme h =
      let (link, e, after, expiry) = update-parts user slug url w h in
      let changed = (update_destination table users runtime slugs limits slug user.id url w).1 in
      let (same_slug, same_url, same_env) = update_destination-lem slug user.id url w six e in
      let refreshed =
        subst
          (λ s.
            Refreshed link link.expires_at (runtime.now changed.env).0
              (refresh_cache table users client runtime slugs limits link link.expires_at s
                changed).1.redis)
          same_slug (refresh_cache-Refreshed link link.expires_at changed) in
      subst₃ (λ w' o n. Visited slug url o (runtime.now n).0 w') (sym after) (sym expiry) same_env
        (visit-Refreshed link link.expires_at (runtime.now changed.env).0 slug url _ same_slug
          same_url scheme refreshed)
