-- ===== src/Coherence/Visit.antt =====
-- A visit by redirect.service.ts keeps the cache coherent.
use mathlib.Core.Path.{subst}
use mikrouli.Common.{
  ℕ, String, ◌≡◌, refl, sym, ap, ◌∙◌, inl, inr, true, false, Bool, Option, none, some, arith,
  Bool-cases,
}
use mikrouli.Http.{Result, ok, throw}
use mikrouli.Io.{App, continue, continue-pure}
use mikrouli.Services.{Link, LinkTable, UserTable, RedisClient, Runtime}
use mikrouli.Services.Slugs.{FillsColumn}
use mikrouli.Services.Laws.{LinkLaws, RedisLaws}
use mikrouli.Usage.{Limits}
use mikrouli.Urls.{UrlLibrary, has_http_scheme}
use mikrouli.Cache
use mikrouli.Cache.{cache_key}
use mikrouli.Links.{SlugGenerator}
use mikrouli.Redirect.{
  active, expired_now, resolve_live, resolve_found, resolve_from_database, resolve_cached, resolve,
}
use mikrouli.Coherence.{IsCoherent}
use mikrouli.Coherence.Writes.{set-Coherent}

module _ {P R E : Type 0} (table : LinkTable P) (users : UserTable P) (client : RedisClient R)
    (runtime : Runtime E) (slugs : SlugGenerator E) (limits : Limits) (library : UrlLibrary)
    (laws : LinkLaws table) (cache : RedisLaws client) where
  abbrev Coherent : App P R E → Type 0
  Coherent = IsCoherent table users client runtime slugs limits library laws cache

  resolve_live-Coherent :
      (slug : String) (l : Link) (gone : Bool) (w : App P R E)
      → FillsColumn slug
      → Coherent w
      → laws.row w.pg slug ≡ some l
      → Coherent (resolve_live table client runtime library slug l gone w).1
  unfolding resolve_live
  resolve_live-Coherent slug l true w six h stored = h
  resolve_live-Coherent slug l false w six h stored =
      elim (Bool-cases (has_http_scheme library l.original_url)) [
        | inl web ↦
            let set = Cache.set client runtime slug l.original_url l.expires_at w in
            rw web (
              subst Coherent (sym (continue-pure set.0 (λ _. active l.original_url) set.1)) (
                set-Coherent table users client runtime slugs limits library laws cache slug
                  l.original_url l.expires_at w six h (l, stored, refl)))
        | inr other ↦ rw other h
      ]

  live_after :
      (slug : String) (l : Link) (expiry : Option ℕ) (w : App P R E)
      → FillsColumn slug
      → Coherent w
      → laws.row w.pg slug ≡ some l
      → Coherent
          (continue
            (expired_now table client runtime library expiry w).0
            (resolve_live table client runtime library slug l)
            (expired_now table client runtime library expiry w).1).1
  unfolding expired_now
  live_after slug l none w six h stored = resolve_live-Coherent slug l _ w six h stored
  live_after slug l (some at) w six h stored =
      resolve_live-Coherent slug l _ (record w { env = (runtime.now w.env).1 }) six h stored

  resolve_found-Coherent :
      (slug : String) (o : Option Link) (w : App P R E)
      → FillsColumn slug
      → Coherent w
      → o ≡ laws.row w.pg slug
      → Coherent (resolve_found table client runtime library slug o w).1
  unfolding resolve_found
  resolve_found-Coherent slug none w six h e = h
  resolve_found-Coherent slug (some l) w six h e = live_after slug l l.expires_at w six h (sym e)

  found-Coherent :
      (slug : String) (r : Result (Option Link)) (w : App P R E)
      → FillsColumn slug
      → Coherent w
      → ((o : Option Link) → r ≡ ok o → o ≡ laws.row w.pg slug)
      → Coherent (continue r (resolve_found table client runtime library slug) w).1
  found-Coherent slug (ok o) w six h f = resolve_found-Coherent slug o w six h (f o refl)
  found-Coherent slug (throw x) w six h f = h

  resolve_from_database-Coherent :
      (slug : String) (w : App P R E)
      → FillsColumn slug
      → Coherent w
      → Coherent (resolve_from_database table client runtime library slug w).1
  unfolding resolve_from_database
  resolve_from_database-Coherent slug w six h =
      found-Coherent slug (table.find_one slug w.pg).0
        (record w { pg = (table.find_one slug w.pg).1 }) six
        (λ t url fills e.
          let (l, stored, leads) = h t url fills e in
          (l, laws.find_one_keeps slug t w.pg ∙ stored, leads))
        (λ o e. laws.find_one_row slug w.pg e ∙ sym (laws.find_one_keeps slug slug w.pg))

  cached-Coherent :
      (slug : String) (r : Result (Option String)) (w : App P R E)
      → FillsColumn slug
      → Coherent w
      → Coherent (continue r (resolve_cached table client runtime library slug) w).1
  unfolding resolve_cached
  cached-Coherent slug (ok none) w six h = resolve_from_database-Coherent slug w six h
  cached-Coherent slug (ok (some url)) w six h = h
  cached-Coherent slug (throw x) w six h = h

  get-redis :
      (slug : String) (w : App P R E)
      → ((Cache.get client runtime slug w).1.redis ≡ (client.get (cache_key slug) w.redis).1)
        × ((Cache.get client runtime slug w).1.pg ≡ w.pg)
  unfolding Cache.get
  get-redis slug w = (ground arith, ground arith)

  -- A visit keeps the cache coherent, whatever fails on the way.
  pub resolve-Coherent :
      (slug : String) (w : App P R E)
      → FillsColumn slug
      → Coherent w
      → Coherent (resolve table client runtime library slug w).1
  unfolding resolve
  resolve-Coherent slug w six h =
      let (same, pg) = get-redis slug w in
      cached-Coherent slug (Cache.get client runtime slug w).0 (Cache.get client runtime slug w).1
        six
        (λ t url fills e.
          let (l, stored, leads) = h t url fills (
            sym (cache.get_keeps (cache_key slug) (cache_key t) w.redis)
            ∙ ap (λ r. cache.value r (cache_key t)) (sym same)
            ∙ e) in
          (l, ap (λ p. laws.row p t) pg ∙ stored, leads))
