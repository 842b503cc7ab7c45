-- ===== src/Coherence/Update.antt =====
-- A change of destination by links.controller.ts keeps the cache coherent.
use mathlib.Core.Path.{subst}
use mikrouli.Common.{
  ℕ, String, ◌≡◌, ◌≢◌, refl, sym, ap, ◌∙◌, inl, inr, Option, none, some, arith, leb, Bool-cases,
}
use mikrouli.Http.{Result, ok, throw}
use mikrouli.Io.{App, continue, continue-pure, on_pg, pure, ◌>>◌}
use mikrouli.Services.{Link, LinkTable, UserTable, RedisClient, Runtime}
use mikrouli.Services.Slugs.{FillsColumn, bare, chars}
use mikrouli.Services.Laws.{LinkLaws, LinkAtomic, RedisLaws, RedisUp}
use mikrouli.Usage.{Limits}
use mikrouli.Urls.{UrlLibrary}
use mikrouli.Cache
use mikrouli.Cache.{cache_key}
use mikrouli.Links.{SlugGenerator, get_owned_link, update_destination}
use mikrouli.Links.Ownership.{get_owned_link-Owns, get_owned_link-keeps}
use mikrouli.Links.Controller
use mikrouli.Links.Controller.{AuthenticatedUser, refresh_cache, to_public_link_schema}
use mikrouli.Links.Controller.Cached.{set-value}
use mikrouli.Coherence.{IsCoherent}
use mikrouli.Coherence.Writes.{Local, Local-trans, Local-Coherent, set-Local, set-pg}
use mikrouli.Coherence.Deletion.{get_owned_link-redis, untouched, evicted, failed_rows}

module _ {P R E : Type 0} (table : LinkTable P) (users : UserTable P) (client : RedisClient R)
    (runtime : Runtime E) (slugs : SlugGenerator E) (limits : Limits) (library : UrlLibrary)
    (laws : LinkLaws table) (cache : RedisLaws client) (up : RedisUp client cache)
    (atomic : LinkAtomic table laws) where
  abbrev Coherent : App P R E → Type 0
  Coherent = IsCoherent table users client runtime slugs limits library laws cache

  -- What a change of destination does to the table: the slug's row is the link that is returned, or
  -- no row has changed.
  abbrev Changed : String → App P R E → Result Link → App P R E → Type 0
  Changed slug w (ok l) w' =
      (l.short_url ≡ slug)
      × (laws.row w'.pg slug ≡ some l)
      × ((t : String) → bare slug ≢ bare t → laws.row w'.pg t ≡ laws.row w.pg t)
      × (w'.redis ≡ w.redis)
  Changed slug w (throw x) w' =
      ((t : String) → laws.row w'.pg t ≡ laws.row w.pg t) × (w'.redis ≡ w.redis)

  -- The part of `updateDestination` after the UPDATE.
  update-row :
      (slug user url : String) (w w' : App P R E) (l : Link) (r : Result (Unit {0}))
      → (table.update slug user url w'.pg).0 ≡ r
      → FillsColumn slug
      → laws.row w.pg slug ≡ some l
      → l.user_id ≡ user
      → ((t : String) → laws.row w'.pg t ≡ laws.row w.pg t)
      → w'.redis ≡ w.redis
      → let after = record w' { pg = (table.update slug user url w'.pg).1 } in
        Changed slug w
          (continue r (λ _. pure (record l { original_url = url })) after).0
          (continue r (λ _. pure (record l { original_url = url })) after).1
  update-row slug user url w w' l (ok _) e six stored owner rows redis = (
    laws.row_slug slug w.pg six stored,
    laws.update_row slug user url w'.pg (rows slug ∙ stored) owner e,
    λ t ne. laws.update_keeps slug user url t w'.pg ne ∙ rows t,
    redis,
  )
  update-row slug user url w w' l (throw x) e six stored owner rows redis = (
    λ t.
        failed_rows table users client runtime slugs limits library laws cache up atomic slug w'.pg
          (table.update slug user url w'.pg).1 (atomic.update_failed slug user url w'.pg e)
          (λ s ne. laws.update_keeps slug user url s w'.pg ne) t
        ∙ rows t,
    redis,
  )

  abbrev update_after : String → String → String → Result Link → App P R E → Result Link × App P R E
  update_after slug user url r w =
      continue r
        (λ link. on_pg (table.update slug user url) >> pure (record link { original_url = url })) w

  update_after-Changed :
      (slug user url : String) (w w' : App P R E) (r : Result Link)
      → FillsColumn slug
      → ((l : Link) → r ≡ ok l → (laws.row w.pg slug ≡ some l) × (l.user_id ≡ user))
      → ((t : String) → laws.row w'.pg t ≡ laws.row w.pg t)
      → w'.redis ≡ w.redis
      → Changed slug w (update_after slug user url r w').0 (update_after slug user url r w').1
  update_after-Changed slug user url w w' (ok l) six owns rows redis =
      update-row slug user url w w' l (table.update slug user url w'.pg).0 refl six (owns l refl).0
        (owns l refl).1 rows redis
  update_after-Changed slug user url w w' (throw x) six owns rows redis = (rows, redis)

  update_destination-Changed :
      (slug user url : String) (w : App P R E)
      → FillsColumn slug
      → Changed slug w
          (update_destination table users runtime slugs limits slug user url w).0
          (update_destination table users runtime slugs limits slug user url w).1
  unfolding update_destination
  update_destination-Changed slug user url w six =
      let found = get_owned_link table users runtime slugs limits slug user w in
      update_after-Changed slug user url w found.1 found.0 six
        (λ l e. get_owned_link-Owns table laws users runtime slugs limits slug user w e)
        (λ t. get_owned_link-keeps table laws users runtime slugs limits slug user t w)
        (get_owned_link-redis table users client runtime slugs limits library laws cache up atomic
          slug user w)

  -- The row has the destination and the key gets it after it.
  written :
      (l : Link) (w w' : App P R E)
      → FillsColumn l.short_url
      → Coherent w
      → Local table users client runtime slugs limits library laws cache l.short_url w w'
      → laws.row w'.pg l.short_url ≡ some l
      → Coherent (Cache.set client runtime l.short_url l.original_url l.expires_at w').1
  written l w w' six h local stored =
      let after = (Cache.set client runtime l.short_url l.original_url l.expires_at w').1 in
      Local-Coherent table users client runtime slugs limits library laws cache l.short_url w after
        six h
        (Local-trans table users client runtime slugs limits library laws cache l.short_url w w'
          after local
          (set-Local table users client runtime slugs limits library laws cache l.short_url
            l.original_url l.expires_at w'))
        (λ u e.
          let pg =
            set-pg table users client runtime slugs limits library laws cache l.short_url
              l.original_url l.expires_at w' in
          let value =
            set-value table client runtime library laws cache up l.short_url l.original_url
              l.expires_at w' in
          (l, ap (λ p. laws.row p l.short_url) pg ∙ stored, ground arith))

  refresh_cache-Coherent :
      (l : Link) (expiry : Option ℕ) (w w' : App P R E)
      → FillsColumn l.short_url
      → Coherent w
      → Local table users client runtime slugs limits library laws cache l.short_url w w'
      → laws.row w'.pg l.short_url ≡ some l
      → Coherent (refresh_cache table users client runtime slugs limits l expiry l.short_url w').1
  unfolding refresh_cache
  refresh_cache-Coherent l none w w' six h local stored = written l w w' six h local stored
  refresh_cache-Coherent l (some e) w w' six h local stored =
      let now = runtime.now w'.env in
      let read = record w' { env = now.1 } in
      let local' : Local table users client runtime slugs limits library laws cache l.short_url w
          read =
        record { rows = local.rows; keys = local.keys } in
      elim (Bool-cases (leb e now.0)) [
        | inl past ↦ rw past (
            evicted table users client runtime slugs limits library laws cache up atomic l.short_url
              w read six h local')
        | inr ahead ↦ rw ahead (written l w read six h local' stored)
      ]

  Changed-Coherent :
      (slug : String) (w : App P R E) (r : Result Link) (w' : App P R E)
      → FillsColumn slug
      → Coherent w
      → Changed slug w r w'
      → Coherent
          (continue r
            (λ link.
              refresh_cache table users client runtime slugs limits link link.expires_at slug
              >> pure (to_public_link_schema link))
            w').1
  Changed-Coherent slug w (ok l) w' six h (same_slug, stored, others, redis) =
      let refresh =
        λ (s : String). refresh_cache table users client runtime slugs limits l l.expires_at s w' in
      let done =
        refresh_cache-Coherent l l.expires_at w w' (ap chars same_slug ∙ six) h
          (record {
            rows = λ t ne. others t (λ e. ne (ap bare same_slug ∙ e));
            keys = λ t ne. ap (λ r. cache.value r (cache_key t)) redis;
          })
          (ap (laws.row w'.pg) same_slug ∙ stored) in
      subst Coherent
        (sym (continue-pure (refresh slug).0 (λ _. to_public_link_schema l) (refresh slug).1))
        (subst (λ s. Coherent (refresh s).1) same_slug done)
  Changed-Coherent slug w (throw x) w' six h (rows, redis) =
      untouched table users client runtime slugs limits library laws cache up atomic w w' h rows
        redis

  pub update-Coherent :
      (user : AuthenticatedUser) (slug url : String) (w : App P R E)
      → FillsColumn slug
      → Coherent w
      → Coherent (Controller.update table users client runtime slugs limits user slug url w).1
  unfolding Controller.update
  update-Coherent user slug url w six h =
      Changed-Coherent slug w _ _ six h (update_destination-Changed slug user.id url w six)
