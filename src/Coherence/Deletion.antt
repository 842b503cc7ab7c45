-- ===== src/Coherence/Deletion.antt =====
-- A deletion by links.controller.ts and the hourly cleanup keep the cache coherent.
use mathlib.Core.Path.{subst}
use mikrouli.Common.{
  ℕ, String, ◌≡◌, ◌≢◌, refl, sym, ap, ◌∙◌, inl, inr, none, some, All, List, [], ◌∷◌, arith, str_eq,
  eq_iff, Bool-cases,
}
use mikrouli.Http.{Result, ok, throw}
use mikrouli.Io.{App, continue, on_pg}
use mikrouli.Services.{Link, LinkTable, UserTable, RedisClient, Runtime}
use mikrouli.Services.Slugs.{FillsColumn, bare, chars}
use mikrouli.Services.Laws.{ExpiredBefore, LinkLaws, LinkAtomic, RedisLaws, RedisUp}
use mikrouli.Usage.{Limits}
use mikrouli.Urls.{UrlLibrary}
use mikrouli.Cache
use mikrouli.Cache.{cache_key}
use mikrouli.Links.{SlugGenerator, get_owned_link, delete}
use mikrouli.Links.Ownership.{get_owned_link-keeps}
use mikrouli.Links.Controller
use mikrouli.Links.Controller.{AuthenticatedUser, refresh_cache, to_public_link_schema}
use mikrouli.Links.Controller.Cached.{del-value}
use mikrouli.Cleanup.{delete_one_safely, process_batch, handle_cleanup, cleanup_batch_size}
use mikrouli.Cleanup.Batch.{process_batch_step}
use mikrouli.Coherence.{IsCoherent}
use mikrouli.Coherence.Writes.{Local, Local-trans, Local-Coherent, del-Local}

module _ {P R E : Type 0} (table : LinkTable P) (users : UserTable P) (client : RedisClient R)
    (runtime : Runtime E) (slugs : SlugGenerator E) (limits : Limits) (library : UrlLibrary)
    (laws : LinkLaws table) (cache : RedisLaws client) (up : RedisUp client cache)
    (atomic : LinkAtomic table laws) where
  abbrev Coherent : App P R E → Type 0
  Coherent = IsCoherent table users client runtime slugs limits library laws cache

  -- What a statement on one slug has done to the table: the row is gone or has got the destination,
  -- or, where an exception is thrown, no row has changed.
  abbrev Deleted : String → App P R E → Result (Unit {0}) → App P R E → Type 0
  Deleted slug w (ok _) w' =
      (laws.row w'.pg slug ≡ none)
      × ((t : String) → bare slug ≢ bare t → laws.row w'.pg t ≡ laws.row w.pg t)
      × (w'.redis ≡ w.redis)
  Deleted slug w (throw x) w' =
      ((t : String) → laws.row w'.pg t ≡ laws.row w.pg t) × (w'.redis ≡ w.redis)

  pub untouched :
      (w w' : App P R E)
      → Coherent w
      → ((t : String) → laws.row w'.pg t ≡ laws.row w.pg t)
      → w'.redis ≡ w.redis
      → Coherent w'
  untouched w w' h rows redis t u fills e =
      let (l, stored, leads) =
        h t u fills (sym (ap (λ r. cache.value r (cache_key t)) redis) ∙ e) in
      (l, rows t ∙ stored, leads)

  pub get_owned_link-redis :
      (slug user : String) (w : App P R E)
      → (get_owned_link table users runtime slugs limits slug user w).1.redis ≡ w.redis
  unfolding get_owned_link
  get_owned_link-redis slug user w = ground arith

  -- The row has gone and the key is deleted after it.
  pub evicted :
      (slug : String) (w w' : App P R E)
      → FillsColumn slug
      → Coherent w
      → Local table users client runtime slugs limits library laws cache slug w w'
      → Coherent (Cache.del client runtime slug w').1
  evicted slug w w' six h local =
      Local-Coherent table users client runtime slugs limits library laws cache slug w
        (Cache.del client runtime slug w').1 six h
        (Local-trans table users client runtime slugs limits library laws cache slug w w'
          (Cache.del client runtime slug w').1 local
          (del-Local table users client runtime slugs limits library laws cache slug w'))
        (λ u e.
          let gone = del-value table client runtime library laws cache up slug w' in
          absurd (ground arith))

  Deleted-Coherent :
      (slug : String) (w : App P R E) (r : Result (Unit {0})) (w' : App P R E)
      → FillsColumn slug
      → Coherent w
      → Deleted slug w r w'
      → Coherent (continue r (λ _. Cache.del client runtime slug) w').1
  Deleted-Coherent slug w (ok _) w' six h (gone, others, redis) =
      evicted slug w w' six h
        (record { rows = others; keys = λ t ne. ap (λ r. cache.value r (cache_key t)) redis })
  Deleted-Coherent slug w (throw x) w' six h (rows, redis) = untouched w w' h rows redis

  -- A statement on one slug that has failed has changed no row at all.
  pub failed_rows :
      (slug : String) (p p' : P)
      → laws.row p' slug ≡ laws.row p slug
      → ((t : String) → bare slug ≢ bare t → laws.row p' t ≡ laws.row p t)
      → (t : String) → laws.row p' t ≡ laws.row p t
  failed_rows slug p p' here others t = elim (Bool-cases (str_eq (bare slug) (bare t))) [
    | inl e ↦
        let alike = (eq_iff (bare slug) (bare t)).0 e in
        sym (laws.row_same slug t p' alike) ∙ here ∙ laws.row_same slug t p alike
    | inr differs ↦ others t (λ d. ground (arith, eq_iff (bare slug) (bare t)))
  ]

  delete-row :
      (slug : String) (w w' : App P R E) (r : Result (Unit {0}))
      → (table.delete slug w'.pg).0 ≡ r
      → ((t : String) → laws.row w'.pg t ≡ laws.row w.pg t)
      → w'.redis ≡ w.redis
      → Deleted slug w r (record w' { pg = (table.delete slug w'.pg).1 })
  delete-row slug w w' (ok _) e rows redis =
      (laws.delete_row slug w'.pg e, λ t ne. laws.delete_keeps slug t w'.pg ne ∙ rows t, redis)
  delete-row slug w w' (throw x) e rows redis = (
    λ t.
        failed_rows slug w'.pg (table.delete slug w'.pg).1 (atomic.delete_failed slug w'.pg e)
          (λ s ne. laws.delete_keeps slug s w'.pg ne) t
        ∙ rows t,
    redis,
  )

  abbrev delete_after : String → Result Link → App P R E → Result (Unit {0}) × App P R E
  delete_after slug r w = continue r (λ _. on_pg (table.delete slug)) w

  delete_after-Deleted :
      (slug : String) (w w' : App P R E) (r : Result Link)
      → ((t : String) → laws.row w'.pg t ≡ laws.row w.pg t)
      → w'.redis ≡ w.redis
      → Deleted slug w (delete_after slug r w').0 (delete_after slug r w').1
  delete_after-Deleted slug w w' (ok l) rows redis =
      delete-row slug w w' (table.delete slug w'.pg).0 refl rows redis
  delete_after-Deleted slug w w' (throw x) rows redis = (rows, redis)

  delete-Deleted :
      (slug user : String) (w : App P R E)
      → Deleted slug w
          (delete table users runtime slugs limits slug user w).0
          (delete table users runtime slugs limits slug user w).1
  unfolding delete
  delete-Deleted slug user w =
      let found = get_owned_link table users runtime slugs limits slug user w in
      delete_after-Deleted slug w found.1 found.0
        (λ t. get_owned_link-keeps table laws users runtime slugs limits slug user t w)
        (get_owned_link-redis slug user w)

  pub remove-Coherent :
      (user : AuthenticatedUser) (slug : String) (w : App P R E)
      → FillsColumn slug
      → Coherent w
      → Coherent (Controller.remove table users client runtime slugs limits user slug w).1
  unfolding Controller.remove
  remove-Coherent user slug w six h =
      Deleted-Coherent slug w _ _ six h (delete-Deleted slug user.id w)

  delete_one_safely-state :
      (l : Link) (w : App P R E)
      → (delete_one_safely table client runtime l w).1
        ≡ (continue
            (table.delete l.short_url w.pg).0
            (λ _. Cache.del client runtime l.short_url)
            (record w { pg = (table.delete l.short_url w.pg).1 })).1
  unfolding delete_one_safely Cache.del
  delete_one_safely-state l w = ground (arith, up.del_up (cache_key l.short_url) w.redis)

  delete_one_safely-Coherent :
      (l : Link) (w : App P R E)
      → FillsColumn l.short_url
      → Coherent w
      → Coherent (delete_one_safely table client runtime l w).1
  delete_one_safely-Coherent l w six h = subst Coherent (sym (delete_one_safely-state l w)) (
      Deleted-Coherent l.short_url w _ _ six h
        (delete-row l.short_url w w (table.delete l.short_url w.pg).0 refl (λ t. refl) refl))

  process_batch-Coherent :
      (ls : List Link) (count : ℕ) (w : App P R E)
      → All (λ (l : Link). FillsColumn l.short_url) ls
      → Coherent w
      → Coherent (process_batch table client runtime ls count w).1
  unfolding process_batch
  process_batch-Coherent [] count w all h = h
  process_batch-Coherent (l ∷ ls) count w (six, all) h =
      let (n, e, _) = process_batch_step table client runtime laws l ls count w in
      subst (λ (r : Result ℕ × App P R E). Coherent r.1) (sym e)
        (process_batch-Coherent ls n (delete_one_safely table client runtime l w).1 all
          (delete_one_safely-Coherent l w six h))

  batch-Coherent :
      (r : Result (List Link)) (w : App P R E)
      → ((ls : List Link) → r ≡ ok ls → All (λ (l : Link). FillsColumn l.short_url) ls)
      → Coherent w
      → Coherent (continue r (λ ls. process_batch table client runtime ls 0) w).1
  batch-Coherent (ok ls) w all h = process_batch-Coherent ls 0 w (all ls refl) h
  batch-Coherent (throw x) w all h = h

  expired-fills :
      (p : P) (now : ℕ) (ls : List Link)
      → All
          (λ (l : Link).
            (k : Link) × (laws.row p l.short_url ≡ some k)
            × (k.short_url ≡ l.short_url)
            × ExpiredBefore now k)
          ls
      → All (λ (l : Link). FillsColumn l.short_url) ls
  expired-fills p now [] h = tt
  expired-fills p now (l ∷ ls) ((k, stored, same, _), more) =
      (ap chars (sym same) ∙ laws.row_fills l.short_url p stored, expired-fills p now ls more)

  pub handle_cleanup-Coherent :
      (w : App P R E) → Coherent w → Coherent (handle_cleanup table client runtime w).1
  unfolding handle_cleanup
  handle_cleanup-Coherent w h =
      let now = (runtime.now w.env).0 in
      batch-Coherent (table.find_expired now cleanup_batch_size w.pg).0 _
        (λ ls e. expired-fills w.pg now ls (laws.find_expired_row now cleanup_batch_size w.pg e))
        (λ t u fills e.
          let (l, stored, leads) = h t u fills e in
          (l, laws.find_expired_keeps now cleanup_batch_size t w.pg ∙ stored, leads))
