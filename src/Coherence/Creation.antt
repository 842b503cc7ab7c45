-- ===== src/Coherence/Creation.antt =====
-- A creation by links.controller.ts keeps the cache coherent.
use mathlib.Core.Path.{subst}
use mikrouli.Common.{
  ℕ, String, ◌≡◌, ◌≢◌, refl, sym, ap, ◌∙◌, inl, inr, true, false, Bool, Option, none, some, arith,
  leb, Bool-cases, if◌then◌else◌,
}
use mikrouli.Http.{Exception, Result, ok, throw, Result-cases, monthly_link_limit_exceeded}
use mikrouli.Io.{App, continue, continue-pure, pure, ◌>>◌}
use mikrouli.Services.{Link, LinkTable, UserTable, RedisClient, Runtime}
use mikrouli.Services.Slugs.{bare}
use mikrouli.Services.Laws.{LinkLaws, LinksApart, RedisLaws}
use mikrouli.Usage.{Limits, count_links_this_month, get_link_limit}
use mikrouli.Calendar.{month_start, next_month_start}
use mikrouli.Urls.{UrlLibrary}
use mikrouli.Cache
use mikrouli.Cache.{cache_key}
use mikrouli.Links.{
  SlugGenerator, create as create_link, create_guest, try_create, resolve_expiry,
  retry_on_slug_conflict,
}
use mikrouli.Links.Retry.{Refused, start, again, retry_on_slug_conflict-Ends}
use mikrouli.Links.Create.{Outcome, create_guest-Outcome, create_quota}
use mikrouli.Links.Controller
use mikrouli.Links.Controller.{AuthenticatedUser, create_for, to_public_link_schema}
use mikrouli.Coherence.{IsCoherent}
use mikrouli.Coherence.Writes.{Local-Coherent, set-Coherent}

module _ {P R E : Type 0} (table : LinkTable P) (users : UserTable P) (runtime : Runtime E)
    (slugs : SlugGenerator E) (limits : Limits) (laws : LinkLaws table)
    (apart : LinksApart table laws users) where
  -- What a creation does to rows and to Redis: it adds one row under a free slug, or none.
  abbrev pub Adds : String → App P R E → Result Link → App P R E → Type 0
  Adds url w (ok l) w' =
      (laws.row w.pg l.short_url ≡ none)
      × (laws.row w'.pg l.short_url ≡ some l)
      × (l.original_url ≡ url)
      × ((t : String) → bare l.short_url ≢ bare t → laws.row w'.pg t ≡ laws.row w.pg t)
      × (w'.redis ≡ w.redis)
  Adds url w (throw e) w' =
      ((t : String) → laws.row w'.pg t ≡ laws.row w.pg t) × (w'.redis ≡ w.redis)

  Adds-after :
      (url : String) (w w' : App P R E) (r : Result Link) (w'' : App P R E)
      → ((t : String) → laws.row w'.pg t ≡ laws.row w.pg t)
      → w'.redis ≡ w.redis
      → Adds url w' r w''
      → Adds url w r w''
  Adds-after url w w' (ok l) w'' rows redis (free, stored, leads, others, same) =
      (sym (rows l.short_url) ∙ free, stored, leads, λ t ne. others t ne ∙ rows t, same ∙ redis)
  Adds-after url w w' (throw e) w'' rows redis (others, same) =
      (λ t. others t ∙ rows t, same ∙ redis)

  module _ (url user : String) (expires_at : ℕ) where
    try_create-redis :
        (w : App P R E)
        → (try_create table users runtime slugs limits url user expires_at w).1.redis ≡ w.redis
    unfolding try_create
    try_create-redis w = refl

    Refused-redis :
        {n : ℕ} {w w' : App P R E}
        → Refused (try_create table users runtime slugs limits url user expires_at) n w w'
        → w'.redis ≡ w.redis
    Refused-redis start = refl
    Refused-redis (again {s = w} e run) = Refused-redis run ∙ try_create-redis w

    retry-redis :
        (w : App P R E)
        → (retry_on_slug_conflict
            (try_create table users runtime slugs limits url user expires_at)
            w).1.redis
          ≡ w.redis
    retry-redis w =
        elim (retry_on_slug_conflict-Ends
          (try_create table users runtime slugs limits url user expires_at) w) [
            | inl (n, t, lt, run, e, free) ↦
                ap (λ (r : Result Link × App P R E). r.1.redis) e
                ∙ try_create-redis t
                ∙ Refused-redis run
            | inr (t, run, e) ↦
                ap (λ (r : Result Link × App P R E). r.1.redis) e ∙ Refused-redis run
          ]

  create_guest-redis :
      (url user : String) (expiry : Option ℕ) (w : App P R E)
      → (create_guest table users runtime slugs limits url user expiry w).1.redis ≡ w.redis
  unfolding create_guest resolve_expiry
  create_guest-redis url user none w = retry-redis url user _ _
  create_guest-redis url user (some at) w = retry-redis url user at w

  Outcome-Adds :
      (url user : String) (w : App P R E) (r : Result Link) (w' : App P R E)
      → Outcome table laws users runtime slugs limits url user w (r, w')
      → w'.redis ≡ w.redis
      → Adds url w r w'
  Outcome-Adds url user w (ok l) w' c redis = (c.was_free, c.stored, c.destination, c.others, redis)
  Outcome-Adds url user w (throw e) w' u redis = (u.rows, redis)

  create_guest-Adds :
      (url user : String) (expiry : Option ℕ) (w : App P R E)
      → Adds url w
          (create_guest table users runtime slugs limits url user expiry w).0
          (create_guest table users runtime slugs limits url user expiry w).1
  create_guest-Adds url user expiry w =
      Outcome-Adds url user w _ _
        (create_guest-Outcome table laws users runtime slugs limits url user expiry w)
        (create_guest-redis url user expiry w)

  count-rows :
      (user t : String) (w : App P R E)
      → laws.row (count_links_this_month runtime table user w).1.pg t ≡ laws.row w.pg t
  unfolding count_links_this_month
  count-rows user t w =
      let now = (runtime.now w.env).0 in
      ground (arith, laws.count_keeps user (month_start now) (next_month_start now) t w.pg)

  count-redis :
      (user : String) (w : App P R E)
      → (count_links_this_month runtime table user w).1.redis ≡ w.redis
  unfolding count_links_this_month
  count-redis user w = ground arith

  limit-rows :
      (user t : String) (w : App P R E)
      → laws.row (get_link_limit users limits user w).1.pg t ≡ laws.row w.pg t
  unfolding get_link_limit
  limit-rows user t w = ground (arith, apart.find_user_keeps user t w.pg)

  limit-redis :
      (user : String) (w : App P R E) → (get_link_limit users limits user w).1.redis ≡ w.redis
  unfolding get_link_limit
  limit-redis user w = ground arith

  create_link-failed :
      (url user : String) (expiry : Option ℕ) (w : App P R E) (x : Exception)
      → (count_links_this_month runtime table user w).0 ≡ throw x
      → create_link table users runtime slugs limits url user expiry w
        ≡ (throw x, (count_links_this_month runtime table user w).1)
  unfolding create_link
  create_link-failed url user expiry w x e = ground arith

  create_link-unlimited :
      (url user : String) (expiry : Option ℕ) (w : App P R E) (c : ℕ) (x : Exception)
      → (count_links_this_month runtime table user w).0 ≡ ok c
      → (get_link_limit users limits user (count_links_this_month runtime table user w).1).0
        ≡ throw x
      → create_link table users runtime slugs limits url user expiry w ≡ (
        throw x,
        (get_link_limit users limits user (count_links_this_month runtime table user w).1).1,
      )
  unfolding create_link
  create_link-unlimited url user expiry w c x e e' = ground arith

  abbrev Added : String → App P R E → Result Link × App P R E → Type 0
  Added url w r = Adds url w r.0 r.1

  quota-Adds :
      (url user : String) (expiry : Option ℕ) (w w' : App P R E) (full : Bool)
      → ((t : String) → laws.row w'.pg t ≡ laws.row w.pg t)
      → w'.redis ≡ w.redis
      → Added url w (
          if full
          then (throw monthly_link_limit_exceeded, w')
          else create_guest table users runtime slugs limits url user expiry w')
  quota-Adds url user expiry w w' true rows redis = (rows, redis)
  quota-Adds url user expiry w w' false rows redis =
      Adds-after url w w' _ _ rows redis (create_guest-Adds url user expiry w')

  create_link-Adds :
      (url user : String) (expiry : Option ℕ) (w : App P R E)
      → Added url w (create_link table users runtime slugs limits url user expiry w)
  create_link-Adds url user expiry w =
      let counted = count_links_this_month runtime table user w in
      let limited = get_link_limit users limits user counted.1 in
      let rows : (t : String) → laws.row limited.1.pg t ≡ laws.row w.pg t =
        λ t. limit-rows user t counted.1 ∙ count-rows user t w in
      let redis = limit-redis user counted.1 ∙ count-redis user w in
      elim (Result-cases counted.0) [
        | inl (c, e) ↦ elim (Result-cases limited.0) [
          | inl (n, e') ↦
              let goes_on =
                create_quota table users runtime slugs limits url user expiry w counted.1 limited.1
                  c n (ap (λ r. (r, counted.1)) e) (ap (λ r. (r, limited.1)) e') in
              subst (Added url w) (sym goes_on)
                (quota-Adds url user expiry w limited.1 (leb n c) rows redis)
          | inr (x, e') ↦
              subst (Added url w) (sym (create_link-unlimited url user expiry w c x e e'))
                (rows, redis)
        ]
        | inr (x, e) ↦
            subst (Added url w) (sym (create_link-failed url user expiry w x e))
              (λ t. count-rows user t w, count-redis user w)
      ]

  create_for-Adds :
      (client : RedisClient R) (user : AuthenticatedUser) (url : String) (expiry : Option ℕ)
      (w : App P R E)
      → Added url w (create_for table users client runtime slugs limits user url expiry w)
  unfolding create_for
  create_for-Adds client user url expiry w = elim (Bool-cases user.is_guest) [
    | inl guest ↦ rw guest (create_guest-Adds url user.id expiry w)
    | inr owner ↦ rw owner (create_link-Adds url user.id expiry w)
  ]

module _ {P R E : Type 0} (table : LinkTable P) (users : UserTable P) (client : RedisClient R)
    (runtime : Runtime E) (slugs : SlugGenerator E) (limits : Limits) (library : UrlLibrary)
    (laws : LinkLaws table) (cache : RedisLaws client) (apart : LinksApart table laws users) where
  abbrev Coherent : App P R E → Type 0
  Coherent = IsCoherent table users client runtime slugs limits library laws cache

  -- A slug that was free has no destination in the cache, so whatever becomes of the SET is right.
  Adds-Coherent :
      (url : String) (w : App P R E) (r : Result Link) (w' : App P R E)
      → Coherent w
      → Adds table users runtime slugs limits laws apart url w r w'
      → Coherent
          (continue r
            (λ link.
              Cache.set client runtime link.short_url link.original_url link.expires_at
              >> pure (to_public_link_schema link))
            w').1
  Adds-Coherent url w (throw x) w' h (rows, redis) = λ t u fills e.
      let (l, stored, leads) =
        h t u fills (ap (λ r. cache.value r (cache_key t)) (sym redis) ∙ e) in
      (l, rows t ∙ stored, leads)
  Adds-Coherent url w (ok l) w' h (free, stored, leads, others, redis) =
      let set = Cache.set client runtime l.short_url l.original_url l.expires_at w' in
      let keys : (t : String)
          → cache.value w'.redis (cache_key t) ≡ cache.value w.redis (cache_key t) =
        λ t. ap (λ r. cache.value r (cache_key t)) redis in
      let six = laws.row_fills l.short_url w'.pg stored in
      let added : Coherent w' =
        Local-Coherent table users client runtime slugs limits library laws cache l.short_url w w'
          six h (record { rows = others; keys = λ t ne. keys t })
          (λ u e.
            let (old, was, _) = h l.short_url u six (sym (keys l.short_url) ∙ e) in
            absurd (ground arith)) in
      subst Coherent (sym (continue-pure set.0 (λ _. to_public_link_schema l) set.1)) (
        set-Coherent table users client runtime slugs limits library laws cache l.short_url
          l.original_url l.expires_at w' six added (l, stored, refl))

  pub create-Coherent :
      (user : AuthenticatedUser) (url : String) (expiry : Option ℕ) (w : App P R E)
      → Coherent w
      → Coherent (Controller.create table users client runtime slugs limits user url expiry w).1
  unfolding Controller.create
  create-Coherent user url expiry w h =
      Adds-Coherent url w _ _ h
        (create_for-Adds table users runtime slugs limits laws apart client user url expiry w)
