-- ===== src/Coherence/Writes.antt =====
-- A handler that touches one slug keeps the cache coherent if it leaves that slug coherent.
use mathlib.Core.Path.{subst}
use text.Mathlib.TextLemmas.{append_cancel_left}
use mikrouli.Common.{
  ℕ, String, ◌≡◌, ◌≢◌, sym, ap, ◌∙◌, ◌⊎◌, inl, inr, Option, none, some, arith, Bool-cases, str_eq,
  eq_iff,
}
use mikrouli.Io.{App}
use mikrouli.Services.{LinkTable, UserTable, RedisClient, Runtime}
use mikrouli.Services.Slugs.{FillsColumn, bare, FillsColumn-bare}
use mikrouli.Services.Laws.{LinkLaws, RedisLaws}
use mikrouli.Usage.{Limits}
use mikrouli.Urls.{UrlLibrary}
use mikrouli.Redis.{effective_ttl}
use mikrouli.Cache
use mikrouli.Cache.{cache_key, ttl_seconds_until}
use mikrouli.Links.{SlugGenerator}
use mikrouli.Coherence.{LeadsTo, IsCoherent}

pub cache_key-injective : (s t : String) → cache_key s ≡ cache_key t → s ≡ t
unfolding cache_key
cache_key-injective s t e = append_cancel_left "link:" s t e

module _ {P R E : Type 0} (table : LinkTable P) (users : UserTable P) (client : RedisClient R)
    (runtime : Runtime E) (slugs : SlugGenerator E) (limits : Limits) (library : UrlLibrary)
    (laws : LinkLaws table) (cache : RedisLaws client) where
  abbrev pub cached : App P R E → String → Option String
  cached w slug = cache.value w.redis (cache_key slug)

  -- Only one slug's row and cached destination may have changed.
  pub record Local (slug : String) (w w' : App P R E) : Type 0 where
    pub rows : (t : String) → bare slug ≢ bare t → laws.row w'.pg t ≡ laws.row w.pg t
    pub keys : (t : String) → slug ≢ t → cached w' t ≡ cached w t

  abbrev pub Coherent : App P R E → Type 0
  Coherent = IsCoherent table users client runtime slugs limits library laws cache

  abbrev pub CoherentAt : String → App P R E → Type 0
  CoherentAt slug w =
      (url : String)
      → cached w slug ≡ some url
      → LeadsTo table users client runtime slugs limits library laws cache w.pg slug url

  pub Local-trans :
      (slug : String) (w w' w'' : App P R E)
      → Local slug w w'
      → Local slug w' w''
      → Local slug w w''
  Local-trans slug w w' w'' a b = record {
    rows = λ t ne. b.rows t ne ∙ a.rows t ne;
    keys = λ t ne. b.keys t ne ∙ a.keys t ne;
  }

  pub Local-Coherent :
      (slug : String) (w w' : App P R E)
      → FillsColumn slug
      → Coherent w
      → Local slug w w'
      → CoherentAt slug w'
      → Coherent w'
  Local-Coherent slug w w' six h l here t url fills e = elim (Bool-cases (str_eq slug t)) [
    | inl same ↦ subst (λ s. CoherentAt s w') ((eq_iff slug t).0 same) here url e
    | inr differs ↦
        let ne : slug ≢ t = λ d. ground (arith, eq_iff slug t) in
        let (row, stored, leads) = h t url fills (sym (l.keys t ne) ∙ e) in
        (row, l.rows t (FillsColumn-bare slug t six fills ne) ∙ stored, leads)
  ]

  -- A cached destination kept or gone, over a row that is kept.
  pub kept_or_gone :
      (slug : String) (w w' : App P R E)
      → CoherentAt slug w
      → laws.row w'.pg slug ≡ laws.row w.pg slug
      → (cached w' slug ≡ cached w slug) ⊎ (cached w' slug ≡ none)
      → CoherentAt slug w'
  kept_or_gone slug w w' h same (inl kept) url e =
      let (row, stored, leads) = h url (sym kept ∙ e) in (row, same ∙ stored, leads)
  kept_or_gone slug w w' h same (inr gone) url e = absurd (ground arith)

  key_apart : (slug t : String) → slug ≢ t → cache_key slug ≢ cache_key t
  key_apart slug t ne e = ne (cache_key-injective slug t e)

  -- A write to the cache is one SET, whatever becomes of it, and leaves the database alone.
  set-redis :
      (slug url : String) (expiry : Option ℕ) (w : App P R E)
      → (t : Option ℕ) × ((Cache.set client runtime slug url expiry w).1.redis
          ≡ (client.set (cache_key slug) url t w.redis).1)
        × ((Cache.set client runtime slug url expiry w).1.pg ≡ w.pg)
  unfolding Cache.set
  set-redis slug url none w = (effective_ttl (ttl_seconds_until none 0), ground arith, ground arith)
  set-redis slug url (some e) w =
      (effective_ttl (ttl_seconds_until (some e) (runtime.now w.env).0), ground arith, ground arith)

  pub set-pg :
      (slug url : String) (expiry : Option ℕ) (w : App P R E)
      → (Cache.set client runtime slug url expiry w).1.pg ≡ w.pg
  set-pg slug url expiry w = (set-redis slug url expiry w).2

  pub set-Local :
      (slug url : String) (expiry : Option ℕ) (w : App P R E)
      → Local slug w (Cache.set client runtime slug url expiry w).1
  set-Local slug url expiry w =
      let (ttl, same, pg) = set-redis slug url expiry w in
      record {
        rows = λ t ne. ap (λ p. laws.row p t) pg;
        keys = λ t ne.
            ap (λ r. cache.value r (cache_key t)) same
            ∙ cache.set_keeps (cache_key slug) url ttl (cache_key t) w.redis (key_apart slug t ne);
      }

  pub set-either :
      (slug url : String) (expiry : Option ℕ) (w : App P R E)
      → (cached (Cache.set client runtime slug url expiry w).1 slug ≡ cached w slug)
        ⊎ (cached (Cache.set client runtime slug url expiry w).1 slug ≡ some url)
  set-either slug url expiry w =
      let (ttl, same, pg) = set-redis slug url expiry w in
      subst
        (λ r.
          (cache.value r (cache_key slug) ≡ cached w slug)
          ⊎ (cache.value r (cache_key slug) ≡ some url))
        (sym same) (cache.set_either (cache_key slug) url ttl w.redis)

  del-redis :
      (slug : String) (w : App P R E)
      → ((Cache.del client runtime slug w).1.redis ≡ (client.del (cache_key slug) w.redis).1)
        × ((Cache.del client runtime slug w).1.pg ≡ w.pg)
  unfolding Cache.del
  del-redis slug w = (ground arith, ground arith)

  pub del-pg : (slug : String) (w : App P R E) → (Cache.del client runtime slug w).1.pg ≡ w.pg
  del-pg slug w = (del-redis slug w).1

  pub del-Local : (slug : String) (w : App P R E) → Local slug w (Cache.del client runtime slug w).1
  del-Local slug w = record {
    rows = λ t ne. ap (λ p. laws.row p t) (del-redis slug w).1;
    keys = λ t ne.
        ap (λ r. cache.value r (cache_key t)) (del-redis slug w).0
        ∙ cache.del_keeps (cache_key slug) (cache_key t) w.redis (key_apart slug t ne);
  }

  -- Storing a destination that the slug's row has.
  pub set-Coherent :
      (slug url : String) (expiry : Option ℕ) (w : App P R E)
      → FillsColumn slug
      → Coherent w
      → LeadsTo table users client runtime slugs limits library laws cache w.pg slug url
      → Coherent (Cache.set client runtime slug url expiry w).1
  set-Coherent slug url expiry w six h (l, stored, leads) =
      let w' = (Cache.set client runtime slug url expiry w).1 in
      let same = ap (λ p. laws.row p slug) (set-pg slug url expiry w) in
      Local-Coherent slug w w' six h (set-Local slug url expiry w)
        (elim (set-either slug url expiry w) [
          | inl kept ↦ kept_or_gone slug w w' (λ u. h slug u six) same (inl kept)
          | inr new ↦ λ u e. (l, same ∙ stored, leads ∙ ground arith)
        ])
