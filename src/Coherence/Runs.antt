-- ===== src/Coherence/Runs.antt =====
-- The cache of link-cache.service.ts over every sequence of handlers.
use mikrouli.Common.{
  ℕ, String, ◌≡◌, refl, sym, ◌∙◌, inl, inr, Option, none, some, arith, Option-cases,
}
use mikrouli.Http.{ok}
use mikrouli.Io.{App}
use mikrouli.Services.{Link, LinkTable, UserTable, RedisClient, Runtime}
use mikrouli.Services.Slugs.{FillsColumn}
use mikrouli.Services.Laws.{LinkLaws, LinkAtomic, LinksApart, RedisLaws, RedisUp}
use mikrouli.Usage.{Limits}
use mikrouli.Urls.{UrlLibrary}
use mikrouli.Cache
use mikrouli.Cache.{cache_key}
use mikrouli.Redirect.{active, resolve}
use mikrouli.Redirect.Laws.{resolution_of, resolve-miss}
use mikrouli.Links.{SlugGenerator}
use mikrouli.Coherence.{
  IsCoherent, LeadsTo, Step, create, update, remove, visit, cleanup, elsewhere, Run, start, next,
}
use mikrouli.Coherence.Writes.{kept_or_gone}
use mikrouli.Coherence.Visit.{resolve-Coherent}
use mikrouli.Coherence.Creation.{create-Coherent}
use mikrouli.Coherence.Deletion.{remove-Coherent, handle_cleanup-Coherent}
use mikrouli.Coherence.Update.{update-Coherent}

module _ {P R E : Type 0} (table : LinkTable P) (users : UserTable P) (client : RedisClient R)
    (runtime : Runtime E) (slugs : SlugGenerator E) (limits : Limits) (library : UrlLibrary)
    (laws : LinkLaws table) (cache : RedisLaws client) (up : RedisUp client cache)
    (atomic : LinkAtomic table laws) (apart : LinksApart table laws users) where
  abbrev Coherent : App P R E → Type 0
  Coherent = IsCoherent table users client runtime slugs limits library laws cache

  abbrev Reaches : App P R E → App P R E → Type 0
  Reaches = Run table users client runtime slugs limits library laws cache

  Step-Coherent :
      {w w' : App P R E}
      → Step table users client runtime slugs limits library laws cache w w'
      → Coherent w
      → Coherent w'
  Step-Coherent (create user url expiry w) h =
      create-Coherent table users client runtime slugs limits library laws cache apart user url
        expiry w h
  Step-Coherent (update user slug url w six) h =
      update-Coherent table users client runtime slugs limits library laws cache up atomic user slug
        url w six h
  Step-Coherent (remove user slug w six) h =
      remove-Coherent table users client runtime slugs limits library laws cache up atomic user slug
        w six h
  Step-Coherent (visit slug w six) h =
      resolve-Coherent table users client runtime slugs limits library laws cache slug w six h
  Step-Coherent (cleanup w) h =
      handle_cleanup-Coherent table users client runtime slugs limits library laws cache up atomic w
        h
  Step-Coherent (elsewhere {w} {w'} (rows, keys)) h = λ slug url fills.
      kept_or_gone table users client runtime slugs limits library laws cache slug w w'
        (λ u. h slug u fills) (rows slug) (keys slug) url

  -- From a state in which every cached destination is that of its row, every sequence of creations,
  -- changes, deletions, visits and cleanups, each returning or throwing, with whatever else leaves
  -- the rows and at most drops keys in between, leads to such a state; the cache must answer, and a
  -- statement that throws must have changed no row.
  pub Run-IsCoherent : {w w' : App P R E} → Reaches w w' → Coherent w → Coherent w'
  Run-IsCoherent start h = h
  Run-IsCoherent (next run step) h = Step-Coherent step (Run-IsCoherent run h)

  resolution-LeadsTo :
      (slug url : String) (o : Option Link) (p : P) (now : ℕ)
      → o ≡ laws.row p slug
      → resolution_of table client runtime library o now ≡ active url
      → LeadsTo table users client runtime slugs limits library laws cache p slug url
  resolution-LeadsTo slug url none p now e h = absurd (ground arith)
  resolution-LeadsTo slug url (some l) p now e h = (l, sym e, ground arith)

  resolve-cached :
      (slug url c : String) (w : App P R E)
      → cache.value w.redis (cache_key slug) ≡ some c
      → (resolve table client runtime library slug w).0 ≡ ok (active url)
      → c ≡ url
  unfolding resolve Cache.get
  resolve-cached slug url c w hit e = ground (arith, up.get_up (cache_key slug) w.redis)

  resolve-LeadsTo :
      (slug url : String) (w : App P R E)
      → FillsColumn slug
      → Coherent w
      → (resolve table client runtime library slug w).0 ≡ ok (active url)
      → LeadsTo table users client runtime slugs limits library laws cache w.pg slug url
  resolve-LeadsTo slug url w six h e = elim (Option-cases (cache.value w.redis (cache_key slug))) [
    | inl miss ↦ elim (resolve-miss table client runtime library laws cache slug w miss) [
      | inl (x, thrown, raised) ↦ absurd (ground arith)
      | inr found ↦
          resolution-LeadsTo slug url (laws.row w.pg slug) w.pg (runtime.now w.env).0 refl
            (ground arith)
    ]
    | inr (c, hit) ↦
        let (l, stored, leads) = h slug c six hit in
        (l, stored, leads ∙ resolve-cached slug url c w hit e)
  ]

  -- Any creations, changes of destination, deletions, visits and cleanups, run one after the other from
  -- an empty cache on, each to its end whether it returns or throws, with steps of the rest of the
  -- process in between that keep the rows of links and at most drop keys: a visitor of a slug of six
  -- characters who is then redirected goes to the destination that the slug's row has at that moment.
  -- Redis must answer, a statement of the database that throws must have changed no row, and the
  -- changes, deletions and visits are asked for slugs of six characters, as all that are made are.
  pub redirect_follows_row :
      {w w' : App P R E} (slug url : String)
      → FillsColumn slug
      → ((s : String) → cache.value w.redis (cache_key s) ≡ none)
      → Reaches w w'
      → (resolve table client runtime library slug w').0 ≡ ok (active url)
      → LeadsTo table users client runtime slugs limits library laws cache w'.pg slug url
  redirect_follows_row {w} {w'} slug url six empty run e =
      let first : Coherent w = λ s u _ h. let none_s = empty s in absurd (ground arith) in
      resolve-LeadsTo slug url w' six (Run-IsCoherent run first) e
