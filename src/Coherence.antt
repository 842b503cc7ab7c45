-- ===== src/Coherence.antt =====
-- The cache of link-cache.service.ts against the table of links, over the whole life of the process:
-- the handlers of links.controller.ts, redirect.service.ts and cleanup.service.ts as the steps of a
-- machine, with what the rest of the process and the passing of time may do in between.
pub mod Writes
pub mod Visit
pub mod Creation
pub mod Deletion
pub mod Update
pub mod Runs
use mikrouli.Common.{ℕ, String, ◌≡◌, ◌⊎◌, Option, none, some}
use mikrouli.Io.{App}
use mikrouli.Services.{Link, LinkTable, UserTable, RedisClient, Runtime}
use mikrouli.Services.Slugs.{FillsColumn}
use mikrouli.Services.Laws.{LinkLaws, RedisLaws}
use mikrouli.Usage.{Limits}
use mikrouli.Urls.{UrlLibrary}
use mikrouli.Cache.{cache_key}
use mikrouli.Redirect.{resolve}
use mikrouli.Links.{SlugGenerator}
use mikrouli.Links.Controller
use mikrouli.Links.Controller.{AuthenticatedUser}
use mikrouli.Cleanup.{handle_cleanup}

module _ {P R E : Type 0} (table : LinkTable P) (users : UserTable P) (client : RedisClient R)
    (runtime : Runtime E) (slugs : SlugGenerator E) (limits : Limits) (library : UrlLibrary)
    (laws : LinkLaws table) (cache : RedisLaws client) where
  -- A row with the destination.
  abbrev pub LeadsTo : P → String → String → Type 0
  LeadsTo p slug url = (l : Link) × (laws.row p slug ≡ some l) × (l.original_url ≡ url)

  -- Every destination in the cache that stands under a slug of six characters is the one in the table.
  abbrev pub IsCoherent : App P R E → Type 0
  IsCoherent w =
      (slug url : String)
      → FillsColumn slug
      → cache.value w.redis (cache_key slug) ≡ some url
      → LeadsTo w.pg slug url

  -- What the rest of the process and time do: the rows of links stay, and Redis may drop keys.
  abbrev pub Elsewhere : App P R E → App P R E → Type 0
  Elsewhere w w' =
      ((slug : String) → laws.row w'.pg slug ≡ laws.row w.pg slug)
      × ((slug : String)
          → (cache.value w'.redis (cache_key slug) ≡ cache.value w.redis (cache_key slug))
            ⊎ (cache.value w'.redis (cache_key slug) ≡ none))

  -- One handler, run to its end whether it returns or throws, for a slug of six characters.
  pub data Step : App P R E → App P R E → Type 0 where
    create :
        (user : AuthenticatedUser) (url : String) (expiry : Option ℕ) (w : App P R E)
        → Step w (Controller.create table users client runtime slugs limits user url expiry w).1
    update :
        (user : AuthenticatedUser) (slug url : String) (w : App P R E)
        → FillsColumn slug
        → Step w (Controller.update table users client runtime slugs limits user slug url w).1
    remove :
        (user : AuthenticatedUser) (slug : String) (w : App P R E)
        → FillsColumn slug
        → Step w (Controller.remove table users client runtime slugs limits user slug w).1
    visit :
        (slug : String) (w : App P R E)
        → FillsColumn slug
        → Step w (resolve table client runtime library slug w).1
    cleanup : (w : App P R E) → Step w (handle_cleanup table client runtime w).1
    elsewhere : {w w' : App P R E} → Elsewhere w w' → Step w w'

  pub data Run (w : App P R E) : App P R E → Type 0 where
    start : Run w w
    next : {w' w'' : App P R E} → Run w w' → Step w' w'' → Run w w''
