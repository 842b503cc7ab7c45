-- ===== src/Links/Controller.antt =====
-- apps/api/src/links/links.controller.ts, behind its guards and pipes: each method calls the service
-- and then brings the cache up to date. Times go out as they are; `toISOString` is left out.
pub mod Cached
pub mod Visit
pub mod Created
use mikrouli.Common.{
  ℕ, String, Bool, true, false, Option, none, some, List, map, leb, if◌then◌else◌,
}
use mikrouli.Io.{App, Io, on_env, pure, ◌>>=◌, ◌>>◌}
use mikrouli.Services.{Link, LinkTable, UserTable, RedisClient, Runtime}
use mikrouli.Usage.{Limits}
use mikrouli.Cache
use mikrouli.Links.{
  SlugGenerator, create as create_link, create_guest, delete, update_destination, list_for_user,
}

-- `AuthenticatedUser` of common/authenticated-request.ts
pub record AuthenticatedUser : Type 0 where
  pub id : String
  pub is_guest : Bool

-- `PublicLinkSchema`
pub record PublicLink : Type 0 where
  pub short_url : String
  pub original_url : String
  pub created_at : ℕ
  pub expires_at : Option ℕ

unfoldable pub to_public_link_schema : Link → PublicLink
to_public_link_schema link = record {
  short_url = link.short_url;
  original_url = link.original_url;
  created_at = link.created_at;
  expires_at = link.expires_at;
}

module _ {P R E : Type 0} (table : LinkTable P) (users : UserTable P) (client : RedisClient R)
    (runtime : Runtime E) (slugs : SlugGenerator E) (limits : Limits) where
  -- The branch on the actor.
  unfoldable pub create_for : AuthenticatedUser → String → Option ℕ → Io (App P R E) Link
  create_for user url expires_at =
      if user.is_guest
      then create_guest table users runtime slugs limits url user.id expires_at
      else create_link table users runtime slugs limits url user.id expires_at

  unfoldable pub create : AuthenticatedUser → String → Option ℕ → Io (App P R E) PublicLink
  unfolding to_public_link_schema
  create user url expires_at = do
    link ← create_for user url expires_at
    Cache.set client runtime link.short_url link.original_url link.expires_at
    pure (to_public_link_schema link)

  unfoldable pub list : AuthenticatedUser → Io (App P R E) (List PublicLink)
  unfolding to_public_link_schema list_for_user
  list user = do
    links ← list_for_user table users runtime slugs limits user.id
    pure (map to_public_link_schema links)

  unfoldable pub remove : AuthenticatedUser → String → Io (App P R E) (Unit {0})
  remove user slug = do
    delete table users runtime slugs limits slug user.id
    Cache.del client runtime slug

  -- `link.expiresAt && link.expiresAt.getTime() <= Date.now()`: the clock is read for an expiry.
  unfoldable pub refresh_cache : Link → Option ℕ → String → Io (App P R E) (Unit {0})
  refresh_cache link none slug =
      Cache.set client runtime link.short_url link.original_url link.expires_at
  refresh_cache link (some expires_at) slug = do
    now ← on_env runtime.now
    if leb expires_at now
        then Cache.del client runtime slug
        else Cache.set client runtime link.short_url link.original_url link.expires_at

  unfoldable pub update : AuthenticatedUser → String → String → Io (App P R E) PublicLink
  unfolding to_public_link_schema refresh_cache
  update user slug url = do
    link ← update_destination table users runtime slugs limits slug user.id url
    refresh_cache link link.expires_at slug
    pure (to_public_link_schema link)
