-- ===== src/Links/Controller/Created.antt =====
-- What a visitor of a slug gets right after links.controller.ts has created its link.
use mikrouli.Common.{ℕ, String, ◌≡◌, sym, inl, inr, true, Option, arith}
use mathlib.Core.Path.{subst₂}
use mikrouli.Http.{ok, Result-cases}
use mikrouli.Io.{App}
use mikrouli.Services.{Link, LinkTable, UserTable, RedisClient, Runtime}
use mikrouli.Services.Laws.{LinkLaws, RedisLaws, RedisUp}
use mikrouli.Usage.{Limits}
use mikrouli.Urls.{UrlLibrary, has_http_scheme}
use mikrouli.Cache
use mikrouli.Cache.{ttl_seconds_until}
use mikrouli.Redirect.{active, resolve}
use mikrouli.Links.{SlugGenerator}
use mikrouli.Links.Controller.{
  AuthenticatedUser, PublicLink, to_public_link_schema, create_for, create,
}
use mikrouli.Links.Controller.Cached.{resolve-hit, set-value, set-ok}

module _ {P R E : Type 0} (table : LinkTable P) (users : UserTable P) (client : RedisClient R)
    (runtime : Runtime E) (slugs : SlugGenerator E) (limits : Limits) (library : UrlLibrary)
    (laws : LinkLaws table) (cache : RedisLaws client) (up : RedisUp client cache) where
  create-parts :
      (user : AuthenticatedUser) (url : String) (expiry : Option ℕ) (w : App P R E) {l : PublicLink}
      → (create table users client runtime slugs limits user url expiry w).0 ≡ ok l
      → (link : Link) × (w' : App P R E) × (create_for table users client runtime slugs limits user
            url expiry w
          ≡ (ok link, w'))
        × ((create table users client runtime slugs limits user url expiry w).1
            ≡ (Cache.set client runtime link.short_url link.original_url link.expires_at w').1)
        × (l ≡ to_public_link_schema link)
  unfolding create
  create-parts user url expiry w {l} h =
      let made = create_for table users client runtime slugs limits user url expiry w in
      elim (Result-cases made.0) [
        | inl (link, e) ↦
            let stored =
              set-ok table client runtime library laws cache up link.short_url link.original_url
                link.expires_at made.1 in
            (link, made.1, ground arith, ground arith, ground arith)
        | inr (x, e) ↦ absurd (ground arith)
      ]

  -- Where Redis answers every call and the destination is a web address: what a creation returns is
  -- what the next visitor of its slug is sent to, whatever its expiry.
  pub resolve-create :
      (user : AuthenticatedUser) (url : String) (expiry : Option ℕ) (w : App P R E) {l : PublicLink}
      → (create table users client runtime slugs limits user url expiry w).0 ≡ ok l
      → has_http_scheme library l.original_url ≡ true
      → (resolve table client runtime library l.short_url
          (create table users client runtime slugs limits user url expiry w).1).0
        ≡ ok (active l.original_url)
  resolve-create user url expiry w {l} h scheme =
      let (link, w', made, after, public) = create-parts user url expiry w h in
      subst₂
        (λ x (m : PublicLink).
          has_http_scheme library m.original_url ≡ true
          → (resolve table client runtime library m.short_url x).0 ≡ ok (active m.original_url))
        (sym after) (sym public)
        (λ s.
          unfold to_public_link_schema in
          resolve-hit table client runtime library laws cache up link.short_url _
            (set-value table client runtime library laws cache up link.short_url link.original_url
              link.expires_at w')
            s)
        scheme
