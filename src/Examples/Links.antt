-- ===== src/Examples/Links.antt =====
-- Runs of the links service and its controller.
use mikrouli.Common.{ℕ, none, some, refl, ◌≡◌, leb, if◌then◌else◌}
use mikrouli.Http.{ok, throw, monthly_link_limit_exceeded}
use mikrouli.Io.{App}
use mikrouli.Services.Memory.{Database, Server, redis, redis-laws, redis-up, runtime}
use mikrouli.Services.Memory.Links.{links}
use mikrouli.Services.Memory.Links.Laws.{links-laws}
use mikrouli.Services.Memory.Accounts.{users, add_user}
use mikrouli.Cache
use mikrouli.Redirect.{active, resolve}
use mikrouli.Links.{
  create_guest, create, delete, update_destination, retry_on_slug_conflict, try_create,
}
use mikrouli.Links.Create.{create_quota, Outcome, create_guest-Outcome}
use mikrouli.Links.Ownership.{Touches, owner_only}
use mikrouli.Links.Controller.{PublicLink, create as create_link, remove, update}
use mikrouli.Links.Controller.Created.{resolve-create}
use mikrouli.Links.Controller.Visit.{Visited, resolve-update}
use mikrouli.Examples.{ada, guest, database, world, slugs, limits, library}

create_guest-Outcome_example :
    Outcome links links-laws users runtime slugs limits "https://example.org/" "guest"
      (world none)
      (create_guest links users runtime slugs limits "https://example.org/" "guest" none
        (world none))
create_guest-Outcome_example =
    create_guest-Outcome links links-laws users runtime slugs limits "https://example.org/" "guest"
      none (world none)

owner_only_example :
    Touches links links-laws users runtime slugs limits "abc123" "eve"
      (world none)
      (delete links users runtime slugs limits "abc123" "eve" (world none)).1
    × Touches links links-laws users runtime slugs limits "abc123" "eve"
        (world none)
        (update_destination links users runtime slugs limits "abc123" "eve" "https://evil.example/"
          (world none)).1
owner_only_example =
    owner_only links links-laws users runtime slugs limits "abc123" "eve" "https://evil.example/"
      (world none)

abbrev updated : PublicLink
updated = record {
  short_url = "abc123";
  original_url = "https://example.org/new";
  created_at = 1690000000000;
  expires_at = some 1800000000000;
}

resolve-update_example :
    Visited links users redis runtime slugs limits library links-laws redis-laws redis-up "abc123"
      "https://example.org/new"
      (some 1800000000000)
      1700000000000
      (update links users redis runtime slugs limits ada "abc123" "https://example.org/new"
        (world (some 1800000000000))).1
unfolding update mikrouli.Urls.has_http_scheme update_destination mikrouli.Links.get_owned_link
    Cache.set
resolve-update_example =
    resolve-update links users redis runtime slugs limits library links-laws redis-laws redis-up ada
      "abc123" "https://example.org/new" (world (some 1800000000000)) {l = updated} refl refl refl

abbrev created : PublicLink
created = record {
  short_url = "new123";
  original_url = "https://example.org/";
  created_at = 1700000000000;
  expires_at = some 1700000000500;
}

resolve-create_example :
    (resolve links redis runtime library "new123"
      (create_link links users redis runtime slugs limits guest "https://example.org/"
        (some 1700000000500)
        (world none)).1).0
    ≡ ok (active "https://example.org/")
unfolding create_link mikrouli.Links.Controller.create_for create_guest
    mikrouli.Links.resolve_expiry retry_on_slug_conflict try_create Cache.set
    mikrouli.Urls.has_http_scheme
resolve-create_example =
    resolve-create links users redis runtime slugs limits library links-laws redis-laws redis-up
      guest "https://example.org/" (some 1700000000500) (world none) {l = created} refl refl

-- Carol has no links yet.
abbrev with_carol : App Database Server ℕ
with_carol = record (world none) { pg = add_user "carol" none (database none) }

create_quota_example :
    create links users runtime slugs limits "https://example.org/" "carol" none with_carol ≡ (
      if leb 100 0
      then (throw monthly_link_limit_exceeded, with_carol)
      else create_guest links users runtime slugs limits "https://example.org/" "carol" none
          with_carol)
unfolding mikrouli.Usage.count_links_this_month mikrouli.Usage.get_link_limit
create_quota_example =
    create_quota links users runtime slugs limits "https://example.org/" "carol" none with_carol
      with_carol with_carol 0 100 refl refl
