-- ===== src/Examples/Coherence.antt =====
-- Runs of several handlers, one after the other.
use mikrouli.Common.{ℕ, none, some, refl, ◌≡◌}
use mikrouli.Io.{App}
use mikrouli.Services.{Link}
use mikrouli.Services.Laws.{LinksApart}
use mikrouli.Services.Memory.{Database, Server, empty_server, redis, redis-laws, redis-up, runtime}
use mikrouli.Services.Memory.Links.{links, row}
use mikrouli.Services.Memory.Links.Laws.{links-laws, links-atomic}
use mikrouli.Services.Memory.Accounts.{users}
use mikrouli.Redirect.{resolve}
use mikrouli.Links.Controller
use mikrouli.Coherence.{Run, start, next, update, visit}
use mikrouli.Coherence.Runs.{redirect_follows_row}
use mikrouli.Examples.{ada, world, slugs, limits, library}

abbrev apart : LinksApart links links-laws users
apart = record { find_user_keeps = λ i s p. refl }

abbrev empty_cache : App Database Server ℕ
empty_cache = record { pg = (world none).pg; redis = empty_server; env = 0 }

-- Somebody visits a link, and then its owner gives it another destination.
abbrev visited : App Database Server ℕ
visited = (resolve links redis runtime library "abc123" empty_cache).1

abbrev updated : App Database Server ℕ
updated =
    (Controller.update links users redis runtime slugs limits ada "abc123" "https://example.org/new"
      visited).1

abbrev run :
    Run links users redis runtime slugs limits library links-laws redis-laws empty_cache updated
run =
    next (next start (visit "abc123" empty_cache refl))
      (update ada "abc123" "https://example.org/new" visited refl)

redirect_follows_row_example :
    (l : Link) × (row updated.pg "abc123" ≡ some l) × (l.original_url ≡ "https://example.org/new")
unfolding resolve mikrouli.Cache.get Controller.update mikrouli.Links.update_destination
    mikrouli.Links.get_owned_link mikrouli.Urls.has_http_scheme mikrouli.Cache.set
redirect_follows_row_example =
    redirect_follows_row links users redis runtime slugs limits library links-laws redis-laws
      redis-up links-atomic apart "abc123" "https://example.org/new" refl (λ s. refl) run refl
