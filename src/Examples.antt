-- ===== src/Examples.antt =====
-- Runs of the services at fixed inputs, over the services held in memory. The world below has one
-- user, one link and one session.
pub mod Links
pub mod Sessions
pub mod Accounts
pub mod Provider
pub mod Values
pub mod Web
pub mod Telemetry
pub mod Coherence
pub mod ClickHouse
pub mod Decimals
use mikrouli.Common.{
  ℕ, suc, String, Bool, true, false, Option, none, some, List, [], ◌∷◌, str_eq, refl, if◌then◌else◌,
}
use mikrouli.Io.{App}
use mikrouli.Services.{Link, User}
use mikrouli.Services.Memory.{Database, Server, empty_database, empty_server, set_at}
use mikrouli.Services.Memory.Accounts.{user_of}
use mikrouli.Urls.{Url, Address, ipv6, UrlLibrary}
use mikrouli.Usage.{Limits}
use mikrouli.Links.{SlugGenerator}
use mikrouli.Links.Controller.{AuthenticatedUser}

abbrev pub ada : AuthenticatedUser
ada = record { id = "ada@example.org"; is_guest = false }

abbrev pub guest : AuthenticatedUser
guest = record { id = "guest"; is_guest = true }

abbrev pub link_of_ada : Option ℕ → Link
link_of_ada expiry = record {
  short_url = "abc123";
  original_url = "https://example.org/old";
  user_id = "ada@example.org";
  created_at = 1690000000000;
  expires_at = expiry;
}

abbrev pub database : Option ℕ → Database
database expiry = record empty_database {
  links = set_at "abc123" (some (link_of_ada expiry)) empty_database.links;
  slugs = "abc123" ∷ [];
  users =
      set_at "ada@example.org" (some (user_of "ada@example.org" (some "hash secret")))
        empty_database.users;
}

abbrev pub server : Server
server = record empty_server {
  values = set_at "auth:refresh:family" (some "jti") empty_server.values;
}

abbrev pub world : Option ℕ → App Database Server ℕ
world expiry = record { pg = database expiry; redis = server; env = 0 }

abbrev pub slugs : SlugGenerator ℕ
slugs = record { generate = λ n. ("new123", suc n); generate_fills = λ n. refl }

abbrev pub limits : Limits
limits = record { default_link_limit = 100; default_key_limit = 10 }

abbrev pub loopback : Url
loopback = record { protocol = "http:"; hostname = "[::1]" }

-- The loopback address has a name of its own, and every other text is a URL of one public host.
abbrev pub library : UrlLibrary
library = record {
  parse = λ url.
      if str_eq url "http://[::1]/"
      then some loopback
      else some (record { protocol = "https:"; hostname = "example.org" });
  ip_is_valid = λ host. str_eq host "::1";
  ip_parse = λ host. if str_eq host "::1" then some (ipv6 "loopback" none) else none;
  is_url = λ url. true;
}

abbrev pub config : String → Option String
config key = if str_eq key "NODE_ENV" then some "production" else some "secret"
