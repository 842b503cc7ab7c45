-- ===== src/Urls.antt =====
-- apps/api/src/links/dto: the rules for a link's destination, over a URL parser, ipaddr.js and the
-- syntax check of class-validator, and the scheme test of redirect/redirect.service.ts.
pub mod Public
use Prim.Native.Char.{code}
use Prim.Native.String
use mikrouli.Common.{
  ℕ, String, Bool, true, false, not, ◌&&◌, ◌||◌, Option, none, some, List, [], ◌∷◌, ◌==◌, str_eq,
  if◌then◌else◌,
}

-- What the code reads of a parsed `URL`.
pub record Url : Type 0 where
  pub protocol : String
  pub hostname : String

-- A parsed literal address: its range and, of an IPv6 address that embeds an IPv4 one, the range of
-- that.
pub data Address : Type 0 where
  ipv4 : String → Address
  ipv6 : String → Option String → Address

-- `new URL`, which throws on malformed text; `ipaddr.isValid` and `ipaddr.parse`, which may throw;
-- `@IsUrl` with its options.
pub record UrlLibrary : Type 0 where
  pub parse : String → Option Url
  pub ip_is_valid : String → Bool
  pub ip_parse : String → Option Address
  pub is_url : String → Bool

abbrev pub includes : List String → String → Bool
includes [] x = false
includes (y ∷ ys) x = str_eq y x || includes ys x

abbrev pub blocked_ipv4_ranges : List String
blocked_ipv4_ranges = "private" ∷ "loopback" ∷ "linkLocal" ∷ "unspecified" ∷ []

abbrev pub blocked_ipv6_ranges : List String
blocked_ipv6_ranges = "loopback" ∷ "linkLocal" ∷ "uniqueLocal" ∷ "unspecified" ∷ []

unfoldable pub is_blocked_address : Address → Bool
is_blocked_address (ipv6 range (some mapped)) = includes blocked_ipv4_ranges mapped
is_blocked_address (ipv6 range none) = includes blocked_ipv6_ranges range
is_blocked_address (ipv4 range) = includes blocked_ipv4_ranges range

-- `urlHost.startsWith('[')`, `urlHost.endsWith(']')` and `urlHost.slice(1, -1)`
opens : String → Bool
opens String.[] = false
opens (String.◌∷◌ c s) = code c == b'['

closes : String → Bool
closes String.[] = false
closes (String.◌∷◌ c String.[]) = code c == b']'
closes (String.◌∷◌ c s) = closes s

without_last : String → String
without_last String.[] = String.[]
without_last (String.◌∷◌ c String.[]) = String.[]
without_last (String.◌∷◌ c s) = String.◌∷◌ c (without_last s)

without_first : String → String
without_first String.[] = String.[]
without_first (String.◌∷◌ c s) = s

unfoldable pub strip_brackets : String → String
unfolding opens closes without_last without_first
strip_brackets host = if opens host && closes host then without_last (without_first host) else host

-- `protocol === 'http:' || protocol === 'https:'`
abbrev pub is_http : String → Bool
is_http protocol = str_eq protocol "http:" || str_eq protocol "https:"

module _ (library : UrlLibrary) where
  unfoldable pub host_is_blocked_literal_ip : String → Bool
  unfolding is_blocked_address
  host_is_blocked_literal_ip url_host =
      let host = strip_brackets url_host in
      if not (library.ip_is_valid host)
      then false
      else elim (library.ip_parse host) [ none ↦ false | some address ↦ is_blocked_address address ]

  -- `IsPublicHttpUrlConstraint.validate`, of a value that is a string
  unfoldable pub is_public_http_url : String → Bool
  unfolding host_is_blocked_literal_ip
  is_public_http_url value = elim (library.parse value) [
    | none ↦ false
    | some parsed ↦
        if is_http parsed.protocol then not (host_is_blocked_literal_ip parsed.hostname) else false
  ]

  -- The rules of `CreateLinkDto` and `UpdateLinkDto` for `url`
  unfoldable pub accepts_url : String → Bool
  unfolding is_public_http_url
  accepts_url value = library.is_url value && is_public_http_url value

  -- `hasHttpScheme` of redirect.service.ts
  unfoldable pub has_http_scheme : String → Bool
  has_http_scheme url = elim (library.parse url) [
    | none ↦ false
    | some parsed ↦ is_http parsed.protocol
  ]
