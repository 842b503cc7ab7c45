-- ===== src/Urls/Public.antt =====
-- Which destinations the validators of apps/api/src/links/dto accept.
use mikrouli.Common.{String, true, ◌≡◌, ◌⊎◌, none, some, arith, Option-cases, inl, inr}
use mikrouli.Urls.{
  Url, Address, ipv4, ipv6, UrlLibrary, strip_brackets, accepts_url, has_http_scheme,
}

-- The ranges of addresses that lead inside, by the names of ipaddr.js: of IPv4, among them
-- 169.254.0.0/16 of cloud metadata services, and of IPv6.
abbrev pub IsInternalIpv4 : String → Type 0
IsInternalIpv4 range =
    (range ≡ "private") ⊎ (range ≡ "loopback") ⊎ (range ≡ "linkLocal") ⊎ (range ≡ "unspecified")

abbrev pub IsInternalIpv6 : String → Type 0
IsInternalIpv6 range =
    (range ≡ "uniqueLocal") ⊎ (range ≡ "loopback") ⊎ (range ≡ "linkLocal") ⊎ (range ≡ "unspecified")

-- An address that must not be a destination: by its own range or by that of the IPv4 address that
-- it embeds.
abbrev pub IsInternal : Address → Type 0
IsInternal (ipv4 range) = IsInternalIpv4 range
IsInternal (ipv6 range none) = IsInternalIpv6 range
IsInternal (ipv6 range (some mapped)) = IsInternalIpv4 mapped

module _ (library : UrlLibrary) where
  -- A web address whose host, without brackets, is no literal of an internal address.
  abbrev pub IsPublic : Url → Type 0
  IsPublic url =
      ((url.protocol ≡ "http:") ⊎ (url.protocol ≡ "https:"))
      × ((address : Address)
          → library.ip_is_valid (strip_brackets url.hostname) ≡ true
          → library.ip_parse (strip_brackets url.hostname) ≡ some address
          → ¬ IsInternal address)

  -- A destination that passed validation passes the scheme test of the redirect.
  pub has_http_scheme-accepts_url :
      (value : String) → accepts_url library value ≡ true → has_http_scheme library value ≡ true
  unfolding accepts_url has_http_scheme
  has_http_scheme-accepts_url value h = elim (Option-cases (library.parse value)) [
    | inl e ↦ ground arith
    | inr (parsed, e) ↦ ground arith
  ]
