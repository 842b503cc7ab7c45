-- ===== src/ApiKeys/Guards/Origin.antt =====
-- What apps/api/src/api-keys/guest-or-authenticated.guard.ts takes for a request of a browser on a page
-- of the server.
use mikrouli.Common.{
  String, true, Option, none, some, ◌≡◌, ◌⊎◌, inl, inr, refl, List, [], ◌∷◌, ◌++◌, arith,
  Option-cases, Bool-cases, str_eq, eq_iff,
}
use mikrouli.Urls.{Url, UrlLibrary, includes}
use mikrouli.Auth.{truthy}
use mikrouli.ApiKeys.Guards.{
  Request, is_browser_request, resolve_allowed_hostnames, hostname_of, names_host, public_hostname,
  host_hostname, distinct, present, before_colon,
}

module _ (library : UrlLibrary) (config : String → Option String) where
  -- The host of a URL is one that the server goes by: the host of the configured base URL, or the
  -- name in the request's own Host header.
  abbrev pub IsOwnHost : Request → String → Type 0
  IsOwnHost req name =
      ((base : String) × (url : Url) × (config "PUBLIC_BASE_URL" ≡ some base)
        × (library.parse base ≡ some url)
        × (url.hostname ≡ name))
      ⊎ ((host : String) × (req.host ≡ some host) × (before_colon host ≡ name))

  -- The request says that it comes from a page of the server: by its Origin header or, where it has
  -- none, by its Referer.
  abbrev pub SaysOwnOrigin : Request → Type 0
  SaysOwnOrigin req =
      (page : String) × (url : Url) × ((req.origin ≡ some page)
        ⊎ ((truthy req.origin ≡ none) × (req.referer ≡ some page)))
      × (library.parse page ≡ some url)
      × IsOwnHost req url.hostname

  truthy-some : (o : Option String) (s : String) → truthy o ≡ some s → o ≡ some s
  truthy-some none s h = absurd (ground arith)
  truthy-some (some t) s h = ground arith

  distinct-includes :
      (a b : Option String) (name : String)
      → includes (distinct (present a ++ present b)) name ≡ true
      → (a ≡ some name) ⊎ (b ≡ some name)
  unfolding distinct
  distinct-includes none none name h = absurd (ground arith)
  distinct-includes (some x) none name h = inl (ground (arith, eq_iff x name))
  distinct-includes none (some y) name h = inr (ground (arith, eq_iff y name))
  distinct-includes (some x) (some y) name h = elim (Bool-cases (str_eq x name)) [
    | inl e ↦ inl (ground (arith, eq_iff x name))
    | inr e ↦ inr (ground (arith, eq_iff y name))
  ]

  hostname_of-parse :
      (url name : String)
      → hostname_of library url ≡ some name
      → (parsed : Url) × (library.parse url ≡ some parsed) × (parsed.hostname ≡ name)
  unfolding hostname_of
  hostname_of-parse url name h = elim (Option-cases (library.parse url)) [
    | inl e ↦ absurd (ground arith)
    | inr (parsed, e) ↦ (parsed, e, ground arith)
  ]

  public_hostname-some :
      (o : Option String) (name : String)
      → public_hostname library o ≡ some name
      → (base : String) × (o ≡ some base) × (hostname_of library base ≡ some name)
  unfolding public_hostname
  public_hostname-some none name h = absurd (ground arith)
  public_hostname-some (some base) name h =
      (base, refl, truthy-some (hostname_of library base) name h)

  host_hostname-some :
      (o : Option String) (name : String)
      → host_hostname library o ≡ some name
      → (host : String) × (o ≡ some host) × (before_colon host ≡ name)
  unfolding host_hostname
  host_hostname-some none name h = absurd (ground arith)
  host_hostname-some (some host) name h = (host, refl, ground arith)

  allowed-IsOwnHost :
      (req : Request) (name : String)
      → includes (resolve_allowed_hostnames library config req) name ≡ true
      → IsOwnHost req name
  unfolding resolve_allowed_hostnames
  allowed-IsOwnHost req name h =
      let base = truthy (config "PUBLIC_BASE_URL") in
      let host = truthy req.host in
      elim (distinct-includes (public_hostname library base) (host_hostname library host) name h) [
        | inl e ↦
            let (b, is, parsed) = public_hostname-some base name e in
            let (url, p, same) = hostname_of-parse b name parsed in
            inl (b, url, truthy-some (config "PUBLIC_BASE_URL") b is, p, same)
        | inr e ↦
            let (t, is, same) = host_hostname-some host name e in
            inr (t, truthy-some req.host t is, same)
      ]

  names_host-allowed :
      (allowed : List String) (page : String)
      → names_host library allowed page ≡ true
      → (url : Url) × (library.parse page ≡ some url) × (includes allowed url.hostname ≡ true)
  unfolding names_host hostname_of
  names_host-allowed allowed page h = elim (Option-cases (library.parse page)) [
    | inl e ↦ absurd (ground arith)
    | inr (url, e) ↦ (url, e, ground arith)
  ]

  page-Says :
      (req : Request) (allowed : List String)
      → is_browser_request library req allowed ≡ true
      → (page : String) × ((req.origin ≡ some page)
          ⊎ ((truthy req.origin ≡ none) × (req.referer ≡ some page)))
        × (names_host library allowed page ≡ true)
  unfolding is_browser_request
  page-Says req [] h = absurd (ground arith)
  page-Says req (n ∷ ns) h = elim (Option-cases (truthy req.origin)) [
    | inl e ↦ elim (Option-cases (truthy req.referer)) [
      | inl f ↦ absurd (ground arith)
      | inr (page, f) ↦ (page, inr (e, truthy-some req.referer page f), ground arith)
    ]
    | inr (page, e) ↦ (page, inl (truthy-some req.origin page e), ground arith)
  ]

  pub is_browser_request-Says :
      (req : Request)
      → is_browser_request library req (resolve_allowed_hostnames library config req) ≡ true
      → SaysOwnOrigin req
  is_browser_request-Says req h =
      let allowed = resolve_allowed_hostnames library config req in
      let (page, said, named) = page-Says req allowed h in
      let (url, e, within) = names_host-allowed allowed page named in
      (page, url, said, e, allowed-IsOwnHost req url.hostname within)
