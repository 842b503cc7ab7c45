-- ===== src/Web/Dashboard/Listing.antt =====
-- apps/web/src/pages/DashboardPage.tsx: which links the page lists, and what stands in their place.
use Prim.Native.Char.{code}
use Prim.Native.String
use text.Mathlib.Text.{starts_with}
use mikrouli.Common.{
  String, Bool, ◌||◌, ◌==◌, str_eq, Option, none, some, List, [], ◌∷◌, if◌then◌else◌,
}
use mikrouli.Auth.{truthy}
use mikrouli.Links.Controller.{PublicLink}
use mikrouli.Web.Client.{extract_error_message}
use mikrouli.Web.Dashboard.{Page}

-- The last of the parts between '/'.
abbrev pub last_part : String → String → String
last_part part String.[] = part
last_part part (String.◌∷◌ c s) =
    let past = last_part "" s in
    let on = last_part (String.◌++◌ part (String.◌∷◌ c "")) s in if code c == b'/' then past else on

unfoldable pub extract_slug : String → String
extract_slug short_url = last_part "" short_url

abbrev pub includes : String → String → Bool
includes String.[] needle = str_eq needle ""
includes (String.◌∷◌ c s) needle =
    let rest = includes s needle in starts_with (String.◌∷◌ c s) needle || rest

-- The texts' `trim` and `toLowerCase`.
module _ (trim to_lower_case : String → String) where
  carries : String → PublicLink → Bool
  unfolding extract_slug
  carries needle link =
      includes (to_lower_case (extract_slug link.short_url)) needle
      || includes (to_lower_case link.original_url) needle

  kept : String → List PublicLink → List PublicLink
  unfolding carries
  kept needle [] = []
  kept needle (link ∷ links) =
      let rest = kept needle links in if carries needle link then link ∷ rest else rest

  unfoldable pub narrow_links : List PublicLink → String → List PublicLink
  unfolding kept
  narrow_links links fragment =
      let needle = to_lower_case (trim fragment) in
      if str_eq needle "" then links else kept needle links

abbrev pub fetch_error : Page → Option String
fetch_error page = elim page.links_error [
  | some cause ↦ some (extract_error_message cause)
  | none ↦ page.page_error
]

-- What stands in place of the set of links, or the links that it lists.
pub data LinksSet : Type 0 where
  loading : LinksSet
  alert : String → LinksSet
  no_links : LinksSet
  narrowed_empty : LinksSet
  rows : List PublicLink → LinksSet

abbrev pub listed : List PublicLink → LinksSet
listed [] = narrowed_empty
listed (link ∷ links) = rows (link ∷ links)

abbrev pub set_of : List PublicLink → List PublicLink → LinksSet
set_of [] narrowed = no_links
set_of (link ∷ links) narrowed = listed narrowed

unfoldable pub links_set : (String → String) → (String → String) → Page → LinksSet
unfolding narrow_links
links_set trim to_lower_case page =
    if page.links_loading then loading else elim (truthy (fetch_error page)) [
      | some message ↦ alert message
      | none ↦ set_of page.links (narrow_links trim to_lower_case page.links page.fragment)
    ]
