-- ===== src/Examples/Values.antt =====
-- Runs of what needs little or no state, and of the hourly cleanup.
use Prim.Native.Char.{Char}
use mikrouli.Common.{
  ℕ, suc, ◌≤◌, ◌<◌, String, Option, none, some, refl, arith, ◌≡◌, ◌⊎◌, inl, List, [], ◌∷◌, false,
}
use mikrouli.Http.{
  Exception, ClassValidatorError, query_failed, other, ok, throw, monthly_link_limit_exceeded,
}
use mikrouli.Io.{Io}
use mikrouli.Services.{Link}
use mikrouli.Services.Memory.{redis, redis-laws, runtime}
use mikrouli.Services.Memory.Links.{links, row}
use mikrouli.Services.Memory.Links.Laws.{links-laws, links-atomic}
use mikrouli.Slug.{build_slug}
use mikrouli.Slug.Uniform.{hits, byte_to_index_uniform}
use mikrouli.Slug.Sampling.{Productive, IsSlug, build_slug-IsSlug}
use mikrouli.Calendar.{month_start, next_month_start}
use mikrouli.Calendar.Bounds.{month_bounds}
use mikrouli.Cache.{ttl_seconds_until}
use mikrouli.Urls.{ipv6, accepts_url, has_http_scheme}
use mikrouli.Redirect.{expired, resolve}
use mikrouli.Redirect.Laws.{resolve-miss}
use mikrouli.Links.{max_slug_retries, retry_on_slug_conflict}
use mikrouli.Links.Retry.{Ends, retry_on_slug_conflict-Ends}
use mikrouli.Problems.{catch_problem}
use mikrouli.Problems.Filter.{catch_problem_internal, database, generic}
use mikrouli.Mcp.{tool_error, create_short_link_handler}
use mikrouli.Mcp.ToolErrors.{create_short_link_handler_quota}
use mikrouli.Cleanup.{handle_cleanup}
use mikrouli.Cleanup.Sweep.{handle_cleanup-keeps}
use mikrouli.Cleanup.Count.{AreStored, gone, handle_cleanup-gone}
use mikrouli.Examples.{world, library, link_of_ada, config}

productive : Productive (λ _. 7)
productive at = inl (omega arith)

build_slug-IsSlug_example : (s : List Char) × (build_slug 6 (λ _. 7) 0 [] ≡ some s) × IsSlug s
build_slug-IsSlug_example = build_slug-IsSlug (λ _. 7) 0 productive

byte_to_index_uniform_example : hits 60 256 ≡ 4
byte_to_index_uniform_example = byte_to_index_uniform 60 (omega arith)

month_bounds_example :
    (month_start 1709210096789 ≤ 1709210096789) × (1709210096789 < next_month_start 1709210096789)
month_bounds_example = month_bounds 1709210096789

-- The loopback address is refused.
accepts_url_loopback : accepts_url library "http://[::1]/" ≡ false
unfolding accepts_url mikrouli.Urls.strip_brackets
accepts_url_loopback = refl

resolve-miss_example :
    ((x : Exception) × ((links.find_one "abc123" (world (some 1600000000000)).pg).0 ≡ throw x)
      × ((resolve links redis runtime library "abc123" (world (some 1600000000000))).0 ≡ throw x))
    ⊎ ((resolve links redis runtime library "abc123" (world (some 1600000000000))).0 ≡ ok expired)
unfolding mikrouli.Cache.cache_key mikrouli.Redirect.is_expired
resolve-miss_example =
    resolve-miss links redis runtime library links-laws redis-laws "abc123"
      (world (some 1600000000000)) refl

-- Every attempt finds its slug taken.
abbrev taken : Io ℕ Link
taken n = (throw (query_failed "23505"), suc n)

retry_on_slug_conflict-Ends_example : Ends taken max_slug_retries 0 (retry_on_slug_conflict taken 0)
retry_on_slug_conflict-Ends_example = retry_on_slug_conflict-Ends taken 0

catch_problem_internal_example :
    catch_problem config none (query_failed "23505")
    ≡ catch_problem config none (other "out of memory")
catch_problem_internal_example =
    catch_problem_internal config none (query_failed "23505") (other "out of memory") refl
      (database "23505") (generic "out of memory")

abbrev no_errors : String → Option String → List ClassValidatorError
no_errors url expires_at = []

abbrev no_date : Option String → Option ℕ
no_date text = none

abbrev over_quota : String → String → Option ℕ → Io ℕ Link
over_quota url user expires_at n = (throw monthly_link_limit_exceeded, suc n)

create_short_link_handler_quota_example :
    (create_short_link_handler no_errors no_date over_quota "ada" "https://mikrou.li/"
      "https://example.org/" none 0).0
    ≡ ok (tool_error "429 Unknown")
create_short_link_handler_quota_example =
    create_short_link_handler_quota no_errors no_date over_quota "ada" "https://mikrou.li/"
      "https://example.org/" none 0 refl refl

handle_cleanup-keeps_example :
    row (handle_cleanup links redis runtime (world none)).1.pg "abc123" ≡ some (link_of_ada none)
handle_cleanup-keeps_example =
    handle_cleanup-keeps links redis runtime links-laws (world none) "abc123" (link_of_ada none)
      refl (λ (at, e, _). ground (arith, e))

handle_cleanup-gone_example :
    AreStored links redis runtime links-laws links-atomic
      (world (some 1600000000000)).pg
      (link_of_ada (some 1600000000000) ∷ [])
    × ((handle_cleanup links redis runtime (world (some 1600000000000))).0
        ≡ ok (
            gone links redis runtime links-laws links-atomic
              (handle_cleanup links redis runtime (world (some 1600000000000))).1.pg
              (link_of_ada (some 1600000000000) ∷ [])))
    × (gone links redis runtime links-laws links-atomic
          (handle_cleanup links redis runtime (world (some 1600000000000))).1.pg
          (link_of_ada (some 1600000000000) ∷ [])
        ≤ 1000)
handle_cleanup-gone_example =
    handle_cleanup-gone links redis runtime links-laws links-atomic (world (some 1600000000000))
      (link_of_ada (some 1600000000000) ∷ []) refl (tt, tt)
