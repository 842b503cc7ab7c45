-- ===== src/Examples/Provider.antt =====
-- Runs of the sign-in through GitHub and of the statistics.
use mikrouli.Common.{ℕ, suc, String, true, false, Option, none, some, List, [], ◌∷◌, refl, ◌≡◌, ◌⊎◌}
use mikrouli.Http.{Exception, ok, throw}
use mikrouli.Io.{Io, App}
use mikrouli.Services.{Link}
use mikrouli.Services.Memory.{Database, Server, redis, redis-laws, runtime}
use mikrouli.Oauth.{GithubEmail, GithubIdentity, store, verify, validate}
use mikrouli.Oauth.State.{verify_once}
use mikrouli.Oauth.Email.{Any, VerifiedAs, validate-verified}
use mikrouli.Stats.{
  AggregatedStats, ClickHouse, get_stats, parse_os_id, parse_browser_id, os_names, browser_names,
}
use mikrouli.Stats.Ownership.{stats_of_link_owner}
use mikrouli.Examples.{world, link_of_ada}

-- The world in which the state of a sign-in has just been stored.
abbrev signing_in : App Database Server ℕ
signing_in = (store redis runtime (world none)).1

verify_once_example :
    ((x : Exception) × ((verify redis runtime "0123456789abcdef"
          (verify redis runtime "0123456789abcdef" signing_in).1).0
        ≡ throw x))
    ⊎ ((verify redis runtime "0123456789abcdef"
          (verify redis runtime "0123456789abcdef" signing_in).1).0
        ≡ ok false)
unfolding verify store
verify_once_example = verify_once redis runtime redis-laws "0123456789abcdef" signing_in true refl

abbrev emails : List GithubEmail
emails =
    record { email = "old@example.org"; verified = false; primary = true }
    ∷ record { email = "ada@example.org"; verified = true; primary = false }
    ∷ []

abbrev identity : GithubIdentity
identity = record { provider_user_id = "42"; email = "ada@example.org" }

validate-verified_example :
    (found : List GithubEmail) × (ok emails ≡ ok found)
    × Any (VerifiedAs "ada@example.org") found
    × (identity.provider_user_id ≡ "42")
unfolding validate
validate-verified_example = validate-verified (ok emails) "42" identity refl

abbrev clickhouse : ClickHouse ℕ
clickhouse = record {
  insert = λ row n. (ok tt, suc n);
  total = λ slug n. (ok ("7" ∷ []), n);
  by_day = λ slug n. (ok [], n);
  top_countries = λ slug n. (ok [], n);
  top_browsers = λ slug n. (ok [], n);
}

abbrev found : String → Io ℕ (Option Link)
found slug n = (ok (some (link_of_ada none)), n)

abbrev seven : String → ℕ
seven text = 7

abbrev stats : AggregatedStats
stats = record { total_clicks = 7; clicks_by_day = []; top_countries = []; top_browsers = [] }

stats_of_link_owner_example :
    (link : Link) × ((found "abc123" 0).0 ≡ ok (some link))
    × (link.user_id ≡ "ada@example.org")
    × ((get_stats clickhouse seven "abc123" 0).0 ≡ ok stats)
unfolding mikrouli.Stats.stats_of_link mikrouli.Stats.verify_link_ownership get_stats
    mikrouli.Stats.assemble_stats
stats_of_link_owner_example =
    stats_of_link_owner clickhouse seven found "abc123" "ada@example.org" 0 stats refl
