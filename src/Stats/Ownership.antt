-- ===== src/Stats/Ownership.antt =====
-- Only a link's owner sees its statistics: apps/api/src/stats/stats.controller.ts.
use mikrouli.Common.{
  String, ℕ, Option, none, some, ◌≡◌, arith, inl, inr, str_eq, eq_iff, Bool-cases,
}
use mikrouli.Http.{ok, Result-cases}
use mikrouli.Io.{Io}
use mikrouli.Services.{Link}
use mikrouli.Stats.{AggregatedStats, ClickHouse, verify_link_ownership, get_stats, stats_of_link}

module _ {S : Type 0} (clickhouse : ClickHouse S) (to_int : String → ℕ) where
  -- Whoever gets statistics asked for a link that exists and is theirs, and they are what the queries
  -- answer after the link has been read.
  pub stats_of_link_owner :
      (find_by_slug : String → Io S (Option Link)) (slug user : String) (s : S)
      (stats : AggregatedStats)
      → (stats_of_link clickhouse to_int find_by_slug slug user s).0 ≡ ok stats
      → (link : Link) × ((find_by_slug slug s).0 ≡ ok (some link))
        × (link.user_id ≡ user)
        × ((get_stats clickhouse to_int slug (find_by_slug slug s).1).0 ≡ ok stats)
  unfolding stats_of_link verify_link_ownership
  stats_of_link_owner find_by_slug slug user s stats h =
      elim (Result-cases (find_by_slug slug s).0) [
        | inl (none, e) ↦ absurd (ground arith)
        | inl (some link, e) ↦ elim (Bool-cases (str_eq link.user_id user)) [
          | inl o ↦ (link, e, (eq_iff link.user_id user).0 o, ground arith)
          | inr o ↦ absurd (ground arith)
        ]
        | inr (x, e) ↦ absurd (ground arith)
      ]
