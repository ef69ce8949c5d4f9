-- ===== src/Metrics/Examples.antt =====
-- Runs of the counters of server/src/metrics.ts, and their theorems at concrete inputs.
use mcp_zeromem.Common.{
  ℕ, ◌*◌, ◌≤◌, ◌<◌, ◌≡◌, refl, min, List, [], ◌∷◌, some, map, arith, length, All,
}
use mcp_zeromem.Common.Sort.{sort}
use mcp_zeromem.Metrics.{
  series_minutes, reservoir_size, create, p50, p95, percentile, record_open, snapshot,
}
use mcp_zeromem.Metrics.Percentile.{count_le, count_lt, percentile-sort_nearest_rank}
use mcp_zeromem.Metrics.Series.{
  Event, recalled, failed, ingested, run, expected, minutes_from, series_exact,
}
use mcp_zeromem.Metrics.Wellformed.{AtMost, run_bounded}

abbrev durations : List ℕ
durations = 40 ∷ 10 ∷ 30 ∷ 20 ∷ []

median : percentile (sort durations) p50 ≡ some 20
unfolding percentile sort
median = refl

abbrev log : List (ℕ × Event)
log = (3_600_000, recalled 12 0) ∷ (3_630_000, ingested 5) ∷ (3_661_000, failed) ∷ []

log_counts : (expected 3_600_000 log).ingested ≡ 5
unfolding expected
log_counts = refl

opened : (snapshot 3_700_000 (record_open 7 (create 3_000_000))).0.open_ms ≡ 7
unfolding snapshot record_open create
opened = refl

percentile-sort_nearest_rank_example :
    (x : ℕ) × (percentile (sort durations) p95 ≡ some x)
    × (95 * length durations ≤ 100 * count_le x durations)
    × (100 * count_lt x durations < 95 * length durations)
percentile-sort_nearest_rank_example = percentile-sort_nearest_rank durations p95 (omega arith)

hour_counted :
    (snapshot 3_700_000 (run (create 3_600_000) log)).0.series
    ≡ map (λ k. expected k log) (minutes_from 60 3_660_000)
hour_counted = series_exact 3_600_000 3_700_000 log (omega arith)

run_bounded_example :
    (length (run (create 3_600_000) log).buckets ≤ series_minutes)
    × (length (run (create 3_600_000) log).reservoir
        ≡ min (run (create 3_600_000) log).recall_count reservoir_size)
    × All (AtMost (run (create 3_600_000) log).max_ms) (run (create 3_600_000) log).reservoir
run_bounded_example = run_bounded 3_600_000 log (omega arith)
