-- ===== src/Metrics.antt =====
-- server/src/metrics.ts: the counters behind the health view. Times are epoch milliseconds and
-- durations are whole numbers of a fixed unit (the code keeps fractional milliseconds and only
-- compares them). The clock's value, the measured duration and the random slot are arguments.
pub mod Percentile
pub mod Buckets
pub mod Wellformed
pub mod Series
mod Examples
use mcp_zeromem.Common.{
  ℕ, zero, suc, ◌+◌, ◌-◌, ◌*◌, ◌/◌, min, max, Bool, not, Option, none, some, List, [], ◌∷◌, ◌++◌,
  ltb, ◌==◌, if◌then◌else◌, length, get_elem?, set, keep_if,
}
use mcp_zeromem.Common.Sort.{sort}

abbrev pub series_minutes : ℕ
series_minutes = 60

abbrev pub reservoir_size : ℕ
reservoir_size = 2000

abbrev pub minute_ms : ℕ
minute_ms = 60000

pub record MinuteBucket : Type 0 where
  pub minute : ℕ
  pub recalls : ℕ
  pub ingested : ℕ
  pub errors : ℕ
  pub durations : List ℕ

-- The `Map`, in insertion order.
abbrev pub Table : Type 0
Table = List (ℕ × MinuteBucket)

pub record Metrics : Type 0 where
  pub started_at : ℕ
  pub open_ms : ℕ
  pub buckets : Table
  pub reservoir : List ℕ
  pub recall_count : ℕ
  pub recall_errors : ℕ
  pub max_ms : Option ℕ
  pub ingest_calls : ℕ
  pub ingest_turns : ℕ

-- The percentages that the code asks for.
pub data Level : Type 0 where
  p50 p95 : Level

abbrev pub percent : Level → ℕ
percent p50 = 50
percent p95 = 95

-- `ceil((p / 100) * n) - 1`, clamped to the list. The product is one of doubles, which is rounded up too far for some `p`,
-- such as 7 and 55; it is not for these two: 50 / 100 is exact, and the double 95 / 100 is a little below the
-- fraction, by far less than what the product lacks to the next whole number.
unfoldable pub percentile : List ℕ → Level → Option ℕ
percentile [] p = none
percentile (x ∷ xs) p =
    let n = length (x ∷ xs) in get_elem? (x ∷ xs) (min (n - 1) ((percent p * n + 99) / 100 - 1))

unfoldable pub create : ℕ → Metrics
create now = record {
  started_at = now;
  open_ms = 0;
  buckets = [];
  reservoir = [];
  recall_count = 0;
  recall_errors = 0;
  max_ms = none;
  ingest_calls = 0;
  ingest_turns = 0;
}

unfoldable pub record_open : ℕ → Metrics → Metrics
record_open ms m = record m { open_ms = ms }

abbrev pub minute_of : ℕ → ℕ
minute_of now = now / minute_ms * minute_ms

abbrev pub oldest : ℕ → ℕ
oldest current_minute = current_minute - (series_minutes - 1) * minute_ms

unfoldable pub find : ℕ → Table → Option MinuteBucket
find k [] = none
find k ((j, b) ∷ t) = if j == k then some b else find k t

unfoldable pub prune : ℕ → Table → Table
prune current_minute t = keep_if (λ e. not (ltb e.0 (oldest current_minute))) t

abbrev pub fresh : ℕ → MinuteBucket
fresh minute = record { minute = minute; recalls = 0; ingested = 0; errors = 0; durations = [] }

-- `bucket()` makes sure that the table holds the bucket of the current minute.
unfoldable pub open_bucket : ℕ → Table → Table
unfolding find prune
open_bucket now t = elim (find (minute_of now) t) [
  | none ↦ prune (minute_of now) (t ++ (minute_of now, fresh (minute_of now)) ∷ [])
  | some b ↦ t
]

unfoldable pub modify : ℕ → (MinuteBucket → MinuteBucket) → Table → Table
modify k f [] = []
modify k f ((j, b) ∷ t) = if j == k then (j, f b) ∷ t else (j, b) ∷ modify k f t

-- `const bucket = this.bucket()` and the writes through that reference.
unfoldable pub in_bucket : ℕ → (MinuteBucket → MinuteBucket) → Table → Table
unfolding open_bucket modify
in_bucket now f t = modify (minute_of now) f (open_bucket now t)

abbrev pub raise_max : Option ℕ → ℕ → ℕ
raise_max none ms = ms
raise_max (some old) ms = max old ms

abbrev pub count_recall : ℕ → MinuteBucket → MinuteBucket
count_recall ms b = record b { recalls = b.recalls + 1; durations = b.durations ++ ms ∷ [] }

abbrev pub count_error : MinuteBucket → MinuteBucket
count_error b = record b { errors = b.errors + 1 }

abbrev pub count_ingest : ℕ → MinuteBucket → MinuteBucket
count_ingest turns b = record b { ingested = b.ingested + turns }

-- `slot` is `Math.floor(Math.random() * RESERVOIR)`.
unfoldable pub record_recall : ℕ → ℕ → ℕ → Metrics → Metrics
unfolding in_bucket
record_recall now ms slot m = record m {
  recall_count = m.recall_count + 1;
  max_ms = some (raise_max m.max_ms ms);
  buckets = in_bucket now (count_recall ms) m.buckets;
  reservoir =
      if ltb (length m.reservoir) reservoir_size
      then m.reservoir ++ ms ∷ []
      else set m.reservoir slot ms;
}

-- The `catch` of `timeRecall`; the error itself is thrown on.
unfoldable pub record_error : ℕ → Metrics → Metrics
unfolding in_bucket
record_error now m = record m {
  recall_errors = m.recall_errors + 1;
  buckets = in_bucket now count_error m.buckets;
}

unfoldable pub record_ingest : ℕ → ℕ → Metrics → Metrics
unfolding in_bucket
record_ingest now turns m = record m {
  ingest_calls = m.ingest_calls + 1;
  ingest_turns = m.ingest_turns + turns;
  buckets = in_bucket now (count_ingest turns) m.buckets;
}

pub record SeriesEntry : Type 0 where
  pub minute : ℕ
  pub recalls : ℕ
  pub ingested : ℕ
  pub errors : ℕ
  pub p50_ms : Option ℕ
  pub p95_ms : Option ℕ

pub record HealthSnapshot : Type 0 where
  pub started_at : ℕ
  pub uptime_seconds : ℕ
  pub open_ms : ℕ
  pub recall_count : ℕ
  pub recall_errors : ℕ
  pub p50_ms : Option ℕ
  pub p95_ms : Option ℕ
  pub max_ms : Option ℕ
  pub ingest_calls : ℕ
  pub ingest_turns : ℕ
  pub series : List SeriesEntry

unfoldable pub entry_at : ℕ → Option MinuteBucket → SeriesEntry
unfolding sort percentile
entry_at minute none = record {
  minute = minute;
  recalls = 0;
  ingested = 0;
  errors = 0;
  p50_ms = percentile [] p50;
  p95_ms = percentile [] p95;
}
entry_at minute (some b) = record {
  minute = minute;
  recalls = b.recalls;
  ingested = b.ingested;
  errors = b.errors;
  p50_ms = percentile (sort b.durations) p50;
  p95_ms = percentile (sort b.durations) p95;
}

-- The loop of `snapshot`, `i` from `n - 1` down to 0.
unfoldable pub series_from : ℕ → ℕ → Table → List SeriesEntry
unfolding find entry_at
series_from zero current_minute t = []
series_from (suc i) current_minute t =
    let minute = current_minute - i * minute_ms in
    entry_at minute (find minute t) ∷ series_from i current_minute t

-- `snapshot()` prunes the table as a side effect.
unfoldable pub snapshot : ℕ → Metrics → HealthSnapshot × Metrics
unfolding prune series_from sort percentile
snapshot now m =
    let kept = prune (minute_of now) m.buckets in
    let sorted = sort m.reservoir in
    (
      record {
        started_at = m.started_at;
        uptime_seconds = (now - m.started_at) / 1000;
        open_ms = m.open_ms;
        recall_count = m.recall_count;
        recall_errors = m.recall_errors;
        p50_ms = percentile sorted p50;
        p95_ms = percentile sorted p95;
        max_ms = m.max_ms;
        ingest_calls = m.ingest_calls;
        ingest_turns = m.ingest_turns;
        series = series_from series_minutes (minute_of now) kept;
      },
      record m { buckets = kept },
    )
