-- ===== src/Metrics/Series.antt =====
-- The minute series of `snapshot` (server/src/metrics.ts) against the log of what happened.
use mcp_zeromem.Common.{
  ℕ, zero, suc, ◌+◌, ◌/◌, ◌++◌, Bool, true, false, length, sym, ◌-◌, ◌*◌, ◌≤◌, ◌≡◌, refl, ap, ◌∙◌,
  List, [], ◌∷◌, arith, none, some, Option, ◌==◌, if◌then◌else◌, All, map,
}
use mathlib.Core.List as List
use mcp_zeromem.Common.Sort.{sort}
use mcp_zeromem.Metrics.{
  SeriesEntry, percentile, p50, p95, MinuteBucket, Table, Metrics, series_minutes, minute_ms,
  minute_of, oldest, find, prune, fresh, create, record_recall, record_error, record_ingest,
  count_recall, count_error, count_ingest, entry_at, series_from, snapshot,
}
use mcp_zeromem.Metrics.Buckets.{view, or_fresh, view-in_bucket, find-prune}

-- A call of the counters, with the slot that the random choice would take.
pub data Event : Type 0 where
  recalled : ℕ → ℕ → Event
  failed : Event
  ingested : ℕ → Event

unfoldable pub apply : ℕ → Event → Metrics → Metrics
unfolding record_recall record_error record_ingest
apply now (recalled ms slot) m = record_recall now ms slot m
apply now failed m = record_error now m
apply now (ingested turns) m = record_ingest now turns m

unfoldable pub run : Metrics → List (ℕ × Event) → Metrics
unfolding apply
run m [] = m
run m ((now, e) ∷ log) = run (apply now e m) log

-- What one event adds to the minute that it falls in.
abbrev pub count_event : Event → MinuteBucket → MinuteBucket
count_event (recalled ms slot) b = count_recall ms b
count_event failed b = count_error b
count_event (ingested turns) b = count_ingest turns b

-- The bucket of minute `k` as the log alone determines it.
unfoldable pub tally : ℕ → MinuteBucket → List (ℕ × Event) → MinuteBucket
tally k b [] = b
tally k b ((now, e) ∷ log) = tally k (if minute_of now == k then count_event e b else b) log

abbrev pub observed : ℕ → List (ℕ × Event) → MinuteBucket
observed k log = tally k (fresh k) log

-- What happened in the minute that begins at `k`.
abbrev pub in_minute : ℕ → List (ℕ × Event) → List Event
in_minute k [] = []
in_minute k ((now, e) ∷ log) =
    let rest = in_minute k log in if now / 60_000 * 60_000 == k then e ∷ rest else rest

abbrev pub durations_of : List Event → List ℕ
durations_of [] = []
durations_of (recalled ms slot ∷ events) = ms ∷ durations_of events
durations_of (failed ∷ events) = durations_of events
durations_of (ingested turns ∷ events) = durations_of events

abbrev pub failures : List Event → ℕ
failures [] = 0
failures (recalled ms slot ∷ events) = failures events
failures (failed ∷ events) = suc (failures events)
failures (ingested turns ∷ events) = failures events

abbrev pub turns_of : List Event → ℕ
turns_of [] = 0
turns_of (recalled ms slot ∷ events) = turns_of events
turns_of (failed ∷ events) = turns_of events
turns_of (ingested turns ∷ events) = turns + turns_of events

-- The entry of a minute, as the log alone determines it: how many recalls were answered and how many failed, the
-- turns that were stored, and the percentiles of the durations.
unfoldable pub expected : ℕ → List (ℕ × Event) → SeriesEntry
unfolding percentile sort
expected k log =
    let events = in_minute k log in
    record {
      minute = k;
      recalls = length (durations_of events);
      ingested = turns_of events;
      errors = failures events;
      p50_ms = percentile (sort (durations_of events)) p50;
      p95_ms = percentile (sort (durations_of events)) p95;
    }

-- A bucket with what the events add.
abbrev filled : List Event → MinuteBucket → MinuteBucket
filled events b = record {
  minute = b.minute;
  recalls = b.recalls + length (durations_of events);
  ingested = b.ingested + turns_of events;
  errors = b.errors + failures events;
  durations = b.durations ++ durations_of events;
}

abbrev bucket : ℕ → ℕ → ℕ → ℕ → List ℕ → MinuteBucket
bucket m r i e d = record { minute = m; recalls = r; ingested = i; errors = e; durations = d }

same_bucket :
    (m : ℕ) {r r' i i' e e' : ℕ} {d d' : List ℕ}
    → r ≡ r'
    → i ≡ i'
    → e ≡ e'
    → d ≡ d'
    → bucket m r i e d ≡ bucket m r' i' e' d'
same_bucket m p q t u = λ j. bucket m (p j) (q j) (t j) (u j)

filled-nil : (b : MinuteBucket) → b ≡ filled [] b
filled-nil b =
    same_bucket b.minute (omega arith) (omega arith) (omega arith)
      (sym (List.append-nil b.durations))

filled-cons :
    (e : Event) (events : List Event) (b : MinuteBucket)
    → filled events (count_event e b) ≡ filled (e ∷ events) b
filled-cons (recalled ms slot) events b =
    same_bucket b.minute (omega arith) refl refl
      (List.append_assoc b.durations (ms ∷ []) (durations_of events))
filled-cons failed events b = same_bucket b.minute refl refl (omega arith) refl
filled-cons (ingested turns) events b = same_bucket b.minute refl (omega arith) refl refl

one_more :
    (t : Bool) (k : ℕ) (e : Event) (b : MinuteBucket) (log : List (ℕ × Event))
    → tally k (count_event e b) log ≡ filled (in_minute k log) (count_event e b)
    → tally k b log ≡ filled (in_minute k log) b
    → tally k (if t then count_event e b else b) log
      ≡ filled (if t then e ∷ in_minute k log else in_minute k log) b
one_more true k e b log h r = h ∙ filled-cons e (in_minute k log) b
one_more false k e b log h r = r

tally-in_minute :
    (k : ℕ) (b : MinuteBucket) (log : List (ℕ × Event)) → tally k b log ≡ filled (in_minute k log) b
unfolding tally
tally-in_minute k b [] = filled-nil b
tally-in_minute k b ((now, e) ∷ log) =
    one_more (minute_of now == k) k e b log (tally-in_minute k (count_event e b) log)
      (tally-in_minute k b log)

observed-expected :
    (k : ℕ) (log : List (ℕ × Event)) → entry_at k (some (observed k log)) ≡ expected k log
unfolding entry_at expected
observed-expected k log =
    ap (λ b. entry_at k (some b))
      (tally-in_minute k (fresh k) log
        ∙ same_bucket k (omega arith) (omega arith) (omega arith) refl)

abbrev pub minutes_from : ℕ → ℕ → List ℕ
minutes_from zero c = []
minutes_from (suc i) c = (c - i * 60_000) ∷ minutes_from i c

view-apply :
    (k now : ℕ) (e : Event) (m : Metrics)
    → oldest (minute_of now) ≤ k
    → view k (apply now e m).buckets
      ≡ (if minute_of now == k then count_event e (view k m.buckets) else view k m.buckets)
unfolding apply
view-apply k now (recalled ms slot) m h = view-in_bucket k now (count_recall ms) m.buckets h
view-apply k now failed m h = view-in_bucket k now count_error m.buckets h
view-apply k now (ingested turns) m h = view-in_bucket k now (count_ingest turns) m.buckets h

oldest_mono : (a b k : ℕ) → a ≤ b → oldest (minute_of b) ≤ k → oldest (minute_of a) ≤ k
oldest_mono a b k h l = omega arith

pub view-run :
    (k now : ℕ) (log : List (ℕ × Event)) (m : Metrics)
    → oldest (minute_of now) ≤ k
    → All (λ e. e.0 ≤ now) log
    → view k (run m log).buckets ≡ tally k (view k m.buckets) log
unfolding run tally
view-run k now [] m h a = refl
view-run k now ((t, e) ∷ log) m h (p, a) =
    view-run k now log (apply t e m) h a
    ∙ ap (λ b. tally k b log) (view-apply k t e m (oldest_mono t now k p h))

entry_at-or_fresh :
    (k : ℕ) (o : Option MinuteBucket) → entry_at k o ≡ entry_at k (some (or_fresh k o))
unfolding entry_at
entry_at-or_fresh k none = refl
entry_at-or_fresh k (some b) = refl

pub series_from_lem :
    (n c : ℕ) (t : Table) (log : List (ℕ × Event))
    → n ≤ series_minutes
    → ((k : ℕ) → oldest c ≤ k → view k t ≡ observed k log)
    → series_from n c (prune c t) ≡ map (λ k. expected k log) (minutes_from n c)
unfolding series_from
series_from_lem zero c t log h v = refl
series_from_lem (suc i) c t log h v =
    let k = c - i * minute_ms in
    let in_hour : oldest c ≤ k = omega arith in
    let seen : or_fresh k (find k (prune c t)) ≡ observed k log =
      rw (find-prune k c t in_hour) (v k in_hour) in
    let here : entry_at k (find k (prune c t)) ≡ expected k log =
      entry_at-or_fresh k (find k (prune c t))
      ∙ ap (λ b. entry_at k (some b)) seen
      ∙ observed-expected k log in
    λ j. here j ∷ series_from_lem i c t log (omega arith) v j

-- Take a process started at `t0` and any log of recalls, failed recalls and ingests, none later
-- than `now`. The series of a snapshot at `now` lists the sixty minutes up to the current one,
-- oldest first, and the entry of each counts the events of the log that fall in that minute and
-- holds the percentiles of their durations; no event of the last hour is lost or counted twice.
pub series_exact :
    (t0 now : ℕ) (log : List (ℕ × Event))
    → All (λ e. e.0 ≤ now) log
    → (snapshot now (run (create t0) log)).0.series
      ≡ map (λ k. expected k log) (minutes_from 60 (now / 60_000 * 60_000))
unfolding snapshot create
series_exact t0 now log a =
    series_from_lem series_minutes (minute_of now) (run (create t0) log).buckets log (omega arith)
      (λ k h. view-run k now log (create t0) h a)
