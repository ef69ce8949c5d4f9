-- ===== src/Metrics/Buckets.antt =====
-- The table of minute buckets of server/src/metrics.ts: what each operation does to a lookup.
use mcp_zeromem.Common.{
  ℕ, ◌≤◌, ◌≡◌, refl, ◌≢◌, Option, none, some, [], ◌∷◌, ◌++◌, arith, ◌==◌, if◌then◌else◌,
}
use mcp_zeromem.Metrics.{
  MinuteBucket, Table, minute_of, oldest, find, prune, fresh, open_bucket, modify, in_bucket,
}

-- What a reader of the table sees for a minute: an absent bucket counts as an empty one.
abbrev pub or_fresh : ℕ → Option MinuteBucket → MinuteBucket
or_fresh k none = fresh k
or_fresh k (some b) = b

abbrev pub view : ℕ → Table → MinuteBucket
view k t = or_fresh k (find k t)

pub find-prune : (k c : ℕ) (t : Table) → oldest c ≤ k → find k (prune c t) ≡ find k t
unfolding find prune
find-prune k c [] h = refl
find-prune k c ((j, b) ∷ t) h = ground (arith, find-prune k c t h)

view-append : (k j : ℕ) (t : Table) → view k (t ++ (j, fresh j) ∷ []) ≡ view k t
unfolding find
view-append k j [] = ground arith
view-append k j ((i, b) ∷ t) = ground (arith, view-append k j t)

view-open_bucket :
    (k now : ℕ) (t : Table) → oldest (minute_of now) ≤ k → view k (open_bucket now t) ≡ view k t
unfolding open_bucket
view-open_bucket k now t h = ground (
  arith,
  find-prune k (minute_of now) (t ++ (minute_of now, fresh (minute_of now)) ∷ []) h,
  view-append k (minute_of now) t,
)

find-append :
    (j : ℕ) (b : MinuteBucket) (t : Table) → find j t ≡ none → find j (t ++ (j, b) ∷ []) ≡ some b
unfolding find
find-append j b [] h = ground arith
find-append j b ((i, c) ∷ t) h = ground (arith, find-append j b t)

find-open_bucket : (now : ℕ) (t : Table) → find (minute_of now) (open_bucket now t) ≢ none
unfolding open_bucket
find-open_bucket now t = ground (
  arith,
  find-prune (minute_of now) (minute_of now) (t ++ (minute_of now, fresh (minute_of now)) ∷ [])
      (omega arith),
  find-append (minute_of now) (fresh (minute_of now)) t,
)

view-modify :
    (k j : ℕ) (f : MinuteBucket → MinuteBucket) (t : Table)
    → find j t ≢ none
    → view k (modify j f t) ≡ (if j == k then f (view k t) else view k t)
unfolding find modify
view-modify k j f [] h = ground arith
view-modify k j f ((i, b) ∷ t) h = ground (arith, view-modify k j f t)

-- Writing through `bucket()` changes what is seen of the current minute only, as long as the minute
-- looked at is in the last hour.
pub view-in_bucket :
    (k now : ℕ) (f : MinuteBucket → MinuteBucket) (t : Table)
    → oldest (minute_of now) ≤ k
    → view k (in_bucket now f t) ≡ (if minute_of now == k then f (view k t) else view k t)
unfolding in_bucket
view-in_bucket k now f t h = ground (
  arith,
  view-modify k (minute_of now) f (open_bucket now t) (find-open_bucket now t),
  view-open_bucket k now t h,
)
