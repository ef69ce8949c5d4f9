-- ===== src/Metrics/Percentile.antt =====
-- `percentile` of server/src/metrics.ts against the nearest-rank definition.
use mcp_zeromem.Common.{
  ℕ, zero, suc, ◌+◌, ◌-◌, ◌*◌, ◌/◌, ◌≤◌, ◌<◌, min, ◌≡◌, some, List, [], ◌∷◌, arith, leb, ltb,
  length, get_elem?, get_elem?-some_of_lt, All,
}
use mcp_zeromem.Common.Sort.{
  IsSorted, sort, sort-IsSorted, count_if, count_if-sort, count_if-ltb_of_All, length-sort,
}
use mcp_zeromem.Metrics.{Level, p50, p95, percent, percentile}

abbrev pub count_le : ℕ → List ℕ → ℕ
count_le x xs = count_if (λ z. leb z x) xs

abbrev pub count_lt : ℕ → List ℕ → ℕ
count_lt x xs = count_if (λ z. ltb z x) xs

le_of_get : (y : ℕ) (xs : List ℕ) (i x : ℕ) → All (λ z. y ≤ z) xs → get_elem? xs i ≡ some x → y ≤ x
le_of_get y [] i x a e = ground arith
le_of_get y (z ∷ xs) zero x (p, a) e = ground arith
le_of_get y (z ∷ xs) (suc i) x (p, a) e = le_of_get y xs i x a e

-- The element at index `i` of a sorted list has more than `i` elements at or below it.
lt-count_le : (xs : List ℕ) (i x : ℕ) → IsSorted xs → get_elem? xs i ≡ some x → i < count_le x xs
unfolding count_if
lt-count_le [] i x s e = ground arith
lt-count_le (y ∷ xs) zero x (a, s) e = ground arith
lt-count_le (y ∷ xs) (suc i) x (a, s) e =
    ground (arith, lt-count_le xs i x s e, le_of_get y xs i x a e)

-- ... and at most `i` below it.
count_lt-le : (xs : List ℕ) (i x : ℕ) → IsSorted xs → get_elem? xs i ≡ some x → count_lt x xs ≤ i
unfolding count_if
count_lt-le [] i x s e = ground arith
count_lt-le (y ∷ xs) zero x (a, s) e = ground (arith, count_if-ltb_of_All y xs a)
count_lt-le (y ∷ xs) (suc i) x (a, s) e = ground (arith, count_lt-le xs i x s e)

abbrev rank : ℕ → ℕ → ℕ
rank n p = min (n - 1) ((p * n + 99) / 100 - 1)

rank_reaches : (n p c : ℕ) → p ≤ 100 → 0 < n → rank n p < c → p * n ≤ 100 * c
rank_reaches n p c h k r = grind arith

rank_tight : (n p c : ℕ) → 0 < p → 0 < n → c ≤ rank n p → 100 * c < p * n
rank_tight n p c h k r = grind arith

rank_lt : (n p : ℕ) → 0 < n → rank n p < n
rank_lt n p h = omega arith

percent_bounds : (p : Level) → (0 < percent p) × (percent p ≤ 100)
percent_bounds p50 = (omega arith, omega arith)
percent_bounds p95 = (omega arith, omega arith)

sorted_percentile :
    (xs : List ℕ) (p : Level)
    → 0 < length xs
    → IsSorted xs
    → (x : ℕ) × (percentile xs p ≡ some x)
      × (percent p * length xs ≤ 100 * count_le x xs)
      × (100 * count_lt x xs < percent p * length xs)
unfolding percentile
sorted_percentile [] p n s = absurd (omega arith)
sorted_percentile (y ∷ ys) p n s =
    let l = length (y ∷ ys) in
    let r = rank l (percent p) in
    let (h, k) = percent_bounds p in
    let (x, e) = get_elem?-some_of_lt (y ∷ ys) r (rank_lt l (percent p) n) in
    (
      x,
      e,
      rank_reaches l (percent p) (count_le x (y ∷ ys)) k n (lt-count_le (y ∷ ys) r x s e),
      rank_tight l (percent p) (count_lt x (y ∷ ys)) h n (count_lt-le (y ∷ ys) r x s e),
    )

-- For p = 50 and p = 95, the p-th percentile of a non-empty list of durations, taken after sorting, is its
-- nearest-rank percentile: at least p % of the durations are at or below it, and fewer than p % are
-- strictly below it.
pub percentile-sort_nearest_rank :
    (ds : List ℕ) (p : Level)
    → 0 < length ds
    → (x : ℕ) × (percentile (sort ds) p ≡ some x)
      × (percent p * length ds ≤ 100 * count_le x ds)
      × (100 * count_lt x ds < percent p * length ds)
percentile-sort_nearest_rank ds p n =
    let (x, e, reaches, tight) =
      sorted_percentile (sort ds) p (rw length-sort n) (sort-IsSorted ds) in
    (
      x,
      e,
      rw (length-sort ds, count_if-sort (λ z. leb z x) ds) at reaches,
      rw (length-sort ds, count_if-sort (λ z. ltb z x) ds) at tight,
    )
