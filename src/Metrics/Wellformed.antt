-- ===== src/Metrics/Wellformed.antt =====
-- Bounds that hold of the counters of server/src/metrics.ts whatever is recorded.
use mcp_zeromem.Common.{
  ℕ, zero, suc, ◌+◌, ◌-◌, ◌*◌, ◌%◌, ◌≤◌, min, max, ◌≡◌, List, [], ◌∷◌, ◌++◌, arith, none, some,
  Option, ltb, length, length-append, length-set, set, All, All-append, Option-cases, Bool-cases,
  inl, inr,
}
use mcp_zeromem.Metrics.{
  MinuteBucket, Table, Metrics, reservoir_size, series_minutes, minute_ms, minute_of, oldest, find,
  prune, fresh, open_bucket, modify, in_bucket, create, record_recall, count_recall, count_error,
  count_ingest, raise_max,
}
use mathlib.Core.Path.{subst}
use mcp_zeromem.Metrics.Series.{Event, recalled, failed, ingested, apply, run}

-- Keys from `lo` on, each at least a minute after the one before.
abbrev pub IsAscending : ℕ → Table → Type 0
IsAscending lo [] = Unit
IsAscending lo ((k, b) ∷ t) = (lo ≤ k) × IsAscending (k + minute_ms) t

-- Every key is the start of a minute, and none is later than `c`.
abbrev pub KeysUpTo : ℕ → Table → Type 0
KeysUpTo c t = All (λ e. (e.0 % minute_ms ≡ 0) × (e.0 ≤ c)) t

abbrev pub IsWindow : ℕ → Table → Type 0
IsWindow c t = IsAscending (oldest c) t × KeysUpTo c t

IsAscending-weaken : (a b : ℕ) (t : Table) → a ≤ b → IsAscending b t → IsAscending a t
IsAscending-weaken a b [] h s = tt
IsAscending-weaken a b ((k, v) ∷ t) h (l, s) = (omega arith, s)

IsAscending-prune :
    (lo c : ℕ) (t : Table) → IsAscending lo t → IsAscending (max lo (oldest c)) (prune c t)
unfolding prune
IsAscending-prune lo c [] s = tt
IsAscending-prune lo c ((k, b) ∷ t) (l, s) = ground (
  arith,
  IsAscending-weaken (k + minute_ms) (max (k + minute_ms) (oldest c)) (prune c t) (omega arith)
      (IsAscending-prune (k + minute_ms) c t s),
  IsAscending-weaken (max lo (oldest c)) (max (k + minute_ms) (oldest c)) (prune c t) (omega arith)
      (IsAscending-prune (k + minute_ms) c t s),
)

IsAscending-append :
    (lo c : ℕ) (b : MinuteBucket) (t : Table)
    → lo ≤ c
    → IsAscending lo t
    → All (λ e. e.0 + minute_ms ≤ c) t
    → IsAscending lo (t ++ (c, b) ∷ [])
IsAscending-append lo c b [] h s a = (h, tt)
IsAscending-append lo c b ((k, v) ∷ t) h (l, s) (p, a) =
    (l, IsAscending-append (k + minute_ms) c b t p s a)

-- With keys at most `c` and no key `d`, where `c ≤ d`, every key is a minute before `d`.
keys_before :
    (c d : ℕ) (t : Table)
    → c ≤ d
    → d % minute_ms ≡ 0
    → find d t ≡ none
    → KeysUpTo c t
    → All (λ e. e.0 + minute_ms ≤ d) t
unfolding find
keys_before c d [] h m n a = tt
keys_before c d ((k, b) ∷ t) h m n ((p, q), a) = ground (arith, keys_before c d t h m)

KeysUpTo-mono : (c d : ℕ) (t : Table) → c ≤ d → KeysUpTo c t → KeysUpTo d t
KeysUpTo-mono c d [] h a = tt
KeysUpTo-mono c d (e ∷ t) h ((p, q), a) = ((p, omega arith), KeysUpTo-mono c d t h a)

KeysUpTo-prune : (c d : ℕ) (t : Table) → KeysUpTo c t → KeysUpTo c (prune d t)
unfolding prune
KeysUpTo-prune c d [] a = tt
KeysUpTo-prune c d (e ∷ t) (p, a) = ground (arith, KeysUpTo-prune c d t a)

-- Appending the current minute and pruning to its hour restores the window.
append-IsWindow :
    (c d : ℕ) (b : MinuteBucket) (t : Table)
    → c ≤ d
    → d % minute_ms ≡ 0
    → find d t ≡ none
    → IsWindow c t
    → IsWindow d (prune d (t ++ (d, b) ∷ []))
append-IsWindow c d b t h m n (s, a) =
    let grown = t ++ (d, b) ∷ [] in
    let ascending : IsAscending (oldest c) grown =
      IsAscending-append (oldest c) d b t (omega arith) s (keys_before c d t h m n a) in
    (
      IsAscending-weaken (oldest d) (max (oldest c) (oldest d)) (prune d grown) (omega arith)
          (IsAscending-prune (oldest c) d grown ascending),
      KeysUpTo-prune d d grown
          (All-append _ t ((d, b) ∷ []) (KeysUpTo-mono c d t h a) ((m, omega arith), tt)),
    )

key_found : (c d : ℕ) (t : Table) (b : MinuteBucket) → find d t ≡ some b → KeysUpTo c t → d ≤ c
unfolding find
key_found c d [] b e a = ground arith
key_found c d ((k, v) ∷ t) b e ((p, q), a) = ground (arith, key_found c d t b)

open_bucket-IsWindow :
    (c now : ℕ) (t : Table)
    → c ≤ minute_of now
    → IsWindow c t
    → IsWindow (minute_of now) (open_bucket now t)
unfolding open_bucket
open_bucket-IsWindow c now t h w = elim (Option-cases (find (minute_of now) t)) [
  | inl e ↦
      rw (e, open_bucket)
        (append-IsWindow c (minute_of now) (fresh (minute_of now)) t h (omega arith) e w)
  | inr (b, e) ↦
      let same : c ≡ minute_of now = omega (arith, key_found c (minute_of now) t b e w.1) in
      rw (e, open_bucket) (subst (λ d. IsWindow d t) same w)
]

modify-IsAscending :
    (lo k : ℕ) (f : MinuteBucket → MinuteBucket) (t : Table)
    → IsAscending lo t
    → IsAscending lo (modify k f t)
unfolding modify
modify-IsAscending lo k f [] s = tt
modify-IsAscending lo k f ((j, b) ∷ t) (l, s) =
    ground (arith, modify-IsAscending (j + minute_ms) k f t s)

modify-KeysUpTo :
    (c k : ℕ) (f : MinuteBucket → MinuteBucket) (t : Table)
    → KeysUpTo c t
    → KeysUpTo c (modify k f t)
unfolding modify
modify-KeysUpTo c k f [] a = tt
modify-KeysUpTo c k f ((j, b) ∷ t) (p, a) = ground (arith, modify-KeysUpTo c k f t a)

in_bucket-IsWindow :
    (c now : ℕ) (f : MinuteBucket → MinuteBucket) (t : Table)
    → c ≤ minute_of now
    → IsWindow c t
    → IsWindow (minute_of now) (in_bucket now f t)
unfolding in_bucket
in_bucket-IsWindow c now f t h w =
    let (s, a) = open_bucket-IsWindow c now t h w in
    (
      modify-IsAscending (oldest (minute_of now)) (minute_of now) f (open_bucket now t) s,
      modify-KeysUpTo (minute_of now) (minute_of now) f (open_bucket now t) a,
    )

-- A window of an hour has room for sixty minutes.
length-window :
    (lo c : ℕ) (t : Table)
    → IsAscending lo t
    → KeysUpTo c t
    → length t * minute_ms ≤ c + minute_ms - lo
length-window lo c [] s a = omega arith
length-window lo c ((k, b) ∷ t) (l, s) ((p, q), a) =
    omega (arith, length-window (k + minute_ms) c t s a)

-- The largest duration so far bounds what the reservoir holds.
abbrev pub AtMost : Option ℕ → ℕ → Type 0
AtMost none d = ⊥
AtMost (some top) d = d ≤ top

AtMost-raise : (o : Option ℕ) (ms d : ℕ) → AtMost o d → AtMost (some (raise_max o ms)) d
AtMost-raise none ms d h = absurd h
AtMost-raise (some old) ms d h = omega arith

All-AtMost-raise :
    (o : Option ℕ) (ms : ℕ) (xs : List ℕ)
    → All (AtMost o) xs
    → All (AtMost (some (raise_max o ms))) xs
All-AtMost-raise o ms [] a = tt
All-AtMost-raise o ms (x ∷ xs) (p, a) = (AtMost-raise o ms x p, All-AtMost-raise o ms xs a)

All-set : (P : ℕ → Type 0) (xs : List ℕ) (i v : ℕ) → All P xs → P v → All P (set xs i v)
All-set P [] i v a p = tt
All-set P (x ∷ xs) zero v (q, a) p = (p, a)
All-set P (x ∷ xs) (suc i) v (q, a) p = (q, All-set P xs i v a p)

-- What holds of the counters between two calls, `c` being the minute of the last one.
pub record IsValid (c : ℕ) (m : Metrics) : Type 0 where
  pub window : IsWindow c m.buckets
  pub filled : length m.reservoir ≡ min m.recall_count reservoir_size
  pub capped : All (AtMost m.max_ms) m.reservoir

le-raise_max : (o : Option ℕ) (ms : ℕ) → ms ≤ raise_max o ms
le-raise_max none ms = omega arith
le-raise_max (some old) ms = omega arith

record_recall-IsValid :
    (c now ms slot : ℕ) (m : Metrics)
    → c ≤ minute_of now
    → IsValid c m
    → IsValid (minute_of now) (record_recall now ms slot m)
unfolding record_recall
record_recall-IsValid c now ms slot m h v =
    let raised = All-AtMost-raise m.max_ms ms m.reservoir v.capped in
    let top : AtMost (some (raise_max m.max_ms ms)) ms = le-raise_max m.max_ms ms in
    record {
      window = in_bucket-IsWindow c now (count_recall ms) m.buckets h v.window;
      filled =
          ground
            (arith, v.filled, length-append m.reservoir (ms ∷ []), length-set m.reservoir slot ms);
      capped = elim (Bool-cases (ltb (length m.reservoir) reservoir_size)) [
        | inl e ↦ rw e (
            All-append (AtMost (some (raise_max m.max_ms ms))) m.reservoir (ms ∷ []) raised
              (top, tt))
        | inr e ↦
            rw e (All-set (AtMost (some (raise_max m.max_ms ms))) m.reservoir slot ms raised top)
      ];
    }

-- Each call of the counters keeps them valid, if the clock does not go back past the last call.
apply-IsValid :
    (c now : ℕ) (e : Event) (m : Metrics)
    → c ≤ minute_of now
    → IsValid c m
    → IsValid (minute_of now) (apply now e m)
unfolding apply
apply-IsValid c now (recalled ms slot) m h v = record_recall-IsValid c now ms slot m h v
apply-IsValid c now failed m h v = record {
  window = in_bucket-IsWindow c now count_error m.buckets h v.window;
  filled = v.filled;
  capped = v.capped;
}
apply-IsValid c now (ingested turns) m h v = record {
  window = in_bucket-IsWindow c now (count_ingest turns) m.buckets h v.window;
  filled = v.filled;
  capped = v.capped;
}

-- Times that never fall below one another, the first not below `t`.
abbrev pub IsMonotone : ℕ → List (ℕ × Event) → Type 0
IsMonotone t [] = Unit
IsMonotone t ((now, e) ∷ log) = (t ≤ now) × IsMonotone now log

abbrev last_time : ℕ → List (ℕ × Event) → ℕ
last_time t [] = t
last_time t ((now, e) ∷ log) = last_time now log

run-IsValid :
    (t : ℕ) (log : List (ℕ × Event)) (m : Metrics)
    → IsMonotone t log
    → IsValid (minute_of t) m
    → IsValid (minute_of (last_time t log)) (run m log)
unfolding run
run-IsValid t [] m h v = v
run-IsValid t ((now, e) ∷ log) m (p, h) v =
    run-IsValid now log (apply now e m) h (apply-IsValid (minute_of t) now e m (omega arith) v)

create-IsValid : (t : ℕ) → IsValid (minute_of t) (create t)
unfolding create
create-IsValid t = record { window = (tt, tt); filled = omega arith; capped = tt }

length-buckets-le : (c : ℕ) (m : Metrics) → IsValid c m → length m.buckets ≤ series_minutes
length-buckets-le c m v = omega (arith, length-window (oldest c) c m.buckets v.window.0 v.window.1)

-- Whatever is recorded, by a clock that does not go back, the counters stay bounded: the table never
-- holds more than sixty buckets, the reservoir holds min(recalls, 2000) durations, and no duration
-- in it exceeds the recorded maximum.
pub run_bounded :
    (t0 : ℕ) (log : List (ℕ × Event))
    → IsMonotone t0 log
    → (length (run (create t0) log).buckets ≤ series_minutes)
      × (length (run (create t0) log).reservoir
          ≡ min (run (create t0) log).recall_count reservoir_size)
      × All (AtMost (run (create t0) log).max_ms) (run (create t0) log).reservoir
run_bounded t0 log h =
    let v = run-IsValid t0 log (create t0) h (create-IsValid t0) in
    (length-buckets-le (minute_of (last_time t0 log)) (run (create t0) log) v, v.filled, v.capped)
