-- ===== src/Worker/Passes.antt =====
-- A pass over the backlog in server/src/engine/embed-worker.ts: it ends, and it counts what it did.
use mcp_zeromem.Common.{
  ℕ, ◌+◌, ◌-◌, ◌*◌, ◌≤◌, ◌<◌, true, false, ◌≡◌, refl, List, [], ◌∷◌, arith, length, none,
}
use mcp_zeromem.Worker.{Worker, Pass, Place, exited, counting, embedding, yielding, sleeping, awake}
use mcp_zeromem.Worker.Steps.{Event, embedded, immediate, advance}
use mcp_zeromem.Worker.Release.{is_working, drive}

-- The engine answers each batch in turn with what is left, and the loop yields in between.
abbrev pub batches : List ℕ → List Event
batches [] = []
batches (left ∷ ls) = embedded left ∷ immediate ∷ batches ls

-- Readings none of which is above the one before, the first not above `b`.
abbrev pub IsFalling : ℕ → List ℕ → Type 0
IsFalling b [] = Unit
IsFalling b (left ∷ ls) = (left ≤ b) × IsFalling left ls

-- One batch and the yield after it: the pass is over, or goes on nearer to its end.
abbrev Next : ℕ → Pass → Place → Type 0
Next left p (embedding q) =
    (q.before ≡ left) × (q.stalled < 3) × (3 * left + 4 + p.stalled ≤ 3 * p.before + 3 + q.stalled)
Next left p pl = is_working pl ≡ false

batch-Next :
    (left : ℕ) (p : Pass) (w : Worker)
    → w.place ≡ embedding p
    → p.stalled < 3
    → left ≤ p.before
    → Next left p (advance immediate (advance (embedded left) w)).place
unfolding advance
batch-Next left p w q s l = rw q (ground arith)

-- Once a pass is over, further answers of the engine do not restart it.
resume-rest :
    (pl : Place) (left : ℕ) (w : Worker)
    → w.place ≡ pl
    → is_working pl ≡ false
    → is_working (advance immediate (advance (embedded left) w)).place ≡ false
unfolding advance
resume-rest exited left w q h = ground arith
resume-rest (counting n) left w q h = cc
resume-rest (embedding p) left w q h = cc
resume-rest (yielding p) left w q h = cc
resume-rest sleeping left w q h = ground arith
resume-rest awake left w q h = ground arith

drive-rest :
    (ls : List ℕ) (w : Worker)
    → is_working w.place ≡ false
    → is_working (drive (batches ls) w).place ≡ false
unfolding drive
drive-rest [] w h = h
drive-rest (left ∷ ls) w h = drive-rest ls _ (resume-rest w.place left w refl h)

pass-Next :
    (left : ℕ) (ls : List ℕ) (p : Pass) (v : Worker) (pl : Place)
    → v.place ≡ pl
    → Next left p pl
    → ((q : Pass)
        → v.place ≡ embedding q
        → q.before ≡ left
        → q.stalled < 3
        → 3 * left + 4 + p.stalled ≤ 3 * p.before + 3 + q.stalled
        → is_working (drive (batches ls) v).place ≡ false)
    → is_working (drive (batches ls) v).place ≡ false
pass-Next left ls p v (embedding q) e (b, s, m) more = more q e b s m
pass-Next left ls p v exited e n more = drive-rest ls v (rw e n)
pass-Next left ls p v (counting n') e n more = drive-rest ls v (rw e n)
pass-Next left ls p v (yielding q) e n more = drive-rest ls v (rw e n)
pass-Next left ls p v sleeping e n more = drive-rest ls v (rw e n)
pass-Next left ls p v awake e n more = drive-rest ls v (rw e n)

-- A pass ends: while the engine never reports a larger backlog than before, a pass with `before`
-- turns left and `stalled` readings without progress is over after at most
-- 3 * before + 3 - stalled batches, whatever the batches achieve.
pub pass_ends :
    (ls : List ℕ) (p : Pass) (w : Worker)
    → w.place ≡ embedding p
    → p.stalled < 3
    → IsFalling p.before ls
    → 3 * p.before + 3 ≤ length ls + p.stalled
    → is_working (drive (batches ls) w).place ≡ false
unfolding drive
pass_ends [] p w q s f n = absurd (omega arith)
pass_ends (left ∷ ls) p w q s (l, f) n =
    let v = advance immediate (advance (embedded left) w) in
    pass-Next left ls p v v.place refl (batch-Next left p w q s l)
      (λ p' e b s' m. pass_ends ls p' v e s' (rw b f) (omega arith))

-- A pass in which each batch makes progress and leaves something.
abbrev pub IsProgress : ℕ → List ℕ → Type 0
IsProgress b [] = Unit
IsProgress b (left ∷ ls) = (0 < left) × (left < b) × IsProgress left ls

abbrev pub last_or : ℕ → List ℕ → ℕ
last_or b [] = b
last_or b (left ∷ ls) = last_or left ls

batch_progress :
    (left : ℕ) (p : Pass) (w : Worker)
    → w.place ≡ embedding p
    → w.stopped ≡ false
    → 0 < left
    → left < p.before
    → let v = advance immediate (advance (embedded left) w) in
      (v.place ≡ embedding (record p { before = left; stalled = 0; announced = true }))
      × (v.stopped ≡ false)
      × (v.embedded ≡ w.embedded + (p.before - left))
      × (v.last_error ≡ none)
unfolding advance
batch_progress left p w q s h l = rw q (ground arith)

-- While batches make progress the worker counts exactly the turns by which the backlog fell, goes on
-- in the same pass with the last reading, and has no error to report after the first batch.
pub pass_counts :
    (left : ℕ) (ls : List ℕ) (p : Pass) (w : Worker)
    → w.place ≡ embedding p
    → w.stopped ≡ false
    → IsProgress p.before (left ∷ ls)
    → ((drive (batches (left ∷ ls)) w).embedded + last_or left ls ≡ w.embedded + p.before)
      × ((drive (batches (left ∷ ls)) w).last_error ≡ none)
      × (is_working (drive (batches (left ∷ ls)) w).place ≡ true)
unfolding drive
pass_counts left [] p w q s (h, l, more) =
    let (e, s', n, r) = batch_progress left p w q s h l in (omega arith, r, rw e refl)
pass_counts left (next ∷ ls) p w q s (h, l, more) =
    let (e, s', n, r) = batch_progress left p w q s h l in
    let (a, b, c) = pass_counts next ls _ _ e s' more in (omega arith, b, c)

-- Three readings in a row that do not fall end the pass, and two do not: a pass that has not
-- stalled yet goes on after two of them, and after the third it is over.
pub third_stall_ends :
    (l1 l2 l3 : ℕ) (p : Pass) (w : Worker)
    → w.place ≡ embedding p
    → w.stopped ≡ false
    → p.stalled ≡ 0
    → 0 < p.before
    → p.before ≤ l1
    → l1 ≤ l2
    → l2 ≤ l3
    → (is_working (drive (batches (l1 ∷ l2 ∷ [])) w).place ≡ true)
      × (is_working (drive (batches (l1 ∷ l2 ∷ l3 ∷ [])) w).place ≡ false)
unfolding drive advance
third_stall_ends l1 l2 l3 p w q s z b h1 h2 h3 = rw q (ground arith, ground arith)
