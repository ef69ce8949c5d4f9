-- ===== src/Worker/Steps.antt =====
-- The runs of the worker of server/src/engine/embed-worker.ts: the loop's own steps, and calls of
-- the worker that may come between any two of them.
use mcp_zeromem.Common.{ℕ, String, false, ◌≡◌}
use mcp_zeromem.Worker.{
  Worker, Pass, Place, exited, counting, embedding, yielding, sleeping, awake, create, begin_pass,
  next_batch, after_batch, fail, start, kick, stop, register,
}

-- The promise that the loop awaits settles.
pub data Event : Type 0 where
  counted : ℕ → Event
  embedded : ℕ → Event
  rejected : String → Event
  immediate : Event
  timer : Event
  resumed : Event

abbrev first_pass : ℕ → ℕ → Pass
first_pass backlog started_at = record {
  before = backlog;
  stalled = 0;
  announced = false;
  started_at = started_at;
}

-- The loop goes on from where it is suspended; an event that it does not await changes nothing.
unfoldable pub resume : Place → Event → Worker → Worker
resume (counting started_at) (counted n) w = next_batch (first_pass n started_at) w
resume (counting started_at) (rejected m) w = fail m w
resume (embedding p) (embedded left) w = after_batch left p w
resume (embedding p) (rejected m) w = fail m w
resume (yielding p) immediate w = next_batch p w
resume sleeping timer w = record w { place = awake }
resume awake resumed w = begin_pass w
resume _ _ w = w

unfoldable pub advance : Event → Worker → Worker
unfolding resume begin_pass next_batch after_batch fail
advance e w = resume w.place e w

-- `start()` is taken only while no loop runs: the code calls it once.
pub data Step : Worker → Worker → Type 0 where
  loop : (e : Event) (w : Worker) → Step w (advance e w)
  started : (w : Worker) → w.place ≡ exited → Step w (start w)
  kicking : (w : Worker) → Step w (kick w)
  stopping : (w : Worker) → Step w (stop w)
  waiting : (id : ℕ) (w : Worker) → Step w (register id w)

pub data Reach : Worker → Type 0 where
  here : Reach create
  next : {v w : Worker} → Reach v → Step v w → Reach w

-- An invariant of every step holds of every reachable worker.
pub Reach_induction :
    (P : Worker → Type 0)
    → P create
    → ((v w : Worker) → P v → Step v w → P w)
    → (w : Worker) → Reach w
    → P w
Reach_induction P base keep w here = base
Reach_induction P base keep w (next {v} r s) = keep v w (Reach_induction P base keep v r) s
