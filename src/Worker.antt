-- ===== src/Worker.antt =====
-- server/src/engine/embed-worker.ts: the loop that drains the embedding backlog. The code runs
-- from one `await` to the next without interruption; each function here is such a stretch, and
-- `step` gives what an event does to the loop as it is suspended. The engine's replies are carried
-- by the events. A log line keeps its kind and its count; the elapsed seconds are left out.
pub mod Steps
pub mod Valid
pub mod Kick
pub mod Release
pub mod Passes
mod Examples
use mcp_zeromem.Common.{
  ℕ, zero, suc, ◌+◌, ◌-◌, String, Bool, true, false, not, ◌&&◌, ◌||◌, Option, none, some, List, [],
  ◌∷◌, ◌++◌, ltb, ◌==◌, str_eq, if◌then◌else◌,
}

-- The variables of one turn of the outer loop.
pub record Pass : Type 0 where
  pub before : ℕ
  pub stalled : ℕ
  pub announced : Bool
  pub started_at : ℕ

-- Where the loop is suspended.
pub data Place : Type 0 where
  exited : Place
  counting : ℕ → Place  -- awaits `embeddingBacklog()`, with `startedAt`
  embedding : Pass → Place  -- awaits `embedBacklog()`
  yielding : Pass → Place  -- awaits `setImmediate`
  sleeping : Place  -- awaits the timer or `wake`
  awake : Place  -- a sleep that is over, about to test `stopped`

pub data Line : Type 0 where
  to_embed : ℕ → Line
  stalled_at : ℕ → Line
  drained_done : ℕ → Line
  paused : String → Line

pub record Worker : Type 0 where
  pub stopped : Bool
  pub kicked : Bool
  pub embedded : ℕ
  pub last_error : Option String
  pub draining : Bool
  pub waiters : List ℕ
  pub lines : List Line
  pub place : Place

unfoldable pub create : Worker
create = record {
  stopped = true;
  kicked = false;
  embedded = 0;
  last_error = none;
  draining = false;
  waiters = [];
  lines = [];
  place = exited;
}

abbrev pub log : Line → Worker → Worker
log l w = record w { lines = w.lines ++ l ∷ [] }

-- `settle()` releases everyone.
abbrev pub settle : Worker → Worker
settle w = record w { waiters = [] }

-- `this.wake` is set exactly while the loop is asleep, so `place` stands for it.
unfoldable pub sleep : Worker → Worker
sleep w =
    if w.stopped || w.kicked
    then record w { kicked = false; place = awake }
    else record w { place = sleeping }

-- The head of `while (!this.stopped)`.
unfoldable pub begin_pass : Worker → Worker
begin_pass w =
    if w.stopped
    then settle (record w { place = exited })
    else record w { place = counting w.embedded }

-- What follows the inner loop.
unfoldable pub end_pass : Pass → Worker → Worker
unfolding sleep
end_pass p w =
    let quiet = record w { draining = false } in
    let told =
      if p.announced then log (drained_done (w.embedded - p.started_at)) quiet else quiet in
    sleep (settle told)

-- The head of the inner loop, up to the call of `embedBacklog`.
unfoldable pub next_batch : Pass → Worker → Worker
unfolding end_pass
next_batch p w =
    if not w.stopped && ltb 0 p.before
    then (let told = if p.announced then w else log (to_embed p.before) w in
        record told { draining = true; place = embedding (record p { announced = true }) })
    else end_pass p w

-- `stalled = left < before ? 0 : stalled + 1`
abbrev pub stall : ℕ → Pass → ℕ
stall left p = if ltb left p.before then 0 else p.stalled + 1

unfoldable pub after_batch : ℕ → Pass → Worker → Worker
unfolding end_pass
after_batch left p w =
    let counted = record w { embedded = w.embedded + (p.before - left) } in
    let n = stall left p in
    if n == 3
    then end_pass (record p { stalled = n }) (log (stalled_at left) counted)
    else record counted {
      last_error = none;
      place = yielding (record p { stalled = n; before = left });
    }

abbrev pub same_message : String → Option String → Bool
same_message m none = false
same_message m (some e) = str_eq m e

-- The `catch`.
unfoldable pub fail : String → Worker → Worker
unfolding sleep
fail message w =
    let told = if same_message message w.last_error then w else log (paused message) w in
    sleep (settle (record told { draining = false; last_error = some message }))

unfoldable pub start : Worker → Worker
unfolding begin_pass
start w = if w.stopped then begin_pass (record w { stopped = false }) else w

abbrev pub is_sleeping : Place → Bool
is_sleeping sleeping = true
is_sleeping _ = false

unfoldable pub kick : Worker → Worker
kick w = if is_sleeping w.place then record w { place = awake } else record w { kicked = true }

-- `stop()` up to its `await this.loop`.
unfoldable pub stop : Worker → Worker
unfolding kick
stop w = kick (record w { stopped = true })

-- A turn of `drained()`: the waiter registers, unless the worker has stopped.
unfoldable pub register : ℕ → Worker → Worker
register id w = if w.stopped then w else record w { waiters = w.waiters ++ id ∷ [] }

-- What `drained()` decides once the backlog has been read.
unfoldable pub is_drained : ℕ → Worker → Bool
is_drained backlog w = not w.draining && backlog == 0

pub record EmbedWorkerStatus : Type 0 where
  pub running : Bool
  pub embedded : ℕ
  pub last_error : Option String

unfoldable pub status : Worker → EmbedWorkerStatus
status w = record {
  running = not w.stopped && w.draining;
  embedded = w.embedded;
  last_error = w.last_error;
}
