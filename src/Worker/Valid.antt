-- ===== src/Worker/Valid.antt =====
-- What holds of the worker of server/src/engine/embed-worker.ts at each place of its loop.
use mcp_zeromem.Common.{ℕ, ◌≤◌, ◌<◌, true, false, ◌≡◌, refl, [], arith}
use mcp_zeromem.Worker.{
  Worker, Place, exited, counting, embedding, yielding, sleeping, awake, create, start, kick, stop,
  register,
}
use mcp_zeromem.Worker.Steps.{
  Event, counted, embedded, rejected, immediate, timer, resumed, resume, advance, Step, loop,
  started, kicking, stopping, waiting, Reach, Reach_induction,
}

-- A batch is only asked for while there is a backlog; a loop at rest reports no draining; an exited
-- loop was stopped and has released everyone; a sleeping one has neither a kick nor a stop pending.
abbrev pub Fits : Place → Worker → Type 0
Fits exited w = (w.stopped ≡ true) × (w.waiters ≡ []) × (w.draining ≡ false)
Fits (counting n) w = (w.draining ≡ false) × (n ≤ w.embedded)
Fits (embedding p) w =
    (w.draining ≡ true)
    × (p.stalled < 3)
    × (0 < p.before)
    × (p.announced ≡ true)
    × (p.started_at ≤ w.embedded)
Fits (yielding p) w =
    (w.draining ≡ true) × (p.stalled < 3) × (p.announced ≡ true) × (p.started_at ≤ w.embedded)
Fits sleeping w = (w.stopped ≡ false) × (w.kicked ≡ false) × (w.draining ≡ false)
Fits awake w = w.draining ≡ false

abbrev pub IsValid : Worker → Type 0
IsValid w = Fits w.place w

resume-IsValid :
    (pl : Place) (e : Event) (w : Worker) → w.place ≡ pl → Fits pl w → IsValid (resume pl e w)
unfolding advance
resume-IsValid exited e w q f = rw q f
resume-IsValid (counting n) (counted b) w q f = ground arith
resume-IsValid (counting n) (rejected m) w q f = ground arith
resume-IsValid (counting n) e w q f = rw q f
resume-IsValid (embedding p) (embedded l) w q f = ground arith
resume-IsValid (embedding p) (rejected m) w q f = ground arith
resume-IsValid (embedding p) e w q f = rw q f
resume-IsValid (yielding p) immediate w q f = ground arith
resume-IsValid (yielding p) e w q f = rw q f
resume-IsValid sleeping timer w q f = f.2
resume-IsValid sleeping e w q f = rw q f
resume-IsValid awake resumed w q f = ground arith
resume-IsValid awake e w q f = rw q f

kick-IsValid : (pl : Place) (w : Worker) → w.place ≡ pl → Fits pl w → IsValid (kick w)
unfolding kick
kick-IsValid exited w q f = rw q f
kick-IsValid (counting n) w q f = rw q f
kick-IsValid (embedding p) w q f = rw q f
kick-IsValid (yielding p) w q f = rw q f
kick-IsValid sleeping w q f = rw q f.2
kick-IsValid awake w q f = rw q f

stop-IsValid : (pl : Place) (w : Worker) → w.place ≡ pl → Fits pl w → IsValid (stop w)
unfolding stop
stop-IsValid exited w q f = rw q (refl, f.1, f.2)
stop-IsValid (counting n) w q f = rw q f
stop-IsValid (embedding p) w q f = rw q f
stop-IsValid (yielding p) w q f = rw q f
stop-IsValid sleeping w q f = rw q f.2
stop-IsValid awake w q f = rw q f

register-IsValid :
    (id : ℕ) (pl : Place) (w : Worker) → w.place ≡ pl → Fits pl w → IsValid (register id w)
unfolding register
register-IsValid id exited w q f = ground arith
register-IsValid id (counting n) w q f = ground arith
register-IsValid id (embedding p) w q f = ground arith
register-IsValid id (yielding p) w q f = ground arith
register-IsValid id sleeping w q f = ground arith
register-IsValid id awake w q f = ground arith

start-IsValid : (w : Worker) → w.place ≡ exited → Fits exited w → IsValid (start w)
unfolding start
start-IsValid w q f = ground arith

pub Step-IsValid : (v w : Worker) → IsValid v → Step v w → IsValid w
unfolding advance
Step-IsValid v w f (loop e _) = resume-IsValid v.place e v refl f
Step-IsValid v w f (started _ q) = start-IsValid v q (rw q at f)
Step-IsValid v w f (kicking _) = kick-IsValid v.place v refl f
Step-IsValid v w f (stopping _) = stop-IsValid v.place v refl f
Step-IsValid v w f (waiting id _) = register-IsValid id v.place v refl f

create-IsValid : IsValid create
unfolding create
create-IsValid = (refl, refl, refl)

-- In every reachable state: a sleeping loop has no kick and no stop pending and reports no draining;
-- a batch is only asked for with a backlog above zero, fewer than three stalled readings and the
-- backlog announced; a loop that has exited was stopped and has released every waiter.
pub Reach-IsValid : (w : Worker) → Reach w → IsValid w
Reach-IsValid w r = Reach_induction IsValid create-IsValid Step-IsValid w r
