-- ===== src/Worker/Kick.antt =====
-- `kick()` of server/src/engine/embed-worker.ts is never lost.
use mcp_zeromem.Common.{ℕ, Bool, true, false, ◌≡◌, ◌≢◌, refl, arith}
use mcp_zeromem.Worker.{
  Worker, Place, exited, counting, embedding, yielding, sleeping, awake, start, kick, stop,
  register,
}
use mcp_zeromem.Worker.Steps.{
  Event, counted, embedded, rejected, immediate, resumed, resume, advance, Step, loop, started,
  kicking, stopping, waiting, Reach,
}
use mcp_zeromem.Worker.Valid.{Fits, IsValid, Step-IsValid, Reach-IsValid}

abbrev pub is_counting : Place → Bool
is_counting (counting n) = true
is_counting _ = false

-- Steps from `v` on, none of which begins a pass.
pub data Until (v : Worker) : Worker → Type 0 where
  here : Until v v
  next : {u w : Worker} → Until v u → Step u w → is_counting w.place ≡ false → Until v w

-- The kick is remembered, or has ended the sleep already, or there is no loop to wake.
abbrev IsAlert : Place → Worker → Type 0
IsAlert exited w = Unit
IsAlert awake w = Unit
IsAlert sleeping w = ⊥
IsAlert _ w = w.kicked ≡ true

kick-IsAlert : (pl : Place) (w : Worker) → w.place ≡ pl → IsAlert (kick w).place (kick w)
unfolding kick
kick-IsAlert exited w q = rw q tt
kick-IsAlert (counting n) w q = rw q refl
kick-IsAlert (embedding p) w q = rw q refl
kick-IsAlert (yielding p) w q = rw q refl
kick-IsAlert sleeping w q = rw q tt
kick-IsAlert awake w q = rw q tt

resume-IsAlert :
    (pl : Place) (e : Event) (w : Worker)
    → w.place ≡ pl
    → is_counting (resume pl e w).place ≡ false
    → IsAlert pl w
    → IsAlert (resume pl e w).place (resume pl e w)
unfolding advance
resume-IsAlert exited e w q c a = rw q a
resume-IsAlert (counting n) (counted b) w q c a = ground arith
resume-IsAlert (counting n) (rejected m) w q c a = ground arith
resume-IsAlert (counting n) e w q c a = rw q a
resume-IsAlert (embedding p) (embedded l) w q c a = ground arith
resume-IsAlert (embedding p) (rejected m) w q c a = ground arith
resume-IsAlert (embedding p) e w q c a = rw q a
resume-IsAlert (yielding p) immediate w q c a = ground arith
resume-IsAlert (yielding p) e w q c a = rw q a
resume-IsAlert sleeping e w q c a = absurd a
resume-IsAlert awake resumed w q c a = ground arith
resume-IsAlert awake e w q c a = rw q a

register-IsAlert :
    (id : ℕ) (pl : Place) (w : Worker)
    → w.place ≡ pl
    → IsAlert pl w
    → IsAlert (register id w).place (register id w)
unfolding register
register-IsAlert id exited w q a = ground arith
register-IsAlert id (counting n) w q a = ground arith
register-IsAlert id (embedding p) w q a = ground arith
register-IsAlert id (yielding p) w q a = ground arith
register-IsAlert id sleeping w q a = absurd a
register-IsAlert id awake w q a = ground arith

stop-IsAlert : (w : Worker) → IsAlert (stop w).place (stop w)
unfolding stop
stop-IsAlert w = kick-IsAlert w.place (record w { stopped = true }) refl

start-IsAlert :
    (w : Worker)
    → w.place ≡ exited
    → w.stopped ≡ true
    → is_counting (start w).place ≡ false
    → IsAlert (start w).place (start w)
unfolding start
start-IsAlert w q s c = ground arith

Step-IsAlert :
    (v w : Worker)
    → IsValid v
    → IsAlert v.place v
    → Step v w
    → is_counting w.place ≡ false
    → IsAlert w.place w
unfolding advance
Step-IsAlert v w f a (loop e _) c = resume-IsAlert v.place e v refl c a
Step-IsAlert v w f a (started _ q) c =
    let fits : Fits exited v = rw q at f in start-IsAlert v q fits.0 c
Step-IsAlert v w f a (kicking _) c = kick-IsAlert v.place v refl
Step-IsAlert v w f a (stopping _) c = stop-IsAlert v
Step-IsAlert v w f a (waiting id _) c = register-IsAlert id v.place v refl a

Until-IsAlert :
    (v w : Worker) → IsValid v → IsAlert v.place v → Until v w → IsValid w × IsAlert w.place w
Until-IsAlert v w f a here = (f, a)
Until-IsAlert v w f a (next {u} r s c) =
    let (fu, au) = Until-IsAlert v u f a r in (Step-IsValid u w fu s, Step-IsAlert u w fu au s c)

awake_of : (pl : Place) (w : Worker) → IsAlert pl w → pl ≢ sleeping
awake_of exited w a = λ e. cc
awake_of (counting n) w a = λ e. cc
awake_of (embedding p) w a = λ e. cc
awake_of (yielding p) w a = λ e. cc
awake_of sleeping w a = absurd a
awake_of awake w a = λ e. cc

-- After a kick in any reachable state, whatever the loop was waiting for and whatever happens next,
-- the loop does not go to sleep until it has begun another pass: no kick is lost, also not one that
-- arrives while the loop is working.
pub kick_not_lost : (v w : Worker) → Reach v → Until (kick v) w → w.place ≢ sleeping
kick_not_lost v w r u =
    let f = Reach-IsValid v r in
    awake_of w.place w
      (Until-IsAlert (kick v) w (Step-IsValid v (kick v) f (kicking v))
        (kick-IsAlert v.place v refl) u).1
