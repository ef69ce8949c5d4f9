-- ===== src/Worker/Release.antt =====
-- Who waits on the worker of server/src/engine/embed-worker.ts is released, and `stop()` ends the
-- loop.
use mcp_zeromem.Common.{
  ℕ, ◌+◌, ◌≤◌, Bool, true, false, ◌≡◌, ◌≢◌, ◌<◌, ◌⊎◌, inl, inr, Bool-cases, ltb, refl, List, [],
  ◌∷◌, arith, length,
}
use mcp_zeromem.Worker.{Worker, Place, exited, counting, embedding, yielding, sleeping, awake, stop}
use mcp_zeromem.Worker.Steps.{
  Event, counted, embedded, rejected, immediate, timer, resumed, resume, advance, loop, stopping,
  Reach,
}
use mcp_zeromem.Worker.Valid.{Fits, IsValid, Step-IsValid, Reach-IsValid}

abbrev pub is_working : Place → Bool
is_working (counting n) = true
is_working (embedding p) = true
is_working (yielding p) = true
is_working _ = false

resume-releases :
    (pl : Place) (e : Event) (w : Worker)
    → w.place ≡ pl
    → is_working pl ≡ true
    → is_working (resume pl e w).place ≡ false
    → ((resume pl e w).waiters ≡ []) × ((resume pl e w).draining ≡ false)
unfolding advance
resume-releases exited e w q h k = cc
resume-releases sleeping e w q h k = cc
resume-releases awake e w q h k = cc
resume-releases (counting n) (counted b) w q h k = ground arith
resume-releases (counting n) (rejected m) w q h k = ground arith
resume-releases (counting n) e w q h k = absurd (cc (q, k))
resume-releases (embedding p) (embedded l) w q h k = ground arith
resume-releases (embedding p) (rejected m) w q h k = ground arith
resume-releases (embedding p) e w q h k = ground arith
resume-releases (yielding p) immediate w q h k = ground arith
resume-releases (yielding p) e w q h k = ground arith

-- However a pass ends, by an empty backlog, a stall, a stop or an error, the end of the pass
-- releases every waiter and the worker no longer reports that it is draining.
pub pass_end-releases :
    (e : Event) (w : Worker)
    → is_working w.place ≡ true
    → is_working (advance e w).place ≡ false
    → ((advance e w).waiters ≡ []) × ((advance e w).draining ≡ false)
unfolding advance
pass_end-releases e w h k = resume-releases w.place e w refl h k

-- The events that the loop can be waiting for at a place.
abbrev pub awaits : Place → Event → Bool
awaits (counting n) (counted b) = true
awaits (counting n) (rejected m) = true
awaits (embedding p) (embedded l) = true
awaits (embedding p) (rejected m) = true
awaits (yielding p) immediate = true
awaits sleeping timer = true
awaits awake resumed = true
awaits _ _ = false

abbrev pub Answers : Worker → List Event → Type 0
Answers w [] = Unit
Answers w (e ∷ es) = (awaits w.place e ≡ true) × Answers (advance e w) es

unfoldable pub drive : List Event → Worker → Worker
drive [] w = w
drive (e ∷ es) w = drive es (advance e w)

-- How many answers a stopped loop still needs.
abbrev steps_left : Place → ℕ
steps_left exited = 0
steps_left awake = 1
steps_left (counting n) = 2
steps_left (yielding p) = 2
steps_left (embedding p) = 3
steps_left sleeping = 4

abbrev IsCloser : ℕ → Worker → Type 0
IsCloser n w = (w.stopped ≡ true) × (steps_left w.place + 1 ≤ n)

resume-IsCloser :
    (pl : Place) (e : Event) (w : Worker)
    → w.place ≡ pl
    → w.stopped ≡ true
    → Fits pl w
    → awaits pl e ≡ true
    → IsCloser (steps_left pl) (resume pl e w)
unfolding advance
resume-IsCloser exited e w q s f a = cc
resume-IsCloser (counting n) (counted b) w q s f a = ground arith
resume-IsCloser (counting n) (rejected m) w q s f a = ground arith
resume-IsCloser (counting n) e w q s f a = cc
resume-IsCloser (embedding p) (embedded l) w q s f a = ground arith
resume-IsCloser (embedding p) (rejected m) w q s f a = ground arith
resume-IsCloser (embedding p) e w q s f a = cc
resume-IsCloser (yielding p) immediate w q s f a = ground arith
resume-IsCloser (yielding p) e w q s f a = cc
resume-IsCloser sleeping e w q s f a = cc (f.0)
resume-IsCloser awake resumed w q s f a = ground arith
resume-IsCloser awake e w q s f a = cc

drive_closer :
    (es : List Event) (w : Worker)
    → w.stopped ≡ true
    → IsValid w
    → Answers w es
    → ((drive es w).stopped ≡ true)
      × IsValid (drive es w)
      × (steps_left (drive es w).place + length es ≤ steps_left w.place)
unfolding drive
drive_closer [] w s f a = (s, f, omega arith)
drive_closer (e ∷ es) w s f (a, later) =
    let (s', c) = resume-IsCloser w.place e w refl s f a in
    let f' : IsValid (advance e w) = Step-IsValid w (advance e w) f (loop e w) in
    let (t, g, l) = drive_closer es (advance e w) (advanced_stopped e w s') f' later in
    (t, g, omega (arith, advanced_closer e w (s', c)))
  where
    advanced_stopped :
        (e : Event) (w : Worker)
        → (resume w.place e w).stopped ≡ true
        → (advance e w).stopped ≡ true
    advanced_stopped e w h = unfold advance in h

    advanced_closer :
        (e : Event) (w : Worker)
        → IsCloser (steps_left w.place) (resume w.place e w)
        → steps_left (advance e w).place + 1 ≤ steps_left w.place
    advanced_closer e w h = unfold advance in h.1

stop_steps :
    (pl : Place) (w : Worker)
    → w.place ≡ pl
    → ((stop w).stopped ≡ true) × (steps_left (stop w).place ≤ 3)
unfolding stop
stop_steps exited w q = rw q (refl, omega arith)
stop_steps (counting n) w q = rw q (refl, omega arith)
stop_steps (embedding p) w q = rw q (refl, omega arith)
stop_steps (yielding p) w q = rw q (refl, omega arith)
stop_steps sleeping w q = rw q (refl, omega arith)
stop_steps awake w q = rw q (refl, omega arith)

exited_of_steps : (pl : Place) → steps_left pl ≤ 0 → pl ≡ exited
exited_of_steps exited h = refl
exited_of_steps (counting n) h = absurd (omega arith)
exited_of_steps (embedding p) h = absurd (omega arith)
exited_of_steps (yielding p) h = absurd (omega arith)
exited_of_steps sleeping h = absurd (omega arith)
exited_of_steps awake h = absurd (omega arith)

awake_of_steps : (pl : Place) → steps_left pl ≤ 3 → pl ≢ sleeping
awake_of_steps exited h = λ e. cc
awake_of_steps (counting n) h = λ e. cc
awake_of_steps (embedding p) h = λ e. cc
awake_of_steps (yielding p) h = λ e. cc
awake_of_steps sleeping h = absurd (omega arith)
awake_of_steps awake h = λ e. cc

has_exited : (pl : Place) → (pl ≡ exited) ⊎ (pl ≢ exited)
has_exited exited = inl refl
has_exited (counting n) = inr (λ e. cc)
has_exited (embedding p) = inr (λ e. cc)
has_exited (yielding p) = inr (λ e. cc)
has_exited sleeping = inr (λ e. cc)
has_exited awake = inr (λ e. cc)

-- After `stop()` in any reachable state, the loop takes at most three more answers, whatever they
-- say, and never waits for the timer; until it has taken three it may still be at work, but else it has exited,
-- and every waiter has been released.
pub stop_exits :
    (w : Worker) (es : List Event)
    → Reach w
    → Answers (stop w) es
    → (length es ≤ 3)
      × ((drive es (stop w)).place ≢ sleeping)
      × (((drive es (stop w)).place ≢ exited) × (length es < 3)
          ⊎ ((drive es (stop w)).place ≡ exited) × ((drive es (stop w)).waiters ≡ []))
stop_exits w es r a =
    let (s, k) = stop_steps w.place w refl in
    let (t, g, l) =
      drive_closer es (stop w) s (Step-IsValid w (stop w) (Reach-IsValid w r) (stopping w)) a in
    (
      omega arith,
      awake_of_steps (drive es (stop w)).place (omega arith),
      elim (has_exited (drive es (stop w)).place) [
        | inl done ↦ inr (done, released (drive es (stop w)) done g)
        | inr more ↦ inl (more, fewer more l k)
      ],
    )
  where
    fewer :
        (drive es (stop w)).place ≢ exited
        → steps_left (drive es (stop w)).place + length es ≤ steps_left (stop w).place
        → steps_left (stop w).place ≤ 3
        → length es < 3
    fewer more l k = elim (Bool-cases (ltb (length es) 3)) [
      | inl yes_ ↦ ground arith
      | inr no_ ↦
          let none_left : steps_left (drive es (stop w)).place ≤ 0 = ground arith in
          absurd (more (exited_of_steps (drive es (stop w)).place none_left))
    ]

    released : (v : Worker) → v.place ≡ exited → IsValid v → v.waiters ≡ []
    released v q f = let fits : Fits exited v = rw q at f in fits.1
