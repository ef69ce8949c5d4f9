-- ===== src/Server/Orderly.antt =====
-- The order of the shutdown of server/src/index.ts.
use mcp_zeromem.Common.{
  Bool, true, false, ◌≡◌, refl, ◌∙◌, arith, List, [], ◌∷◌, if_cases, if◌then◌else◌,
}
use mcp_zeromem.Config.{Config}
use mcp_zeromem.Worker as Worker
use mcp_zeromem.Worker.{Worker, Place, counting, embedding, yielding, sleeping, awake}
use mcp_zeromem.Worker.Steps as Steps
use mcp_zeromem.Worker.Steps.{
  Event, counted, embedded, rejected, immediate, timer, resumed, resume, advance, Reach,
}
use mcp_zeromem.Server as Server
use mcp_zeromem.Server.{
  Stage, serving, saying_goodbye, closing_http, stopping_worker, exited, Server, start_up,
  Happening, signal, goodbye, connections_closed, loop, kicked, loop_ended, happen, run, shutdown,
}

resume-stopped : (pl : Place) (e : Event) (w : Worker) → (resume pl e w).stopped ≡ w.stopped
unfolding advance
resume-stopped Worker.exited e w = refl
resume-stopped (counting n) (counted b) w = ground arith
resume-stopped (counting n) (rejected m) w = ground arith
resume-stopped (counting n) e w = refl
resume-stopped (embedding p) (embedded l) w = ground arith
resume-stopped (embedding p) (rejected m) w = ground arith
resume-stopped (embedding p) e w = refl
resume-stopped (yielding p) immediate w = ground arith
resume-stopped (yielding p) e w = refl
resume-stopped sleeping timer w = refl
resume-stopped sleeping e w = refl
resume-stopped awake resumed w = ground arith
resume-stopped awake e w = refl

advance-stopped : (e : Event) (w : Worker) → (advance e w).stopped ≡ w.stopped
unfolding advance
advance-stopped e w = resume-stopped w.place e w

kick-stopped : (w : Worker) → (Worker.kick w).stopped ≡ w.stopped
unfolding Worker.kick
kick-stopped w = ground arith

stop-stopped : (w : Worker) → (Worker.stop w).stopped ≡ true
unfolding Worker.stop
stop-stopped w = ground arith

-- What is known of the worker and the flag at a stage: the worker is stopped only after the HTTP server has closed,
-- and the process exits only after the worker's loop.
abbrev pub Fits : Bool → Stage → Bool → Worker → Type 0
Fits read_only serving flag w = (flag ≡ false) × (w.stopped ≡ read_only)
Fits read_only saying_goodbye flag w = (flag ≡ true) × (w.stopped ≡ read_only)
Fits read_only closing_http flag w = (flag ≡ true) × (w.stopped ≡ read_only)
Fits read_only stopping_worker flag w = (flag ≡ true) × (w.stopped ≡ true)
Fits read_only exited flag w = (flag ≡ true) × (w.stopped ≡ true) × (w.place ≡ Worker.exited)

abbrev pub IsOrderly : Bool → Server → Type 0
IsOrderly read_only s = Reach s.worker × Fits read_only s.stage s.shutting_down s.worker

ended_place : (pl : Place) → Server.has_ended pl ≡ true → pl ≡ Worker.exited
ended_place Worker.exited h = refl
ended_place (counting n) h = absurd (cc)
ended_place (embedding p) h = absurd (cc)
ended_place (yielding p) h = absurd (cc)
ended_place sleeping h = absurd (cc)
ended_place awake h = absurd (cc)

module _ (ro : Bool) where
  goodbye-IsOrderly :
      (st : Stage) (s : Server)
      → s.stage ≡ st
      → Reach s.worker
      → Fits ro st s.shutting_down s.worker
      → IsOrderly ro (Server.after_goodbye st s)
  goodbye-IsOrderly serving s q r f = (r, rw q f)
  goodbye-IsOrderly saying_goodbye s q r f = (r, f)
  goodbye-IsOrderly closing_http s q r f = (r, rw q f)
  goodbye-IsOrderly stopping_worker s q r f = (r, rw q f)
  goodbye-IsOrderly exited s q r f = (r, rw q f)

  close-IsOrderly :
      (st : Stage) (s : Server)
      → s.stage ≡ st
      → Reach s.worker
      → Fits ro st s.shutting_down s.worker
      → IsOrderly ro (Server.after_close st s)
  close-IsOrderly serving s q r f = (r, rw q f)
  close-IsOrderly saying_goodbye s q r f = (r, rw q f)
  close-IsOrderly closing_http s q r f =
      (Steps.next r (Steps.stopping s.worker), (f.0, stop-stopped s.worker))
  close-IsOrderly stopping_worker s q r f = (r, rw q f)
  close-IsOrderly exited s q r f = (r, rw q f)

  stop-IsOrderly :
      (st : Stage) (s : Server)
      → s.stage ≡ st
      → Reach s.worker
      → Fits ro st s.shutting_down s.worker
      → IsOrderly ro (Server.after_stop st s)
  stop-IsOrderly serving s q r f = (r, rw q f)
  stop-IsOrderly saying_goodbye s q r f = (r, rw q f)
  stop-IsOrderly closing_http s q r f = (r, rw q f)
  stop-IsOrderly stopping_worker s q r f =
      if_cases (IsOrderly ro) (Server.has_ended s.worker.place) _ _
        (λ e. (r, (f.0, f.1, ended_place s.worker.place e))) (λ e. (r, rw q f))
  stop-IsOrderly exited s q r f = (r, rw q f)

  kick-IsOrderly :
      (st : Stage) (s : Server)
      → s.stage ≡ st
      → Reach s.worker
      → Fits ro st s.shutting_down s.worker
      → IsOrderly ro (Server.after_kick st s)
  kick-IsOrderly serving s q r f =
      (Steps.next r (Steps.kicking s.worker), rw q (f.0, kick-stopped s.worker ∙ f.1))
  kick-IsOrderly saying_goodbye s q r f =
      (Steps.next r (Steps.kicking s.worker), rw q (f.0, kick-stopped s.worker ∙ f.1))
  kick-IsOrderly closing_http s q r f =
      (Steps.next r (Steps.kicking s.worker), rw q (f.0, kick-stopped s.worker ∙ f.1))
  kick-IsOrderly stopping_worker s q r f = (r, rw q f)
  kick-IsOrderly exited s q r f = (r, rw q f)

  loop-IsOrderly :
      (e : Event) (st : Stage) (s : Server)
      → s.stage ≡ st
      → Reach s.worker
      → Fits ro st s.shutting_down s.worker
      → IsOrderly ro (Server.after_loop st e s)
  loop-IsOrderly e serving s q r f =
      (Steps.next r (Steps.loop e s.worker), rw q (f.0, advance-stopped e s.worker ∙ f.1))
  loop-IsOrderly e saying_goodbye s q r f =
      (Steps.next r (Steps.loop e s.worker), rw q (f.0, advance-stopped e s.worker ∙ f.1))
  loop-IsOrderly e closing_http s q r f =
      (Steps.next r (Steps.loop e s.worker), rw q (f.0, advance-stopped e s.worker ∙ f.1))
  loop-IsOrderly e stopping_worker s q r f =
      (Steps.next r (Steps.loop e s.worker), rw q (f.0, advance-stopped e s.worker ∙ f.1))
  loop-IsOrderly e exited s q r f = (r, rw q f)

  shutdown-IsOrderly :
      (st : Stage) (s : Server)
      → s.stage ≡ st
      → Reach s.worker
      → Fits ro st s.shutting_down s.worker
      → IsOrderly ro (shutdown s)
  unfolding shutdown
  shutdown-IsOrderly serving s q r (g, f) =
      if_cases (IsOrderly ro) s.shutting_down _ _ (λ y. absurd (cc)) (λ n. (r, (refl, f)))
  shutdown-IsOrderly saying_goodbye s q r (g, f) =
      if_cases (IsOrderly ro) s.shutting_down _ _ (λ y. (r, rw q (g, f))) (λ n. absurd (cc))
  shutdown-IsOrderly closing_http s q r (g, f) =
      if_cases (IsOrderly ro) s.shutting_down _ _ (λ y. (r, rw q (g, f))) (λ n. absurd (cc))
  shutdown-IsOrderly stopping_worker s q r (g, f) =
      if_cases (IsOrderly ro) s.shutting_down _ _ (λ y. (r, rw q (g, f))) (λ n. absurd (cc))
  shutdown-IsOrderly exited s q r (g, f, x) =
      if_cases (IsOrderly ro) s.shutting_down _ _ (λ y. (r, rw q (g, f, x))) (λ n. absurd (cc))

  happen-IsOrderly : (h : Happening) (s : Server) → IsOrderly ro s → IsOrderly ro (happen h s)
  unfolding happen
  happen-IsOrderly signal s (r, f) = shutdown-IsOrderly s.stage s refl r f
  happen-IsOrderly (goodbye ok) s (r, f) = goodbye-IsOrderly s.stage s refl r f
  happen-IsOrderly connections_closed s (r, f) = close-IsOrderly s.stage s refl r f
  happen-IsOrderly (loop e) s (r, f) = loop-IsOrderly e s.stage s refl r f
  happen-IsOrderly kicked s (r, f) = kick-IsOrderly s.stage s refl r f
  happen-IsOrderly loop_ended s (r, f) = stop-IsOrderly s.stage s refl r f

  pub run-IsOrderly : (hs : List Happening) (s : Server) → IsOrderly ro s → IsOrderly ro (run hs s)
  unfolding run
  run-IsOrderly [] s k = k
  run-IsOrderly (h ∷ hs) s k = run-IsOrderly hs (happen h s) (happen-IsOrderly h s k)

start-stopped : (Worker.start Worker.create).stopped ≡ false
unfolding Worker.start Worker.create
start-stopped = refl

pub start_up-IsOrderly : (config : Config) → IsOrderly config.read_only (start_up config)
unfolding start_up Worker.create
start_up-IsOrderly config = begun config.read_only
  where
    begun :
        (b : Bool)
        → Reach (if b then Worker.create else Worker.start Worker.create)
          × ((false ≡ false)
              × ((if b then Worker.create else Worker.start Worker.create).stopped ≡ b))
    begun true = (Steps.here, (refl, refl))
    begun false = (Steps.next Steps.here (Steps.started Worker.create refl), (refl, start-stopped))

-- Whatever happens to a server that was started, in whatever order: until the HTTP server has closed, the worker is
-- stopped only if the server is read-only and it was never started; the process has exited only after a signal, with
-- the worker stopped and its loop at its end.
pub run_orderly :
    (config : Config) (hs : List Happening)
    → Fits config.read_only
        (run hs (start_up config)).stage
        (run hs (start_up config)).shutting_down
        (run hs (start_up config)).worker
run_orderly config hs =
    (run-IsOrderly config.read_only hs (start_up config) (start_up-IsOrderly config)).1
