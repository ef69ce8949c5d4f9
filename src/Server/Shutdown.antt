-- ===== src/Server/Shutdown.antt =====
-- That the shutdown of server/src/index.ts ends the process.
use mcp_zeromem.Common.{
  ◌≤◌, Bool, true, false, ◌≡◌, refl, ap, ◌∙◌, ◌⊎◌, inl, inr, ◌<◌, ◌≢◌, if◌then◌else◌, List, [], ◌∷◌,
  ◌++◌, map, length,
}
use mcp_zeromem.Config.{Config}
use mcp_zeromem.Worker as Worker
use mcp_zeromem.Worker.{Worker}
use mcp_zeromem.Worker.Steps.{Event, advance}
use mcp_zeromem.Worker.Release.{Answers, drive, stop_exits}
use mcp_zeromem.Server as Server
use mcp_zeromem.Server.{
  serving, stopping_worker, exited, Server, start_up, Happening, signal, goodbye,
  connections_closed, loop, loop_ended, happen, run, shutdown,
}
use mcp_zeromem.Server.Orderly.{run-IsOrderly, start_up-IsOrderly}

run-append : (hs ks : List Happening) (s : Server) → run (hs ++ ks) s ≡ run ks (run hs s)
unfolding run
run-append [] ks s = refl
run-append (h ∷ hs) ks s = run-append hs ks (happen h s)

abbrev stopping : Worker → Server
stopping w = record { shutting_down = true; stage = stopping_worker; worker = w }

run-loop : (es : List Event) (w : Worker) → run (map loop es) (stopping w) ≡ stopping (drive es w)
unfolding run happen drive
run-loop [] w = refl
run-loop (e ∷ es) w = run-loop es (advance e w)

-- What a shutdown goes through: a signal, the goodbye settles, one way or the other, the HTTP server closes, the loop's
-- awaited promises settle, and `worker.stop()` goes on.
abbrev pub ending : Bool → List Event → List Happening
ending ok es = signal ∷ goodbye ok ∷ connections_closed ∷ (map loop es ++ loop_ended ∷ [])

abbrev running : Worker → Server
running w = record { shutting_down = false; stage = serving; worker = w }

ending_closed :
    (w : Worker) (ok : Bool)
    → happen connections_closed (happen (goodbye ok) (happen signal (running w)))
      ≡ stopping (Worker.stop w)
unfolding happen
ending_closed w ok = refl

loop_ended-exits :
    (w : Worker) → w.place ≡ Worker.exited → (happen loop_ended (stopping w)).stage ≡ exited
unfolding happen
loop_ended-exits w h = by_place w.place h
  where
    by_place :
        (pl : Worker.Place)
        → pl ≡ Worker.exited
        → (if◌then◌else◌ {A = Server}
            (Server.has_ended pl)
            (record (stopping w) { stage = exited })
            (stopping w)).stage
          ≡ exited
    by_place pl e = rw e refl

run-ending :
    (w : Worker) (ok : Bool) (es : List Event)
    → (drive es (Worker.stop w)).place ≡ Worker.exited
    → (run (ending ok es) (running w)).stage ≡ exited
unfolding run
run-ending w ok es x =
    ap (λ (s : Server). s.stage) (ap (run (map loop es ++ loop_ended ∷ [])) (ending_closed w ok))
    ∙ ap (λ (s : Server). s.stage)
        (run-append (map loop es) (loop_ended ∷ []) (stopping (Worker.stop w)))
    ∙ ap (λ (s : Server). (run (loop_ended ∷ []) s).stage) (run-loop es (Worker.stop w))
    ∙ loop_ended-exits (drive es (Worker.stop w)) x

-- Whatever has happened to a server that was started, while it is not yet shutting down: once a signal has come, the
-- goodbye has settled, one way or the other, and the HTTP server has closed, the worker's loop takes at most three more
-- answers; and until it has taken three it may still be at work, but else the process exits.
pub shutdown_exits :
    (config : Config) (hs : List Happening) (ok : Bool) (es : List Event)
    → (run hs (start_up config)).stage ≡ serving
    → Answers (Worker.stop (run hs (start_up config)).worker) es
    → (length es ≤ 3)
      × (((drive es (Worker.stop (run hs (start_up config)).worker)).place ≢ Worker.exited)
            × (length es < 3)
          ⊎ ((run (hs ++ ending ok es) (start_up config)).stage ≡ exited))
shutdown_exits config hs ok es q a =
    let s = run hs (start_up config) in
    let (r, f) = run-IsOrderly config.read_only hs (start_up config) (start_up-IsOrderly config) in
    let (few, awake, ending_) = stop_exits s.worker es r a in
    let flag : s.shutting_down ≡ false = (rw q at f).0 in
    let same : s ≡ running s.worker =
      λ i. record { shutting_down = flag i; stage = q i; worker = s.worker } in
    (
      few,
      elim ending_ [
        | inl more ↦ inl more
        | inr (done, released) ↦ inr (
            ap (λ (x : Server). x.stage) (run-append hs (ending ok es) (start_up config))
            ∙ ap (λ (x : Server). (run (ending ok es) x).stage) same
            ∙ run-ending s.worker ok es done)
      ],
    )
