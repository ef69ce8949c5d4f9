-- ===== src/Server/Examples.antt =====
-- A server of server/src/index.ts that is asked to stop twice while it reads the backlog.
use mcp_zeromem.Common.{◌≤◌, ◌<◌, ◌≡◌, ◌≢◌, ◌⊎◌, ◌++◌, refl, true, false, List, [], ◌∷◌, length}
use mcp_zeromem.Worker as Worker
use mcp_zeromem.Worker.Steps.{Event, counted, advance}
use mcp_zeromem.Worker.Release.{Answers, drive}
use mcp_zeromem.Gateway.Tools.Examples.{writable}
use mcp_zeromem.Server.{
  serving, saying_goodbye, exited, Happening, signal, kicked, loop_ended, start_up, happen, run,
}
use mcp_zeromem.Server.Orderly.{Fits, run_orderly}
use mcp_zeromem.Server.Shutdown.{ending, shutdown_exits}

abbrev before : List Happening
before = kicked ∷ loop_ended ∷ []

still_serving : (run before (start_up writable)).stage ≡ serving
unfolding run happen start_up
still_serving = refl

twice : (run (signal ∷ signal ∷ []) (start_up writable)).stage ≡ saying_goodbye
unfolding run happen start_up
twice = refl

-- The backlog is empty, and the loop does not sleep any more.
abbrev answers : List Event
answers = counted 0 ∷ []

awaited : Answers (Worker.stop (run before (start_up writable)).worker) answers
unfolding run happen start_up Worker.start Worker.create Worker.stop Worker.kick
awaited = (refl, tt)

ended :
    (run (before ++ ending false (counted 0 ∷ Worker.Steps.resumed ∷ [])) (start_up writable)).stage
    ≡ exited
unfolding run happen start_up Worker.start Worker.create Worker.stop Worker.kick advance
ended = refl

run_orderly_example :
    Fits false
      (run before (start_up writable)).stage
      (run before (start_up writable)).shutting_down
      (run before (start_up writable)).worker
run_orderly_example = run_orderly writable before

shutdown_exits_example :
    (length answers ≤ 3)
    × (((drive answers (Worker.stop (run before (start_up writable)).worker)).place ≢ Worker.exited)
          × (length answers < 3)
        ⊎ ((run (before ++ ending true answers) (start_up writable)).stage ≡ exited))
shutdown_exits_example = shutdown_exits writable before true answers still_serving awaited
