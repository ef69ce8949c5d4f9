-- ===== src/Worker/Examples.antt =====
-- A run of the worker of server/src/engine/embed-worker.ts, and its theorems at concrete states.
use mcp_zeromem.Common.{
  ◌<◌, ◌⊎◌, ℕ, ◌+◌, ◌≤◌, true, false, ◌≡◌, ◌≢◌, refl, List, [], ◌∷◌, arith, length, none,
}
use mcp_zeromem.Worker.{
  Worker, Pass, exited, embedding, sleeping, create, start, kick, stop, status, register,
  is_drained,
}
use mcp_zeromem.Worker.Steps.{Event, counted, resumed, advance, loop, started, Reach, here, next}
use mcp_zeromem.Worker.Valid.{IsValid, Reach-IsValid}
use mcp_zeromem.Worker.Kick.{Until, kick_not_lost}
use mcp_zeromem.Worker.Release.{Answers, is_working, drive, pass_end-releases, stop_exits}
use mcp_zeromem.Worker.Passes.{batches, pass_ends, pass_counts, last_or, third_stall_ends}

abbrev begun : Worker
unfolding start create
begun = start create

-- Five turns wait; the worker has registered a waiter and asked for the first batch.
abbrev busy : Worker
unfolding start create register advance
busy = advance (counted 5) (register 1 begun)

abbrev five : Pass
five = record { before = 5; stalled = 0; announced = true; started_at = 0 }

is_running : (status busy).running ≡ true
unfolding status start create register advance
is_running = refl

not_drained : is_drained 0 busy ≡ false
unfolding is_drained start create register advance
not_drained = refl

begun-Reach : Reach (start create)
begun-Reach = next here (started create (unfold create in refl))

Reach-IsValid_example : IsValid (start create)
Reach-IsValid_example = Reach-IsValid (start create) begun-Reach

no_backlog : Until (kick (start create)) (advance (counted 0) (kick (start create)))
no_backlog =
    Until.next Until.here (loop (counted 0) (kick (start create)))
      (unfold start create kick advance in refl)

kick_not_lost_example : (advance (counted 0) (kick (start create))).place ≢ sleeping
kick_not_lost_example =
    kick_not_lost (start create) (advance (counted 0) (kick (start create))) begun-Reach no_backlog

empty_backlog_releases :
    ((advance (counted 0) (start create)).waiters ≡ [])
    × ((advance (counted 0) (start create)).draining ≡ false)
empty_backlog_releases =
    pass_end-releases (counted 0) (start create) (unfold start create in refl)
      (unfold start create advance in refl)

abbrev answers : List Event
answers = counted 5 ∷ resumed ∷ []

answered : Answers (stop (start create)) answers
unfolding start create stop advance
answered = (refl, (refl, tt))

stop_exits_example :
    (length answers ≤ 3)
    × ((drive answers (stop (start create))).place ≢ sleeping)
    × (((drive answers (stop (start create))).place ≢ exited) × (length answers < 3)
        ⊎ ((drive answers (stop (start create))).place ≡ exited)
          × ((drive answers (stop (start create))).waiters ≡ []))
stop_exits_example = stop_exits (start create) answers begun-Reach answered

abbrev embedding_five : Worker
unfolding create
embedding_five = record create { stopped = false; draining = true; place = embedding five }

abbrev readings : List ℕ
readings = 5 ∷ 2 ∷ 2 ∷ 2 ∷ 2 ∷ 1 ∷ 0 ∷ 0 ∷ 0 ∷ 0 ∷ 0 ∷ 0 ∷ 0 ∷ 0 ∷ 0 ∷ 0 ∷ 0 ∷ 0 ∷ []

pass_ends_example : is_working (drive (batches readings) embedding_five).place ≡ false
unfolding create
pass_ends_example =
    pass_ends readings five embedding_five refl (omega arith) (omega arith) (omega arith)

batches_counted :
    ((drive (batches (3 ∷ 1 ∷ [])) embedding_five).embedded + last_or 3 (1 ∷ [])
      ≡ embedding_five.embedded + five.before)
    × ((drive (batches (3 ∷ 1 ∷ [])) embedding_five).last_error ≡ none)
    × (is_working (drive (batches (3 ∷ 1 ∷ [])) embedding_five).place ≡ true)
unfolding create
batches_counted = pass_counts 3 (1 ∷ []) five embedding_five refl refl (omega arith)

three_stalls :
    (is_working (drive (batches (5 ∷ 5 ∷ [])) embedding_five).place ≡ true)
    × (is_working (drive (batches (5 ∷ 5 ∷ 6 ∷ [])) embedding_five).place ≡ false)
unfolding create
three_stalls =
    third_stall_ends 5 5 6 five embedding_five refl refl refl (omega arith) (omega arith)
      (omega arith) (omega arith)
