-- ===== src/Jobs/Tests.antt =====
-- Runs of the selection job.
use web_zapret.Base.{◌≡◌, refl, true, List, [], ◌∷◌, none, arith}
use web_zapret.Text.{codes}
use web_zapret.Jobs.{
  World, idle, bcw_overview, in_progress, launch, is_alive, held, bcw_start_run, bcw_collect,
  bcw_cancel, exits, refused,
}
use web_zapret.Jobs.Overlap.{good_request, one_run, job_of, late_collector}
use web_zapret.Jobs.Threads.{quiet, begin, spawn}
use web_zapret.Jobs.Threads.Held.{
  Event, begins, spawns, ends, view, steps, IsSingle, steps-IsSingle,
}
use web_zapret.Jobs.Threads.Stale.{overtaken, start_overtaken, idle-in_progress}

abbrev nothing : World
nothing = record {
  job = record { phase = idle; run_id = []; pid = none };
  alive = [];
  waiting = [];
}

abbrev history : List Event
history =
    begins (good_request (codes "r1") 7)
    ∷ view
    ∷ spawns
    ∷ begins (good_request (codes "r2") 8)
    ∷ spawns
    ∷ ends 7 true
    ∷ begins (good_request (codes "r3") 9)
    ∷ spawns
    ∷ []

steps-IsSingle_example : IsSingle (steps (quiet nothing) history)
steps-IsSingle_example =
    steps-IsSingle nothing history
      (
        (omega arith, refl),
        (tt, (tt, ((omega arith, refl), (tt, (tt, ((omega arith, refl), (tt, tt))))))),
      )
      tt

-- The history ends with the third harness.
history_test : (steps (quiet nothing) history).world.alive ≡ 9 ∷ []
unfolding steps begin spawn bcw_collect bcw_overview in_progress launch exits is_alive held
history_test = refl

start_overtaken_example :
    let after = spawn (begin (overtaken nothing (codes "r1") 7) (good_request (codes "r2") 8)) in
    (after.world.alive ≡ 8 ∷ 7 ∷ []) × (after.world.job ≡ job_of (codes "r2") 8)
start_overtaken_example =
    start_overtaken nothing (codes "r1") (codes "r2") 7 8 (idle-in_progress nothing refl)

late_collector_example :
    let two =
      (bcw_start_run
        (bcw_cancel (one_run (codes "r1") 7) true).0
        (good_request (codes "r2") 8)).0 in
    let after = bcw_collect (exits 7 two) 0 true in
    (two.alive ≡ 8 ∷ 7 ∷ [])
    × (after.alive ≡ 8 ∷ [])
    × (after.job.run_id ≡ codes "r1")
    × (bcw_cancel after true ≡ (after, refused (codes "no running selection")))
late_collector_example =
    late_collector (codes "r1") (codes "r2") 7 8 true (omega arith) (λ e. omega (arith, e))
