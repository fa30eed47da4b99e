-- ===== src/Jobs/Threads/Stale.antt =====
-- An overview that falls between the two saves of a start.
use web_zapret.Base.{ℕ, ◌≡◌, refl, false, [], ◌∷◌, ◌++◌, none}
use web_zapret.Text.{Text}
use web_zapret.Jobs.{World, idle, lost, is_alive, in_progress, is_running, not_saved, launch}
use web_zapret.Jobs.Overlap.{good_request, job_of}
use web_zapret.Jobs.Threads.{
  Threads, quiet, begin, spawn, look, put, is_granted, announce, read_lost,
}

-- An overview reads the file between the two saves of a start and writes after the second one.
abbrev pub overtaken : World → Text → ℕ → Threads
overtaken w run_id p = put (spawn (look (begin (quiet w) (good_request run_id p))))

overtaken-lost :
    (w : World) (run_id : Text) (p : ℕ)
    → in_progress w ≡ false
    → overtaken w run_id p
      ≡ quiet (record {
        job = record { phase = lost; run_id = run_id; pid = none };
        alive = p ∷ w.alive;
        waiting = w.waiting ++ job_of run_id p ∷ [];
      })
unfolding put spawn look begin is_granted announce read_lost launch is_running is_alive not_saved
overtaken-lost w run_id p free = rw free refl

pub idle-in_progress : (w : World) → w.job.phase ≡ idle → in_progress w ≡ false
unfolding in_progress is_running
idle-in_progress w h = rw h refl

-- An overview that reads the job file between the two saves of a start, and writes after the second one,
-- calls a run lost whose process lives: the next start is granted, and the second harness runs beside the
-- first one. So without a cancellation the selection is exclusive only as long as no overview falls there.
pub start_overtaken :
    (w : World) (old new : Text) (p q : ℕ)
    → in_progress w ≡ false
    → let after = spawn (begin (overtaken w old p) (good_request new q)) in
      (after.world.alive ≡ q ∷ p ∷ w.alive) × (after.world.job ≡ job_of new q)
unfolding spawn begin is_granted announce in_progress is_running launch not_saved
start_overtaken w old new p q free = rw (overtaken-lost w old p free) (refl, refl)
