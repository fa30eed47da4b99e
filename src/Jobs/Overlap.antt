-- ===== src/Jobs/Overlap.antt =====
-- What bcw_start_run and _bcw_collect do when the run before was cancelled and has not ended.
use web_zapret.Base.{
  ℕ, ◌<◌, ◌≡◌, refl, Bool, true, false, not, [], ◌∷◌, none, some, ◌==◌, arith, ap, ◌∙◌, keep,
}
use web_zapret.Text.{Text, codes}
use web_zapret.Jobs.{
  running, cancelling, Job, World, Request, started, refused, cancelled, bcw_start_run, bcw_collect,
  bcw_cancel, exits, is_alive, in_progress, launch, announce, is_running, not_saved, collect_job,
  held, without, finish,
}

-- A request that nothing outside the job file refuses.
abbrev pub good_request : Text → ℕ → Request
good_request run_id p = record {
  ready = true;
  saved = none;
  settings_ok = true;
  dir_ok = true;
  first_saved = true;
  second_saved = true;
  run_id = run_id;
  spawned = some p;
}

abbrev cancelling_of : World → World
cancelling_of w = record w { job = record w.job { phase = cancelling } }

cancel-busy :
    (w : World)
    → in_progress w ≡ true
    → bcw_cancel w true ≡ (cancelling_of w, cancelled w.job.run_id)
unfolding bcw_cancel
cancel-busy w h = simp h

start-idle :
    (w : World) (run_id : Text) (q : ℕ)
    → is_running w.job.phase ≡ false
    → bcw_start_run w (good_request run_id q)
      ≡ launch true (announce w (good_request run_id q)) run_id (some q)
unfolding bcw_start_run in_progress not_saved
start-idle w run_id q h = simp h

relaunch :
    (w : World) (run_id : Text) (q : ℕ)
    → in_progress w ≡ true
    → bcw_start_run (bcw_cancel w true).0 (good_request run_id q)
      ≡ launch true (announce (cancelling_of w) (good_request run_id q)) run_id (some q)
unfolding is_running
relaunch w run_id q h =
    ap (λ x. bcw_start_run x.0 (good_request run_id q)) (cancel-busy w h)
    ∙ start-idle (cancelling_of w) run_id q refl

-- A cancelled run does not keep the next one from starting: when the cancelled harness still lives, the
-- second one starts beside it, and both are alive.
pub cancel_then_start :
    (w : World) (run_id : Text) (q : ℕ)
    → in_progress w ≡ true
    → let after = bcw_start_run (bcw_cancel w true).0 (good_request run_id q) in
      (after.0.alive ≡ q ∷ w.alive) × (after.1 ≡ started run_id q)
unfolding launch announce
cancel_then_start w run_id q h = rw (relaunch w run_id q h) (refl, refl)

collect-dead :
    (w : World) (n : ℕ) (good : Bool) (job : Job)
    → held n w.waiting ≡ some job
    → is_alive w.alive job.pid ≡ false
    → bcw_collect w n good ≡ record w { job = finish good job; waiting = without n w.waiting }
unfolding bcw_collect collect_job
collect-dead w n good job h dead = rw h (rw dead refl)

cancel-idle :
    (w : World)
    → is_running w.job.phase ≡ false
    → bcw_cancel w true ≡ (w, refused (codes "no running selection"))
unfolding bcw_cancel in_progress
cancel-idle w h = simp h

finish-idle : (good : Bool) (job : Job) → is_running (finish good job).phase ≡ false
unfolding finish is_running
finish-idle good job = ground arith

exit_one : (p q : ℕ) → ¬ (p ≡ q) → keep (λ x. not (x == p)) (q ∷ p ∷ []) ≡ q ∷ []
exit_one p q ne = ground arith

not_alive : (p q : ℕ) → ¬ (p ≡ q) → is_alive (q ∷ []) (some p) ≡ false
unfolding is_alive
not_alive p q ne = ground arith

abbrev pub job_of : Text → ℕ → Job
job_of run_id p = record { phase = running; run_id = run_id; pid = some p }

abbrev pub one_run : Text → ℕ → World
one_run run_id p = record { job = job_of run_id p; alive = p ∷ []; waiting = job_of run_id p ∷ [] }

pub one_run-in_progress : (run_id : Text) (p : ℕ) → 0 < p → in_progress (one_run run_id p) ≡ true
unfolding in_progress is_running is_alive
one_run-in_progress run_id p h = ground arith

two_runs :
    (old new : Text) (p q : ℕ)
    → 0 < p
    → (bcw_start_run (bcw_cancel (one_run old p) true).0 (good_request new q)).0 ≡ record {
      job = job_of new q;
      alive = q ∷ p ∷ [];
      waiting = job_of old p ∷ job_of new q ∷ [];
    }
unfolding launch announce
two_runs old new p q h =
    ap (λ x. x.0) (relaunch (one_run old p) new q (one_run-in_progress old p h))

first_ends :
    (old new : Text) (p q : ℕ) (good : Bool)
    → ¬ (p ≡ q)
    → bcw_collect
        (exits p (record {
          job = job_of new q;
          alive = q ∷ p ∷ [];
          waiting = job_of old p ∷ job_of new q ∷ [];
        }))
        0
        good
      ≡ record { job = finish good (job_of old p); alive = q ∷ []; waiting = job_of new q ∷ [] }
unfolding exits held without
first_ends old new p q good ne =
    ap
      (λ l.
        bcw_collect
          (record { job = job_of new q; alive = l; waiting = job_of old p ∷ job_of new q ∷ [] }) 0
          good)
      (exit_one p q ne)
    ∙ collect-dead
        (record { job = job_of new q; alive = q ∷ []; waiting = job_of old p ∷ job_of new q ∷ [] })
        0 good (job_of old p) refl (not_alive p q ne)

-- A cancelled run does not keep the next one from starting, and its end takes the job file from that one:
-- when the first harness still lives, the second one is started beside it; and when the first process
-- ends and its collector writes, the file carries the first run's id, and the second run, whose process
-- lives, can no longer be cancelled.
pub late_collector :
    (old new : Text) (p q : ℕ) (good : Bool)
    → 0 < p
    → ¬ (p ≡ q)
    → let two = (bcw_start_run (bcw_cancel (one_run old p) true).0 (good_request new q)).0 in
      let after = bcw_collect (exits p two) 0 good in
      (two.alive ≡ q ∷ p ∷ [])
      × (after.alive ≡ q ∷ [])
      × (after.job.run_id ≡ old)
      × (bcw_cancel after true ≡ (after, refused (codes "no running selection")))
unfolding finish
late_collector old new p q good hp ne =
    rw (two_runs old new p q hp, first_ends old new p q good ne)
      (
        refl,
        refl,
        refl,
        cancel-idle
            (record {
              job = finish good (job_of old p);
              alive = q ∷ [];
              waiting = job_of new q ∷ [];
            })
            (finish-idle good (job_of old p)),
      )
