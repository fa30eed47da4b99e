-- ===== src/Jobs.antt =====
-- The selection job of src/panel/panel.py: `bcw_start_run`, `_bcw_collect`, `bcw_cancel` and the part
-- of `bcw_overview` that writes the job file. The panel's threads interleave at these calls, which
-- hold `_BCW_LOCK`; `bcw_overview` and `_bcw_collect` do not take the lock.
pub mod Exclusive
pub mod Overlap
pub mod Threads
pub mod Tests
use web_zapret.Base.{
  ℕ, zero, suc, Bool, true, false, not, ◌&&◌, ◌||◌, List, [], ◌∷◌, ◌++◌, keep, any, Option, none,
  some, ◌==◌, if◌then◌else◌,
}
use web_zapret.Text.{Text, codes}

-- `job["state"]`
pub data Phase : Type 0 where
  idle running cancelling done error lost : Phase

-- The job file: `idle` stands for a file that is not there.
pub record Job : Type 0 where
  pub phase : Phase
  pub run_id : Text
  pub pid : Option ℕ

-- The state that the calls share: the job file and the live processes of the harness.
pub record World : Type 0 where
  pub job : Job
  pub alive : List ℕ
  -- the jobs that a `_bcw_collect` thread holds, each until its process has ended
  pub waiting : List Job

-- `pid_alive(pid)`
pub is_alive : List ℕ → Option ℕ → Bool
is_alive alive none = false
is_alive alive (some p) = not (p == 0) && any (λ q. q == p) alive

pub is_running : Phase → Bool
is_running running = true
is_running _ = false

-- `job.get("state") == "running" and pid_alive(job.get("pid"))`
pub in_progress : World → Bool
unfolding is_running is_alive
in_progress w = is_running w.job.phase && is_alive w.alive w.job.pid

-- What a start meets outside the job file: the harness is ready; the overrides, if there are any, are
-- saved; the settings have no errors; the run's directory is made; the first and the second write of the job
-- file succeed, which the code does not look at; and the process's id, if it starts.
pub record Request : Type 0 where
  pub ready : Bool
  pub saved : Option Bool
  pub settings_ok : Bool
  pub dir_ok : Bool
  pub first_saved : Bool
  pub second_saved : Bool
  pub run_id : Text
  pub spawned : Option ℕ

pub data Reply : Type 0 where
  refused : Text → Reply
  started : Text → ℕ → Reply
  cancelled : Text → Reply
  finished : Reply

-- `if overrides: … if not saved: return …`
not_saved : Option Bool → Bool
not_saved none = false
not_saved (some b) = not b

-- the first write of the job, with no process
pub announce : World → Request → World
announce w r =
    if r.first_saved
    then record w { job = record { phase = running; run_id = r.run_id; pid = none } }
    else w

-- From the start of the process on; the flag says that the job is written.
pub launch : Bool → World → Text → Option ℕ → World × Reply
launch saves w run_id none = (
  if saves then record w { job = record { phase = error; run_id = run_id; pid = none } } else w,
  refused (codes "cannot start the harness"),
)
launch saves w run_id (some p) =
    let job : Job = record { phase = running; run_id = run_id; pid = some p } in
    (
      record {
        job = if saves then job else w.job;
        alive = p ∷ w.alive;
        waiting = w.waiting ++ job ∷ [];
      },
      started run_id p,
    )

pub bcw_start_run : World → Request → World × Reply
unfolding in_progress not_saved announce launch
bcw_start_run w r =
    if not r.ready
    then (w, refused (codes "not ready"))
    else if in_progress w
    then (w, refused (codes "a run is already in progress"))
    else if not_saved r.saved
    then (w, refused (codes "cannot persist settings"))
    else if not r.settings_ok
    then (w, refused (codes "settings errors"))
    else if not r.dir_ok
    then (w, refused (codes "cannot create run dir"))
    else launch r.second_saved (announce w r) r.run_id r.spawned

-- The file that a collector leaves: its own copy of the job, with the end of the run.
finish : Bool → Job → Job
finish good job = record job { phase = if good then done else error }

-- The collectors that go on waiting when the one at a position has ended.
without : ℕ → List Job → List Job
without n [] = []
without zero (job ∷ rest) = rest
without (suc n) (job ∷ rest) = job ∷ without n rest

-- The job of the collector at a position.
held : ℕ → List Job → Option Job
held n [] = none
held zero (job ∷ rest) = some job
held (suc n) (job ∷ rest) = held n rest

collect_job : World → ℕ → Bool → Option Job → World
unfolding finish
collect_job w n good none = w
collect_job w n good (some job) =
    if is_alive w.alive job.pid
    then w
    else record w { job = finish good job; waiting = without n w.waiting }

-- `_bcw_collect` in the thread at a position: it writes when its process has ended, takes no lock and
-- does not read the file. The flag is the `ok` of the run's result.
pub bcw_collect : World → ℕ → Bool → World
unfolding collect_job
bcw_collect w n good = collect_job w n good (held n w.waiting)

-- `bcw_cancel`; the flag says that one of the two signals reached the process.
pub bcw_cancel : World → Bool → World × Reply
unfolding in_progress
bcw_cancel w reached =
    if not (in_progress w)
    then (w, refused (codes "no running selection"))
    else if not reached
    then (w, refused (codes "process already gone"))
    else (record w { job = record w.job { phase = cancelling } }, cancelled w.job.run_id)

-- The write of `bcw_overview`: a run whose process is gone is lost.
pub bcw_overview : World → World
unfolding is_running
bcw_overview w =
    if is_running w.job.phase && not (is_alive w.alive w.job.pid)
    then record w { job = record w.job { phase = lost } }
    else w

-- The process of the harness ends.
pub exits : ℕ → World → World
exits p w = record w { alive = keep (λ q. not (q == p)) w.alive }
