-- ===== src/Jobs/Threads.antt =====
-- The calls of Jobs in smaller steps: `bcw_start_run` of src/panel/panel.py saves the job twice, without
-- and with a process id, and `bcw_overview`, which takes no lock, reads the file before it writes it.
pub mod Held
pub mod Stale
use web_zapret.Base.{
  ◌≡◌, refl, Bool, true, false, not, ◌&&◌, Option, none, some, if◌then◌else◌, arith,
}
use web_zapret.Jobs.{
  Job, World, Request, running, lost, is_running, is_alive, in_progress, not_saved, launch,
  bcw_start_run, bcw_overview, announce,
}

-- The shared state, the start that holds the lock between its two saves, and the overview that has read
-- the file and is about to write.
pub record Threads : Type 0 where
  pub world : World
  pub starter : Option Request
  pub viewer : Option Job

abbrev pub quiet : World → Threads
quiet w = record { world = w; starter = none; viewer = none }

-- None of the early returns of `bcw_start_run` before the first save.
pub is_granted : World → Request → Bool
unfolding not_saved
is_granted w r =
    r.ready && (not (in_progress w) && (not (not_saved r.saved) && (r.settings_ok && r.dir_ok)))

-- `bcw_start_run` up to the first save; a start that finds the lock taken waits.
unfoldable pub begin : Threads → Request → Threads
unfolding is_granted announce
begin t r = elim t.starter [
  | some other ↦ t
  | none ↦
      if is_granted t.world r then record t { world = announce t.world r; starter = some r } else t
]

-- From the process on, and out of the lock.
unfoldable pub spawn : Threads → Threads
spawn t = elim t.starter [
  | none ↦ t
  | some r ↦ record t {
    world = (launch r.second_saved t.world r.run_id r.spawned).0;
    starter = none;
  }
]

-- What an overview writes of the file that it has read, if it writes.
pub read_lost : World → Option Job
unfolding is_running
read_lost w =
    if is_running w.job.phase && not (is_alive w.alive w.job.pid)
    then some (record w.job { phase = lost })
    else none

-- `bcw_overview` up to its write, and the write
pub look : Threads → Threads
unfolding read_lost
look t = record t { viewer = read_lost t.world }

pub put : Threads → Threads
put t = elim t.viewer [
  | none ↦ t
  | some job ↦ record t { world = record t.world { job = job }; viewer = none }
]

-- An undisturbed start is `bcw_start_run`, and an undisturbed overview is `bcw_overview`.
pub spawn-begin :
    (w : World) (r : Request) → (spawn (begin (quiet w) r)).world ≡ (bcw_start_run w r).0
unfolding spawn begin is_granted announce bcw_start_run launch
spawn-begin w r = ground arith

pub put-look : (w : World) → (put (look (quiet w))).world ≡ bcw_overview w
unfolding put look read_lost bcw_overview
put-look w = ground arith
