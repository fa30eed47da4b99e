-- ===== src/Jobs/Exclusive.antt =====
-- How many harness processes the calls of Jobs keep alive at once.
use web_zapret.Base.{
  ℕ, ◌<◌, ◌≡◌, refl, ap, ◌∙◌, Bool, true, false, not, ◌&&◌, List, [], ◌∷◌, Option, none, some, ◌==◌,
  if◌then◌else◌, if_both, if_each, arith,
}
use web_zapret.Text.{Text}
use web_zapret.Jobs.{
  Job, World, Request, Reply, bcw_start_run, bcw_collect, bcw_overview, exits, is_alive,
  in_progress, running, is_running, held, without, finish, collect_job, launch, announce, not_saved,
}

-- A history in which every collector writes as its process ends, and nothing is cancelled.
pub data Event : Type 0 where
  start : Request → Event
  ends : ℕ → Bool → Event
  view : Event

pub step : World → Event → World
step w (start r) = (bcw_start_run w r).0
step w (ends p good) = bcw_collect (exits p w) 0 good
step w view = bcw_overview w

pub after_events : World → List Event → World
after_events w [] = w
after_events w (e ∷ es) = after_events (step w e) es

-- The ids that the system gives to processes are not 0.
abbrev pub IsStarted : Option ℕ → Type 0
IsStarted none = Unit
IsStarted (some p) = 0 < p

-- A process that starts has such an id, and the write of the job with that id succeeds.
abbrev pub IsStart : Request → Type 0
IsStart r = IsStarted r.spawned × (r.second_saved ≡ true)

abbrev HasPid : Event → Type 0
HasPid (start r) = IsStart r
HasPid _ = Unit

abbrev HavePids : List Event → Type 0
HavePids [] = Unit
HavePids (e ∷ es) = HasPid e × HavePids es

-- Either no process lives and no collector waits, or the one that lives is the file's running job.
abbrev pub IsOne : Job → List ℕ → List Job → Type 0
IsOne job [] [] = Unit
IsOne job (p ∷ []) (kept ∷ []) =
    (0 < p) × (job.phase ≡ running) × (job.pid ≡ some p) × (kept.pid ≡ some p)
IsOne job _ _ = ⊥

abbrev pub IsExclusive : World → Type 0
IsExclusive w = IsOne w.job w.alive w.waiting

-- What a start does, when it does something.
start_cases :
    (P : World → Type 0) (w : World) (r : Request)
    → P w
    → (in_progress w ≡ false → P (launch r.second_saved (announce w r) r.run_id r.spawned).0)
    → P (bcw_start_run w r).0
unfolding bcw_start_run
start_cases P w r same launched =
    let Q : World × Reply → Type 0 = λ x. P x.0 in
    if_both Q (not r.ready) same (
      if_each Q (in_progress w) (λ _. same)
        (λ idle.
          if_both Q (not_saved r.saved) same
            (if_both Q (not r.settings_ok) same (if_both Q (not r.dir_ok) same (launched idle)))))

abbrev pub world : Job → List ℕ → List Job → World
world job alive waiting = record { job = job; alive = alive; waiting = waiting }

-- The process whose id the job holds lives, if it is the only one.
is_alive_one : (p : ℕ) → 0 < p → is_alive (p ∷ []) (some p) ≡ true
unfolding is_alive
is_alive_one p h = ground arith

pub launch-IsExclusive :
    (job : Job) (saves : Bool) (run_id : Text) (spawned : Option ℕ)
    → IsStarted spawned
    → saves ≡ true
    → IsExclusive (launch saves (world job [] []) run_id spawned).0
unfolding launch
launch-IsExclusive job saves run_id none h saved = rw saved tt
launch-IsExclusive job saves run_id (some p) h saved = rw saved (h, refl, refl, refl)

announced-IsExclusive :
    (job : Job) (r : Request)
    → IsStart r
    → IsExclusive (launch r.second_saved (announce (world job [] []) r) r.run_id r.spawned).0
unfolding announce
announced-IsExclusive job r (h, saved) =
    if_both (λ w. IsExclusive (launch r.second_saved w r.run_id r.spawned).0) r.first_saved
      (launch-IsExclusive _ r.second_saved r.run_id r.spawned h saved)
      (launch-IsExclusive job r.second_saved r.run_id r.spawned h saved)

pub busy-in_progress :
    (job : Job) (p : ℕ) (kept : Job)
    → IsOne job (p ∷ []) (kept ∷ [])
    → in_progress (world job (p ∷ []) (kept ∷ [])) ≡ true
unfolding in_progress is_running
busy-in_progress job p kept (h, runs, pid, _) = rw (runs, pid, is_alive_one p h)

-- The two shapes of an exclusive state.
pub one_cases :
    (P : List ℕ → List Job → Type 0) (job : Job) (alive : List ℕ) (waiting : List Job)
    → P [] []
    → ((p : ℕ) (kept : Job) → IsOne job (p ∷ []) (kept ∷ []) → P (p ∷ []) (kept ∷ []))
    → IsOne job alive waiting
    → P alive waiting
one_cases P job [] [] base one inv = base
one_cases P job (p ∷ []) (kept ∷ []) base one inv = one p kept inv
one_cases P job [] (kept ∷ ks) base one inv = absurd inv
one_cases P job (p ∷ []) [] base one inv = absurd inv
one_cases P job (p ∷ []) (kept ∷ k ∷ ks) base one inv = absurd inv
one_cases P job (p ∷ q ∷ ps) ks base one inv = absurd inv

start-IsExclusive :
    (w : World) (r : Request) → IsStart r → IsExclusive w → IsExclusive (bcw_start_run w r).0
start-IsExclusive w r h inv =
    one_cases (λ alive ks. IsExclusive (bcw_start_run (world w.job alive ks) r).0) w.job w.alive
      w.waiting
      (start_cases IsExclusive (world w.job [] []) r tt (λ _. announced-IsExclusive w.job r h))
      (λ p kept one.
        start_cases IsExclusive (world w.job (p ∷ []) (kept ∷ [])) r one
          (λ idle. cc (idle, busy-in_progress w.job p kept one)))
      inv

pub is_alive_none : (o : Option ℕ) → is_alive [] o ≡ false
unfolding is_alive
is_alive_none none = refl
is_alive_none (some p) = ground arith

-- The collector finds its process among the ids that are left, or writes the end.
collect_one :
    (job : Job) (q : ℕ) (kept : Job) (good gone : Bool)
    → IsOne job (q ∷ []) (kept ∷ [])
    → let left = if not gone then q ∷ [] else [] in
      IsExclusive (
        if is_alive left kept.pid
        then world job left (kept ∷ [])
        else world (finish good kept) left [])
collect_one job q kept good true one = rw (is_alive_none kept.pid) tt
collect_one job q kept good false one =
    if_each IsExclusive (is_alive (q ∷ []) kept.pid) (λ _. one)
      (λ dead. let lives = ap (is_alive (q ∷ [])) one.3 ∙ is_alive_one q one.0 in cc (dead, lives))

ends_one :
    (job : Job) (q p : ℕ) (kept : Job) (good : Bool)
    → IsOne job (q ∷ []) (kept ∷ [])
    → IsExclusive (bcw_collect (exits p (world job (q ∷ []) (kept ∷ []))) 0 good)
unfolding bcw_collect collect_job exits held without
ends_one job q p kept good one = collect_one job q kept good (q == p) one

-- The process with an id ends, and the collector that waits for it writes.
pub ends-IsExclusive :
    (w : World) (p : ℕ) (good : Bool) → IsExclusive w → IsExclusive (bcw_collect (exits p w) 0 good)
unfolding bcw_collect collect_job exits held
ends-IsExclusive w p good inv =
    one_cases (λ alive ks. IsExclusive (bcw_collect (exits p (world w.job alive ks)) 0 good)) w.job
      w.alive w.waiting tt (λ q kept one. ends_one w.job q p kept good one) inv

pub view-IsExclusive : (w : World) → IsExclusive w → IsExclusive (bcw_overview w)
unfolding bcw_overview in_progress
view-IsExclusive w inv =
    one_cases (λ alive ks. IsExclusive (bcw_overview (world w.job alive ks))) w.job w.alive
      w.waiting (if_both IsExclusive (is_running w.job.phase && not (is_alive [] w.job.pid)) tt tt)
      (λ p kept one.
        if_each IsExclusive (is_running w.job.phase && not (is_alive (p ∷ []) w.job.pid))
          (λ lost. let busy = busy-in_progress w.job p kept one in ground arith) (λ _. one))
      inv

step-IsExclusive : (w : World) (e : Event) → HasPid e → IsExclusive w → IsExclusive (step w e)
unfolding step
step-IsExclusive w (start r) h inv = start-IsExclusive w r h inv
step-IsExclusive w (ends p good) h inv = ends-IsExclusive w p good inv
step-IsExclusive w view h inv = view-IsExclusive w inv

-- A selection is exclusive while nobody cancels one and each collector writes the end of its run as
-- its process ends: whatever starts, ends and views of the overview follow each other, in whatever
-- order and with whatever outcomes, at most one harness lives, and if one does, the job file calls it
-- the running job.
pub after_events-IsExclusive :
    (w : World) (es : List Event) → HavePids es → IsExclusive w → IsExclusive (after_events w es)
unfolding after_events
after_events-IsExclusive w [] h inv = inv
after_events-IsExclusive w (e ∷ es) (h, hs) inv =
    after_events-IsExclusive (step w e) es hs (step-IsExclusive w e h inv)

-- A run is shown as running where its process lives, and nowhere else.
pub bcw_overview-is_running : (w : World) → is_running (bcw_overview w).job.phase ≡ in_progress w
unfolding bcw_overview in_progress is_running
bcw_overview-is_running w = ground arith
