-- ===== src/Jobs/Threads/Held.antt =====
-- How many harness processes live while the starts of Jobs.Threads are seen in between their two saves.
use web_zapret.Base.{
  ℕ, ◌≤◌, ◌≡◌, Bool, true, false, not, ◌&&◌, List, [], ◌∷◌, Option, none, some, length, if_both,
  if_each, arith,
}
use web_zapret.Jobs.{
  Job, World, Request, bcw_collect, bcw_overview, exits, is_alive, in_progress, is_running, launch,
  announce, held, collect_job,
}
use web_zapret.Jobs.Exclusive.{
  IsStart, IsExclusive, world, one_cases, busy-in_progress, launch-IsExclusive, ends-IsExclusive,
  view-IsExclusive,
}
use web_zapret.Jobs.Threads.{Threads, quiet, begin, spawn, is_granted}

-- A start reaches its first save, or its second one; a process ends, and the collector that waits for it
-- writes; or an overview is shown.
pub data Event : Type 0 where
  begins : Request → Event
  spawns : Event
  ends : ℕ → Bool → Event
  view : Event

pub step : Threads → Event → Threads
step t (begins r) = begin t r
step t spawns = spawn t
step t (ends p good) = record t { world = bcw_collect (exits p t.world) 0 good }
step t view = record t { world = bcw_overview t.world }

unfoldable pub steps : Threads → List Event → Threads
unfolding step
steps t [] = t
steps t (e ∷ es) = steps (step t e) es

-- The ids that the system gives to processes are not 0, and the write of a job with its id succeeds.
abbrev HasPid : Event → Type 0
HasPid (begins r) = IsStart r
HasPid _ = Unit

abbrev pub HavePids : List Event → Type 0
HavePids [] = Unit
HavePids (e ∷ es) = HasPid e × HavePids es

abbrev IsIdle : List ℕ → List Job → Type 0
IsIdle [] [] = Unit
IsIdle _ _ = ⊥

-- While no start holds the lock, the state is exclusive; while one does, nothing lives.
abbrev pub HeldBy : Option Request → World → Type 0
HeldBy none w = IsExclusive w
HeldBy (some r) w = IsStart r × IsIdle w.alive w.waiting

abbrev pub IsHeld : Threads → Type 0
IsHeld t = HeldBy t.starter t.world

idle_cases :
    (P : List ℕ → List Job → Type 0) (alive : List ℕ) (waiting : List Job)
    → IsIdle alive waiting
    → P [] []
    → P alive waiting
idle_cases P [] [] idle base = base
idle_cases P [] (j ∷ js) idle base = absurd idle
idle_cases P (p ∷ ps) js idle base = absurd idle

granted-idle : (w : World) (r : Request) → is_granted w r ≡ true → in_progress w ≡ false
unfolding is_granted
granted-idle w r h = ground arith

-- A start is granted in no exclusive state with a process.
granted-IsIdle :
    (w : World) (r : Request) → IsExclusive w → is_granted w r ≡ true → IsIdle w.alive w.waiting
granted-IsIdle w r inv =
    one_cases (λ alive ks. is_granted (world w.job alive ks) r ≡ true → IsIdle alive ks) w.job
      w.alive w.waiting (λ _. tt)
      (λ p kept one granted.
        let busy = busy-in_progress w.job p kept one in
        let idle = granted-idle (world w.job (p ∷ []) (kept ∷ [])) r granted in cc (busy, idle))
      inv

begin-IsHeld : (t : Threads) (r : Request) → IsStart r → IsHeld t → IsHeld (begin t r)
unfolding begin announce
begin-IsHeld t r h inv = go t.starter t.world inv
  where
    go :
        (s : Option Request) (w : World)
        → HeldBy s w
        → IsHeld (begin (record { world = w; starter = s; viewer = t.viewer }) r)
    go (some other) w held = held
    go none w held =
        if_each IsHeld (is_granted w r)
          (λ granted.
            let idle = granted-IsIdle w r held granted in
            if_both (λ (x : World). IsStart r × IsIdle x.alive x.waiting) r.first_saved (h, idle)
              (h, idle))
          (λ _. held)

spawn-IsHeld : (t : Threads) → IsHeld t → IsHeld (spawn t)
unfolding spawn
spawn-IsHeld t inv = go t.starter t.world inv
  where
    go :
        (s : Option Request) (w : World)
        → HeldBy s w
        → IsHeld (spawn (record { world = w; starter = s; viewer = t.viewer }))
    go none w held = held
    go (some r) w (h, idle) =
        idle_cases
          (λ alive ks.
            IsExclusive (launch r.second_saved (world w.job alive ks) r.run_id r.spawned).0)
          w.alive w.waiting idle
          (launch-IsExclusive w.job r.second_saved r.run_id r.spawned h.0 h.1)

ends-HeldBy :
    (s : Option Request) (w : World) (p : ℕ) (good : Bool)
    → HeldBy s w
    → HeldBy s (bcw_collect (exits p w) 0 good)
unfolding bcw_collect collect_job exits held
ends-HeldBy none w p good inv = ends-IsExclusive w p good inv
ends-HeldBy (some r) w p good (h, idle) = (
  h,
  idle_cases
      (λ alive ks.
        let after = bcw_collect (exits p (world w.job alive ks)) 0 good in
        IsIdle after.alive after.waiting)
      w.alive w.waiting idle tt,
)

view-HeldBy : (s : Option Request) (w : World) → HeldBy s w → HeldBy s (bcw_overview w)
unfolding bcw_overview
view-HeldBy none w inv = view-IsExclusive w inv
view-HeldBy (some r) w (h, idle) = (
  h,
  if_both (λ (x : World). IsIdle x.alive x.waiting)
      (is_running w.job.phase && not (is_alive w.alive w.job.pid)) idle idle,
)

step-IsHeld : (t : Threads) (e : Event) → HasPid e → IsHeld t → IsHeld (step t e)
unfolding step
step-IsHeld t (begins r) h inv = begin-IsHeld t r h inv
step-IsHeld t spawns h inv = spawn-IsHeld t inv
step-IsHeld t (ends p good) h inv = ends-HeldBy t.starter t.world p good inv
step-IsHeld t view h inv = view-HeldBy t.starter t.world inv

steps-IsHeld : (t : Threads) (es : List Event) → HavePids es → IsHeld t → IsHeld (steps t es)
unfolding steps
steps-IsHeld t [] h inv = inv
steps-IsHeld t (e ∷ es) (h, hs) inv = steps-IsHeld (step t e) es hs (step-IsHeld t e h inv)

-- At most one harness lives, and while no start holds the lock it is the file's running job.
abbrev pub IsSingle : Threads → Type 0
IsSingle t = (length t.world.alive ≤ 1) × (t.starter ≡ none → IsExclusive t.world)

IsHeld-IsSingle :
    (s : Option Request) (w : World) (o : Option Job)
    → HeldBy s w
    → IsSingle (record { world = w; starter = s; viewer = o })
IsHeld-IsSingle none w o inv = (
  one_cases (λ alive ks. length alive ≤ 1) w.job w.alive w.waiting (omega arith)
      (λ p kept one. omega arith) inv,
  λ _. inv,
)
IsHeld-IsSingle (some r) w o (h, idle) =
    (idle_cases (λ alive ks. length alive ≤ 1) w.alive w.waiting idle (omega arith), λ e. cc e)

-- A selection is exclusive while nobody cancels one, each start succeeds in writing the job with its
-- process's id, each collector writes the end of its run as its process ends, and no overview writes what it
-- has read earlier: whatever starts, ends and overviews
-- follow each other, also between the two saves of a start, in whatever order and with whatever outcomes,
-- at most one harness lives; and while no start holds the lock, the job file calls the one that lives the
-- running job.
pub steps-IsSingle :
    (w : World) (es : List Event) → HavePids es → IsExclusive w → IsSingle (steps (quiet w) es)
steps-IsSingle w es h inv =
    let t = steps (quiet w) es in
    IsHeld-IsSingle t.starter t.world t.viewer (steps-IsHeld (quiet w) es h inv)
