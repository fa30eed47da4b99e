-- ===== src/Schedule/Firing.antt =====
-- The slots for which the scheduler's loop starts runs.
use web_zapret.Base.{
  ℕ, ◌<◌, ◌≡◌, refl, Bool, true, not, ◌&&◌, if◌then◌else◌, List, [], ◌∷◌, Option, none, some,
  if_both, subst,
}
use web_zapret.Schedule.{
  Calendar, Schedule, Slots, next_run_at, schedule_due, is_armed, tick, rearm,
}
use web_zapret.Schedule.Later.{next_run_at-later}

-- What happens to the state file: a round of the loop, with the settings and the clock that it reads,
-- or a schedule that is saved in the panel; a flag of each says that its write of the state succeeds.
pub data Event : Type 0 where
  round : Bool → Bool → Schedule → ℕ → Event
  save : Bool → Event

unfoldable pub step : Calendar → Slots → Event → Slots × Option ℕ
step c st (round ready writes s now) = tick c ready writes s now st
step c st (save writes) = (if writes then rearm st else st, none)

abbrev log : Option ℕ → List ℕ → List ℕ
log none ts = ts
log (some t) ts = t ∷ ts

-- The slots that a history of events fires, in order.
unfoldable pub fired : Calendar → Slots → List Event → List ℕ
fired c st [] = []
fired c st (e ∷ es) = let (st', shot) = step c st e in log shot (fired c st' es)

-- A round that fires a slot has written the state.
abbrev pub HasWritten : Calendar → Slots → Event → Type 0
HasWritten c st (round ready writes s now) =
    ¬ ((tick c ready writes s now st).1 ≡ none) → writes ≡ true
HasWritten c st (save writes) = Unit

-- The writes of the rounds that fire succeed.
abbrev pub AreWritten : Calendar → Slots → List Event → Type 0
AreWritten c st [] = Unit
AreWritten c st (e ∷ es) = HasWritten c st e × AreWritten c (step c st e).0 es

-- A slot after the last one, if there is a last one.
abbrev After : Option ℕ → ℕ → Type 0
After none t = Unit
After (some l) t = l < t

abbrev Ahead : Option ℕ → Option ℕ → Type 0
Ahead last none = Unit
Ahead last (some t) = After last t

-- The slots are after the last one and strictly ascending.
abbrev pub IsAscending : Option ℕ → List ℕ → Type 0
IsAscending last [] = Unit
IsAscending last (t ∷ ts) = After last t × IsAscending (some t) ts

-- The armed slot lies after the last one.
abbrev pub IsAhead : Slots → Type 0
IsAhead st = Ahead st.last_run st.next_run

-- The ways that a round can end.
tick_cases :
    (c : Calendar) (P : Slots × Option ℕ → Type 0) (ready writes : Bool) (s : Schedule) (now : ℕ)
    (next last : Option ℕ)
    → P (record { next_run = next; last_run = last }, none)
    → P (record { next_run = none; last_run = last }, none)
    → P (record { next_run = next_run_at c s now last; last_run = last }, none)
    → ((t : ℕ)
        → next ≡ some t
        → P (
          if writes
              then record { next_run = next_run_at c s now next; last_run = next }
              else record { next_run = next; last_run = last },
          next,
        ))
    → P (tick c ready writes s now (record { next_run = next; last_run = last }))
unfolding tick
tick_cases c P ready writes s now none last idle off armed fire = if_both P (not ready) idle (
    if_both P (not s.enabled) idle
      (if_both P (not (is_armed none)) (if_both (λ st. P (st, none)) writes armed idle) idle))
tick_cases c P ready writes s now (some t) last idle off armed fire = if_both P (not ready) idle (
    if_both P (not s.enabled) (if_both (λ st. P (st, none)) (is_armed (some t) && writes) off idle)
      (if_both P (not (is_armed (some t))) (if_both (λ st. P (st, none)) writes armed idle)
        (if_both P (not (schedule_due s now (some t))) idle (fire t refl))))

module _ (c : Calendar) (u : 0 < c.unit) where
  Ahead-next_run_at :
      (s : Schedule) (now : ℕ) (last : Option ℕ) → Ahead last (next_run_at c s now last)
  Ahead-next_run_at s now last = go last (next_run_at c s now last) refl
    where
      go : (l r : Option ℕ) → next_run_at c s now l ≡ r → Ahead l r
      go l none e = tt
      go none (some t) e = tt
      go (some l) (some t) e = (next_run_at-later c s now l t u e).1

  -- One event keeps the invariant, and what it fires is the new last slot.
  abbrev IsStep : Option ℕ → Slots × Option ℕ → Type 0
  IsStep last (st', none) = IsAhead st' × (st'.last_run ≡ last)
  IsStep last (st', some t) = IsAhead st' × After last t × (st'.last_run ≡ some t)

  abbrev IsWrittenStep : Option ℕ → Bool → Slots × Option ℕ → Type 0
  IsWrittenStep last writes r = (¬ (r.1 ≡ none) → writes ≡ true) → IsStep last r

  tick-IsStep :
      (ready writes : Bool) (s : Schedule) (now : ℕ) (next last : Option ℕ)
      → Ahead last next
      → IsWrittenStep last writes
          (tick c ready writes s now (record { next_run = next; last_run = last }))
  tick-IsStep ready writes s now none last h =
      tick_cases c (IsWrittenStep last writes) ready writes s now none last (λ _. (h, refl))
        (λ _. (tt, refl)) (λ _. (Ahead-next_run_at s now last, refl)) (λ t e. cc e)
  tick-IsStep ready writes s now (some t) last h =
      tick_cases c (IsWrittenStep last writes) ready writes s now (some t) last (λ _. (h, refl))
        (λ _. (tt, refl)) (λ _. (Ahead-next_run_at s now last, refl))
        (λ _ _ written. rw (written (λ q. cc q)) (Ahead-next_run_at s now (some t), h, refl))

  log-IsAscending :
      (last : Option ℕ) (st : Slots) (shot : Option ℕ) (ts : List ℕ)
      → IsStep last (st, shot)
      → (IsAhead st → IsAscending st.last_run ts)
      → IsAscending last (log shot ts)
  log-IsAscending last st none ts (ahead, same_last) rest =
      subst (λ l. IsAscending l ts) same_last (rest ahead)
  log-IsAscending last st (some t) ts (ahead, later, new_last) rest =
      (later, subst (λ l. IsAscending l ts) new_last (rest ahead))

  step-IsStep :
      (st : Slots) (e : Event) → HasWritten c st e → IsAhead st → IsStep st.last_run (step c st e)
  unfolding step rearm
  step-IsStep st (round ready writes s now) written h =
      tick-IsStep ready writes s now st.next_run st.last_run h written
  step-IsStep st (save writes) written h =
      if_both (λ x. IsStep st.last_run (x, none)) writes (tt, refl) (h, refl)

  -- For a calendar whose unit is positive, whatever rounds the loop makes, with whatever clocks and
  -- settings, and whenever a schedule is saved in between, as long as each round that fires a slot succeeds
  -- in writing the state: the slots that are fired are strictly ascending and lie after the last run of
  -- the state that the loop began with, if the slot armed there does. So no slot is fired twice.
  pub fired-IsAscending :
      (st : Slots) (es : List Event)
      → AreWritten c st es
      → IsAhead st
      → IsAscending st.last_run (fired c st es)
  unfolding fired
  fired-IsAscending st [] written h = tt
  fired-IsAscending st (e ∷ es) (written, rest) h =
      log-IsAscending st.last_run (step c st e).0 (step c st e).1 (fired c (step c st e).0 es)
        (step-IsStep st e written h) (λ ahead. fired-IsAscending (step c st e).0 es rest ahead)
