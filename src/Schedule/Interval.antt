-- ===== src/Schedule/Interval.antt =====
-- The mode `interval`: the loop that skips the slots of an outage.
use web_zapret.Base.{
  ℕ, zero, suc, ◌+◌, ◌*◌, ◌≤◌, ◌<◌, ◌≡◌, refl, ap, ◌⊎◌, inl, inr, some, leb, ltb, arith, Bool-cases,
  if_each, ◌∙◌, ◌-◌, ◌/◌, ◌%◌, if◌then◌else◌,
}
use native.Mathlib.Nat.{lt_of_mul-lt-mul_right, mod-add-div', mod-lt}
use web_zapret.Schedule.{Calendar, Schedule, step_of, catch_up, next_interval}

-- Enough fuel ends the loop by its test.
catch_up-later :
    (fuel step now target : ℕ)
    → 0 < step
    → now < target + fuel
    → (now < catch_up fuel step now target) × (target ≤ catch_up fuel step now target)
unfolding catch_up
catch_up-later zero step now target pos h = (omega arith, omega arith)
catch_up-later (suc fuel) step now target pos h =
    ground (arith, catch_up-later fuel step now (target + step) pos)

-- The result is the target moved by whole steps, and no more of them than needed.
catch_up-steps :
    (fuel step now target : ℕ)
    → (k : ℕ) × (catch_up fuel step now target ≡ target + k * step)
      × ((k ≡ 0) ⊎ (catch_up fuel step now target ≤ now + step))
unfolding catch_up
catch_up-steps zero step now target = (0, omega arith, inl refl)
catch_up-steps (suc fuel) step now target = elim (Bool-cases (leb target now)) [
  | inl past ↦
      let (k, exact, least) = catch_up-steps fuel step now (target + step) in
      let reached : target ≤ now = ground arith in
      (
        suc k,
        rw past (omega (arith, exact)),
        elim least [
          | inl none_more ↦
              inr (rw past (omega (arith, exact, ap (λ (n : ℕ). n * step) none_more, reached)))
          | inr bound ↦ inr (rw past bound)
        ],
      )
  | inr due ↦ (0, rw due (omega arith), inl refl)
]

pub step_of-pos : (c : Calendar) (s : Schedule) → 0 < c.unit → 0 < step_of c s
unfolding step_of
step_of-pos c s h = grind arith

-- After a previous run, the next slot is after now and after that run.
pub next_interval-later :
    (c : Calendar) (s : Schedule) (now last : ℕ)
    → 0 < c.unit
    → (now < next_interval c s now (some last)) × (last < next_interval c s now (some last))
unfolding next_interval
next_interval-later c s now last u =
    let pos = step_of-pos c s u in
    omega (
      arith,
      pos,
      catch_up-later (suc now) (step_of c s) now (last + step_of c s) pos (omega arith),
    )

-- For a calendar whose unit is positive, the mode `interval` keeps the rhythm and never catches up:
-- behind a previous run the next slot lies a whole number of steps behind it, at least one; it is after
-- now; and either it is the first one behind that run, or at most one step away from now.
pub next_interval_rhythm :
    (c : Calendar) (s : Schedule) (now last : ℕ)
    → 0 < c.unit
    → (k : ℕ) × (next_interval c s now (some last) ≡ last + suc k * step_of c s)
      × (now < next_interval c s now (some last))
      × ((k ≡ 0) ⊎ (next_interval c s now (some last) ≤ now + step_of c s))
next_interval_rhythm c s now last u =
    let (k, exact, least) = catch_up-steps (suc now) (step_of c s) now (last + step_of c s) in
    (
      k,
      unfold next_interval in omega (arith, exact),
      (next_interval-later c s now last u).0,
      unfold next_interval in least,
    )

-- The number of steps is determined by where they lead.
steps-quotient :
    (step gap k : ℕ) → 0 < step → gap < suc k * step → suc k * step ≤ gap + step → k ≡ gap / step
steps-quotient step gap k u above below =
    let q = gap / step in
    let parts : gap % step + q * step ≡ gap = mod-add-div' gap step in
    let rest : gap % step < step = mod-lt gap u in
    let least : q < suc k = lt_of_mul-lt-mul_right step (omega (arith, above, parts)) in
    let most : suc k < suc (suc q) =
      lt_of_mul-lt-mul_right step (omega (arith, below, parts, rest)) in
    omega (arith, least, most)

-- The loop of the mode `interval` computes a quotient: for a calendar whose unit is positive, the next slot
-- behind a previous run is one step behind it if that is after now, and otherwise as many steps as fit
-- between that run and now, and one more.
pub next_interval_closed :
    (c : Calendar) (s : Schedule) (now last : ℕ)
    → 0 < c.unit
    → next_interval c s now (some last) ≡ (
        if ltb now (last + step_of c s)
        then last + step_of c s
        else last + suc ((now - last) / step_of c s) * step_of c s)
next_interval_closed c s now last u =
    let (k, exact, after, near) = next_interval_rhythm c s now last u in
    elim near [
      | inl first ↦
          let one : next_interval c s now (some last) ≡ last + step_of c s =
            exact ∙ ap (λ (n : ℕ). last + suc n * step_of c s) first ∙ omega arith in
          if_each (λ n. next_interval c s now (some last) ≡ n) (ltb now (last + step_of c s))
            (λ _. one) (λ late. absurd (ground (arith, after, one, late)))
      | inr bound ↦
          if_each (λ n. next_interval c s now (some last) ≡ n) (ltb now (last + step_of c s))
            (λ early.
              let few : suc k < 2 =
                lt_of_mul-lt-mul_right (step_of c s) (ground (arith, exact, bound, early)) in
              let none_more : k ≡ 0 = omega (arith, few) in
              exact ∙ ap (λ (n : ℕ). last + suc n * step_of c s) none_more ∙ omega arith)
            (λ late.
              let reached : last + step_of c s ≤ now = ground (arith, late) in
              exact
              ∙ ap (λ (n : ℕ). last + suc n * step_of c s)
                  (steps-quotient (step_of c s) (now - last) k (step_of-pos c s u)
                    (omega (arith, after, exact, reached)) (omega (arith, bound, exact, reached))))
    ]
