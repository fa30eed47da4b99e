-- ===== src/Schedule/Later.antt =====
-- When `next_run_at` puts the next run.
use web_zapret.Base.{
  ℕ, zero, suc, ◌+◌, ◌≤◌, ◌<◌, ◌≡◌, sym, ◌∙◌, subst, ◌⊎◌, inl, inr, true, false, Option, none, some,
  arith, Bool-cases,
}
use web_zapret.Text.{codes, same, one_of}
use web_zapret.Schedule.{
  Calendar, Schedule, next_interval, passed_over, candidate, first_day, anchor_of, next_run_at,
  is_stamped, weekday_name, chosen_days, valid_hhmm, hour_of, minute_of,
}
use web_zapret.Schedule.Interval.{next_interval-later}

some_inj {ℓ} : {A : Type ℓ} {a b : A} → some a ≡ some b → a ≡ b
some_inj h = cc

module _ (c : Calendar) (s : Schedule) where
  -- A day that the loop takes is one that its test does not pass over.
  first_day_sound :
      (left hour minute anchor offset t : ℕ)
      → first_day c left s hour minute anchor offset ≡ some t
      → passed_over c s anchor t ≡ false
  unfolding first_day
  first_day_sound zero hour minute anchor offset t h = cc
  first_day_sound (suc left) hour minute anchor offset t h =
      let day = candidate c hour minute anchor offset in
      elim (Bool-cases (passed_over c s anchor day)) [
        | inl over ↦ first_day_sound left hour minute anchor (suc offset) t (rw over at h)
        | inr taken ↦ subst (λ u. passed_over c s anchor u ≡ false) (some_inj (rw taken at h)) taken
      ]

  not_over-later : (anchor t : ℕ) → passed_over c s anchor t ≡ false → anchor < t
  unfolding passed_over
  not_over-later anchor t h = ground arith

  not_over-weekday :
      (anchor t : ℕ)
      → same s.mode (codes "weekly") ≡ true
      → passed_over c s anchor t ≡ false
      → one_of (weekday_name c t) (chosen_days s) ≡ true
  unfolding passed_over
  not_over-weekday anchor t weekly h = ground arith

  -- the two ways to a slot
  next_run_at-cases :
      (now : ℕ) (last : Option ℕ) (t : ℕ)
      → next_run_at c s now last ≡ some t
      → ((same s.mode (codes "interval") ≡ true) × (t ≡ next_interval c s now last))
        ⊎ ((same s.mode (codes "interval") ≡ false)
            × (passed_over c s (anchor_of now last) t ≡ false))
  unfolding next_run_at
  next_run_at-cases now last t h = elim (Bool-cases s.enabled) [
    | inr off ↦ cc (rw off at h)
    | inl on ↦ elim (Bool-cases (same s.mode (codes "interval"))) [
      | inl interval ↦ inl (interval, sym (some_inj (rw (on, interval) at h)))
      | inr other ↦ elim (Bool-cases (valid_hhmm s.at)) [
        | inr bad ↦ cc (rw (on, other, bad) at h)
        | inl valid ↦ inr (
          other,
          first_day_sound 9 (hour_of s.at) (minute_of s.at) (anchor_of now last) 0 t
              (rw (on, other, valid) at h),
        )
      ]
    ]
  ]

  anchor-bounds : (now last t : ℕ) → anchor_of now (some last) < t → (now < t) × (last < t)
  unfolding anchor_of
  anchor-bounds now last t h = omega arith

  -- For a calendar whose unit is positive, in every mode a run that follows a previous one lies after
  -- now and after that previous slot, so that no slot is used twice and an outage is not made up for.
  pub next_run_at-later :
      (now last t : ℕ)
      → 0 < c.unit
      → next_run_at c s now (some last) ≡ some t
      → (now < t) × (last < t)
  next_run_at-later now last t u h = elim (next_run_at-cases now (some last) t h) [
    | inl (interval, e) ↦
        subst (λ v. (now < v) × (last < v)) (sym e) (next_interval-later c s now last u)
    | inr (other, taken) ↦
        anchor-bounds now last t (not_over-later (anchor_of now (some last)) t taken)
  ]

  -- In the mode `weekly` a slot falls on a day that was chosen.
  pub next_run_at-weekday :
      (now : ℕ) (last : Option ℕ) (t : ℕ)
      → same s.mode (codes "weekly") ≡ true
      → same s.mode (codes "interval") ≡ false
      → next_run_at c s now last ≡ some t
      → one_of (weekday_name c t) (chosen_days s) ≡ true
  next_run_at-weekday now last t weekly other h = elim (next_run_at-cases now last t h) [
    | inl (interval, _) ↦ cc interval
    | inr (_, taken) ↦ not_over-weekday (anchor_of now last) t weekly taken
  ]

  -- A day that is passed over is not the one that is not.
  later_day :
      (hour minute anchor offset i : ℕ)
      → offset ≤ i
      → passed_over c s anchor (candidate c hour minute anchor offset) ≡ true
      → passed_over c s anchor (candidate c hour minute anchor i) ≡ false
      → suc offset ≤ i
  later_day hour minute anchor offset i lo over h = grind arith

  -- The loop takes a day, if its test lets one of the days through.
  first_day_total :
      (left hour minute anchor offset i : ℕ)
      → offset ≤ i
      → i < offset + left
      → passed_over c s anchor (candidate c hour minute anchor i) ≡ false
      → (t : ℕ) × (first_day c left s hour minute anchor offset ≡ some t)
  unfolding first_day
  first_day_total zero hour minute anchor offset i lo hi h = absurd (omega arith)
  first_day_total (suc left) hour minute anchor offset i lo hi h =
      let day = candidate c hour minute anchor offset in
      elim (Bool-cases (passed_over c s anchor day)) [
        | inr taken ↦ (day, rw taken)
        | inl over ↦
            let (t, found) =
              first_day_total left hour minute anchor (suc offset) i
                (later_day hour minute anchor offset i lo over h) (omega arith) h in
            (t, rw over found)
      ]

  daily-not_over :
      (anchor t : ℕ)
      → same s.mode (codes "weekly") ≡ false
      → anchor < t
      → passed_over c s anchor t ≡ false
  unfolding passed_over
  daily-not_over anchor t daily h = ground arith

  chosen-not_over :
      (anchor t : ℕ)
      → anchor < t
      → (same s.mode (codes "weekly") ≡ false) ⊎ (one_of (weekday_name c t) (chosen_days s) ≡ true)
      → passed_over c s anchor t ≡ false
  unfolding passed_over
  chosen-not_over anchor t h (inl daily) = daily-not_over anchor t daily h
  chosen-not_over anchor t h (inr chosen) = ground arith

  next_run_at-days :
      (now : ℕ) (last : Option ℕ)
      → s.enabled ≡ true
      → same s.mode (codes "interval") ≡ false
      → valid_hhmm s.at ≡ true
      → next_run_at c s now last
        ≡ first_day c 9 s (hour_of s.at) (minute_of s.at) (anchor_of now last) 0
  unfolding next_run_at
  next_run_at-days now last on other valid = simp (on, other, valid)

  -- A daily schedule that is enabled and has a valid time always has a next run, if the calendar's
  -- time of day two days behind the anchor (now, or the previous slot if that is later) is later than
  -- the anchor: the nine days that the loop looks at are enough.
  pub next_run_at_total :
      (now : ℕ) (last : Option ℕ)
      → s.enabled ≡ true
      → same s.mode (codes "interval") ≡ false
      → same s.mode (codes "weekly") ≡ false
      → valid_hhmm s.at ≡ true
      → anchor_of now last < candidate c (hour_of s.at) (minute_of s.at) (anchor_of now last) 2
      → (t : ℕ) × (next_run_at c s now last ≡ some t)
  next_run_at_total now last on other daily valid later =
      let anchor = anchor_of now last in
      let (t, found) =
        first_day_total 9 (hour_of s.at) (minute_of s.at) anchor 0 2 (omega arith) (omega arith) (
          daily-not_over anchor (candidate c (hour_of s.at) (minute_of s.at) anchor 2) daily
            later) in
      (t, next_run_at-days now last on other valid ∙ found)

  -- The loop ends with a day, if one of the nine days is behind the anchor and, in the mode `weekly`,
  -- falls on a chosen day.
  pub next_run_at_ahead :
      (now : ℕ) (last : Option ℕ) (i : ℕ)
      → s.enabled ≡ true
      → same s.mode (codes "interval") ≡ false
      → valid_hhmm s.at ≡ true
      → i < 9
      → anchor_of now last < candidate c (hour_of s.at) (minute_of s.at) (anchor_of now last) i
      → (same s.mode (codes "weekly") ≡ false)
        ⊎ (one_of
              (weekday_name c (candidate c (hour_of s.at) (minute_of s.at) (anchor_of now last) i))
              (chosen_days s)
            ≡ true)
      → (t : ℕ) × (next_run_at c s now last ≡ some t)
  next_run_at_ahead now last i on other valid near later chosen =
      let anchor = anchor_of now last in
      let (t, found) =
        first_day_total 9 (hour_of s.at) (minute_of s.at) anchor 0 i (omega arith) near (
          chosen-not_over anchor (candidate c (hour_of s.at) (minute_of s.at) anchor i) later
            chosen) in
      (t, next_run_at-days now last on other valid ∙ found)

  pub next_run_at-interval :
      (now : ℕ) (last : Option ℕ)
      → s.enabled ≡ true
      → same s.mode (codes "interval") ≡ true
      → next_run_at c s now last ≡ some (next_interval c s now last)
  unfolding next_run_at
  next_run_at-interval now last on interval = simp (on, interval)

pub unstamped-none :
    (c : Calendar) (s : Schedule) (now : ℕ) (last : Option ℕ)
    → is_stamped s ≡ false
    → next_run_at c s now last ≡ none
unfolding next_run_at is_stamped
unstamped-none c s now last h = ground arith
