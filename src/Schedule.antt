-- ===== src/Schedule.antt =====
-- The scheduler of src/blockcheck.py (`valid_hhmm`, `next_run_at`, `schedule_due`) and the loop of
-- src/panel/panel.py that fires it (`_bcw_scheduler`).
--
-- Instants are counted in ticks, `unit` of them to a second. Python's instants are doubles; those
-- between the years 2004 and 2106 are multiples of 2 ^ -22 seconds, and so are their sums with whole
-- seconds: `unit` is 2 ^ 22 for them, and the theorems hold for every unit.
pub mod Interval
pub mod Later
pub mod Firing
pub mod Tests
use web_zapret.Base.{
  ℕ, zero, suc, ◌+◌, ◌-◌, ◌*◌, ◌/◌, Bool, true, false, not, ◌&&◌, ◌||◌, List, [], ◌∷◌, ◌++◌, keep,
  max, Option, none, some, ltb, leb, ◌==◌, if◌then◌else◌,
}
use web_zapret.Text.{Text, codes, same, one_of, before, after, strip}
use web_zapret.Text.Decimal.{read}

is_digit : ℕ → Bool
is_digit c = leb b'0' c && leb c b'9'

-- `([01]?\d|2[0-3])`
is_hour : Text → Bool
unfolding is_digit
is_hour (c ∷ []) = is_digit c
is_hour (c ∷ d ∷ []) =
    ((c == b'0' || c == b'1') && is_digit d) || (c == b'2' && (leb b'0' d && leb d b'3'))
is_hour _ = false

-- `[0-5]\d`
is_minute : Text → Bool
unfolding is_digit
is_minute (c ∷ d ∷ []) = (leb b'0' c && leb c b'5') && is_digit d
is_minute _ = false

-- `valid_hhmm(text)` of a text
unfoldable pub valid_hhmm : Text → Bool
unfolding is_hour is_minute
valid_hhmm text = let s = strip text in is_hour (before b':' s) && is_minute (after b':' s)

-- The normalised schedule settings.
pub record Schedule : Type 0 where
  pub enabled : Bool
  pub mode : Text
  pub interval_min : ℕ
  pub at : Text
  pub days : List Text
  pub run_on_start : Bool

-- `time.struct_time` as far as it is read: the day, and its place in the week (Monday is 0).
pub record Stamp : Type 0 where
  pub year : ℕ
  pub month : ℕ
  pub day : ℕ
  pub weekday : ℕ
  pub year_day : ℕ
  pub is_dst : ℕ

-- The C library's calendar: `localtime` of an instant in ticks, and `mktime` of a day with an hour and
-- a minute, in whole seconds.
pub record Calendar : Type 0 where
  pub unit : ℕ
  pub localtime : ℕ → Stamp
  pub mktime : Stamp → ℕ → ℕ → ℕ

abbrev pub all_days : List Text
all_days =
    codes "mon"
    ∷ codes "tue"
    ∷ codes "wed"
    ∷ codes "thu"
    ∷ codes "fri"
    ∷ codes "sat"
    ∷ codes "sun"
    ∷ []

-- `DAYS[i]`
abbrev pub day_name : ℕ → List Text → Text
day_name i [] = []
day_name zero (d ∷ ds) = d
day_name (suc i) (d ∷ ds) = day_name i ds

-- `[…] or list(DAYS)`
or_all_days : List Text → List Text
or_all_days [] = all_days
or_all_days (d ∷ ds) = d ∷ ds

pub chosen_days : Schedule → List Text
unfolding or_all_days
chosen_days s = or_all_days (keep (λ d. one_of d all_days) s.days)

-- `while target <= now: target += step`
pub catch_up : ℕ → ℕ → ℕ → ℕ → ℕ
catch_up zero step now target = target
catch_up (suc fuel) step now target =
    let later = catch_up fuel step now (target + step) in if leb target now then later else target

pub anchor_of : ℕ → Option ℕ → ℕ
anchor_of now none = now
anchor_of now (some last) = max now last

pub hour_of : Text → ℕ
hour_of at = read 0 (before b':' (strip at))

pub minute_of : Text → ℕ
minute_of at = read 0 (after b':' (strip at))

module _ (c : Calendar) where
  -- the step of the mode `interval`, in ticks
  pub step_of : Schedule → ℕ
  step_of s = max 5 s.interval_min * 60 * c.unit

  pub next_interval : Schedule → ℕ → Option ℕ → ℕ
  unfolding step_of catch_up
  next_interval s now none = if s.run_on_start then now else now + step_of s
  next_interval s now (some last) = catch_up (suc now) (step_of s) now (last + step_of s)

  -- the day `offset` days behind the anchor, at the set time, in ticks
  pub candidate : ℕ → ℕ → ℕ → ℕ → ℕ
  candidate hour minute anchor offset =
      c.mktime (c.localtime (anchor + offset * 24 * 3600 * c.unit)) hour minute * c.unit

  pub weekday_name : ℕ → Text
  weekday_name t = day_name (c.localtime t).weekday all_days

  -- the test that makes the loop go on
  passed_over : Schedule → ℕ → ℕ → Bool
  unfolding weekday_name chosen_days
  passed_over s anchor t =
      leb t anchor
      || (same s.mode (codes "weekly") && not (one_of (weekday_name t) (chosen_days s)))

  -- the loop over the days from `offset` on, `left` of them
  first_day : ℕ → Schedule → ℕ → ℕ → ℕ → ℕ → Option ℕ
  unfolding candidate passed_over
  first_day zero s hour minute anchor offset = none
  first_day (suc left) s hour minute anchor offset =
      let rest = first_day left s hour minute anchor (suc offset) in
      let t = candidate hour minute anchor offset in if passed_over s anchor t then rest else some t

  pub next_run_at : Schedule → ℕ → Option ℕ → Option ℕ
  unfolding next_interval first_day anchor_of hour_of minute_of valid_hhmm
  next_run_at s now last =
      if not s.enabled
      then none
      else if same s.mode (codes "interval")
      then some (next_interval s now last)
      else if not (valid_hhmm s.at)
      then none
      else first_day 9 s (hour_of s.at) (minute_of s.at) (anchor_of now last) 0

-- The tests of `next_run_at` in front of the use of the last run.
unfoldable pub is_stamped : Schedule → Bool
unfolding valid_hhmm
is_stamped s = s.enabled && (same s.mode (codes "interval") || valid_hhmm s.at)

-- `schedule_due(schedule, now, next_run)`
pub schedule_due : Schedule → ℕ → Option ℕ → Bool
schedule_due s now none = false
schedule_due s now (some t) = s.enabled && leb t now

-- The keys of the schedule's state file that the loop reads and writes.
pub record Slots : Type 0 where
  pub next_run : Option ℕ
  pub last_run : Option ℕ

-- `bool(state.get("next_run"))`
pub is_armed : Option ℕ → Bool
is_armed none = false
is_armed (some t) = not (t == 0)

-- One round of `_bcw_scheduler` behind its sleep: the state that it leaves, and the slot for which it
-- starts a run. The first flag says that the engine is ready, the second one that the write of the state
-- succeeds, whose outcome the round does not look at: the slot is fired all the same.
pub tick : Calendar → Bool → Bool → Schedule → ℕ → Slots → Slots × Option ℕ
unfolding is_armed schedule_due
tick c ready writes s now st =
    if not ready
    then (st, none)
    else if not s.enabled
    then (if is_armed st.next_run && writes then record st { next_run = none } else st, none)
    else if not (is_armed st.next_run)
    then (if writes then record st { next_run = next_run_at c s now st.last_run } else st, none)
    else if not (schedule_due s now st.next_run)
    then (st, none)
    else (
      if writes
          then record { next_run = next_run_at c s now st.next_run; last_run = st.next_run }
          else st,
      st.next_run,
    )

-- What POST /api/bcw/schedule does to the state behind a saved schedule: the slot is computed anew.
pub rearm : Slots → Slots
rearm st = record st { next_run = none }
