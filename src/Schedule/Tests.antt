-- ===== src/Schedule/Tests.antt =====
-- Runs of the scheduler with a calendar of days of 86400 seconds, all of whose days are Mondays.
use web_zapret.Base.{
  ℕ, suc, ltb, if◌then◌else◌, ◌-◌, ◌+◌, ◌*◌, ◌/◌, ◌<◌, ◌≡◌, refl, inl, Result, ok, err, type_error,
  true, false, List, [], ◌∷◌, none, some, arith,
}
use web_zapret.Text.{Text, codes, same, text_methods}
use web_zapret.Schedule.{
  Calendar, Stamp, Schedule, next_interval, next_run_at, step_of, valid_hhmm, tick, schedule_due,
  is_armed, rearm, hour_of, minute_of, candidate, is_stamped,
}
use web_zapret.Text.Decimal.{read}
use web_zapret.Dict.{lookup, get_or, insert}
use web_zapret.Value.{Value, bool, str, dict, Fields, field, end, value_methods}
use web_zapret.Settings.{env_defaults}
use web_zapret.Settings.Tests.{numbers}
use web_zapret.Settings.Normalize.{Outcome}
use web_zapret.Settings.Store.{load_schedule}
use web_zapret.Settings.Store.Next.{Next, HasDay, loaded_schedule, next_command}
use web_zapret.Schedule.Interval.{next_interval_closed}
use web_zapret.Schedule.Later.{next_run_at-later}
use web_zapret.Schedule.Firing.{step, Event, round, save, fired, IsAscending, fired-IsAscending}

abbrev day_of : ℕ → Stamp
day_of t = record {
  year = 1970;
  month = 1;
  day = t / 86400;
  weekday = 0;
  year_day = t / 86400;
  is_dst = 0;
}

-- Ticks are seconds here.
abbrev plain_days : Calendar
plain_days = record {
  unit = 1;
  localtime = day_of;
  mktime = λ s h m. s.day * 86400 + h * 3600 + m * 60;
}

abbrev schedule_of : Text → Schedule
schedule_of mode = record {
  enabled = true;
  mode = mode;
  interval_min = 6;
  at = codes "04:30";
  days = codes "mon" ∷ [];
  run_on_start = false;
}

next_interval_closed_example :
    next_interval plain_days (schedule_of (codes "interval")) 1000 (some 100) ≡ (
      if ltb 1000 (100 + step_of plain_days (schedule_of (codes "interval")))
      then 100 + step_of plain_days (schedule_of (codes "interval"))
      else 100
        + suc ((1000 - 100) / step_of plain_days (schedule_of (codes "interval")))
          * step_of plain_days (schedule_of (codes "interval")))
next_interval_closed_example =
    next_interval_closed plain_days (schedule_of (codes "interval")) 1000 100 (omega arith)

daily_test : next_run_at plain_days (schedule_of (codes "daily")) 20000 (some 16200) ≡ some 102600
unfolding next_run_at text_methods read
daily_test = refl

next_run_at-later_example : (20000 < 102600) × (16200 < 102600)
next_run_at-later_example =
    next_run_at-later plain_days (schedule_of (codes "daily")) 20000 16200 102600 (omega arith)
      daily_test

weekly_test : next_run_at plain_days (schedule_of (codes "weekly")) 20000 none ≡ some 102600
unfolding next_run_at text_methods read
weekly_test = refl

abbrev events : List Event
events =
    round true true (schedule_of (codes "daily")) 20000
    ∷ round true true (schedule_of (codes "daily")) 102610
    ∷ save true
    ∷ []

fired_test :
    fired plain_days (record { next_run = none; last_run = some 16200 }) events ≡ 102600 ∷ []
unfolding fired step tick schedule_due is_armed rearm next_run_at text_methods read
fired_test = refl

fired-IsAscending_example :
    IsAscending
      (some 16200)
      (fired plain_days (record { next_run = none; last_run = some 16200 }) events)
fired-IsAscending_example =
    fired-IsAscending plain_days (omega arith) (record { next_run = none; last_run = some 16200 })
      events (λ _. refl, (λ _. refl, (tt, tt))) tt

-- A write that fails lets the next round fire the slot again.
again_test :
    fired plain_days
      (record { next_run = some 50; last_run = none })
      (round true false (schedule_of (codes "daily")) 60
        ∷ round true true (schedule_of (codes "daily")) 60
        ∷ [])
    ≡ 50 ∷ 50 ∷ []
unfolding fired step tick schedule_due is_armed rearm next_run_at text_methods read
again_test = refl

-- A schedule that is only enabled: every day at four.
abbrev stored : Fields
stored = field (codes "enabled") (bool true) end

abbrev outcome_in : Result Outcome → Outcome
outcome_in (ok o) = o
outcome_in (err e) = record { settings = []; warnings = []; errors = [] }

abbrev daily : Outcome
daily = outcome_in (load_schedule numbers [] (dict stored))

abbrev loaded : Schedule
loaded = loaded_schedule numbers daily.settings

second_day_test : candidate plain_days (hour_of loaded.at) (minute_of loaded.at) 20000 1 ≡ 100800
unfolding loaded_schedule load_schedule env_defaults text_methods value_methods read lookup get_or
    insert candidate hour_of minute_of
second_day_test = refl

daily_mode_test : same loaded.mode (codes "weekly") ≡ false
unfolding loaded_schedule load_schedule env_defaults text_methods value_methods read lookup get_or
    insert
daily_mode_test = refl

abbrev day : HasDay numbers plain_days loaded 20000
day = record {
  offset = 1;
  near = omega arith;
  later = omega (arith, second_day_test);
  chosen = inl daily_mode_test;
}

abbrev no_float : Value → Result ℕ
no_float v = err type_error

-- A last run that is a text raises an exception, and so does a file that holds a list.
text_test :
    next_command numbers no_float plain_days []
      (dict (field (codes "enabled") (bool true) (field (codes "last_run") (str (codes "x")) end)))
      20000
    ≡ err type_error
unfolding next_command load_schedule env_defaults text_methods value_methods read lookup get_or
    insert valid_hhmm is_stamped
text_test = refl
