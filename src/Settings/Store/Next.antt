-- ===== src/Settings/Store/Next.antt =====
-- The command `next` of `main` in src/blockcheck.py: the next run of a schedule that is loaded, as the loop
-- of src/panel/panel.py computes it too.
use web_zapret.Base.{
  ℕ, ◌<◌, ◌≡◌, ◌⊎◌, true, false, if◌then◌else◌, List, [], ◌∷◌, Option, none, some, Result, ok,
  ◌>>=◌, pos,
}
use web_zapret.Text.{Text, codes, same, one_of}
use web_zapret.Value.{Value, null, int, str, list, as_dict, Dict, elems, truthy}
use web_zapret.Schedule.{
  Schedule, Calendar, is_stamped, next_run_at, hour_of, minute_of, anchor_of, candidate,
  weekday_name, chosen_days,
}
use web_zapret.Dict.{get_or}
use web_zapret.Settings.{Numbers}
use web_zapret.Settings.Normalize.{Warning, Problem, value_at}
use web_zapret.Settings.Store.{load_schedule, time_text}

-- A value that is compared with texts.
text_in : Value → Text
text_in (str s) = s
text_in v = []

texts_in : List Value → List Text
texts_in [] = []
texts_in (str s ∷ vs) = s ∷ texts_in vs
texts_in (v ∷ vs) = texts_in vs

days_of : Value → List Text
unfolding texts_in elems
days_of (list vs) = texts_in (elems vs)
days_of v = []

minutes_of : Value → ℕ
minutes_of (int (pos n)) = n
minutes_of v = 0

module _ (rt : Numbers) where
  -- The fields of a loaded schedule, as `next_run_at` reads them.
  unfoldable pub loaded_schedule : Dict → Schedule
  unfolding text_in days_of minutes_of
  loaded_schedule out = record {
    enabled = truthy (value_at (codes "enabled") null out);
    mode = text_in (value_at (codes "mode") (str (codes "daily")) out);
    interval_min = minutes_of (value_at (codes "interval_min") (int (pos 360)) out);
    at = time_text rt out;
    days = days_of (value_at (codes "days") null out);
    run_on_start = truthy (value_at (codes "run_on_start") null out);
  }

  -- What the command prints.
  pub record Next : Type 0 where
    pub schedule : Dict
    pub warnings : List Warning
    pub errors : List Problem
    pub next_run : Option ℕ

  -- `float(last_run)`, if there is one; `to_ticks` is `float` of a value, in ticks.
  unfoldable pub last_ticks : (Value → Result ℕ) → Value → Result (Option ℕ)
  last_ticks to_ticks null = ok none
  last_ticks to_ticks v = to_ticks v >>= λ t. ok (some t)

  -- `next_run_at(schedule, now, last_run)` of the value in the file, which is read only where it is used
  next_stamp : (Value → Result ℕ) → Calendar → Schedule → ℕ → Value → Result (Option ℕ)
  unfolding last_ticks
  next_stamp to_ticks c s now v =
      if is_stamped s
      then (last_ticks to_ticks v >>= λ last. ok (next_run_at c s now last))
      else ok none

  -- The command on the value of its file, which is an empty object if there is no file, at an instant.
  unfoldable pub next_command :
      (Value → Result ℕ) → Calendar → List (Text × Text) → Value → ℕ → Result Next
  unfolding loaded_schedule next_stamp
  next_command to_ticks c environ file now = do
    o ← load_schedule rt environ file
    values ← as_dict file
    stamp ←
        next_stamp to_ticks c (loaded_schedule o.settings) now
          (get_or (codes "last_run") null values)
    ok (record {
      schedule = o.settings;
      warnings = o.warnings;
      errors = o.errors;
      next_run = stamp;
    })

  -- A day within nine behind the anchor (now, or the last run if that is later) at the set time: it is later
  -- than the anchor, and in the mode `weekly` it is a chosen one.
  pub record HasDay (c : Calendar) (s : Schedule) (anchor : ℕ) : Type 0 where
    pub offset : ℕ
    pub near : offset < 9
    pub later : anchor < candidate c (hour_of s.at) (minute_of s.at) anchor offset
    pub chosen :
        (same s.mode (codes "weekly") ≡ false)
        ⊎ (one_of
              (weekday_name c (candidate c (hour_of s.at) (minute_of s.at) anchor offset))
              (chosen_days s)
            ≡ true)

  -- The mode is `interval`, or there is such a day.
  abbrev pub IsDue : Calendar → Schedule → ℕ → Option ℕ → Type 0
  IsDue c s now last = (same s.mode (codes "interval") ≡ true) ⊎ HasDay c s (anchor_of now last)
