-- ===== src/Settings/Store.antt =====
-- `normalize_schedule` of src/blockcheck.py, and the functions that load and save the two blocks of
-- settings. A file that is missing or broken has the value null.
pub mod Saved
pub mod Loaded
pub mod Next
use web_zapret.Base.{
  ℕ, Bool, true, false, not, ◌&&◌, ◌||◌, List, [], ◌∷◌, ◌++◌, map, any, length, max, min, ◌==◌,
  Result, ok, err, type_error, ◌>>=◌, if◌then◌else◌, ℤ, pos, negsuc,
}
use web_zapret.Text.{Text, codes, one_of, contains}
use web_zapret.Dict.{get_or, insert}
use web_zapret.Value.{
  Value, null, bool, int, str, list, nil, dict, end, Dict, pairs, elems, or_else, as_list, py_str,
}
use web_zapret.Schedule.{valid_hhmm, all_days}
use web_zapret.Settings.{
  Numbers, bool_kind, csv_kind, str_kind, int_kind, enum_kind, Spec, spec, settings_spec,
  texts_value, as_csv, env_defaults,
}
use web_zapret.Settings.Normalize.{
  Outcome, Warning, unknown_days, Problem, bad_time, value_at, report, is_empty, fromkeys, is_word,
  merge_values, normalize, settings_of,
}

-- `SCHEDULE_SPEC`
abbrev pub schedule_spec : List Spec
schedule_spec =
    spec (codes "enabled") bool_kind (bool false)
    ∷ spec (codes "mode") (enum_kind (codes "interval" ∷ codes "daily" ∷ codes "weekly" ∷ []))
        (str (codes "daily"))
    ∷ spec (codes "interval_min") (int_kind 5 10080) (int (pos 360))
    ∷ spec (codes "at") str_kind (str (codes "04:00"))
    ∷ spec (codes "days") csv_kind (texts_value all_days)
    ∷ spec (codes "run_on_start") bool_kind (bool false)
    ∷ []

-- the elements that are days
days_in : List Value → List Text
days_in [] = []
days_in (str s ∷ vs) = let rest = days_in vs in if one_of s all_days then s ∷ rest else rest
days_in (_ ∷ vs) = days_in vs

-- `… or list(DAYS)`
or_every_day : List Text → List Text
or_every_day [] = all_days
or_every_day (d ∷ ds) = d ∷ ds

-- `max(5, min(n, 10080))`
pub bound_interval : ℤ → ℕ
bound_interval (pos n) = max 5 (min n 10080)
bound_interval (negsuc n) = 5

-- `mode in ("daily", "weekly")`
pub at_time_of_day : Dict → Bool
unfolding is_word
at_time_of_day out =
    is_word (value_at (codes "mode") null out) (codes "daily")
    || is_word (value_at (codes "mode") null out) (codes "weekly")

update : List Spec → Dict → Dict → Dict
update specs [] persisted = persisted
update specs ((k, v) ∷ values) persisted =
    let known = one_of k (map (λ (s : Spec). s.key) specs) in
    update specs values (if known then insert k v persisted else persisted)

-- What a save leaves and returns: the file, the outcome, and whether it was written. The flag says that
-- the write succeeds, by `write_json`, which replaces the file as a whole or leaves it.
conclude : Bool → Dict → Dict → Outcome → Dict × Outcome × Bool
conclude writes persisted updated merged =
    if not (is_empty merged.errors)
    then (persisted, merged, false)
    else if writes
    then (updated, merged, true)
    else (persisted, merged, false)

module _ (rt : Numbers) where
  -- `str(v or "")`, which `valid_hhmm` strips and matches
  pub time_text : Dict → Text
  time_text out = py_str rt.repr (or_else (value_at (codes "at") null out) (str []))

  -- `int(v)`
  int_of : Value → Result ℤ
  int_of (int n) = ok n
  int_of (bool b) = ok (if b then pos 1 else pos 0)
  int_of null = err type_error
  int_of v = rt.to_int v

  -- `normalize_schedule` behind `normalize`
  schedule_rules : Dict → List Warning → Result Outcome
  unfolding days_in or_every_day bound_interval at_time_of_day time_text int_of
  schedule_rules out warnings = do
    values ← as_list (value_at (codes "days") (list nil) out)
    let known = days_in values
    let given = as_csv rt (value_at (codes "days") (list nil) out)
    let cleaned = insert (codes "days") (texts_value (or_every_day (fromkeys known))) out
    n ← int_of (value_at (codes "interval_min") (int (pos 360)) cleaned)
    ok (record {
      settings = insert (codes "interval_min") (int (pos (bound_interval n))) cleaned;
      warnings = warnings ++ report (not (length known == length given)) unknown_days;
      errors = report (at_time_of_day cleaned && not (valid_hhmm (time_text cleaned))) bad_time;
    })

  -- `normalize_schedule(values, base)`
  unfoldable pub normalize_schedule : Dict → Dict → Result Outcome
  unfolding merge_values schedule_rules
  normalize_schedule values base =
      let (out, warned) = merge_values rt values schedule_spec base in schedule_rules out warned

  -- `normalize_schedule(values, defaults)`, on the defaults of the environment
  unfoldable pub schedule_of : List (Text × Text) → Dict → Result Outcome
  unfolding normalize_schedule
  schedule_of environ persisted =
      normalize_schedule persisted (env_defaults rt environ schedule_spec (codes "BCW_SCHEDULE_"))

  -- `normalize_schedule` of texts that are no object
  schedule_without : Dict → Bool → Result Outcome
  unfolding schedule_rules
  schedule_without base has_key = if has_key then err type_error else schedule_rules base []

  -- `normalize_schedule` of any value that is not falsy
  pub schedule_in : List (Text × Text) → Value → Result Outcome
  unfolding schedule_of schedule_without
  schedule_in environ (dict fs) = schedule_of environ (pairs fs)
  schedule_in environ (list vs) =
      schedule_without (env_defaults rt environ schedule_spec (codes "BCW_SCHEDULE_"))
        (any (λ (s : Spec). any (λ v. is_word v s.key) (elems vs)) schedule_spec)
  schedule_in environ (str t) =
      schedule_without (env_defaults rt environ schedule_spec (codes "BCW_SCHEDULE_"))
        (any (λ (s : Spec). contains t s.key) schedule_spec)
  schedule_in environ v = err type_error

  -- `load_schedule`, of the value of the schedule's file
  unfoldable pub load_schedule : List (Text × Text) → Value → Result Outcome
  unfolding schedule_in
  load_schedule environ stored = schedule_in environ (or_else stored (dict end))

  -- `save_settings`, of the object in the file and the submitted values
  unfoldable pub save_settings :
      List (Text × Text) → Bool → Dict → Dict → Result (Dict × Outcome × Bool)
  unfolding settings_of update conclude
  save_settings environ writes persisted values =
      let updated = update settings_spec values persisted in
      settings_of rt environ updated >>= λ merged. ok (conclude writes persisted updated merged)

  -- `save_schedule`, of the object in the file and the submitted values
  pub save_schedule : List (Text × Text) → Bool → Dict → Dict → Result (Dict × Outcome × Bool)
  unfolding schedule_of update conclude
  save_schedule environ writes persisted values =
      let updated = update schedule_spec values persisted in
      schedule_of environ updated >>= λ merged. ok (conclude writes persisted updated merged)
