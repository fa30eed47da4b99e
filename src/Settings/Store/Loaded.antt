-- ===== src/Settings/Store/Loaded.antt =====
-- Every stored schedule is loaded, and what is loaded fits the specification of the schedule.
use web_zapret.Base.{ℕ, ◌≤◌, ◌≡◌, refl, ap, ◌∙◌, List, map, All, ok, ok_inj, bind_total, pos, arith}
use web_zapret.Text.{Text, codes, same, one_of}
use web_zapret.Dict.{get_or-found, insert}
use web_zapret.Value.{
  null, int, str, list, nil, dict, Fields, end, field, pairs, or_else, truthy, as_dict, Value, Dict,
  as_list,
}
use web_zapret.Schedule.{all_days}
use web_zapret.Settings.{Numbers, csv_kind, int_kind, spec, texts_value, env_defaults}
use web_zapret.Settings.Fits.{IsSpec}
use web_zapret.Settings.Fits.Defaults.{
  FitAll, IsKeyed, insert-FitAll, distinct_keys-IsKeyed, env_defaults-FitAll,
}
use web_zapret.Settings.Normalize.{Outcome, Warning, value_at, merge_values, fromkeys}
use web_zapret.Settings.Normalize.Total.{merge_values-FitAll, as_list-texts}
use web_zapret.Settings.Store.{
  schedule_spec, bound_interval, days_in, or_every_day, int_of, schedule_rules, normalize_schedule,
  schedule_of, schedule_in, load_schedule,
}
use web_zapret.Settings.Store.Saved.{bound_interval-bounds}

schedule_spec-IsSpec : All IsSpec schedule_spec
unfolding one_of same
schedule_spec-IsSpec = (
  (tt, (_, refl)),
  (
    (tt, (codes "daily", refl, refl)),
    (
      (omega arith, (360, refl, omega arith, omega arith)),
      ((tt, (_, refl)), ((tt, (all_days, refl)), ((tt, (_, refl)), tt))),
    ),
  ),
)

schedule_spec-IsKeyed : All (λ s. IsKeyed schedule_spec s) schedule_spec
unfolding same
schedule_spec-IsKeyed = distinct_keys-IsKeyed schedule_spec refl

abbrev IsFit : Dict → Type 0
IsFit out = FitAll out schedule_spec

store_days-IsFit :
    (out : Dict) (ds : List Text) → IsFit out → IsFit (insert (codes "days") (texts_value ds) out)
store_days-IsFit out ds fits =
    insert-FitAll (spec (codes "days") csv_kind (texts_value all_days)) (texts_value ds) out
      schedule_spec schedule_spec-IsKeyed.1.1.1.1.0 (ds, refl) fits

store_interval-IsFit :
    (out : Dict) (n : ℕ)
    → 5 ≤ n
    → n ≤ 10080
    → IsFit out
    → IsFit (insert (codes "interval_min") (int (pos n)) out)
store_interval-IsFit out n above below fits =
    insert-FitAll (spec (codes "interval_min") (int_kind 5 10080) (int (pos 360))) (int (pos n)) out
      schedule_spec schedule_spec-IsKeyed.1.1.0 (n, refl, above, below) fits

module _ (rt : Numbers) where
  days_listed :
      (out : Dict)
      → IsFit out
      → (ts : List Text) × (as_list (value_at (codes "days") (list nil) out)
          ≡ ok (map (λ t. str t) ts))
  days_listed out fits =
      let (ts, e) = fits.1.1.1.1.0 in
      (
        ts,
        ap as_list (get_or-found (codes "days") (list nil) null (texts_value ts) out e (λ q. cc q))
            ∙ as_list-texts ts,
      )

  minutes_read :
      (out : Dict)
      → IsFit out
      → (n : ℕ) × (int_of rt (value_at (codes "interval_min") (int (pos 360)) out) ≡ ok (pos n))
  unfolding int_of
  minutes_read out fits =
      let (n, e, _, _) = fits.1.1.0 in
      (
        n,
        ap (int_of rt) (
            get_or-found (codes "interval_min") (int (pos 360)) null (int (pos n)) out e
              (λ q. cc q)),
      )

  schedule_rules_total :
      (out : Dict) (warnings : List Warning)
      → IsFit out
      → (o : Outcome) × (schedule_rules rt out warnings ≡ ok o) × IsFit o.settings
  unfolding schedule_rules
  schedule_rules_total out warnings fits =
      let (ts, listed) = days_listed out fits in
      let ds = or_every_day (fromkeys (days_in (map (λ t. str t) ts))) in
      let cleaned = insert (codes "days") (texts_value ds) out in
      let clean_fits = store_days-IsFit out ds fits in
      let (n, read) = minutes_read cleaned clean_fits in
      let (above, below) = bound_interval-bounds (pos n) in
      bind_total (λ (o : Outcome). IsFit o.settings) _ _ _ listed
        (bind_total (λ (o : Outcome). IsFit o.settings) _ _ _ read
          (_, refl, store_interval-IsFit cleaned (bound_interval (pos n)) above below clean_fits))

  -- A schedule is loaded whatever is stored, and fits its specification.
  pub schedule_of_total :
      (environ : List (Text × Text)) (persisted : Dict)
      → (o : Outcome) × (schedule_of rt environ persisted ≡ ok o) × FitAll o.settings schedule_spec
  unfolding schedule_of normalize_schedule same
  schedule_of_total environ persisted =
      let base = env_defaults rt environ schedule_spec (codes "BCW_SCHEDULE_") in
      schedule_rules_total (merge_values rt persisted schedule_spec base).0 _ (
        merge_values-FitAll rt persisted schedule_spec schedule_spec base schedule_spec-IsSpec
          schedule_spec-IsKeyed
          (env_defaults-FitAll rt environ (codes "BCW_SCHEDULE_") schedule_spec schedule_spec-IsSpec
            refl))

  -- A file that holds an object.
  pub load_schedule-dict :
      (environ : List (Text × Text)) (fs : Fields)
      → load_schedule rt environ (dict fs) ≡ schedule_of rt environ (pairs fs)
  unfolding load_schedule schedule_in or_else truthy
  load_schedule-dict environ end = refl
  load_schedule-dict environ (field k v fs) = refl

  -- A file that holds an object, or is read as an empty one.
  pub load_schedule_object :
      (environ : List (Text × Text)) (stored : Value) (d : Dict)
      → as_dict (or_else stored (dict end)) ≡ ok d
      → load_schedule rt environ stored ≡ schedule_of rt environ d
  unfolding load_schedule schedule_in as_dict
  load_schedule_object environ stored d h = go (or_else stored (dict end)) h
    where
      go : (v : Value) → as_dict v ≡ ok d → schedule_in rt environ v ≡ schedule_of rt environ d
      go (dict fs) e = ap (schedule_of rt environ) (ok_inj e)
      go v e = cc
