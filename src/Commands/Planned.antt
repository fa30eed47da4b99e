-- ===== src/Commands/Planned.antt =====
-- `plan` on the settings that `load_settings` returns.
use web_zapret.Base.{
  Returns, err, type_error, false, ◌⊎◌, inl, inr, ℕ, ◌≡◌, refl, ap, List, [], ◌∷◌, map, Option,
  none, some, ok, bind_total, ℤ, pos,
}
use web_zapret.Text.{Text, codes}
use web_zapret.Dict.{get_or-lookup}
use web_zapret.Value.{Value, null, str, int, Dict, texts_of-texts, int_text, Runtime, py_int}
use web_zapret.Settings.{Numbers, settings_spec, texts_value}
use web_zapret.Settings.Fits.Defaults.{FitAll}
use web_zapret.Settings.Normalize.{Outcome, value_at, load_settings}
use web_zapret.Settings.Normalize.Total.{is_object, load_settings_total, as_list-texts}
use web_zapret.Commands.{
  Run, Plan, required_of, required, number, shown, joined, globals, scan_argv, check_argv, run_of,
  runs_of, plan,
}

-- A key with a value is found.
found :
    (key : Text) (v : Value) (settings : Dict)
    → value_at key null settings ≡ v
    → ¬ (v ≡ null)
    → required key settings ≡ ok v
unfolding required required_of
found key v settings h given =
    ap (λ o. required_of key o) (get_or-lookup key null v settings h given)

found_text :
    (key t : Text) (settings : Dict)
    → value_at key null settings ≡ str t
    → required key settings ≡ ok (str t)
found_text key t settings h = found key (str t) settings h cc

module _ (rt : Runtime) (settings : Dict) where
  found_number :
      (key : Text) (n : ℕ)
      → value_at key null settings ≡ int (pos n)
      → number rt key settings ≡ ok (pos n)
  unfolding number py_int
  found_number key n h = rw (found key (int (pos n)) settings h cc) refl

  found_shown :
      (key : Text) (n : ℕ)
      → value_at key null settings ≡ int (pos n)
      → shown rt key settings ≡ ok (str (int_text (pos n)))
  unfolding shown
  found_shown key n h = rw (found_number key n h) refl

  globals_total :
      (workers : Option ℤ) → FitAll settings settings_spec → Returns (globals rt settings workers)
  unfolding globals
  globals_total workers fits =
      let (bin, e) = fits.1.0 in
      let (n, f, _, _) = fits.1.1.1.1.1.1.1.1.0 in
      bind_total (λ _. Unit {0}) _ _ _ (found_text (codes "bin") bin settings e)
        (bind_total (λ _. Unit {0}) _ _ _ (found_number (codes "profiles_per_instance") n f)
          (_, refl, tt))

  joined_total : FitAll settings settings_spec → Returns (joined rt settings)
  unfolding joined
  joined_total fits =
      let (ts, e) = fits.1.1.1.1.1.0 in
      bind_total (λ _. Unit {0}) _ _ _ (found (codes "protocols") (texts_value ts) settings e cc)
        (bind_total (λ _. Unit {0}) _ _ _ (as_list-texts ts)
          (bind_total (λ _. Unit {0}) _ _ _ (texts_of-texts ts) (_, refl, tt)))

  scan_argv_total :
      (domain : Value) (scan_out : Text)
      → FitAll settings settings_spec
      → Returns (scan_argv rt settings domain scan_out)
  unfolding scan_argv
  scan_argv_total domain scan_out fits =
      let U = λ (_ : List Value). Unit {0} in
      let (dns, e, _) = fits.1.1.1.1.1.1.0 in
      let (workers, f, _, _) = fits.1.1.1.1.1.1.1.0 in
      let (timeout, g, _, _) = fits.1.1.1.1.1.1.1.1.1.1.1.1.0 in
      let (top, k, _, _) = fits.1.1.1.1.1.1.1.1.1.1.1.1.1.0 in
      let (args, flagged, _) = globals_total (some (pos workers)) fits in
      let (protocols, listed, _) = joined_total fits in
      bind_total U _ _ _ (found_number (codes "workers") workers f) (
        bind_total U _ _ args flagged (
          bind_total U _ _ protocols listed (
            bind_total U _ _ _ (found_text (codes "dns") dns settings e) (
              bind_total U _ _ _ (found_shown (codes "scan_timeout") timeout g)
                (bind_total U _ _ _ (found_shown (codes "scan_top") top k) (_, refl, tt))))))

  check_argv_total :
      (domain : Value) (scan_out check_out : Text)
      → FitAll settings settings_spec
      → Returns (check_argv rt settings domain scan_out check_out)
  unfolding check_argv
  check_argv_total domain scan_out check_out fits =
      let U = λ (_ : List Value). Unit {0} in
      let (dns, e, _) = fits.1.1.1.1.1.1.0 in
      let late = fits.1.1.1.1.1.1.1.1.1.1.1.1.1.1 in
      let (passes, e₁, _, _) = late.0 in
      let (take_n, e₂, _, _) = late.1.0 in
      let (timeout, e₃, _, _) = late.1.1.0 in
      let (idle, e₄, _, _) = late.1.1.1.0 in
      let (probe, e₅) = late.1.1.1.1.0 in
      let (identity, e₆) = late.1.1.1.1.1.0 in
      let (args, flagged, _) = globals_total none fits in
      bind_total U _ _ args flagged (
        bind_total U _ _ _ (found_text (codes "dns") dns settings e) (
          bind_total U _ _ _ (found_shown (codes "check_timeout") timeout e₃) (
            bind_total U _ _ _ (found_shown (codes "idle_ms") idle e₄) (
              bind_total U _ _ _ (found_shown (codes "take") take_n e₂) (
                bind_total U _ _ _ (found_shown (codes "passes") passes e₁) (
                  bind_total U _ _ _ (found_text (codes "probe_path") probe settings e₅) (
                    bind_total U _ _ _ (found_text (codes "identity_path") identity settings e₆)
                      (_, refl, tt))))))))

  run_of_total :
      (run_dir : Text) (domain : Value)
      → FitAll settings settings_spec
      → (run : Run) × (run_of rt run_dir settings domain ≡ ok run) × (run.domain ≡ domain)
  unfolding run_of
  run_of_total run_dir domain fits =
      let P = λ (r : Run). r.domain ≡ domain in
      let (scan, scanned, _) = scan_argv_total domain _ fits in
      let (check, checked, _) = check_argv_total domain _ _ fits in
      bind_total P _ _ scan scanned (bind_total P _ _ check checked (_, refl, refl))

  runs_of_total :
      (run_dir : Text) (vs : List Value)
      → FitAll settings settings_spec
      → (runs : List Run) × (runs_of rt run_dir settings vs ≡ ok runs)
        × (map (λ (r : Run). r.domain) runs ≡ vs)
  unfolding runs_of
  runs_of_total run_dir [] fits = ([], refl, refl)
  runs_of_total run_dir (v ∷ vs) fits =
      let P = λ (rs : List Run). map (λ (r : Run). r.domain) rs ≡ v ∷ vs in
      let (run, first, e) = run_of_total run_dir v fits in
      let (rest, others, f) = runs_of_total run_dir vs fits in
      bind_total P _ _ run first (bind_total P _ _ rest others (_, refl, rw (e, f) refl))

  plan_total :
      (run_dir : Text)
      → (fits : FitAll settings settings_spec)
      → (p : Plan) × (plan rt settings run_dir ≡ ok p)
        × (map (λ (r : Run). r.domain) p.runs ≡ map (λ t. str t) fits.1.1.1.1.0.0)
  unfolding plan
  plan_total run_dir fits =
      let (ts, e) = fits.1.1.1.1.0 in
      let (bin, f) = fits.1.0 in
      let (queue, g, _, _) = fits.1.1.1.1.1.1.1.1.1.0 in
      let P = λ (p : Plan). map (λ (r : Run). r.domain) p.runs ≡ map (λ t. str t) ts in
      let (runs, planned, same_domains) = runs_of_total run_dir (map (λ t. str t) ts) fits in
      bind_total P _ _ _ (found (codes "domains") (texts_value ts) settings e cc) (
        bind_total P _ _ _ (as_list-texts ts) (
          bind_total P _ _ runs planned (
            bind_total P _ _ _ (found_text (codes "bin") bin settings f) (
              bind_total P _ _ _ (found (codes "queue") (int (pos queue)) settings g cc)
                (_, refl, same_domains)))))

-- The settings of the panel and their command lines: whatever the environment holds, if the panel's file
-- holds an object, or is missing, broken or falsy, the settings are loaded, and `plan` makes the command
-- lines of one run for each of their domains, in the order of the list. If it holds any other value, the
-- same holds or a `TypeError` is raised.
pub loaded-plan_total :
    (rt : Runtime) (numbers : Numbers) (environ : List (Text × Text)) (stored : Value)
    (run_dir : Text)
    → ((r : Outcome) × (load_settings numbers environ stored ≡ ok r)
        × (ds : List Text) × (value_at (codes "domains") null r.settings ≡ texts_value ds)
        × (p : Plan) × (plan rt r.settings run_dir ≡ ok p)
        × (map (λ (run : Run). run.domain) p.runs ≡ map (λ d. str d) ds))
      ⊎ ((is_object stored ≡ false) × (load_settings numbers environ stored ≡ err type_error))
loaded-plan_total rt numbers environ stored run_dir =
    elim (load_settings_total numbers environ stored) [
      | inl (r, loaded, fits) ↦
          let (ds, listed) = fits.1.1.1.1.0 in
          let (p, planned, domains) = plan_total rt r.settings run_dir fits in
          inl (r, loaded, ds, listed, p, planned, domains)
      | inr failed ↦ inr failed
    ]
