-- ===== src/Harness/Main.antt =====
-- The commands `plan` and `run` of `main` in src/blockcheck.py, with `settings_from_file`.
use web_zapret.Base.{
  ℕ, ◌≡◌, refl, ◌⊎◌, inl, inr, ◌≢◌, Bool, true, false, not, List, [], ◌∷◌, length, Result, ok, err,
  type_error, Exc, ◌>>=◌, if◌then◌else◌, All, Ensures, ok-Ensures, >>=-Ensures, if_each, Bool-cases,
}
use web_zapret.Text.{Text}
use web_zapret.Value.{Value}
use web_zapret.Settings.{Numbers}
use web_zapret.Settings.Normalize.{Outcome, Warning, Problem, is_empty, load_settings}
use web_zapret.Settings.Normalize.Total.{is_object}
use web_zapret.Settings.Normalize.Rules.{IsConsistent, load_settings-IsConsistent}
use web_zapret.Commands.{Plan, plan}
use web_zapret.Commands.Planned.{loaded-plan_total}
use web_zapret.Commands.Embedded.{IsEmbeddedRun, plan-IsEmbedded}
use web_zapret.Reports.{Doubles}
use web_zapret.Harness.{Machine, Summary}
use web_zapret.Harness.Loop.{run}
use web_zapret.Harness.Failure.{run_flags}

-- What the command prints.
pub data Printed : Type 0 where
  refused : List Problem → List Warning → Printed
  planned : Plan → List Warning → Printed
  finished : Summary → List Warning → Printed

filled : {A : Type 0} (xs : List A) → not (is_empty xs) ≡ true → xs ≢ []
filled [] h e = cc
filled (x ∷ xs) h e = cc

emptied : {A : Type 0} (xs : List A) → not (is_empty xs) ≡ false → xs ≡ []
emptied [] h = refl
emptied (x ∷ xs) h = cc

Result-cases : {A : Type 0} (x : Result A) → ((a : A) × (x ≡ ok a)) ⊎ ((e : Exc) × (x ≡ err e))
Result-cases (ok a) = inl (a, refl)
Result-cases (err e) = inr (e, refl)

-- `0 if result["ok"] else 1`
abbrev exit_status : Bool → ℕ
exit_status good = if good then 0 else 1

module _ {W : Type 0} (m : Machine W) (rt : Doubles) (numbers : Numbers) where
  -- `run` behind the settings, with the exit status
  run_and_exit : Outcome → Text → W → Result (ℕ × Printed)
  run_and_exit o run_dir w =
      run m rt o.settings run_dir w >>= λ r. ok (exit_status r.good, finished r o.warnings)

  plan_and_exit : Outcome → Text → Result (ℕ × Printed)
  plan_and_exit o run_dir = plan rt.runtime o.settings run_dir >>= λ p. ok (0, planned p o.warnings)

  -- The commands `plan` (if the flag is set) and `run`, on the value of a settings file, null if it is
  -- missing or broken: the exit status, and what is printed. An exception ends the program with a
  -- traceback and the status 1.
  unfoldable pub plan_or_run : Bool → List (Text × Text) → Value → Text → W → Result (ℕ × Printed)
  unfolding run_and_exit plan_and_exit
  plan_or_run is_plan environ stored run_dir w = load_settings numbers environ stored >>= λ o.
      if not (is_empty o.errors)
      then ok (2, refused o.errors o.warnings)
      else if is_plan
      then plan_and_exit o run_dir
      else run_and_exit o run_dir w

  -- The exit status and what it stands for, under the settings that were loaded, of the command `plan` or
  -- `run`, which made the plan or the run that it prints.
  abbrev pub IsExit : Bool → Text → W → Outcome → ℕ × Printed → Type 0
  IsExit is_plan run_dir w o (status, refused ps ws) = (status ≡ 2) × (ps ≡ o.errors) × (ps ≢ [])
  IsExit is_plan run_dir w o (status, planned p ws) =
      (is_plan ≡ true)
      × (status ≡ 0)
      × (o.errors ≡ [])
      × IsConsistent numbers o.settings
      × (plan rt.runtime o.settings run_dir ≡ ok p)
      × All (IsEmbeddedRun o.settings) p.runs
  IsExit is_plan run_dir w o (status, finished r ws) =
      (is_plan ≡ false)
      × (o.errors ≡ [])
      × IsConsistent numbers o.settings
      × (run m rt o.settings run_dir w ≡ ok r)
      × (((status ≡ 0) × (r.good ≡ true))
          ⊎ ((status ≡ 1) × (r.good ≡ false) × (length r.errors ≡ length r.plans)))

  status_of :
      (r : Summary)
      → (r.good ≡ false → length r.errors ≡ length r.plans)
      → ((exit_status r.good ≡ 0) × (r.good ≡ true))
        ⊎ ((exit_status r.good ≡ 1) × (r.good ≡ false) × (length r.errors ≡ length r.plans))
  status_of r told = elim (Bool-cases r.good) [
    | inl good ↦ inl (rw good refl, good)
    | inr bad ↦ inr (rw bad refl, bad, told bad)
  ]

  abbrev Exits : Bool → Text → W → List (Text × Text) → Value → ℕ × Printed → Type 0
  Exits is_plan run_dir w environ stored e =
      (o : Outcome) × (load_settings numbers environ stored ≡ ok o) × IsExit is_plan run_dir w o e

  -- Where the command returns, it exits as it should.
  returned-IsExit :
      (is_plan : Bool) (environ : List (Text × Text)) (stored : Value) (run_dir : Text) (w : W)
      (e : ℕ × Printed)
      → plan_or_run is_plan environ stored run_dir w ≡ ok e
      → (o : Outcome) × (load_settings numbers environ stored ≡ ok o) × IsExit is_plan run_dir w o e
  unfolding plan_or_run run_and_exit plan_and_exit
  returned-IsExit is_plan environ stored run_dir w =
      let P = Exits is_plan run_dir w environ stored in
      >>=-Ensures P (load_settings numbers environ stored) _ (λ o loaded.
        if_each (Ensures P) (not (is_empty o.errors))
          (λ e. ok-Ensures P (o, loaded, (refl, refl, filled o.errors e)))
          (λ e.
            let clear = emptied o.errors e in
            let rules = load_settings-IsConsistent numbers environ stored o loaded clear in
            if_each (Ensures P) is_plan
              (λ planning. >>=-Ensures P (plan rt.runtime o.settings run_dir) _ (λ p made.
                ok-Ensures P (
                  o,
                  loaded,
                  (
                    planning,
                    refl,
                    clear,
                    rules,
                    made,
                    plan-IsEmbedded rt.runtime o.settings run_dir p made,
                  ),
                )))
              (λ running. >>=-Ensures P (run m rt o.settings run_dir w) _ (λ r ran.
                let (told, _) = run_flags rt m o.settings run_dir w r ran in
                ok-Ensures P (o, loaded, (running, clear, rules, ran, status_of r told))))))

  -- How the commands `plan` and `run` end, whatever the file and the environment hold. They exit: with 2
  -- where the settings have errors, and then nothing is planned or run; otherwise the settings have no errors
  -- and keep the cross-field rules, and the status is 0 for `plan`, which prints the plan under them, whose
  -- command lines all run embedded; 0 for `run` where a scan of the run under them exited with 0, and 1 for
  -- one without, which has an error for each plan. Or they end in an exception: in a `TypeError` while the
  -- settings are loaded, only if the file holds a value other than an object, or, for `run` only and with
  -- settings without errors, in the one that the run itself raises.
  pub plan_or_run-Exits :
      (is_plan : Bool) (environ : List (Text × Text)) (stored : Value) (run_dir : Text) (w : W)
      → ((e : ℕ × Printed) × (plan_or_run is_plan environ stored run_dir w ≡ ok e)
          × (o : Outcome) × (load_settings numbers environ stored ≡ ok o)
          × IsExit is_plan run_dir w o e)
        ⊎ (((is_object stored ≡ false)
              × (load_settings numbers environ stored ≡ err type_error)
              × (plan_or_run is_plan environ stored run_dir w ≡ err type_error))
            ⊎ ((is_plan ≡ false)
                × (o : Outcome) × (load_settings numbers environ stored ≡ ok o)
                × (o.errors ≡ [])
                × (x : Exc) × (run m rt o.settings run_dir w ≡ err x)
                × (plan_or_run is_plan environ stored run_dir w ≡ err x)))
  unfolding plan_or_run run_and_exit plan_and_exit
  plan_or_run-Exits is_plan environ stored run_dir w =
      elim (loaded-plan_total rt.runtime numbers environ stored run_dir) [
        | inl (o, loaded, ds, _, p, made, _) ↦ elim (Bool-cases (not (is_empty o.errors))) [
          | inl bad ↦
              let end : plan_or_run is_plan environ stored run_dir w
                  ≡ ok (2, refused o.errors o.warnings) =
                rw (loaded, bad) refl in
              let (o₁, same, exit) = returned-IsExit is_plan environ stored run_dir w _ end in
              inl (_, end, o₁, same, exit)
          | inr clear ↦ elim (Bool-cases is_plan) [
            | inl planning ↦
                let end : plan_or_run is_plan environ stored run_dir w
                    ≡ ok (0, planned p o.warnings) =
                  rw (loaded, clear, planning, made) refl in
                let (o₁, same, exit) = returned-IsExit is_plan environ stored run_dir w _ end in
                inl (_, end, o₁, same, exit)
            | inr running ↦ elim (Result-cases (run m rt o.settings run_dir w)) [
              | inl (r, ran) ↦
                  let end : plan_or_run is_plan environ stored run_dir w
                      ≡ ok (exit_status r.good, finished r o.warnings) =
                    rw (loaded, clear, running, ran) refl in
                  let (o₁, same, exit) = returned-IsExit is_plan environ stored run_dir w _ end in
                  inl (_, end, o₁, same, exit)
              | inr (x, raised) ↦ inr (
                  inr (
                    running,
                    o,
                    loaded,
                    emptied o.errors clear,
                    x,
                    raised,
                    rw (loaded, clear, running, raised) refl,
                  ))
            ]
          ]
        ]
        | inr (other, failed) ↦ inr (inl (other, failed, rw failed refl))
      ]
