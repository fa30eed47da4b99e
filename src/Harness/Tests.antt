-- ===== src/Harness/Tests.antt =====
-- Runs of one domain.
use web_zapret.Base.{
  List, some, All, IsOrdered, keep, take, sort_onto, ℕ, ◌≡◌, ◌+◌, refl, [], ◌∷◌, true, false, none,
  Result, ok, err, pos, Exc, type_error, ◌⊎◌, false,
}
use web_zapret.Text.{Text, before_text, codes, text_methods}
use web_zapret.Text.Decimal.{decimal, read}
use web_zapret.Dict.{lookup, get_or, insert}
use web_zapret.Value.{Value, null, int, str, dict, Dict, of_pairs, value_methods}
use web_zapret.Settings.{ltb_float, env_defaults, coerce}
use web_zapret.Settings.Floats.{same_float}
use web_zapret.Reports.{precedes, filter_reason, select_working}
use web_zapret.Reports.Parse.{parse_scan_report, parse_check_report}
use web_zapret.Reports.Tests.{doubles, source}
use web_zapret.Commands.{plan}
use web_zapret.Commands.Tests.{settings, numbers}
use web_zapret.Settings.Normalize.{Outcome, load_settings}
use web_zapret.Settings.Normalize.Total.{settings_of_total, is_object}
use mathlib.Core.List.{Perm}
use web_zapret.Logs.{drop}
use web_zapret.Harness.Pruning.{newer, prune_runs}
use web_zapret.Harness.Pruning.Newest.{NotBefore, prune_runs_newest}
use web_zapret.Harness.Main.{Printed, refused, plan_or_run, IsExit, plan_or_run-Exits}
use web_zapret.Harness.{Machine, exited, Summary}
use web_zapret.Harness.Loop.{run}
use web_zapret.Harness.Loop.Reported.{IsReported, run-IsReported}

abbrev default_settings : Dict
default_settings = (settings_of_total numbers [] []).0.settings

-- Both steps exit with a status, and leave a report with one strategy that works; the world counts the steps.
abbrev pub machine : ℕ → Machine ℕ
machine status = record {
  unit = 1;
  now = λ w. (0, w);
  utc = λ t. codes "1970-01-01T00:00:00Z";
  took = λ started ended. int (pos 0);
  last_name = λ path. codes "run";
  later = λ t v. ok 3600;
  exec = λ cmd timeout w. (exited (pos status), w + 1);
  write = λ t w. w;
  log_bytes = λ w. none;
  report = λ path w. source;
  loads = λ t. none;
  seconds = λ n. [];
  decode = λ bytes. bytes;
  reason_text = λ r. [];
}

abbrev pub summary_in : Result Summary → Summary
summary_in (ok r) = r
summary_in (err e) = record {
  good = false;
  success = false;
  times = record { run_id = []; started_at = []; finished_at = []; took_s = null };
  queue = str [];
  settings = [];
  plans = [];
  domains = [];
  errors = [];
  log = [];
}

abbrev pub good_run : Summary
good_run = summary_in (run (machine 0) doubles settings (codes "/run") 0)

pub good_test : run (machine 0) doubles settings (codes "/run") 0 ≡ ok good_run
unfolding run plan text_methods value_methods lookup get_or decimal parse_scan_report
    parse_check_report select_working insert filter_reason ltb_float
good_test = refl

success_test : good_run.success ≡ true
unfolding run plan text_methods value_methods lookup get_or decimal parse_scan_report
    parse_check_report select_working insert filter_reason precedes ltb_float same_float
success_test = refl

abbrev bad_run : Summary
bad_run = summary_in (run (machine 2) doubles settings (codes "/run") 0)

bad_test : run (machine 2) doubles settings (codes "/run") 0 ≡ ok bad_run
unfolding run plan text_methods value_methods lookup get_or decimal
bad_test = refl

error_test : bad_run.errors ≡ codes "a.org: scan failed (rc=2)" ∷ []
unfolding run plan text_methods value_methods lookup get_or decimal
error_test = refl

run-IsReported_example : IsReported doubles settings good_run
run-IsReported_example =
    run-IsReported doubles (machine 0) settings (codes "/run") 0 good_run good_test

-- A file with no protocol that is known, and no domain.
abbrev stored : Value
stored =
    dict (
      of_pairs ((codes "protocols", str (codes "ftp")) ∷ (codes "domains", str (codes "a b")) ∷ []))

abbrev exit_in : Result (ℕ × Printed) → ℕ × Printed
exit_in (ok e) = e
exit_in (err x) = (0, refused [] [])

abbrev bad_exit : ℕ × Printed
bad_exit = exit_in (plan_or_run (machine 0) doubles numbers false [] stored (codes "/run") 0)

exit_test : plan_or_run (machine 0) doubles numbers false [] stored (codes "/run") 0 ≡ ok bad_exit
unfolding plan_or_run load_settings env_defaults coerce text_methods value_methods read lookup
    get_or insert
exit_test = refl

status_test : bad_exit.0 ≡ 2
unfolding plan_or_run load_settings env_defaults coerce text_methods value_methods read lookup
    get_or insert
status_test = refl

plan_or_run-Exits_example :
    ((e : ℕ × Printed) × (plan_or_run (machine 0) doubles numbers false [] stored (codes "/run") 0
        ≡ ok e)
      × (o : Outcome) × (load_settings numbers [] stored ≡ ok o)
      × IsExit (machine 0) doubles numbers false (codes "/run") 0 o e)
    ⊎ (((is_object stored ≡ false)
          × (load_settings numbers [] stored ≡ err type_error)
          × (plan_or_run (machine 0) doubles numbers false [] stored (codes "/run") 0
              ≡ err type_error))
        ⊎ ((false ≡ false)
            × (o : Outcome) × (load_settings numbers [] stored ≡ ok o)
            × (o.errors ≡ [])
            × (x : Exc) × (run (machine 0) doubles o.settings (codes "/run") 0 ≡ err x)
            × (plan_or_run (machine 0) doubles numbers false [] stored (codes "/run") 0 ≡ err x)))
plan_or_run-Exits_example =
    plan_or_run-Exits (machine 0) doubles numbers false [] stored (codes "/run") 0

abbrev three_runs : List Text
three_runs = codes "r1" ∷ codes "r3" ∷ codes "r2" ∷ []

pruned_test : prune_runs (some three_runs) (pos 1) (λ _. true) ≡ codes "r2" ∷ codes "r1" ∷ []
unfolding prune_runs sort_onto drop before_text
pruned_test = refl

prune_runs_newest_example :
    (ranked : List Text) × Perm three_runs ranked
    × IsOrdered newer ranked
    × (prune_runs (some three_runs) (pos 1) (λ _. true) ≡ keep (λ _. true) (drop 1 ranked))
    × All
        (λ r. All (λ k. NotBefore k r) (take 1 ranked))
        (prune_runs (some three_runs) (pos 1) (λ _. true))
prune_runs_newest_example = prune_runs_newest three_runs 1 (λ _. true)
