-- ===== src/Collector/Tests.antt =====
-- The end of a run that worked, behind a line of noise.
use web_zapret.Base.{◌≡◌, refl, true, false, [], ◌∷◌, some, none, pos}
use web_zapret.Text.{codes}
use web_zapret.Value.{Value, dict, of_pairs}
use web_zapret.Reports.Tests.{doubles}
use web_zapret.Commands.Tests.{settings}
use web_zapret.Harness.Encoded.{result_dict}
use web_zapret.Harness.Brief.Described.{brief}
use web_zapret.Harness.Tests.{machine, good_run, good_test}
use web_zapret.Collector.{Decoder, from_brace, saved_job, pruned, logged, bcw_collect}
use web_zapret.Collector.Collected.{writes_of, raised_of, is_imported, collect_run}

abbrev decoder : Value → Decoder
decoder v = record { decode = λ bytes. bytes; raw_decode = λ t. some v }

abbrev good_value : Value
good_value = dict (of_pairs (result_dict good_run))

collect_run_example :
    bcw_collect doubles.runtime
      (decoder good_value)
      true
      (codes "noise {}")
      (pos 0)
      (some good_value)
    ≡ record {
      effects = writes_of good_run.good (pos 0) good_value (brief doubles.runtime good_run);
      raised = raised_of (is_imported good_run);
    }
unfolding from_brace
collect_run_example =
    collect_run (machine 0) doubles (decoder good_value) settings (codes "/run") 0 good_run
      (codes "noise {}") (pos 0) good_test (codes "{}", refl, refl)

-- A harness that printed and left nothing.
nothing_test :
    bcw_collect doubles.runtime
      (record { decode = λ bytes. bytes; raw_decode = λ t. none })
      true
      []
      (pos 1)
      none
    ≡ record {
      effects = saved_job false (pos 1) ∷ pruned ∷ logged (codes "no result") ∷ [];
      raised = none;
    }
unfolding bcw_collect web_zapret.Value.value_methods web_zapret.Dict.get_or
nothing_test = refl
