-- ===== src/Harness/AutoImport.antt =====
-- `bcw_import` of src/panel/panel.py, as far as it runs.
use web_zapret.Base.{
  ◌≡◌, ap, ◌∙◌, Bool, true, false, not, Result, ok, err, unbound_local, if◌then◌else◌,
}
use web_zapret.Text.{Text, codes, same}
use web_zapret.Dict.{lookup, get_or}
use web_zapret.Value.{Value, null, dict, Dict, pairs, of_pairs, pairs-of_pairs, truthy}
use web_zapret.Reports.{Doubles}
use web_zapret.Harness.{Machine, Summary}
use web_zapret.Harness.Loop.{run}
use web_zapret.Harness.Encoded.{result_dict}
use web_zapret.Harness.Failure.{run_flags}

pub data Reply : Type 0 where
  not_ready no_finished_run : Reply

-- `isinstance(result, dict) and result.get("ok")`
is_finished : Value → Bool
is_finished (dict fs) = truthy (get_or (codes "ok") null (pairs fs))
is_finished v = false

-- `bcw_import(run_id, protocols, limit)`, on the result that it reads. Behind the two tests it evaluates the
-- local variable `rows` before it is assigned.
pub bcw_import : Bool → Value → Result Reply
unfolding is_finished
bcw_import ready result =
    if not ready
    then ok not_ready
    else if not (is_finished result)
    then ok no_finished_run
    else err (unbound_local (codes "rows"))

-- No run is ever imported: on the result of a run that returned with a strategy that works, `bcw_import`
-- raises an `UnboundLocalError` where the engine is ready.
pub bcw_import_raises :
    {W : Type 0} (m : Machine W) (rt : Doubles) (settings : Dict) (run_dir : Text) (w : W)
    (r : Summary)
    → run m rt settings run_dir w ≡ ok r
    → r.success ≡ true
    → bcw_import true (dict (of_pairs (result_dict r))) ≡ err (unbound_local (codes "rows"))
unfolding bcw_import is_finished result_dict get_or lookup same truthy
bcw_import_raises m rt settings run_dir w r ran worked =
    let (_, promised) = run_flags rt m settings run_dir w r ran in
    ap
      (λ d.
        if not (truthy (get_or (codes "ok") null d))
        then ok no_finished_run
        else err (unbound_local (codes "rows")))
      (pairs-of_pairs (result_dict r))
    ∙ ap (λ b. if not b then ok no_finished_run else err (unbound_local (codes "rows")))
        (promised worked)
