-- ===== src/Harness/Encoded.antt =====
-- The result of `run` as the dictionary that is written to result.json.
use web_zapret.Base.{List, [], ◌∷◌, ◌++◌, map, Option, none, some, ℤ, pos}
use web_zapret.Text.{codes}
use web_zapret.Value.{Value, null, bool, int, str, list, dict, Dict, of_elems, of_pairs}
use web_zapret.Commands.{Run}
use web_zapret.Reports.Parse.{Report}
use web_zapret.Harness.{Dom, Summary}

abbrev pub dicts_value : List Dict → Value
dicts_value ds = list (of_elems (map (λ d. dict (of_pairs d)) ds))

rc_value : Option ℤ → Value
rc_value none = null
rc_value (some n) = int n

report_value : Option Report → Value
report_value none = null
report_value (some r) = dict (of_pairs (r.entries ++ (codes "strategies", dicts_value r.rows) ∷ []))

unfoldable pub dom_dict : Dom → Dict
unfolding rc_value report_value
dom_dict d =
    (codes "domain", d.domain)
    ∷ (codes "scan_rc", rc_value d.scan_rc)
    ∷ (codes "check_rc", rc_value d.check_rc)
    ∷ (codes "block_type", d.block_type)
    ∷ (codes "blocked", d.blocked)
    ∷ (codes "scanned", int (pos d.scanned))
    ∷ (codes "checked", int (pos d.checked))
    ∷ (codes "inconclusive", d.inconclusive)
    ∷ (codes "working", dicts_value d.working)
    ∷ (codes "refused", dicts_value d.refused)
    ∷ (codes "scan", report_value d.scan)
    ∷ (codes "check", report_value d.check)
    ∷ []

run_value : Run → Value
run_value r = dict (
    of_pairs (
      (codes "domain", r.domain)
      ∷ (codes "scan_out", str r.scan_out)
      ∷ (codes "check_out", str r.check_out)
      ∷ (codes "log", str r.log)
      ∷ (codes "scan", list (of_elems r.scan))
      ∷ (codes "check", list (of_elems r.check))
      ∷ []))

unfoldable pub result_dict : Summary → Dict
unfolding dom_dict run_value
result_dict r =
    (codes "ok", bool r.good)
    ∷ (codes "success", bool r.success)
    ∷ (codes "run_id", str r.times.run_id)
    ∷ (codes "started_at", str r.times.started_at)
    ∷ (codes "finished_at", str r.times.finished_at)
    ∷ (codes "took_s", r.times.took_s)
    ∷ (codes "queue", r.queue)
    ∷ (codes "settings", dict (of_pairs r.settings))
    ∷ (codes "plans", list (of_elems (map run_value r.plans)))
    ∷ (codes "domains", dicts_value (map dom_dict r.domains))
    ∷ (codes "errors", list (of_elems (map (λ t. str t) r.errors)))
    ∷ (codes "log", str r.log)
    ∷ []
