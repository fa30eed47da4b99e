-- ===== src/Reports/Parse.antt =====
-- `parse_scan_report` and `parse_check_report` of src/blockcheck.py.
pub mod Usable
pub mod Total
use web_zapret.Base.{
  ℕ, Bool, true, false, not, List, [], ◌∷◌, map, Option, none, some, Result, ok, err, ◌>>=◌,
  if◌then◌else◌, pos,
}
use web_zapret.Text.{Text, codes}
use web_zapret.Dict.{lookup, get_or}
use web_zapret.Value.{
  Value, null, bool, int, float, str, list, dict, nil, Dict, pairs, of_pairs, of_elems, truthy,
  or_else, as_list, py_str, Runtime, py_int,
}
use web_zapret.Settings.{zero_float}
use web_zapret.Reports.{Doubles, float_of}

-- A report: its rows, and its other entries.
pub record Report : Type 0 where
  pub entries : Dict
  pub rows : List Dict

-- the text as JSON, if it is one; `loads` is none where `json.loads` raises `ValueError`
pub loaded : (Text → Option Value) → Value → Option Value
loaded loads (str s) = loads s
loaded loads v = some v

-- a dictionary that has strategies
pub report_of : Option Value → Option Dict
report_of none = none
report_of (some (dict fs)) = elim (lookup (codes "strategies") (pairs fs)) [
  | none ↦ none
  | some _ ↦ some (pairs fs)
]
report_of (some _) = none

-- the items of a list that are dictionaries with arguments; the others are skipped
items : List Value → List Dict
items [] = []
items (dict fs ∷ vs) =
    let rest = items vs in
    if truthy (get_or (codes "args") null (pairs fs)) then pairs fs ∷ rest else rest
items (_ ∷ vs) = items vs

share_value_of : Doubles → Value → Result Value
unfolding float_of
share_value_of rt null = ok null
share_value_of rt v = float_of rt v >>= λ x. ok (float x)

module _ (rt : Doubles) where
  -- `str(v)`
  shown : Value → Value
  shown v = str (py_str rt.runtime.repr v)

  -- `int(item.get(key, n) or n)`
  count_at : Text → ℕ → Dict → Result Value
  count_at key n item =
      py_int rt.runtime (or_else (get_or key (int (pos n)) item) (int (pos n))) >>= λ m. ok (int m)

  -- `float(item.get(key, 0.0) or 0.0)`
  float_at : Text → Dict → Result Value
  unfolding float_of
  float_at key item =
      float_of rt (or_else (get_or key (float zero_float) item) (float zero_float)) >>= λ x.
      ok (float x)

  scan_row : Dict → Result Dict
  unfolding shown count_at
  scan_row item = do
    coverage ← count_at (codes "coverage") 1 item
    ok (
        (codes "protocol", shown (get_or (codes "protocol") (str []) item))
        ∷ (codes "args", shown (get_or (codes "args") (str []) item))
        ∷ (codes "coverage", coverage)
        ∷ [])

  check_row : Dict → Result Dict
  unfolding shown count_at float_at share_value_of
  check_row item = do
    coverage ← count_at (codes "coverage") 1 item
    rate ← float_at (codes "success_rate") item
    passes_ok ← count_at (codes "passes_ok") 0 item
    passes_total ← count_at (codes "passes_total") 0 item
    share ← share_value_of rt (get_or (codes "median_share") null item)
    latency ← count_at (codes "median_latency_ms") 0 item
    speed ← float_at (codes "median_speed_kbps") item
    admits ← as_list (or_else (get_or (codes "admits") null item) (list nil))
    ok (
        (codes "protocol", shown (get_or (codes "protocol") (str []) item))
        ∷ (codes "args", shown (get_or (codes "args") (str []) item))
        ∷ (codes "coverage", coverage)
        ∷ (codes "working", bool (truthy (get_or (codes "working") (bool false) item)))
        ∷ (codes "success_rate", rate)
        ∷ (codes "passes_ok", passes_ok)
        ∷ (codes "passes_total", passes_total)
        ∷ (codes "median_share", share)
        ∷ (codes "median_latency_ms", latency)
        ∷ (codes "median_speed_kbps", speed)
        ∷ (codes "longest_silence_ms", get_or (codes "longest_silence_ms") null item)
        ∷ (codes "observed", shown (get_or (codes "observed") (str []) item))
        ∷ (codes "admits", list (of_elems (map shown admits)))
        ∷ [])

  rows_with : (Dict → Result Dict) → List Dict → Result (List Dict)
  rows_with parse [] = ok []
  rows_with parse (d ∷ ds) = do row ← parse d; rest ← rows_with parse ds; ok (row ∷ rest)

  scan_report : Option Dict → Result (Option Report)
  unfolding items rows_with scan_row count_at shown
  scan_report none = ok none
  scan_report (some report) = do
    vs ← as_list (or_else (get_or (codes "strategies") null report) (list nil))
    rows ← rows_with scan_row (items vs)
    blocked ← as_list (or_else (get_or (codes "blocked") null report) (list nil))
    total ← count_at (codes "total") 0 report
    working ← count_at (codes "working") 0 report
    ok (
        some (record {
          entries =
              (codes "domain", shown (get_or (codes "domain") (str []) report))
              ∷ (codes "block_type", shown (get_or (codes "block_type") (str []) report))
              ∷ (
                codes "dns_spoofed",
                bool (truthy (get_or (codes "dns_spoofed") (bool false) report)),
              )
              ∷ (codes "blocked", list (of_elems blocked))
              ∷ (codes "total", total)
              ∷ (codes "working", working)
              ∷ [];
          rows = rows;
        }))

  pub check_report : Option Dict → Result (Option Report)
  unfolding items rows_with check_row count_at float_at shown
  check_report none = ok none
  check_report (some report) = do
    vs ← as_list (or_else (get_or (codes "strategies") null report) (list nil))
    rows ← rows_with check_row (items vs)
    total ← count_at (codes "total") 0 report
    working ← count_at (codes "working") 0 report
    elapsed ← float_at (codes "elapsed_secs") report
    ok (
        some (record {
          entries =
              (codes "domain", shown (get_or (codes "domain") (str []) report))
              ∷ (codes "total", total)
              ∷ (codes "working", working)
              ∷ (codes "elapsed_secs", elapsed)
              ∷ (
                codes "inconclusive",
                bool (truthy (get_or (codes "inconclusive") (bool false) report)),
              )
              ∷ [];
          rows = rows;
        }))

  -- `parse_scan_report(data)`
  unfoldable pub parse_scan_report : (Text → Option Value) → Value → Result (Option Report)
  unfolding loaded report_of scan_report
  parse_scan_report loads report = scan_report (report_of (loaded loads report))

  -- `parse_check_report(data)`
  unfoldable pub parse_check_report : (Text → Option Value) → Value → Result (Option Report)
  unfolding loaded report_of check_report
  parse_check_report loads report = check_report (report_of (loaded loads report))
