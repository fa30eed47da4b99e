-- ===== src/Reports/Tests.antt =====
-- A run of the selection on three rows.
use web_zapret.Base.{
  ◌≡◌, refl, List, [], ◌∷◌, length, Bool, true, false, Option, none, some, Result, ok, err,
  type_error,
}
use mathlib.Core.List.{Perm}
use web_zapret.Text.{codes, text_methods}
use web_zapret.Dict.{lookup, get_or}
use web_zapret.Value.{
  Float, ratio, Value, bool, float, str, list, dict, cons, nil, field, end, Dict, value_methods,
}
use web_zapret.Settings.{ltb_float, Numbers}
use web_zapret.Settings.Normalize.Total.{settings_of_total}
use web_zapret.Settings.Floats.{same_float}
use web_zapret.Reports.{Doubles, Selection, Ranked, precedes, filter_reason, rank, select_working}
use web_zapret.Reports.Order.{AreRanked, rows_of}
use web_zapret.Reports.Selected.{IsSelection, select_working-IsSelection}
use web_zapret.Reports.Parse.{Report, parse_check_report}

abbrev pub doubles : Doubles
doubles = record {
  runtime = record { repr = λ v. []; to_int = λ v. err type_error; percent = λ v. ok (codes "1%") };
  to_float = λ v. err type_error;
  less = λ v x. err type_error;
}

abbrev row_of : Bool → Float → Dict
row_of working rate = (codes "working", bool working) ∷ (codes "success_rate", float rate) ∷ []

abbrev three_rows : List Dict
three_rows =
    row_of false (ratio false 1 0)
    ∷ row_of true (ratio false 1 1)
    ∷ row_of true (ratio false 1 0)
    ∷ []

abbrev selection_of : Result Selection → Selection
selection_of (ok s) = s
selection_of (err e) = record { accepted = []; refused = [] }

abbrev selection : Selection
selection = selection_of (select_working doubles three_rows [])

selection_test : select_working doubles three_rows [] ≡ ok selection
unfolding select_working filter_reason precedes text_methods value_methods lookup get_or ltb_float
selection_test = refl

accepted_test :
    selection.accepted ≡ row_of true (ratio false 1 0) ∷ row_of true (ratio false 1 1) ∷ []
unfolding select_working filter_reason rank precedes same_float text_methods value_methods lookup
    get_or ltb_float
accepted_test = refl

select_working-IsSelection_example :
    (ranked : List Ranked) × AreRanked doubles ranked
    × Perm three_rows (rows_of ranked)
    × IsSelection doubles [] (rows_of ranked) selection
select_working-IsSelection_example =
    select_working-IsSelection doubles three_rows [] selection selection_test

abbrev numbers : Numbers
numbers = record {
  repr = λ v. [];
  to_float = λ t. none;
  is_far = λ x v. false;
  to_int = λ v. err type_error;
  greater = λ a b. err type_error;
}

abbrev default_settings : Dict
default_settings = (settings_of_total numbers [] []).0.settings

abbrev pub source : Value
source = dict (
    field (codes "strategies")
      (list (
        cons (str (codes "x")) (
          cons
            (dict
              (field (codes "args") (str (codes "--a")) (field (codes "working") (bool true) end)))
            nil)))
      end)

abbrev report_in : Result (Option Report) → Report
report_in (ok (some r)) = r
report_in _ = record { entries = []; rows = [] }

abbrev check : Report
check = report_in (parse_check_report doubles (λ t. none) source)

one_row_test : length check.rows ≡ 1
unfolding parse_check_report text_methods value_methods lookup get_or
one_row_test = refl
