-- ===== src/Upload/Tests.antt =====
-- An upload of two strategies into a catalog that has the id of one of them.
use web_zapret.Base.{
  ℕ, Bool, not, ◌≡◌, refl, List, [], ◌∷◌, map, true, Result, ok, err, type_error, pos, leb,
}
use web_zapret.Text.{Text, codes, text_methods}
use web_zapret.Text.Shlex.{shlex_split}
use web_zapret.Text.Decimal.{decimal}
use web_zapret.Dict.{lookup, get_or, insert}
use web_zapret.Value.{Value, int, str, list, dict, Dict, of_elems, of_pairs, value_methods, as_dict}
use web_zapret.Catalog.{candidate, is_slug_char}
use web_zapret.Catalog.Stored.{dicts}
use web_zapret.Deletion.{stays, store, strategies_of}
use web_zapret.Upload.{Host, Reply, imported, import_strategy_from_json}
use web_zapret.Upload.Appended.{IsUpload, import_strategy-IsUpload}

abbrev int_less : Value → Value → Result Bool
int_less (int (pos a)) (int (pos b)) = ok (not (leb b a))
int_less a b = err type_error

-- The latency alone is compared.
abbrev host : Host
host = record {
  runtime = record { repr = λ v. []; to_int = λ v. err type_error; percent = λ v. err type_error };
  negate = λ v. ok v;
  less = λ a b. int_less a.1 b.1;
  rate_text = λ v. ok [];
  seconds = codes "0";
  import_time = [];
}

abbrev row_of : Text → ℕ → Value
row_of args latency =
    dict (of_pairs ((codes "args", str args) ∷ (codes "median_latency_ms", int (pos latency)) ∷ []))

abbrev upload : Value
upload = dict (
    of_pairs (
      (codes "domain", str (codes "A.org"))
      ∷ (codes "timestamp", str (codes "2026-01-02T03"))
      ∷ (
        codes "strategies",
        list (of_elems (row_of (codes "--slow") 9 ∷ row_of (codes "--fast") 3 ∷ [])),
      )
      ∷ []))

abbrev catalog : Value
catalog = dict (of_pairs (store (((codes "id", str (codes "custom_aorg_20260102")) ∷ []) ∷ []) []))

abbrev entries_in : Value × Reply → List Dict
entries_in (left, imported es) = es
entries_in (left, _) = []

ids_test :
    map
      (λ d. get_or (codes "id") (str []) d)
      (entries_in (import_strategy_from_json host true catalog upload))
    ≡ str (codes "custom_aorg_20260102") ∷ str (codes "custom_aorg_20260102_2") ∷ []
unfolding import_strategy_from_json text_methods value_methods lookup get_or insert decimal
    candidate is_slug_char dicts stays store strategies_of shlex_split as_dict
ids_test = refl

order_test :
    map
      (λ d. get_or (codes "nfqws_opt") (str []) d)
      (entries_in (import_strategy_from_json host true catalog upload))
    ≡ str (codes "--fast") ∷ str (codes "--slow") ∷ []
unfolding import_strategy_from_json text_methods value_methods lookup get_or insert decimal
    candidate is_slug_char dicts stays store strategies_of shlex_split as_dict
order_test = refl

import_strategy-IsUpload_example :
    IsUpload host catalog upload (import_strategy_from_json host true catalog upload)
import_strategy-IsUpload_example = import_strategy-IsUpload host true catalog upload
