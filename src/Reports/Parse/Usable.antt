-- ===== src/Reports/Parse/Usable.antt =====
-- The rows of a parsed check report, as the ranking and the filter read them.
use web_zapret.Base.{
  ℕ, ◌≡◌, ◌⊎◌, inl, inr, sym, subst, List, [], ◌∷◌, refl, map, Option, none, some, ok, >>=-eq-ok,
  ok_inj, All, ℤ, pos,
}
use web_zapret.Text.{Text, codes, same}
use web_zapret.Dict.{lookup, get_or}
use web_zapret.Value.{
  Float, Value, null, int, float, str, list, nil, Dict, of_elems, or_else, as_list, as_text,
  texts_of, py_str, py_int,
}
use web_zapret.Settings.{zero_float}
use web_zapret.Reports.{Doubles, float_of}
use web_zapret.Reports.Parse.{
  Report, loaded, report_of, parse_check_report, items, shown, share_value_of, count_at, float_at,
  check_row, rows_with, check_report,
}

-- The numbers of the row have the types that are read.
pub record IsUsable (row : Dict) : Type 0 where
  pub rate : (x : Float) × (get_or (codes "success_rate") (float zero_float) row ≡ float x)
  pub share :
      (get_or (codes "median_share") null row ≡ null)
      ⊎ ((x : Float) × (get_or (codes "median_share") null row ≡ float x))
  pub latency : (n : ℤ) × (get_or (codes "median_latency_ms") (int (pos 0)) row ≡ int n)
  pub args : (t : Text) × (get_or (codes "args") (str []) row ≡ str t)
  pub passes_ok : (n : ℤ) × (get_or (codes "passes_ok") (int (pos 0)) row ≡ int n)
  pub passes_total : (n : ℤ) × (get_or (codes "passes_total") (int (pos 0)) row ≡ int n)
  pub admits :
      (vs : List Value) × (ts : List Text) × (get_or (codes "admits") null row ≡ list (of_elems vs))
      × (texts_of vs ≡ ok ts)

share_value-cases :
    (rt : Doubles) (v w : Value)
    → share_value_of rt v ≡ ok w
    → (w ≡ null) ⊎ ((x : Float) × (w ≡ float x))
unfolding share_value_of
share_value-cases rt null w h = inl (sym (ok_inj h))
share_value-cases rt v w h =
    let (x, _, e) = >>=-eq-ok (float_of rt v) (λ y. ok (float y)) h in inr (x, sym (ok_inj e))

count_at-int :
    (rt : Doubles) (key : Text) (n : ℕ) (item : Dict) (v : Value)
    → count_at rt key n item ≡ ok v
    → (m : ℤ) × (v ≡ int m)
unfolding count_at
count_at-int rt key n item v h =
    let (m, _, e) =
      >>=-eq-ok (py_int rt.runtime (or_else (get_or key (int (pos n)) item) (int (pos n)))) _ h in
    (m, sym (ok_inj e))

float_at-float :
    (rt : Doubles) (key : Text) (item : Dict) (v : Value)
    → float_at rt key item ≡ ok v
    → (x : Float) × (v ≡ float x)
unfolding float_at
float_at-float rt key item v h =
    let (x, _, e) =
      >>=-eq-ok (float_of rt (or_else (get_or key (float zero_float) item) (float zero_float))) _
        h in
    (x, sym (ok_inj e))

texts_of-shown :
    (rt : Doubles) (vs : List Value) → (ts : List Text) × (texts_of (map (shown rt) vs) ≡ ok ts)
unfolding texts_of as_text shown
texts_of-shown rt [] = ([], refl)
texts_of-shown rt (v ∷ vs) =
    let (ts, e) = texts_of-shown rt vs in (py_str rt.runtime.repr v ∷ ts, rw e refl)

check_row-IsUsable : (rt : Doubles) (item row : Dict) → check_row rt item ≡ ok row → IsUsable row
unfolding check_row get_or lookup same shown
check_row-IsUsable rt item row h =
    let (_, _, h₁) = >>=-eq-ok (count_at rt (codes "coverage") 1 item) _ h in
    let (rate, rated, h₂) = >>=-eq-ok (float_at rt (codes "success_rate") item) _ h₁ in
    let (passes, passed, h₃) = >>=-eq-ok (count_at rt (codes "passes_ok") 0 item) _ h₂ in
    let (total, counted, h₄) = >>=-eq-ok (count_at rt (codes "passes_total") 0 item) _ h₃ in
    let (share, shared, h₅) =
      >>=-eq-ok (share_value_of rt (get_or (codes "median_share") null item)) _ h₄ in
    let (latency, late, h₆) = >>=-eq-ok (count_at rt (codes "median_latency_ms") 0 item) _ h₅ in
    let (_, _, h₇) = >>=-eq-ok (float_at rt (codes "median_speed_kbps") item) _ h₆ in
    let (admits, _, h₈) =
      >>=-eq-ok (as_list (or_else (get_or (codes "admits") null item) (list nil))) _ h₇ in
    subst IsUsable (ok_inj h₈) (record {
      rate = float_at-float rt (codes "success_rate") item rate rated;
      share = share_value-cases rt _ share shared;
      latency = count_at-int rt (codes "median_latency_ms") 0 item latency late;
      args = (py_str rt.runtime.repr (get_or (codes "args") (str []) item), refl);
      passes_ok = count_at-int rt (codes "passes_ok") 0 item passes passed;
      passes_total = count_at-int rt (codes "passes_total") 0 item total counted;
      admits = let (ts, e) = texts_of-shown rt admits in (map (shown rt) admits, ts, refl, e);
    })

rows_with-IsUsable :
    (rt : Doubles) (ds rows : List Dict)
    → rows_with rt (check_row rt) ds ≡ ok rows
    → All IsUsable rows
unfolding rows_with
rows_with-IsUsable rt [] rows h = subst (All IsUsable) (ok_inj h) tt
rows_with-IsUsable rt (d ∷ ds) rows h =
    let (row, first, h₁) = >>=-eq-ok (check_row rt d) _ h in
    let (rest, others, h₂) = >>=-eq-ok (rows_with rt (check_row rt) ds) _ h₁ in
    subst (All IsUsable) (ok_inj h₂)
      (check_row-IsUsable rt d row first, rows_with-IsUsable rt ds rest others)

some_inj : {A : Type 0} {a b : A} → some a ≡ some b → a ≡ b
some_inj h = cc

check_report-IsUsable :
    (rt : Doubles) (o : Option Dict) (report : Report)
    → check_report rt o ≡ ok (some report)
    → All IsUsable report.rows
unfolding check_report
check_report-IsUsable rt none report h = cc
check_report-IsUsable rt (some d) report h =
    let (vs, _, h₁) =
      >>=-eq-ok (as_list (or_else (get_or (codes "strategies") null d) (list nil))) _ h in
    let (rows, parsed, h₂) = >>=-eq-ok (rows_with rt (check_row rt) (items vs)) _ h₁ in
    let (_, _, h₃) = >>=-eq-ok (count_at rt (codes "total") 0 d) _ h₂ in
    let (_, _, h₄) = >>=-eq-ok (count_at rt (codes "working") 0 d) _ h₃ in
    let (_, _, h₅) = >>=-eq-ok (float_at rt (codes "elapsed_secs") d) _ h₄ in
    subst (λ (r : Report). All IsUsable r.rows) (some_inj (ok_inj h₅))
      (rows_with-IsUsable rt (items vs) rows parsed)

pub parsed-IsUsable :
    (rt : Doubles) (loads : Text → Option Value) (source : Value) (report : Report)
    → parse_check_report rt loads source ≡ ok (some report)
    → All IsUsable report.rows
unfolding parse_check_report
parsed-IsUsable rt loads source report h =
    check_report-IsUsable rt (report_of (loaded loads source)) report h
