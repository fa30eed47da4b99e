-- ===== src/Catalog/Import/Total.antt =====
-- `plan_import` returns on the rows of parsed reports.
use web_zapret.Base.{
  Returns, ◌≡◌, ◌⊎◌, inl, inr, refl, sym, ap, ◌∙◌, subst, List, [], ◌∷◌, map, Result, ok, err,
  type_error, index_error, key_error, unbound_local, os_error, overflow_error, value_error,
  value_error_repr, ◌>>=◌, bind_total, Refuses, All, if_both, ℤ, pos,
}
use web_zapret.Text.{Text, codes, one_of}
use web_zapret.Dict.{get_or, get_or-found}
use web_zapret.Value.{
  Float, Value, null, int, float, str, list, dict, nil, Dict, of_elems, of_pairs, elems-of_elems,
  pairs-of_pairs, truthy, or_else, as_text, as_list, as_dict, py_str, Runtime, py_int, format_int,
  int_text, or_else-items,
}
use web_zapret.Settings.{settings_spec}
use web_zapret.Settings.Fits.Defaults.{FitAll}
use web_zapret.Reports.Parse.Usable.{IsUsable}
use web_zapret.Reports.Parse.Total.{or_else-int}
use web_zapret.Catalog.{validate_args}
use web_zapret.Catalog.Args.{validate_args-Refuses}
use web_zapret.Catalog.Entries.{State, Config, at, over_limit}
use web_zapret.Catalog.Import.{
  share_text, authenticity, describe, place, try_args, protocol_of, import_row, import_rows,
  import_domains, domains_of, start, config_of, plan_import,
}

or_else-str : (t : Text) → (u : Text) × (or_else (str t) (str []) ≡ str u)
unfolding or_else
or_else-str t = if_both (λ v. (u : Text) × (v ≡ str u)) (truthy (str t)) (t, refl) ([], refl)

-- A dictionary of a domain, whose strategies are rows of a parsed check report.
pub record IsImportable (v : Value) : Type 0 where
  pub dom : Dict
  pub rows : List Dict
  pub is_dom : as_dict v ≡ ok dom
  pub listed : at (codes "working") null dom ≡ list (of_elems (map (λ d. dict (of_pairs d)) rows))
  pub usable : All IsUsable rows

module _ (rt : Runtime) (shares : (x : Float) → (t : Text) × (rt.percent (float x) ≡ ok t)) where
  format_int_total : (v : Value) → ((n : ℤ) × (v ≡ int n)) → Returns (format_int rt v)
  unfolding format_int py_int
  format_int_total v (n, e) = (int_text n, ap (format_int rt) e, tt)

  share_text_total :
      (v : Value) → ((v ≡ null) ⊎ ((x : Float) × (v ≡ float x))) → Returns (share_text rt v)
  unfolding share_text
  share_text_total v (inl e) = (codes "n/a", ap (share_text rt) e, tt)
  share_text_total v (inr (x, e)) = let (t, f) = shares x in (t, ap (share_text rt) e ∙ f, tt)

  latency_total :
      (v : Value) → ((n : ℤ) × (v ≡ int n)) → Returns (py_int rt (or_else v (int (pos 0))))
  unfolding py_int
  latency_total v (n, e) =
      let (m, f) = or_else-int n in
      (m, ap (λ w. py_int rt (or_else w (int (pos 0)))) e ∙ ap (py_int rt) f, tt)

  authenticity_total : (row : Dict) → IsUsable row → Returns (authenticity rt row)
  unfolding authenticity
  authenticity_total row u =
      let U = λ (_ : Text). Unit {0} in
      let (vs, ts, listed, texts) = u.admits in
      bind_total U _ _ vs
        (ap (λ v. as_list (or_else v (list nil))) listed
          ∙ or_else-items (of_elems vs)
          ∙ ap (λ l. ok l) (elems-of_elems vs))
        (bind_total U _ _ ts texts (_, refl, tt))

  describe_total : (domain : Text) (row : Dict) → IsUsable row → Returns (describe rt domain row)
  unfolding describe
  describe_total domain row u =
      let U = λ (_ : Text). Unit {0} in
      let (passes, e₁, _) =
        format_int_total (at (codes "passes_ok") (int (pos 0)) row) u.passes_ok in
      let (total, e₂, _) =
        format_int_total (at (codes "passes_total") (int (pos 0)) row) u.passes_total in
      let (share, e₃, _) = share_text_total (at (codes "median_share") null row) u.share in
      let (latency, e₄, _) =
        latency_total (at (codes "median_latency_ms") (int (pos 0)) row) u.latency in
      let (auth, e₅, _) = authenticity_total row u in
      bind_total U _ _ passes e₁ (
        bind_total U _ _ total e₂ (
          bind_total U _ _ share e₃
            (bind_total U _ _ latency e₄ (bind_total U _ _ auth e₅ (_, refl, tt)))))

  module _ (c : Config) (domain : Text) (dom : Dict) where
    place_total :
        (st : State) (row : Dict) (protocol args : Text)
        → IsUsable row
        → Returns (place rt c st domain dom row protocol args)
    unfolding place
    place_total st row protocol args u =
        let (desc, e, _) = describe_total domain row u in
        if_both Returns (one_of args st.known_args) (_, refl, tt)
          (if_both Returns (over_limit c.limit (get_or protocol 0 st.per_protocol)) (_, refl, tt)
            (bind_total (λ (_ : State). Unit {0}) _ _ desc e (_, refl, tt)))

    try_args_total :
        (st : State) (row : Dict) (protocol : Text) (args : Result Text)
        → IsUsable row
        → Refuses args
        → Returns (try_args rt c st domain dom row protocol args)
    unfolding try_args
    try_args_total st row protocol (ok args) u r = place_total st row protocol args u
    try_args_total st row protocol (err (value_error m)) u r = (_, refl, tt)
    try_args_total st row protocol (err (value_error_repr m t)) u r = (_, refl, tt)
    try_args_total st row protocol (err type_error) u r = absurd r
    try_args_total st row protocol (err index_error) u r = absurd r
    try_args_total st row protocol (err (key_error k)) u r = absurd r
    try_args_total st row protocol (err (unbound_local k)) u r = absurd r
    try_args_total st row protocol (err os_error) u r = absurd r
    try_args_total st row protocol (err overflow_error) u r = absurd r

    import_row_total :
        (st : State) (row : Dict) → IsUsable row → Returns (import_row rt c st domain dom row)
    unfolding import_row as_text
    import_row_total st row u =
        let (t, e) = u.args in
        let (s, f) = or_else-str t in
        let text = ap (λ v. as_text (or_else v (str []))) e ∙ ap as_text f in
        try_args_total st row (protocol_of rt row) _ u (
          subst Refuses (sym (ap (λ r. r >>= λ w. validate_args w) text)) (validate_args-Refuses s))

    import_rows_total :
        (st : State) (rows : List Dict)
        → All IsUsable rows
        → Returns (import_rows rt c st domain dom (map (λ d. dict (of_pairs d)) rows))
    unfolding import_rows as_dict
    import_rows_total st [] us = (st, refl, tt)
    import_rows_total st (row ∷ rows) (u, us) =
        let U = λ (_ : State). Unit {0} in
        let (next, e, _) = import_row_total st row u in
        let values = map (λ d. dict (of_pairs d)) rows in
        let go_on = λ (s : State). import_rows rt c s domain dom values in
        bind_total U (as_dict (dict (of_pairs row)))
          (λ r. import_row rt c st domain dom r >>= go_on) row (ap (λ d. ok d) (pairs-of_pairs row))
          (bind_total U (import_row rt c st domain dom row) go_on next e
            (import_rows_total next rows us))

  import_domains_total :
      (c : Config) (st : State) (vs : List Value)
      → All IsImportable vs
      → Returns (import_domains rt c st vs)
  unfolding import_domains
  import_domains_total c st [] is = (st, refl, tt)
  import_domains_total c st (v ∷ vs) (i, is) =
      let U = λ (_ : State). Unit {0} in
      let values = map (λ d. dict (of_pairs d)) i.rows in
      let domain = py_str rt.repr (at (codes "domain") (str []) i.dom) in
      let (next, e, _) = import_rows_total c domain i.dom st i.rows i.usable in
      bind_total U _ _ i.dom i.is_dom (
        bind_total U _ _ values
          (ap (λ w. as_list (or_else w (list nil))) i.listed
            ∙ or_else-items (of_elems values)
            ∙ ap (λ l. ok l) (elems-of_elems values))
          (bind_total U _ _ next e (import_domains_total c next vs is)))

  config_of_total :
      (settings : Dict) (run_id now : Text)
      → FitAll settings settings_spec
      → Returns (config_of rt settings run_id now)
  unfolding config_of py_int
  config_of_total settings run_id now fits =
      let (n, e, _, _) = fits.1.1.1.1.1.1.1.1.1.1.1.1.1.1.1.1.1.1.1.1.1.1.1.0 in
      let limit =
        get_or-found (codes "max_import") (int (pos 5)) null (int (pos n)) settings e cc in
      let (m, f) = or_else-int (pos n) in
      bind_total (λ (_ : Config). Unit {0}) _ _ m
        (ap (λ v. py_int rt (or_else v (int (pos 0)))) limit ∙ ap (py_int rt) f) (_, refl, tt)

  pub plan_import_total :
      (result : Dict) (vs : List Value) (settings : Dict) (existing : List Dict) (run_id now : Text)
      → at (codes "domains") null result ≡ list (of_elems vs)
      → All IsImportable vs
      → FitAll settings settings_spec
      → (st : State) × (plan_import rt (dict (of_pairs result)) settings existing run_id now
          ≡ ok st)
        × Unit {0}
  unfolding plan_import domains_of
  plan_import_total result vs settings existing run_id now listed is fits =
      let U = λ (_ : State). Unit {0} in
      let (c, e, _) = config_of_total settings run_id now fits in
      let (st, f, _) = import_domains_total c (start rt existing) vs is in
      bind_total U _ _ c e (
        bind_total U _ _ vs
          (ap (λ d. as_list (or_else (at (codes "domains") null d) (list nil)))
              (pairs-of_pairs result)
            ∙ ap (λ v. as_list (or_else v (list nil))) listed
            ∙ or_else-items (of_elems vs)
            ∙ ap (λ l. ok l) (elems-of_elems vs))
          (st, f, tt))
