-- ===== src/Catalog/Import/Sound.antt =====
-- What `plan_import` promises of the entries that it makes.
use web_zapret.Base.{
  ℕ, suc, ◌≤◌, ◌≡◌, refl, sym, ap, subst, ◌∙◌, false, List, [], ◌∷◌, map, Result, ok, err,
  value_error, value_error_repr, ◌>>=◌, >>=-eq-ok, ok_inj, ℤ, pos, All, All-append, arith,
  Bool-cases, inl, inr,
}
use web_zapret.Text.{Text, codes, same, one_of}
use web_zapret.Dict.{get_or}
use web_zapret.Value.{
  Value, Dict, Runtime, py_int, int, null, str, list, nil, as_text, as_list, as_dict, or_else,
  py_str,
}
use web_zapret.Catalog.{validate_args}
use web_zapret.Catalog.Entries.{
  Entry, Skipped, State, Config, at, over_limit, gather, add, new_entry, skip,
}
use web_zapret.Catalog.Import.{
  invalid, place, try_args, import_row, import_rows, import_domains, exc_text, args_of, ids_of,
  start, plan_import, config_of, describe, protocol_of, domains_of,
}
use web_zapret.Catalog.Import.Invariant.{
  IsFresh, count, id_of, options_of, IsChecked, IsSound, IsFresh-map, known_map, counted-add,
  capped-add, new_entry-is_new, new_entry-IsChecked,
}

module _ (rt : Runtime) (c : Config) (ids args : List Text) where
  abbrev Sound : State → Type 0
  Sound st = IsSound c.limit ids args st

  add-IsSound :
      (st : State) (e : Entry)
      → Sound st
      → IsChecked e
      → one_of e.id st.known_ids ≡ false
      → one_of e.args st.known_args ≡ false
      → over_limit c.limit (get_or e.protocol 0 st.per_protocol) ≡ false
      → Sound (add st e)
  unfolding add
  add-IsSound st e s good new_id new_args room = record {
    ids_known = known_map id_of ids st.entries e st.known_ids s.ids_known;
    ids_fresh =
        IsFresh-map id_of ids st.entries e s.ids_fresh
          (subst (λ l. one_of e.id l ≡ false) s.ids_known new_id);
    args_known = known_map options_of args st.entries e st.known_args s.args_known;
    args_fresh =
        IsFresh-map options_of args st.entries e s.args_fresh
          (subst (λ l. one_of e.args l ≡ false) s.args_known new_args);
    counted = counted-add s e;
    capped = capped-add s e room;
    checked = All-append IsChecked st.entries (e ∷ []) s.checked (good, tt);
  }

  skip-IsSound : (st : State) (x : Skipped) → Sound st → Sound (skip st x)
  unfolding skip
  skip-IsSound st x s = record {
    ids_known = s.ids_known;
    ids_fresh = s.ids_fresh;
    args_known = s.args_known;
    args_fresh = s.args_fresh;
    counted = s.counted;
    capped = s.capped;
    checked = s.checked;
  }

  place-IsSound :
      (st : State) (domain : Text) (dom row : Dict) (protocol source args' : Text) {st' : State}
      → Sound st
      → validate_args source ≡ ok args'
      → place rt c st domain dom row protocol args' ≡ ok st'
      → Sound st'
  unfolding place
  place-IsSound st domain dom row protocol source args' s valid h =
      elim (Bool-cases (one_of args' st.known_args)) [
        | inl old ↦ subst Sound (ok_inj (rw old at h)) (skip-IsSound st _ s)
        | inr new ↦ elim (Bool-cases (over_limit c.limit (get_or protocol 0 st.per_protocol))) [
          | inl full ↦ subst Sound (ok_inj (rw (new, full) at h)) (skip-IsSound st _ s)
          | inr room ↦
              let (desc, _, h') = >>=-eq-ok (describe rt domain row) _ (rw (new, room) at h) in
              subst Sound (ok_inj h') (
                add-IsSound st (new_entry c st domain dom row protocol args' desc) s
                  (new_entry-IsChecked c st domain dom row protocol source args' desc valid)
                  (new_entry-is_new c st domain dom row protocol args' desc) new room)
        ]
      ]

  invalid-IsSound :
      (st : State) (domain protocol : Text) (v : Value) (reason : Text)
      → Sound st
      → Sound (invalid rt st domain protocol v reason)
  unfolding invalid
  invalid-IsSound st domain protocol v reason s = skip-IsSound st _ s

  try_args-IsSound :
      (st : State) (domain : Text) (dom row : Dict) (protocol : Text) (r : Result Text)
      {st' : State}
      → Sound st
      → ((a : Text) → r ≡ ok a → (source : Text) × (validate_args source ≡ ok a))
      → try_args rt c st domain dom row protocol r ≡ ok st'
      → Sound st'
  unfolding try_args
  try_args-IsSound st domain dom row protocol (ok a) s from h =
      let (source, valid) = from a refl in
      place-IsSound st domain dom row protocol source a s valid h
  try_args-IsSound st domain dom row protocol (err (value_error m)) s from h =
      subst Sound (ok_inj h)
        (invalid-IsSound st domain protocol (at (codes "args") (str []) row) m s)
  try_args-IsSound st domain dom row protocol (err (value_error_repr m t)) s from h =
      subst Sound (ok_inj h)
        (invalid-IsSound st domain protocol (at (codes "args") (str []) row) (exc_text rt m t) s)
  try_args-IsSound st domain dom row protocol (err _) s from h = cc

  import_row-IsSound :
      (st : State) (domain : Text) (dom row : Dict) {st' : State}
      → Sound st
      → import_row rt c st domain dom row ≡ ok st'
      → Sound st'
  unfolding import_row
  import_row-IsSound st domain dom row s h =
      let text = as_text (or_else (at (codes "args") (str []) row) (str [])) in
      try_args-IsSound st domain dom row (protocol_of rt row) (text >>= λ t. validate_args t) s
        (λ a e. let (source, _, valid) = >>=-eq-ok text (λ t. validate_args t) e in (source, valid))
        h

  import_rows-IsSound :
      (st : State) (domain : Text) (dom : Dict) (vs : List Value) {st' : State}
      → Sound st
      → import_rows rt c st domain dom vs ≡ ok st'
      → Sound st'
  unfolding import_rows
  import_rows-IsSound st domain dom [] s h = subst Sound (ok_inj h) s
  import_rows-IsSound st domain dom (v ∷ vs) s h =
      let (row, _, h₁) = >>=-eq-ok (as_dict v) _ h in
      let (next, one, h₂) = >>=-eq-ok (import_row rt c st domain dom row) _ h₁ in
      import_rows-IsSound next domain dom vs (import_row-IsSound st domain dom row s one) h₂

  import_domains-IsSound :
      (st : State) (vs : List Value) {st' : State}
      → Sound st
      → import_domains rt c st vs ≡ ok st'
      → Sound st'
  unfolding import_domains
  import_domains-IsSound st [] s h = subst Sound (ok_inj h) s
  import_domains-IsSound st (v ∷ vs) s h =
      let (dom, _, h₁) = >>=-eq-ok (as_dict v) _ h in
      let (rows, _, h₂) =
        >>=-eq-ok (as_list (or_else (at (codes "working") null dom) (list nil))) _ h₁ in
      let domain = py_str rt.repr (at (codes "domain") (str []) dom) in
      let (next, one, h₃) = >>=-eq-ok (import_rows rt c st domain dom rows) _ h₂ in
      import_domains-IsSound next vs (import_rows-IsSound st domain dom rows s one) h₃

-- A successful plan: the ids of the new entries are pairwise different and none is the id of a
-- catalog entry; so are their arguments, up to white space; each one's arguments passed
-- `validate_args`, and its flag `no_reasm` is that of `_needs_no_reasm`; and with a positive
-- `max_import` no protocol gets more entries than that.
pub record IsPlan (rt : Runtime) (limit : ℤ) (existing : List Dict) (es : List Entry) : Type 0 where
  pub ids_fresh : IsFresh (gather (ids_of rt) existing) (map (λ e. e.id) es)
  pub args_fresh : IsFresh (gather (args_of rt) existing) (map (λ e. e.args) es)
  pub checked : All IsChecked es
  pub capped : (n : ℕ) → limit ≡ pos (suc n) → (p : Text) → count p es ≤ suc n

-- the configured limit
abbrev pub limit_of : Runtime → Dict → Result ℤ
limit_of rt settings =
    py_int rt (or_else (at (codes "max_import") (int (pos 5)) settings) (int (pos 0)))

start-IsSound :
    (rt : Runtime) (limit : ℤ) (existing : List Dict)
    → IsSound limit (gather (ids_of rt) existing) (gather (args_of rt) existing) (start rt existing)
unfolding start get_or
start-IsSound rt limit existing = record {
  ids_known = refl;
  ids_fresh = tt;
  args_known = refl;
  args_fresh = tt;
  counted = λ p. refl;
  capped = λ n e p. omega arith;
  checked = tt;
}

config_of-limit :
    (rt : Runtime) (settings : Dict) (run_id now : Text) (limit : ℤ) {c : Config}
    → limit_of rt settings ≡ ok limit
    → config_of rt settings run_id now ≡ ok c
    → c.limit ≡ limit
unfolding config_of
config_of-limit rt settings run_id now limit bound h =
    let (n, read, same) = >>=-eq-ok (limit_of rt settings) _ h in
    sym (ap (λ (d : Config). d.limit) (ok_inj same)) ∙ ok_inj (sym read ∙ bound)

-- Whatever the finished run, the settings and the catalog hold: a successful `plan_import` makes a
-- plan of entries with new, pairwise different ids and arguments, all of them validated, and, where
-- `max_import` is positive, at most that many for each protocol.
pub plan_import-IsPlan :
    (rt : Runtime) (result : Value) (settings : Dict) (existing : List Dict) (run_id now : Text)
    (st : State) (limit : ℤ)
    → plan_import rt result settings existing run_id now ≡ ok st
    → limit_of rt settings ≡ ok limit
    → IsPlan rt limit existing st.entries
unfolding plan_import
plan_import-IsPlan rt result settings existing run_id now st limit h bound =
    let (c, configured, h₁) = >>=-eq-ok (config_of rt settings run_id now) _ h in
    let (domains, _, h₂) = >>=-eq-ok (as_list (domains_of rt result)) _ h₁ in
    let ids = gather (ids_of rt) existing in
    let args = gather (args_of rt) existing in
    let s : IsSound c.limit ids args st =
      import_domains-IsSound rt c ids args (start rt existing) domains
        (start-IsSound rt c.limit existing) h₂ in
    record {
      ids_fresh = s.ids_fresh;
      args_fresh = s.args_fresh;
      checked = s.checked;
      capped =
          λ n e p. s.capped n (config_of-limit rt settings run_id now limit bound configured ∙ e) p;
    }
