-- ===== src/Upload/Appended.antt =====
-- What `import_strategy_from_json` leaves in the catalog.
use web_zapret.Base.{
  ◌≡◌, refl, sym, ap, ◌∙◌, subst, Bool, not, List, [], ◌++◌, map, keep, Option, none, some, Result,
  ok, err, ◌>>=◌, >>=-eq-ok, ok_inj, Ensures, if_both,
}
use mathlib.Core.List.{Perm}
use web_zapret.Text.{Text, codes}
use web_zapret.Dict.{lookup, get_or}
use web_zapret.Value.{
  Value, Fields, pairs, str, list, nil, dict, Dict, of_elems, as_text, as_list, of_pairs, truthy,
  as_dict,
}
use web_zapret.Catalog.Stored.{dicts}
use web_zapret.Deletion.{strategies_of, store}
use web_zapret.Deletion.Deleted.{strategies_of-store}
use web_zapret.Upload.{
  Key, Host, Reply, imported, ranked, import_from, import_all, answer, import_strategy_from_json,
}
use web_zapret.Upload.{as_empty, date_slug, domain_slug}
use web_zapret.Upload.Stored.{
  stays_all, ids_from, Distinct, ids_from-Distinct, AreStored, import_from-IsLoop,
}
use web_zapret.Upload.Ranked.{AreRanked, ranked-IsRanking}

-- An upload that went through: its strategies in the order of the ranking, under ids that are pairwise different,
-- stored behind those of the catalog's strategies that have none of these ids.
pub record IsAppended (h : Host) (given : Value) (catalog : Value) (after : Dict)
    (entries : List Dict) : Type 0 where
  pub uploaded : List Dict
  pub listed : (as_list given >>= λ vs. dicts vs) ≡ ok uploaded
  pub rows : List Dict
  pub reordered : Perm uploaded rows
  pub sorted : List (Key × Dict)
  pub same_rows : rows ≡ map (λ k. k.1) sorted
  pub ranking : AreRanked h sorted
  pub base : Text
  pub distinct : Distinct (ids_from base 0 rows)
  pub stored : AreStored base 0 rows entries
  pub before : Dict
  pub is_dict : as_dict catalog ≡ ok before
  pub old : List Dict
  pub old_list : strategies_of before ≡ ok old
  pub new_list : strategies_of after ≡ ok (keep (stays_all (ids_from base 0 rows)) old ++ entries)

strategies_of-filled :
    (d : Dict) → strategies_of (as_empty (lookup (codes "strategies") d) d) ≡ strategies_of d
unfolding strategies_of as_empty get_or dicts as_list store of_elems
strategies_of-filled d = go (lookup (codes "strategies") d) refl
  where
    go :
        (o : Option Value)
        → lookup (codes "strategies") d ≡ o
        → strategies_of (as_empty o d) ≡ strategies_of d
    go none e =
        strategies_of-store [] d
        ∙ sym (ap (λ o. as_list (elim o [ none ↦ list nil | some w ↦ w ]) >>= λ vs. dicts vs) e)
    go (some v) e = refl

module _ (h : Host) where
  -- `import_all`, read off its chain
  import_all-IsAppended :
      (catalog : Value) (given : Dict) (strategies : Value)
      → Ensures
          (λ r. IsAppended h strategies catalog r.0 r.1)
          (import_all h catalog given strategies)
  unfolding import_all
  import_all-IsAppended catalog given strategies r made =
      let (vs, listed, h₁) = >>=-eq-ok (as_list strategies) _ made in
      let (rows, sorted, h₂) = >>=-eq-ok (ranked h vs) _ h₁ in
      let (domain, _, h₃) =
        >>=-eq-ok (as_text (get_or (codes "domain") (str (codes "custom")) given)) _ h₂ in
      let (date, _, h₄) =
        >>=-eq-ok (date_slug h (get_or (codes "timestamp") (str []) given)) _ h₃ in
      let base = codes "custom_" ++ (domain_slug domain ++ (codes "_" ++ date)) in
      let (before, is_dict, h₅) = >>=-eq-ok (as_dict catalog) _ h₄ in
      let filled = as_empty (lookup (codes "strategies") before) before in
      let (old, found, h₆) = >>=-eq-ok (strategies_of filled) _ h₅ in
      let (done, ran, h₇) = >>=-eq-ok (import_from h domain base 0 old rows) _ h₆ in
      let (left, stored) = import_from-IsLoop h domain base 0 old rows done ran in
      let order = ranked-IsRanking h vs rows sorted in
      subst (λ r. IsAppended h strategies catalog r.0 r.1) (ok_inj h₇)
        (record {
          uploaded = order.given;
          listed = ap (λ l. l >>= λ ws. dicts ws) listed ∙ order.read;
          rows = rows;
          reordered = order.reordered;
          sorted = order.sorted;
          same_rows = order.same_rows;
          ranking = order.ranking;
          base = base;
          distinct = ids_from-Distinct base 0 rows;
          stored = stored;
          before = before;
          is_dict = is_dict;
          old = old;
          old_list = sym (strategies_of-filled before) ∙ found;
          new_list = strategies_of-store done.0 filled ∙ ap (λ l. ok l) left;
        })

  -- A successful reply, or the catalog as it was.
  abbrev pub IsUpload : Value → Value → Value × Reply → Type 0
  IsUpload catalog upload (left, imported entries) =
      (given : Dict) × (as_dict upload ≡ ok given)
      × (after : Dict) × (left ≡ dict (of_pairs after))
      × IsAppended h (get_or (codes "strategies") (list nil) given) catalog after entries
  IsUpload catalog upload (left, _) = left ≡ catalog

  answer-IsUpload :
      (writes : Bool) (catalog : Value) (fields : Fields) (r : Result (Dict × List Dict))
      → Ensures
          (λ p.
            IsAppended h (get_or (codes "strategies") (list nil) (pairs fields)) catalog p.0 p.1)
          r
      → IsUpload catalog (dict fields) (answer h writes catalog r)
  unfolding answer as_dict
  answer-IsUpload writes catalog fields (err e) i = refl
  answer-IsUpload writes catalog fields (ok (filled, entries)) i =
      if_both (IsUpload catalog (dict fields)) writes
        (pairs fields, refl, filled, refl, i (filled, entries) refl) refl

  -- The outcome of `import_strategy_from_json`, whatever is uploaded and whatever the catalog file holds. A
  -- success stores every uploaded strategy, in the order of the ranking (no key is less than the one in
  -- front of it, or the one in front of it is less; the key is the negated success rate and the latency), each with its own arguments, which
  -- are not blank and split into tokens; their ids are pairwise different; and the catalog's strategies
  -- are the old ones that have none of these ids, in their order, followed by the new ones. Any other
  -- reply leaves the catalog as it was: an exception at one strategy drops the whole upload.
  pub import_strategy-IsUpload :
      (writes : Bool) (catalog upload : Value)
      → IsUpload catalog upload (import_strategy_from_json h writes catalog upload)
  unfolding import_strategy_from_json as_dict
  import_strategy-IsUpload writes catalog (dict fields) =
      let given = pairs fields in
      let strategies = get_or (codes "strategies") (list nil) given in
      if_both (IsUpload catalog (dict fields)) (not (truthy strategies)) refl (
        answer-IsUpload writes catalog fields (import_all h catalog given strategies)
          (import_all-IsAppended catalog given strategies))
  import_strategy-IsUpload writes catalog v = refl
