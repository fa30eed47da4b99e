-- ===== src/Catalog/Import/Merge.antt =====
-- Merging a plan into the catalog that it was made for.
use web_zapret.Base.{
  ◌≡◌, refl, ap, ◌∙◌, true, false, List, [], ◌∷◌, ◌++◌, map, keep, keep-All, ok, All, All-imp,
  arith, ℤ,
}
use web_zapret.Text.{Text, codes, same, one_of}
use web_zapret.Text.Laws.{same_iff, same_refl}
use web_zapret.Dict.{get_or, insert}
use web_zapret.Value.{
  Value, Dict, Runtime, null, list, dict, nil, as_list, py_str, truthy, of_pairs, of_elems,
}
use web_zapret.Catalog.Entries.{Entry, State, at, gather, entry_dict}
use web_zapret.Catalog.Stored.{other_id, dicts, merge_catalog}
use web_zapret.Catalog.Import.{ids_of, plan_import}
use web_zapret.Catalog.Import.Invariant.{IsFresh}
use web_zapret.Catalog.Import.Sound.{plan_import-IsPlan, limit_of}

-- What is known is not among fresh texts.
fresh-not-known :
    (known xs : List Text) (k : Text)
    → IsFresh known xs
    → one_of k known ≡ true
    → one_of k xs ≡ false
unfolding one_of
fresh-not-known known [] k h old = refl
fresh-not-known known (x ∷ xs) k (new, h) old =
    ground (arith, fresh-not-known (x ∷ known) xs k h, same_iff k x)

-- A strategy with an id.
abbrev pub HasId : Dict → Type 0
HasId d = truthy (at (codes "id") null d) ≡ true

abbrev id_text : Runtime → Dict → Text
id_text rt d = py_str rt.repr (at (codes "id") null d)

one_of-append_right :
    (t : Text) (ks ls : List Text) → one_of t ls ≡ true → one_of t (ks ++ ls) ≡ true
unfolding one_of
one_of-append_right t [] ls h = h
one_of-append_right t (k ∷ ks) ls h = ground (arith, one_of-append_right t ks ls h)

ids_of-known :
    (rt : Runtime) (d : Dict) (ks : List Text)
    → HasId d
    → one_of (id_text rt d) (ids_of rt d ++ ks) ≡ true
unfolding ids_of one_of
ids_of-known rt d ks h = rw h (rw (same_refl (py_str rt.repr (at (codes "id") null d))))

gather-ids :
    (rt : Runtime) (old : List Dict)
    → All HasId old
    → All (λ d. one_of (id_text rt d) (gather (ids_of rt) old) ≡ true) old
unfolding gather
gather-ids rt [] h = tt
gather-ids rt (d ∷ ds) (h, hs) = (
  ids_of-known rt d (gather (ids_of rt) ds) h,
  All-imp (λ e k. one_of-append_right (id_text rt e) (ids_of rt d) (gather (ids_of rt) ds) k) ds
      (gather-ids rt ds hs),
)

entry-ids :
    (rt : Runtime) (es : List Entry) → map (id_text rt) (map entry_dict es) ≡ map (λ e. e.id) es
unfolding entry_dict get_or py_str same
entry-ids rt [] = refl
entry-ids rt (e ∷ es) = ap (λ l. e.id ∷ l) (entry-ids rt es)

other_id_of_not_known :
    (rt : Runtime) (ids : List Text) (d : Dict)
    → one_of (id_text rt d) ids ≡ false
    → other_id rt ids d ≡ true
unfolding other_id
other_id_of_not_known rt ids d h = rw h

keep-other_id :
    (rt : Runtime) (old : List Dict) (es : List Entry)
    → All HasId old
    → IsFresh (gather (ids_of rt) old) (map (λ e. e.id) es)
    → keep (other_id rt (map (λ e. e.id) es)) old ≡ old
keep-other_id rt old es has fresh = keep-All (other_id rt (map (λ e. e.id) es)) old (
    All-imp
      (λ d known.
        other_id_of_not_known rt _ d (
          fresh-not-known (gather (ids_of rt) old) (map (λ e. e.id) es) (id_text rt d) fresh known))
      old (gather-ids rt old has))

abbrev dict_list : List Dict → Value
dict_list ds = list (of_elems (map (λ d. dict (of_pairs d)) ds))

merge_catalog-fresh :
    (rt : Runtime) (catalog : Dict) (vs : List Value) (old : List Dict) (es : List Entry)
    → as_list (at (codes "strategies") (list nil) catalog) ≡ ok vs
    → dicts vs ≡ ok old
    → All HasId old
    → IsFresh (gather (ids_of rt) old) (map (λ e. e.id) es)
    → merge_catalog rt catalog (map entry_dict es)
      ≡ ok (insert (codes "strategies") (dict_list (old ++ map entry_dict es)) catalog)
unfolding merge_catalog
merge_catalog-fresh rt catalog vs old es listed read has fresh =
    rw (listed, read)
      (ap (λ l. ok (insert (codes "strategies") (dict_list (l ++ map entry_dict es)) catalog))
        (ap (λ ids. keep (other_id rt ids) old) (entry-ids rt es)
          ∙ keep-other_id rt old es has fresh))

-- Importing loses nothing: for a catalog whose strategies all have an id, `merge_catalog` of the
-- entries that `plan_import` made for these strategies keeps every strategy, unchanged and in its
-- place, and appends the new entries in their order; no other key of the catalog changes.
pub merge_catalog-plan :
    (rt : Runtime) (result : Value) (settings catalog : Dict) (vs : List Value) (old : List Dict)
    (run_id now : Text) (st : State) (limit : ℤ)
    → plan_import rt result settings old run_id now ≡ ok st
    → limit_of rt settings ≡ ok limit
    → as_list (at (codes "strategies") (list nil) catalog) ≡ ok vs
    → dicts vs ≡ ok old
    → All HasId old
    → merge_catalog rt catalog (map entry_dict st.entries)
      ≡ ok (
          insert
            (codes "strategies")
            (list (of_elems (map (λ d. dict (of_pairs d)) (old ++ map entry_dict st.entries))))
            catalog)
merge_catalog-plan rt result settings catalog vs old run_id now st limit h bound listed read has =
    merge_catalog-fresh rt catalog vs old st.entries listed read has
      (plan_import-IsPlan rt result settings old run_id now st limit h bound).ids_fresh
