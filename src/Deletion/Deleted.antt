-- ===== src/Deletion/Deleted.antt =====
-- What `delete_strategy` leaves.
use web_zapret.Base.{
  ◌≡◌, refl, ap, ◌∙◌, subst, Option, none, some, Bool, true, false, not, List, [], ◌∷◌, map, keep,
  ok, ◌>>=◌, >>=-eq-ok, ok_inj, if_each, if_both, arith,
}
use web_zapret.Text.{Text, codes, same}
use web_zapret.Dict.{lookup, get_or, get_or-insert}
use web_zapret.Value.{
  Value, null, str, list, dict, nil, Dict, of_elems, of_pairs, as_list, as_dict, elems-of_elems,
  pairs-of_pairs,
}
use web_zapret.Catalog.Stored.{dicts}
use web_zapret.Deletion.{
  Reply, deleted, unknown_strategy, strategies_of, is_text, has_id, active_strategy, stays, store,
  delete_strategy,
}

dicts-pairs : (ds : List Dict) → dicts (map (λ d. dict (of_pairs d)) ds) ≡ ok ds
unfolding dicts as_dict
dicts-pairs [] = refl
dicts-pairs (d ∷ ds) = rw (pairs-of_pairs d, dicts-pairs ds) refl

pub strategies_of-store :
    (ds : List Dict) (catalog : Dict) → strategies_of (store ds catalog) ≡ ok ds
unfolding strategies_of store as_list same
strategies_of-store ds catalog =
    ap (λ v. as_list v >>= λ vs. dicts vs)
      (get_or-insert (codes "strategies") (codes "strategies") (list nil)
        (list (of_elems (map (λ d. dict (of_pairs d)) ds))) catalog)
    ∙ ap dicts (elems-of_elems (map (λ d. dict (of_pairs d)) ds))
    ∙ dicts-pairs ds

-- An entry that stays does not have the id, if the id is not empty.
stays-other :
    (sid : Text) (d : Dict)
    → same [] sid ≡ false
    → stays sid d ≡ true
    → is_text sid (get_or (codes "id") (str []) d) ≡ false
unfolding stays is_text get_or
stays-other sid d filled h = go (lookup (codes "id") d) h
  where
    go :
        (o : Option Value)
        → not (is_text sid (elim o [ none ↦ null | some v ↦ v ])) ≡ true
        → is_text sid (elim o [ none ↦ str [] | some v ↦ v ]) ≡ false
    go none e = filled
    go (some v) e = ground arith

has_id-kept :
    (sid : Text) (ds : List Dict) → same [] sid ≡ false → has_id sid (keep (stays sid) ds) ≡ false
unfolding has_id
has_id-kept sid [] filled = refl
has_id-kept sid (d ∷ ds) filled =
    if_each (λ l. has_id sid l ≡ false) (stays sid d)
      (λ e. rw (stays-other sid d filled e, has_id-kept sid ds filled) refl)
      (λ _. has_id-kept sid ds filled)

-- A deletion that succeeded removed the entries with the id and no other one, and the next deletion of
-- the same id finds nothing; one that was refused left the catalog as it was.
abbrev pub IsDeletion : Text → Dict → Dict × Reply → Type 0
IsDeletion sid catalog (left, deleted _ _) =
    (old : List Dict) × (strategies_of catalog ≡ ok old)
    × (strategies_of left ≡ ok (keep (stays sid) old))
    × ((cur : Text) (writes : Bool)
        → delete_strategy cur writes sid left ≡ ok (left, unknown_strategy))
IsDeletion sid catalog (left, _) = left ≡ catalog

delete-unknown :
    (cur : Text) (writes : Bool) (sid : Text) (catalog : Dict) (ds : List Dict)
    → strategies_of catalog ≡ ok ds
    → has_id sid ds ≡ false
    → delete_strategy cur writes sid catalog ≡ ok (catalog, unknown_strategy)
unfolding delete_strategy
delete-unknown cur writes sid catalog ds h none_has = rw h (rw none_has refl)

-- The outcome of `delete_strategy` for an id that is not empty: a success removes from the catalog exactly
-- the entries with the id, the others stay in their order, and a second deletion of the id answers that it
-- is unknown and changes nothing; every other reply leaves the catalog as it was.
pub delete_strategy-IsDeletion :
    (cur : Text) (writes : Bool) (sid : Text) (catalog : Dict) (result : Dict × Reply)
    → same [] sid ≡ false
    → delete_strategy cur writes sid catalog ≡ ok result
    → IsDeletion sid catalog result
unfolding delete_strategy
delete_strategy-IsDeletion cur writes sid catalog result filled h =
    let (ds, listed, h₁) = >>=-eq-ok (strategies_of catalog) _ h in
    let kept = keep (stays sid) ds in
    let stored = strategies_of-store kept catalog in
    let again = λ (c : Text) (w : Bool).
      delete-unknown c w sid (store kept catalog) kept stored (has_id-kept sid ds filled) in
    let P = IsDeletion sid catalog in
    subst P (ok_inj h₁) (
      if_both P (not (has_id sid ds)) refl (
        if_both P (same sid (codes "none")) refl (
          if_both P (same sid (active_strategy cur ds)) refl
            (if_both P (not writes) refl (ds, listed, stored, again)))))
