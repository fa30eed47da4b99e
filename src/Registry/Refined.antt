-- ===== src/Registry/Refined.antt =====
-- The operations on the catalog refine those on a map.
use web_zapret.Base.{
  ◌≡◌, refl, ap, ◌∙◌, Bool, true, false, not, List, [], ◌∷◌, ◌++◌, map, keep, none, ok, ◌>>=◌,
  if◌then◌else◌, bind_total, >>=-eq-ok, All, All-keep, All-append, if_each, arith,
}
use web_zapret.Text.{Text, codes, same}
use web_zapret.Text.Laws.{same_iff}
use web_zapret.Dict.{get_or-found}
use web_zapret.Value.{null, str, list, nil, Dict, Runtime, as_list}
use web_zapret.Catalog.Entries.{at}
use web_zapret.Catalog.Stored.{other_id, merge_catalog}
use web_zapret.Deletion.{
  Reply, strategies_of, is_text, has_id, active_strategy, stays, store, delete_strategy,
}
use web_zapret.Deletion.Deleted.{strategies_of-store}
use web_zapret.Registry.{
  find, HasText, Op, delete, import_entries, IsOp, step, steps, View, over, replayed, replay,
}
use web_zapret.Registry.Found.{find-stays, find-merged, id_text}

-- The catalog reads as the map.
pub record IsView (catalog : Dict) (f : View) : Type 0 where
  pub ds : List Dict
  pub listed : strategies_of catalog ≡ ok ds
  pub has_text : All HasText ds
  pub reads : (t : Text) → find t ds ≡ f t

-- A strategy that is not found is not there.
has_id-find : (t : Text) (ds : List Dict) → All HasText ds → has_id t ds ≡ false → find t ds ≡ none
unfolding has_id find
has_id-find t [] h e = refl
has_id-find t (d ∷ ds) ((s, e), h) none_has =
    let filled = get_or-found (codes "id") (str []) null (str s) d e cc in
    ground (arith, has_id-find t ds h, ap (is_text t) filled, ap (is_text t) e)

-- The active strategy is the one of the state file.
active-cur :
    (sid cur : Text) (ds : List Dict)
    → same [] sid ≡ false
    → has_id sid ds ≡ true
    → same sid (active_strategy cur ds) ≡ same sid cur
unfolding active_strategy
active-cur sid cur ds filled there = ground (
  arith,
  same_iff sid cur,
  same_iff sid [],
  same_iff [] sid,
  λ (p : sid ≡ cur). ap (λ u. has_id u ds) p,
)

module _ (rt : Runtime) where
  deleted-IsView :
      (cur : Text) (writes : Bool) (sid : Text) (catalog : Dict) (f : View)
      → same [] sid ≡ false
      → IsView catalog f
      → (r : Dict × Reply) × (delete_strategy cur writes sid catalog ≡ ok r)
        × IsView r.0 (replayed (delete cur writes sid) f)
  unfolding delete_strategy
  deleted-IsView cur writes sid catalog f filled v =
      let P = λ (r : Dict × Reply). IsView r.0 (replayed (delete cur writes sid) f) in
      let active_is = active-cur sid cur v.ds filled in
      let kept = λ (same_map : (t : Text) → find t v.ds ≡ replayed (delete cur writes sid) f t).
        let view : IsView catalog (replayed (delete cur writes sid) f) = record {
          ds = v.ds;
          listed = v.listed;
          has_text = v.has_text;
          reads = same_map;
        } in
        view in
      bind_total P _ _ v.ds v.listed (
        _,
        refl,
        if_each P (not (has_id sid v.ds))
            (λ e. kept (λ t. ground (
              arith,
              v.reads t,
              has_id-find sid v.ds v.has_text,
              same_iff t sid,
              λ (p : t ≡ sid). ap (λ u. find u v.ds) p,
            )))
            (λ there.
              if_each P (same sid (codes "none")) (λ e. kept (λ t. ground (arith, v.reads t)))
                (λ not_none.
                  if_each P (same sid (active_strategy cur v.ds))
                    (λ e. kept (λ t. ground (arith, v.reads t, active_is)))
                    (λ idle.
                      if_each P (not writes) (λ e. kept (λ t. ground (arith, v.reads t)))
                        (λ written. record {
                          ds = keep (stays sid) v.ds;
                          listed = strategies_of-store (keep (stays sid) v.ds) catalog;
                          has_text = All-keep HasText (stays sid) v.ds v.has_text;
                          reads = λ t.
                              ground
                                (arith, v.reads t, active_is, find-stays t sid v.ds v.has_text);
                        })))),
      )

  written-IsView :
      (writes : Bool) (es : List Dict) (catalog : Dict) (f : View)
      → All HasText es
      → (v : IsView catalog f)
      → IsView
          (if writes
            then store (keep (other_id rt (map (id_text rt) es)) v.ds ++ es) catalog
            else catalog)
          (replayed (import_entries writes es) f)
  written-IsView false es catalog f h v = record {
    ds = v.ds;
    listed = v.listed;
    has_text = v.has_text;
    reads = v.reads;
  }
  written-IsView true es catalog f h v =
      let others = keep (other_id rt (map (id_text rt) es)) v.ds in
      record {
        ds = others ++ es;
        listed = strategies_of-store (others ++ es) catalog;
        has_text =
            All-append HasText others es
              (All-keep HasText (other_id rt (map (id_text rt) es)) v.ds v.has_text) h;
        reads = λ t. find-merged rt t v.ds es v.has_text h ∙ ap (over (find t es)) (v.reads t);
      }

  merged-IsView :
      (writes : Bool) (es : List Dict) (catalog : Dict) (f : View)
      → All HasText es
      → IsView catalog f
      → (merged : Dict) × (merge_catalog rt catalog es ≡ ok merged)
        × IsView (if writes then merged else catalog) (replayed (import_entries writes es) f)
  unfolding merge_catalog strategies_of store
  merged-IsView writes es catalog f h v =
      let P = λ (m : Dict).
        IsView (if writes then m else catalog) (replayed (import_entries writes es) f) in
      let (vs, found, read) =
        >>=-eq-ok (as_list (at (codes "strategies") (list nil) catalog)) _ v.listed in
      bind_total P _ _ vs found
        (bind_total P _ _ v.ds read (_, refl, written-IsView writes es catalog f h v))

  step-IsView :
      (op : Op) (catalog : Dict) (f : View)
      → IsOp op
      → IsView catalog f
      → (next : Dict) × (step rt op catalog ≡ ok next) × IsView next (replayed op f)
  unfolding step
  step-IsView (delete cur writes sid) catalog f good v =
      let (r, ran, view) = deleted-IsView cur writes sid catalog f good v in
      (r.0, ap (λ m. m >>= λ p. ok p.0) ran, view)
  step-IsView (import_entries writes es) catalog f good v =
      let (m, ran, view) = merged-IsView writes es catalog f good v in
      (_, ap (λ r. r >>= λ n. ok (if writes then n else catalog)) ran, view)

  -- The catalog refines a map from ids to strategies. From a catalog whose strategies have texts as ids, every
  -- sequence of deletions and imports, of ids that are not empty and of entries with texts as ids, runs
  -- through without an exception, and its catalog reads, id by id, as the same sequence on a map: a deletion
  -- that is written takes out its id, unless it is "none" or the strategy of the state file, and an import
  -- that is written puts the new entries over the old ones.
  pub steps_refine :
      (ops : List Op) (catalog : Dict) (f : View)
      → All IsOp ops
      → IsView catalog f
      → (left : Dict) × (steps rt ops catalog ≡ ok left) × IsView left (replay ops f)
  unfolding steps replay
  steps_refine [] catalog f good v = (catalog, refl, v)
  steps_refine (op ∷ ops) catalog f (g, good) v =
      let (next, ran, view) = step-IsView op catalog f g v in
      bind_total (λ left. IsView left (replay ops (replayed op f))) _ _ next ran
        (steps_refine ops next (replayed op f) good view)
