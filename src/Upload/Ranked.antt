-- ===== src/Upload/Ranked.antt =====
-- The sort of `import_strategy_from_json`.
use web_zapret.Base.{
  All, Consecutive, ◌⊎◌, inl, inr, ap, ◌∙◌, true, false, if_each, ◌≡◌, refl, sym, subst, List, [],
  ◌∷◌, ◌++◌, map, append-nil, ok, Ensures, ok-Ensures, >>=-Ensures, if_both, pos,
}
use mathlib.Core.List.{Perm, perm_middle}
use mathlib.Core.List.Perm
use web_zapret.Text.{codes}
use web_zapret.Dict.{get_or}
use web_zapret.Value.{Value, int, Dict, as_dict}
use web_zapret.Catalog.Stored.{dicts}
use web_zapret.Upload.{Key, Host, keyed, place_best, sort_onto, ranked}

module _ (h : Host) where
  place_best-Perm :
      (x : Key × Dict) (ys : List (Key × Dict))
      → Ensures (λ zs. Perm (x.1 ∷ map (λ k. k.1) ys) (map (λ k. k.1) zs)) (place_best h x ys)
  unfolding place_best
  place_best-Perm x [] = ok-Ensures _ (Perm.refl (x.1 ∷ []))
  place_best-Perm x (y ∷ ys) =
      let rows = map (λ (k : Key × Dict). k.1) ys in
      let P = λ (zs : List (Key × Dict)). Perm (x.1 ∷ y.1 ∷ rows) (map (λ k. k.1) zs) in
      >>=-Ensures P (h.less x.0 y.0) _ (λ ahead _.
        if_both (Ensures P) ahead (ok-Ensures P (Perm.refl (x.1 ∷ y.1 ∷ rows))) (
          >>=-Ensures P (place_best h x ys) _ (λ rest placed. ok-Ensures P (
            Perm.trans (Perm.swap y.1 x.1 rows)
              (Perm.cons y.1 (place_best-Perm x ys rest placed))))))

  sort_onto-Perm :
      (done xs : List (Key × Dict))
      → Ensures
          (λ zs. Perm (map (λ k. k.1) done ++ map (λ k. k.1) xs) (map (λ k. k.1) zs))
          (sort_onto h done xs)
  unfolding sort_onto
  sort_onto-Perm done [] =
      ok-Ensures _ (subst (λ l. Perm l (map (λ k. k.1) done)) (sym (append-nil _)) (Perm.refl _))
  sort_onto-Perm done (x ∷ xs) =
      let rows = map (λ (k : Key × Dict). k.1) in
      let P = λ (zs : List (Key × Dict)). Perm (rows done ++ x.1 ∷ rows xs) (rows zs) in
      >>=-Ensures P (place_best h x done) _ (λ next placed zs sorted.
        Perm.trans (perm_middle (rows done) (rows xs)) (
          Perm.trans (Perm.append_right (rows xs) (place_best-Perm x done next placed))
            (sort_onto-Perm next xs zs sorted)))

  keyed-dicts : (vs : List Value) → Ensures (λ ks. dicts vs ≡ ok (map (λ k. k.1) ks)) (keyed h vs)
  unfolding keyed dicts
  keyed-dicts [] = ok-Ensures _ refl
  keyed-dicts (v ∷ vs) =
      let P = λ (ks : List (Key × Dict)). dicts (v ∷ vs) ≡ ok (map (λ k. k.1) ks) in
      >>=-Ensures P (as_dict v) _ (λ s read.
        >>=-Ensures P (h.negate (get_or (codes "success_rate") (int (pos 0)) s)) _ (λ rate _.
          >>=-Ensures P (keyed h vs) _
            (λ rest others. ok-Ensures P (rw (read, keyed-dicts vs rest others) refl))))

  -- A strategy in front of another one: its key is less, or the other one's is not.
  abbrev pub IsInFront : Key × Dict → Key × Dict → Type 0
  IsInFront a b = (h.less a.0 b.0 ≡ ok true) ⊎ (h.less b.0 a.0 ≡ ok false)

  -- The key of a strategy: its negated success rate and its latency.
  pub record IsKeyed (k : Key × Dict) : Type 0 where
    pub rate : h.negate (get_or (codes "success_rate") (int (pos 0)) k.1) ≡ ok k.0.0
    pub latency : k.0.1 ≡ get_or (codes "median_latency_ms") (int (pos 9999)) k.1

  -- Each strategy with its key, in the order of the keys.
  abbrev pub AreRanked : List (Key × Dict) → Type 0
  AreRanked ks = All IsKeyed ks × Consecutive IsInFront ks

  place_behind :
      (y x : Key × Dict) (ys : List (Key × Dict))
      → IsInFront y x
      → Consecutive IsInFront (y ∷ ys)
      → Ensures (λ zs. Consecutive IsInFront (y ∷ zs)) (place_best h x ys)
  unfolding place_best
  place_behind y x [] front r = ok-Ensures _ (front, tt)
  place_behind y x (z ∷ zs) front (old, r) =
      let P = λ (ls : List (Key × Dict)). Consecutive IsInFront (y ∷ ls) in
      >>=-Ensures P (h.less x.0 z.0) _ (λ ahead compared.
        if_each (Ensures P) ahead
          (λ e. ok-Ensures P (front, (inl (compared ∙ ap (λ b. ok b) e), r)))
          (λ e. >>=-Ensures P (place_best h x zs) _ (λ rest placed.
            ok-Ensures P
              (old, place_behind z x zs (inr (compared ∙ ap (λ b. ok b) e)) r rest placed))))

  place_best-AreInOrder :
      (x : Key × Dict) (ys : List (Key × Dict))
      → Consecutive IsInFront ys
      → Ensures (Consecutive IsInFront) (place_best h x ys)
  unfolding place_best
  place_best-AreInOrder x [] r = ok-Ensures _ tt
  place_best-AreInOrder x (y ∷ ys) r =
      let P = Consecutive IsInFront in
      >>=-Ensures P (h.less x.0 y.0) _ (λ ahead compared.
        if_each (Ensures P) ahead (λ e. ok-Ensures P (inl (compared ∙ ap (λ b. ok b) e), r))
          (λ e. >>=-Ensures P (place_best h x ys) _ (λ rest placed.
            ok-Ensures P (place_behind y x ys (inr (compared ∙ ap (λ b. ok b) e)) r rest placed))))

  place_best-All :
      (x : Key × Dict) (ys : List (Key × Dict))
      → IsKeyed x
      → All IsKeyed ys
      → Ensures (All IsKeyed) (place_best h x ys)
  unfolding place_best
  place_best-All x [] k ks = ok-Ensures (All IsKeyed) (k, tt)
  place_best-All x (y ∷ ys) k (old, ks) =
      let P = All IsKeyed in
      >>=-Ensures P (h.less x.0 y.0) _ (λ ahead _.
        if_both (Ensures P) ahead (ok-Ensures P (k, (old, ks))) (
          >>=-Ensures P (place_best h x ys) _
            (λ rest placed. ok-Ensures P (old, place_best-All x ys k ks rest placed))))

  sort_onto-AreRanked :
      (done xs : List (Key × Dict))
      → AreRanked done
      → All IsKeyed xs
      → Ensures AreRanked (sort_onto h done xs)
  unfolding sort_onto
  sort_onto-AreRanked done [] r ks = ok-Ensures AreRanked r
  sort_onto-AreRanked done (x ∷ xs) (keys, order) (k, ks) =
      >>=-Ensures AreRanked (place_best h x done) _ (λ next placed.
        sort_onto-AreRanked next xs
          (place_best-All x done k keys next placed, place_best-AreInOrder x done order next placed)
          ks)

  keyed-AreKeyed : (vs : List Value) → Ensures (All IsKeyed) (keyed h vs)
  unfolding keyed
  keyed-AreKeyed [] = ok-Ensures (All IsKeyed) tt
  keyed-AreKeyed (v ∷ vs) =
      let P = All IsKeyed in
      >>=-Ensures P (as_dict v) _ (λ s _.
        >>=-Ensures P (h.negate (get_or (codes "success_rate") (int (pos 0)) s)) _ (λ rate negated.
          >>=-Ensures P (keyed h vs) _ (λ rest others.
            ok-Ensures P
              (record { rate = negated; latency = refl }, keyed-AreKeyed vs rest others))))

  -- The rows are those that were given, in the order of their keys.
  pub record IsRanking (vs : List Value) (rows : List Dict) : Type 0 where
    pub given : List Dict
    pub read : dicts vs ≡ ok given
    pub reordered : Perm given rows
    pub sorted : List (Key × Dict)
    pub same_rows : rows ≡ map (λ k. k.1) sorted
    pub ranking : AreRanked sorted

  pub ranked-IsRanking : (vs : List Value) → Ensures (IsRanking vs) (ranked h vs)
  unfolding ranked
  ranked-IsRanking vs =
      let P = IsRanking vs in
      >>=-Ensures P (keyed h vs) _ (λ ks read. >>=-Ensures P (sort_onto h [] ks) _ (λ sorted found.
        ok-Ensures P (record {
          given = map (λ k. k.1) ks;
          read = keyed-dicts vs ks read;
          reordered = sort_onto-Perm [] ks sorted found;
          sorted = sorted;
          same_rows = refl;
          ranking = sort_onto-AreRanked [] ks (tt, tt) (keyed-AreKeyed vs ks read) sorted found;
        })))
