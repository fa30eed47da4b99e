-- ===== src/Reports/Order.antt =====
-- The stable sort of `rank`.
use web_zapret.Base.{
  ltb, ltb_ℤ, pos, Consecutive, IsOrdered-Consecutive, Ensures, ok-Ensures, >>=-Ensures, refl,
  sort_onto, IsOrdered, sort_onto-IsOrdered, Perm-sort_onto, sort_onto-All, ◌≡◌, true, false, List,
  [], ◌∷◌, map, arith, All, subst, sym, ap, ok, >>=-eq-ok, ok_inj,
}
use mathlib.Core.List.{Perm}
use mathlib.Core.List.Perm
use web_zapret.Text.{codes}
use web_zapret.Dict.{get_or}
use web_zapret.Value.{null, int, float, Dict, truthy, or_else, py_int}
use web_zapret.Settings.{zero_float, ltb_float}
use web_zapret.Settings.Floats.{
  same_float, ltb_ℤ-asym, ltb_float-asym, same_float-not_less, same_float-not_greater,
}
use web_zapret.Reports.{
  Key, precedes, Ranked, row_precedes, Doubles, float_of, share_of, key_of, keyed, rank,
}

abbrev IsRanked : List Ranked → Type 0
IsRanked rs = IsOrdered row_precedes rs

-- A key in front of another one: rows that work come first; of two that both do, or both do not, the one with
-- the greater success rate, then the one with the greater share, then the one with the lower latency.
pub record IsInFront (a b : Key) : Type 0 where
  pub idle : ltb b.idle a.idle ≡ false
  pub rate : a.idle ≡ b.idle → ltb_float a.rate b.rate ≡ false
  pub share : a.idle ≡ b.idle → same_float b.rate a.rate ≡ true → ltb_float a.share b.share ≡ false
  pub latency :
      a.idle ≡ b.idle
      → same_float b.rate a.rate ≡ true
      → same_float b.share a.share ≡ true
      → ltb_ℤ b.latency a.latency ≡ false

-- The key of a row, as its values say.
pub record IsKeyed (rt : Doubles) (r : Ranked) : Type 0 where
  pub idle :
      (truthy (get_or (codes "working") null r.row) ≡ true → r.key.idle ≡ 0)
      × (truthy (get_or (codes "working") null r.row) ≡ false → r.key.idle ≡ 1)
  pub rate : float_of rt (get_or (codes "success_rate") (float zero_float) r.row) ≡ ok r.key.rate
  pub share : share_of rt (get_or (codes "median_share") null r.row) ≡ ok r.key.share
  pub latency :
      py_int rt.runtime
        (or_else (get_or (codes "median_latency_ms") (int (pos 0)) r.row) (int (pos 0)))
      ≡ ok r.key.latency

-- Each row with the key of its values, in the order of the keys.
abbrev pub AreRanked : Doubles → List Ranked → Type 0
AreRanked rt rs = All (IsKeyed rt) rs × Consecutive (λ (a b : Ranked). IsInFront a.key b.key) rs

precedes-IsInFront : (a b : Ranked) → row_precedes b a ≡ false → IsInFront a.key b.key
unfolding row_precedes precedes
precedes-IsInFront a b h = record {
  idle = ground arith;
  rate = λ e. ground arith;
  share = λ e f. ground arith;
  latency = λ e f g. ground arith;
}

key_of-IsKeyed :
    (rt : Doubles) (row : Dict)
    → Ensures (λ key. IsKeyed rt (record { key = key; row = row })) (key_of rt row)
unfolding key_of
key_of-IsKeyed rt row =
    let P = λ (key : Key). IsKeyed rt (record { key = key; row = row }) in
    >>=-Ensures P (float_of rt (get_or (codes "success_rate") (float zero_float) row)) _ (λ x rate.
      >>=-Ensures P (share_of rt (get_or (codes "median_share") null row)) _ (λ y share.
        >>=-Ensures P
          (py_int rt.runtime
            (or_else (get_or (codes "median_latency_ms") (int (pos 0)) row) (int (pos 0))))
          _
          (λ n latency. ok-Ensures P (record {
            idle = (λ e. rw e refl, λ e. rw e refl);
            rate = rate;
            share = share;
            latency = latency;
          }))))

keyed-AreKeyed : (rt : Doubles) (rows : List Dict) → Ensures (All (IsKeyed rt)) (keyed rt rows)
unfolding keyed
keyed-AreKeyed rt [] = ok-Ensures (All (IsKeyed rt)) tt
keyed-AreKeyed rt (row ∷ rows) = >>=-Ensures (All (IsKeyed rt)) (key_of rt row) _ (λ key found.
    >>=-Ensures (All (IsKeyed rt)) (keyed rt rows) _ (λ rest others.
      ok-Ensures (All (IsKeyed rt))
        (key_of-IsKeyed rt row key found, keyed-AreKeyed rt rows rest others)))

pub precedes-asym : (a b : Key) → precedes a b ≡ true → precedes b a ≡ false
unfolding precedes
precedes-asym a b h = ground (
  arith,
  ltb_ℤ-asym a.latency b.latency,
  ltb_float-asym b.rate a.rate,
  ltb_float-asym b.share a.share,
  same_float-not_less a.rate b.rate,
  same_float-not_greater a.rate b.rate,
  same_float-not_less b.rate a.rate,
  same_float-not_greater b.rate a.rate,
  same_float-not_less a.share b.share,
  same_float-not_greater a.share b.share,
  same_float-not_less b.share a.share,
  same_float-not_greater b.share a.share,
)

abbrev pub rows_of : List Ranked → List Dict
rows_of rs = map (λ (r : Ranked). r.row) rs

pub keyed-rows :
    (rt : Doubles) (rows : List Dict) (rs : List Ranked) → keyed rt rows ≡ ok rs → rows_of rs ≡ rows
unfolding keyed
keyed-rows rt [] rs h = ap rows_of (ok_inj (sym h))
keyed-rows rt (row ∷ rows) rs h =
    let (key, _, h₁) = >>=-eq-ok (key_of rt row) _ h in
    let (rest, others, h₂) = >>=-eq-ok (keyed rt rows) _ h₁ in
    subst (λ l. rows_of l ≡ row ∷ rows) (ok_inj h₂)
      (ap (λ l. row ∷ l) (keyed-rows rt rows rest others))

row_precedes-asym : (a b : Ranked) → row_precedes a b ≡ true → row_precedes b a ≡ false
unfolding row_precedes
row_precedes-asym a b h = precedes-asym a.key b.key h

-- `rank` sorts: it returns the rows that it was given, with their keys and in their order.
pub rank_lem :
    (rt : Doubles) (rows : List Dict) (rs : List Ranked)
    → rank rt rows ≡ ok rs
    → Perm rows (rows_of rs) × AreRanked rt rs
unfolding rank
rank_lem rt rows rs h =
    let (ks, found, h₁) = >>=-eq-ok (keyed rt rows) _ h in
    let sorted = sort_onto row_precedes [] ks in
    let all_rows =
      subst (λ l. Perm l (rows_of sorted)) (keyed-rows rt rows ks found)
        (Perm.map (λ (r : Ranked). r.row) (Perm-sort_onto row_precedes [] ks)) in
    subst (λ l. Perm rows (rows_of l) × AreRanked rt l) (ok_inj h₁)
      (
        all_rows,
        (
          sort_onto-All row_precedes (IsKeyed rt) [] ks tt (keyed-AreKeyed rt rows ks found),
          IsOrdered-Consecutive row_precedes (λ (a b : Ranked). IsInFront a.key b.key)
              precedes-IsInFront sorted
              (sort_onto-IsOrdered row_precedes row_precedes-asym [] ks tt),
        ),
      )

module _ {ℓ} (P : Dict → Type ℓ) where
  all_rows : (rs : List Ranked) → All P (rows_of rs) → All (λ (r : Ranked). P r.row) rs
  all_rows [] ps = tt
  all_rows (r ∷ rs) (p, ps) = (p, all_rows rs ps)

  all_of_rows : (rs : List Ranked) → All (λ (r : Ranked). P r.row) rs → All P (rows_of rs)
  all_of_rows [] ps = tt
  all_of_rows (r ∷ rs) (p, ps) = (p, all_of_rows rs ps)

  pub sorted-All :
      (ks : List Ranked) → All P (rows_of ks) → All P (rows_of (sort_onto row_precedes [] ks))
  sorted-All ks ps =
      all_of_rows (sort_onto row_precedes [] ks)
        (sort_onto-All row_precedes (λ (r : Ranked). P r.row) [] ks tt (all_rows ks ps))

  pub rank-All :
      (rt : Doubles) (rows : List Dict) (rs : List Ranked)
      → rank rt rows ≡ ok rs
      → All P rows
      → All P (rows_of rs)
  unfolding rank
  rank-All rt rows rs h ps =
      let (ks, found, h₁) = >>=-eq-ok (keyed rt rows) _ h in
      subst (λ l. All P (rows_of l)) (ok_inj h₁)
        (sorted-All ks (subst (All P) (sym (keyed-rows rt rows ks found)) ps))
