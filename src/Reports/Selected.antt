-- ===== src/Reports/Selected.antt =====
-- Which rows `select_working` accepts.
use web_zapret.Base.{◌≡◌, subst, List, [], ◌∷◌, map, Option, none, some, ok, >>=-eq-ok, ok_inj, All}
use mathlib.Core.List.{Perm}
use web_zapret.Value.{Dict}
use web_zapret.Reports.{
  Doubles, Reason, Ranked, Selection, judged, judge, filter_reason, rank, select_working,
}
use web_zapret.Reports.Order.{AreRanked, rows_of, rank_lem, rank-All}

-- The third list holds the elements of the first two, in their orders.
pub data Interleaved {ℓ} {A : Type ℓ} : List A → List A → List A → Type ℓ where
  end : Interleaved [] [] []
  left : (x : A) (xs ys zs : List A) → Interleaved xs ys zs → Interleaved (x ∷ xs) ys (x ∷ zs)
  right : (x : A) (xs ys zs : List A) → Interleaved xs ys zs → Interleaved xs (x ∷ ys) (x ∷ zs)

abbrev pub refused_rows : Selection → List Dict
refused_rows s = map (λ p. p.0) s.refused

-- What a selection says of the rows in their ranked order.
pub record IsSelection (rt : Doubles) (settings : Dict) (ranked : List Dict) (s : Selection)
    : Type 0 where
  pub all_judged : Interleaved s.accepted (refused_rows s) ranked
  pub passed : All (λ row. filter_reason rt row settings ≡ ok none) s.accepted
  pub failed : All (λ p. filter_reason rt p.0 settings ≡ ok (some p.1)) s.refused

judged-IsSelection :
    (rt : Doubles) (settings row : Dict) (ranked : List Dict) (reason : Option Reason)
    (s : Selection)
    → filter_reason rt row settings ≡ ok reason
    → IsSelection rt settings ranked s
    → IsSelection rt settings (row ∷ ranked) (judged row reason s)
unfolding judged
judged-IsSelection rt settings row ranked none s h i = record {
  all_judged = left row s.accepted (refused_rows s) ranked i.all_judged;
  passed = (h, i.passed);
  failed = i.failed;
}
judged-IsSelection rt settings row ranked (some reason) s h i = record {
  all_judged = right row s.accepted (refused_rows s) ranked i.all_judged;
  passed = i.passed;
  failed = (h, i.failed);
}

judge-IsSelection :
    (rt : Doubles) (settings : Dict) (rs : List Ranked) (s : Selection)
    → judge rt settings rs ≡ ok s
    → IsSelection rt settings (rows_of rs) s
unfolding judge
judge-IsSelection rt settings [] s h =
    subst (IsSelection rt settings []) (ok_inj h)
      (record { all_judged = end; passed = tt; failed = tt })
judge-IsSelection rt settings (r ∷ rs) s h =
    let (reason, e, h₁) = >>=-eq-ok (filter_reason rt r.row settings) _ h in
    let (rest, others, h₂) = >>=-eq-ok (judge rt settings rs) _ h₁ in
    subst (IsSelection rt settings (r.row ∷ rows_of rs)) (ok_inj h₂) (
      judged-IsSelection rt settings r.row (rows_of rs) reason rest e
        (judge-IsSelection rt settings rs rest others))

-- `select_working` loses no row and judges each one: the rows in the order of the ranking (those that work
-- first, then by descending success rate, by descending share and by ascending latency) are the accepted and
-- the refused ones, each of the two in that order; every accepted row passes the filter, and every refused
-- one fails it with the reason that it carries.
pub select_working-IsSelection :
    (rt : Doubles) (rows : List Dict) (settings : Dict) (s : Selection)
    → select_working rt rows settings ≡ ok s
    → (ranked : List Ranked) × AreRanked rt ranked
      × Perm rows (rows_of ranked)
      × IsSelection rt settings (rows_of ranked) s
unfolding select_working
select_working-IsSelection rt rows settings s h =
    let (ranked, sorted, h₁) = >>=-eq-ok (rank rt rows) _ h in
    let (same_rows, in_order) = rank_lem rt rows ranked sorted in
    (ranked, in_order, same_rows, judge-IsSelection rt settings ranked s h₁)

all_left {ℓ κ} :
    {A : Type ℓ} (P : A → Type κ) {xs ys zs : List A} → Interleaved xs ys zs → All P zs → All P xs
all_left P end ps = tt
all_left P (left x xs ys zs i) (p, ps) = (p, all_left P i ps)
all_left P (right x xs ys zs i) (p, ps) = all_left P i ps

-- The accepted rows are rows that were given.
pub select_working-All {ℓ} :
    (P : Dict → Type ℓ) (rt : Doubles) (rows : List Dict) (settings : Dict) (s : Selection)
    → select_working rt rows settings ≡ ok s
    → All P rows
    → All P s.accepted
unfolding select_working
select_working-All P rt rows settings s h ps =
    let (ranked, sorted, h₁) = >>=-eq-ok (rank rt rows) _ h in
    all_left P (judge-IsSelection rt settings ranked s h₁).all_judged
      (rank-All P rt rows ranked sorted ps)
