-- ===== src/Harness/Pruning/Newest.antt =====
-- `prune_runs` keeps the newest runs.
use web_zapret.Base.{
  ℕ, zero, suc, Bool, ◌≡◌, refl, true, false, List, [], ◌∷◌, take, keep, some, pos, sort_onto,
  IsOrdered, sort_onto-IsOrdered, Perm-sort_onto, All, All-keep, All-imp,
}
use mathlib.Core.List.{Perm}
use web_zapret.Text.{Text, before_text}
use web_zapret.Text.Laws.{before_text_asym, before_text_cotrans}
use web_zapret.Logs.{drop}
use web_zapret.Harness.Pruning.{newer, from_position, prune_runs}

-- The names that are not before a given one.
abbrev pub NotBefore : Text → Text → Type 0
NotBefore k r = before_text k r ≡ false

newer_asym : (a b : Text) → newer a b ≡ true → newer b a ≡ false
unfolding newer
newer_asym a b h = before_text_asym b a h

first_newest : (x : Text) (xs : List Text) → IsOrdered newer (x ∷ xs) → All (NotBefore x) xs
unfolding newer
first_newest x [] o = tt
first_newest x (y ∷ ys) (h, o) =
    (h, All-imp (λ z k. before_text_cotrans x y z h k) ys (first_newest y ys o))

rest_sorted : (x : Text) (xs : List Text) → IsOrdered newer (x ∷ xs) → IsOrdered newer xs
rest_sorted x [] o = tt
rest_sorted x (y ∷ ys) (h, o) = o

All-drop {ℓ κ} : {A : Type ℓ} (P : A → Type κ) (n : ℕ) (xs : List A) → All P xs → All P (drop n xs)
unfolding drop
All-drop P zero xs h = h
All-drop P (suc n) [] h = h
All-drop P (suc n) (x ∷ xs) (p, h) = All-drop P n xs h

All-both {ℓ κ μ} :
    {A : Type ℓ} (P : A → Type κ) (Q : A → Type μ) (xs : List A)
    → All P xs
    → All Q xs
    → All (λ x. P x × Q x) xs
All-both P Q [] h k = tt
All-both P Q (x ∷ xs) (p, h) (q, k) = ((p, q), All-both P Q xs h k)

All-unit {ℓ} : {A : Type ℓ} (xs : List A) → All (λ (_ : A). Unit {0}) xs
All-unit [] = tt
All-unit (x ∷ xs) = (tt, All-unit xs)

kept_newest :
    (n : ℕ) (xs : List Text)
    → IsOrdered newer xs
    → All (λ r. All (λ k. NotBefore k r) (take n xs)) (drop n xs)
unfolding drop
kept_newest zero xs o = All-unit xs
kept_newest (suc n) [] o = tt
kept_newest (suc n) (x ∷ xs) o =
    All-both (NotBefore x) (λ r. All (λ k. NotBefore k r) (take n xs)) (drop n xs)
      (All-drop (NotBefore x) n xs (first_newest x xs o)) (kept_newest n xs (rest_sorted x xs o))

-- `prune_runs` with a number of runs to keep removes none of that many newest ones: what it removes are the
-- directories behind them, in the order from the newest to the oldest, whose removal succeeds; and no
-- removed name is after a kept one.
pub prune_runs_newest :
    (names : List Text) (n : ℕ) (removes : Text → Bool)
    → (ranked : List Text) × Perm names ranked
      × IsOrdered newer ranked
      × (prune_runs (some names) (pos n) removes ≡ keep removes (drop n ranked))
      × All
          (λ r. All (λ k. NotBefore k r) (take n ranked))
          (prune_runs (some names) (pos n) removes)
unfolding prune_runs from_position
prune_runs_newest names n removes =
    let ranked = sort_onto newer [] names in
    let ordered = sort_onto-IsOrdered newer newer_asym [] names tt in
    (
      ranked,
      Perm-sort_onto newer [] names,
      ordered,
      refl,
      All-keep (λ r. All (λ k. NotBefore k r) (take n ranked)) removes (drop n ranked)
          (kept_newest n ranked ordered),
    )
