-- ===== src/Base/Sorting.antt =====
-- A stable sort by insertion, its order and its elements.
use mathlib.Core.Path.{◌≡◌, sym, subst}
use mathlib.Core.Bool.{Bool, true, false}
use mathlib.Core.List.{List, [], ◌∷◌, ◌++◌, append-nil, Perm, perm_middle}
use mathlib.Core.List.Perm
use web_zapret.Base.Tests.{if◌then◌else◌, if_each, if_both}
use web_zapret.Base.Lists.{All}

-- A relation of each element to the next one.
abbrev pub Consecutive {ℓ κ} : {A : Type ℓ} → (A → A → Type κ) → List A → Type κ
Consecutive R [] = Unit
Consecutive R (x ∷ []) = Unit
Consecutive R (x ∷ y ∷ ys) = R x y × Consecutive R (y ∷ ys)

module _ {ℓ} {A : Type ℓ} (precedes : A → A → Bool) where
  -- An element stands behind those that it does not precede.
  unfoldable pub place : A → List A → List A
  place x [] = x ∷ []
  place x (y ∷ ys) = let rest = place x ys in if precedes x y then x ∷ y ∷ ys else y ∷ rest

  unfoldable pub sort_onto : List A → List A → List A
  unfolding place
  sort_onto done [] = done
  sort_onto done (x ∷ xs) = sort_onto (place x done) xs

  -- No element precedes the one in front of it.
  abbrev pub IsOrdered : List A → Type 0
  IsOrdered [] = Unit
  IsOrdered (x ∷ []) = Unit
  IsOrdered (x ∷ y ∷ ys) = (precedes y x ≡ false) × IsOrdered (y ∷ ys)

  pub IsOrdered-Consecutive {κ} :
      (R : A → A → Type κ)
      → ((a b : A) → precedes b a ≡ false → R a b)
      → (xs : List A) → IsOrdered xs
      → Consecutive R xs
  IsOrdered-Consecutive R f [] h = tt
  IsOrdered-Consecutive R f (x ∷ []) h = tt
  IsOrdered-Consecutive R f (x ∷ y ∷ ys) (p, h) = (f x y p, IsOrdered-Consecutive R f (y ∷ ys) h)

  module _ (asym : (a b : A) → precedes a b ≡ true → precedes b a ≡ false) where
    place_behind :
        (z x : A) (ys : List A)
        → precedes x z ≡ false
        → IsOrdered (z ∷ ys)
        → IsOrdered (z ∷ place x ys)
    unfolding place
    place_behind z x [] h r = (h, tt)
    place_behind z x (y ∷ ys) h (old, r) =
        if_each (λ l. IsOrdered (z ∷ l)) (precedes x y) (λ e. (h, (asym x y e, r)))
          (λ e. (old, place_behind y x ys e r))

    place-IsOrdered : (x : A) (ys : List A) → IsOrdered ys → IsOrdered (place x ys)
    unfolding place
    place-IsOrdered x [] r = tt
    place-IsOrdered x (y ∷ ys) r =
        if_each IsOrdered (precedes x y) (λ e. (asym x y e, r)) (λ e. place_behind y x ys e r)

    pub sort_onto-IsOrdered : (done xs : List A) → IsOrdered done → IsOrdered (sort_onto done xs)
    unfolding sort_onto
    sort_onto-IsOrdered done [] r = r
    sort_onto-IsOrdered done (x ∷ xs) r =
        sort_onto-IsOrdered (place x done) xs (place-IsOrdered x done r)

  Perm-place : (x : A) (ys : List A) → Perm (x ∷ ys) (place x ys)
  unfolding place
  Perm-place x [] = Perm.refl (x ∷ [])
  Perm-place x (y ∷ ys) =
      if_both (λ l. Perm (x ∷ y ∷ ys) l) (precedes x y) (Perm.refl (x ∷ y ∷ ys))
        (Perm.trans (Perm.swap y x ys) (Perm.cons y (Perm-place x ys)))

  pub Perm-sort_onto : (done xs : List A) → Perm (done ++ xs) (sort_onto done xs)
  unfolding sort_onto
  Perm-sort_onto done [] = subst (λ l. Perm l done) (sym (append-nil done)) (Perm.refl done)
  Perm-sort_onto done (x ∷ xs) =
      Perm.trans (perm_middle done xs)
        (Perm.trans (Perm.append_right xs (Perm-place x done)) (Perm-sort_onto (place x done) xs))

  module _ {κ} (P : A → Type κ) where
    place-All : (x : A) (ys : List A) → P x → All P ys → All P (place x ys)
    unfolding place
    place-All x [] p ps = (p, tt)
    place-All x (y ∷ ys) p (q, ps) =
        if_both (All P) (precedes x y) (p, (q, ps)) (q, place-All x ys p ps)

    pub sort_onto-All : (done xs : List A) → All P done → All P xs → All P (sort_onto done xs)
    unfolding sort_onto
    sort_onto-All done [] ds ps = ds
    sort_onto-All done (x ∷ xs) ds (p, ps) =
        sort_onto-All (place x done) xs (place-All x done p ds) ps
