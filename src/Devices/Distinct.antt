-- ===== src/Devices/Distinct.antt =====
-- Sets of texts and their sorted lists.
use web_zapret.Base.{
  ◌≡◌, refl, ap, ◌∙◌, Bool, true, false, ◌||◌, List, [], ◌∷◌, any, All, place, sort_onto, if_each,
  arith,
}
use web_zapret.Text.{Text, same, one_of, before_text}
use web_zapret.Text.Laws.{same_iff, before_text_total, same_sym}
use web_zapret.Devices.{add_new, distinct}

abbrev pub IsDistinct : List Text → Type 0
IsDistinct [] = Unit
IsDistinct (x ∷ xs) = (one_of x xs ≡ false) × IsDistinct xs

pub add_new-IsDistinct : (x : Text) (s : List Text) → IsDistinct s → IsDistinct (add_new x s)
unfolding add_new
add_new-IsDistinct x s h = if_each IsDistinct (one_of x s) (λ _. h) (λ new. (new, h))

distinct-IsDistinct : (xs : List Text) → IsDistinct (distinct xs)
unfolding distinct
distinct-IsDistinct [] = tt
distinct-IsDistinct (x ∷ xs) = add_new-IsDistinct x (distinct xs) (distinct-IsDistinct xs)

-- A test that a member passes is passed by some member.
any-one_of :
    (g : Text → Bool) (x : Text) (s : List Text) → one_of x s ≡ true → g x ≡ true → any g s ≡ true
unfolding one_of
any-one_of g x [] m h = cc
any-one_of g x (y ∷ s) m h = ground (arith, same_iff x y, any-one_of g x s)

pub any-add_new :
    (g : Text → Bool) (x : Text) (s : List Text) → any g (add_new x s) ≡ (g x || any g s)
unfolding add_new
any-add_new g x s = ground (arith, any-one_of g x s)

any-distinct : (g : Text → Bool) (xs : List Text) → any g (distinct xs) ≡ any g xs
unfolding distinct
any-distinct g [] = refl
any-distinct g (x ∷ xs) = any-add_new g x (distinct xs) ∙ ap (λ b. g x || b) (any-distinct g xs)

any-place :
    (g : Text → Bool) (x : Text) (ys : List Text)
    → any g (place before_text x ys) ≡ (g x || any g ys)
unfolding place
any-place g x [] = refl
any-place g x (y ∷ ys) = ground (arith, any-place g x ys)

any-sort_onto :
    (g : Text → Bool) (done xs : List Text)
    → any g (sort_onto before_text done xs) ≡ (any g done || any g xs)
unfolding sort_onto
any-sort_onto g done [] = ground arith
any-sort_onto g done (x ∷ xs) =
    ground (arith, any-sort_onto g (place before_text x done) xs, any-place g x done)

-- What a sorted set holds.
pub any-sorted :
    (g : Text → Bool) (xs : List Text) → any g (sort_onto before_text [] (distinct xs)) ≡ any g xs
any-sorted g xs = any-sort_onto g [] (distinct xs) ∙ any-distinct g xs

-- Strictly ascending, so that no text occurs twice.
abbrev pub IsAscending : List Text → Type 0
IsAscending [] = Unit
IsAscending (x ∷ []) = Unit
IsAscending (x ∷ y ∷ ys) = (before_text x y ≡ true) × IsAscending (y ∷ ys)

place_behind :
    (z x : Text) (ys : List Text)
    → before_text z x ≡ true
    → one_of x ys ≡ false
    → IsAscending (z ∷ ys)
    → IsAscending (z ∷ place before_text x ys)
unfolding place one_of
place_behind z x [] h new r = (h, tt)
place_behind z x (y ∷ ys) h new (old, r) =
    if_each (λ l. IsAscending (z ∷ l)) (before_text x y) (λ e. (h, (e, r)))
      (λ e. (old, place_behind y x ys (before_text_total x y (ground arith) e) (ground arith) r))

place-IsAscending :
    (x : Text) (ys : List Text)
    → one_of x ys ≡ false
    → IsAscending ys
    → IsAscending (place before_text x ys)
unfolding place one_of
place-IsAscending x [] new r = tt
place-IsAscending x (y ∷ ys) new r =
    if_each IsAscending (before_text x y) (λ e. (e, r))
      (λ e. place_behind y x ys (before_text_total x y (ground arith) e) (ground arith) r)

one_of-place :
    (t x : Text) (ys : List Text) → one_of t (place before_text x ys) ≡ (same t x || one_of t ys)
unfolding place one_of
one_of-place t x [] = refl
one_of-place t x (y ∷ ys) = ground (arith, one_of-place t x ys)

-- None of the texts is in the list.
abbrev Apart : List Text → List Text → Type 0
Apart done xs = All (λ x. one_of x done ≡ false) xs

Apart-place :
    (done : List Text) (x : Text) (xs : List Text)
    → one_of x xs ≡ false
    → Apart done xs
    → Apart (place before_text x done) xs
unfolding one_of
Apart-place done x [] new apart = tt
Apart-place done x (y ∷ xs) new (a, apart) = (
  ground (arith, one_of-place y x done, same_sym y x),
  Apart-place done x xs (ground arith) apart,
)

sort_onto-IsAscending :
    (done xs : List Text)
    → IsAscending done
    → Apart done xs
    → IsDistinct xs
    → IsAscending (sort_onto before_text done xs)
unfolding sort_onto
sort_onto-IsAscending done [] r apart d = r
sort_onto-IsAscending done (x ∷ xs) r (a, apart) (new, d) =
    sort_onto-IsAscending (place before_text x done) xs (place-IsAscending x done a r)
      (Apart-place done x xs new apart) d

Apart-nil : (xs : List Text) → Apart [] xs
unfolding one_of
Apart-nil [] = tt
Apart-nil (x ∷ xs) = (refl, Apart-nil xs)

pub sorted-IsAscending : (xs : List Text) → IsAscending (sort_onto before_text [] (distinct xs))
sorted-IsAscending xs =
    sort_onto-IsAscending [] (distinct xs) tt (Apart-nil (distinct xs)) (distinct-IsDistinct xs)
