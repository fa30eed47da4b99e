-- ===== src/Catalog/Fresh.antt =====
-- The search for an id that the catalog does not have.
use mathlib.Core.List.{append_cancel_left}
use web_zapret.Base.{
  ℕ, zero, suc, ◌≤◌, ◌<◌, ◌≡◌, ◌≢◌, refl, sym, ap, ◌∙◌, true, false, not, ◌&&◌, List, [], ◌∷◌, ◌++◌,
  keep, length, length-append, length-keep-le, ◌==◌, arith, Bool-cases, inl, inr,
}
use web_zapret.Text.{Text, codes, same, one_of}
use web_zapret.Text.Laws.{same_iff}
use web_zapret.Text.Decimal.{decimal, decimal-injective}
use web_zapret.Catalog.{candidate, free_from, free_id}

abbrev suffix : ℕ → Text
suffix n = codes "_" ++ decimal n

stem-ne-longer : (stem : Text) (n : ℕ) → stem ≢ stem ++ suffix n
stem-ne-longer stem n e = absurd (omega (arith, ap length e, length-append stem (suffix n)))

candidate-long : (stem : Text) (n : ℕ) → (n == 1) ≡ false → candidate stem n ≡ stem ++ suffix n
unfolding candidate
candidate-long stem n h = rw h

candidate-one : (stem : Text) (n : ℕ) → (n == 1) ≡ true → candidate stem n ≡ stem
unfolding candidate
candidate-one stem n h = rw h

suffix-injective : (m n : ℕ) → suffix m ≡ suffix n → m ≡ n
suffix-injective m n e = decimal-injective m n (append_cancel_left (codes "_") _ _ e)

-- No id is tried twice.
pub candidate-injective : (stem : Text) (m n : ℕ) → candidate stem m ≡ candidate stem n → m ≡ n
candidate-injective stem m n e = elim (Bool-cases (m == 1)) [
  | inl p ↦ elim (Bool-cases (n == 1)) [
    | inl q ↦ ground arith
    | inr q ↦
        absurd (stem-ne-longer stem n (sym (candidate-one stem m p) ∙ e ∙ candidate-long stem n q))
  ]
  | inr p ↦ elim (Bool-cases (n == 1)) [
    | inl q ↦
        absurd
          (stem-ne-longer stem m (sym (candidate-one stem n q) ∙ sym e ∙ candidate-long stem m p))
    | inr q ↦
        suffix-injective m n (
          append_cancel_left stem _ _ (sym (candidate-long stem m p) ∙ e ∙ candidate-long stem n q))
  ]
]

without : Text → List Text → List Text
without t ks = keep (λ k. not (same k t)) ks

one_of-without :
    (s t : Text) (ks : List Text) → one_of s (without t ks) ≡ (not (same s t) && one_of s ks)
unfolding without one_of
one_of-without s t [] = ground arith
one_of-without s t (k ∷ ks) =
    ground (arith, one_of-without s t ks, same_iff s t, same_iff k t, same_iff s k)

length-without :
    (t : Text) (ks : List Text) → one_of t ks ≡ true → length (without t ks) < length ks
unfolding without one_of
length-without t [] h = cc
length-without t (k ∷ ks) h = ground (
  arith,
  length-without t ks,
  same_iff t k,
  same_iff k t,
  length-keep-le (λ j. not (same j t)) ks,
)

-- The search looks only at which of the ids from `n` on are known.
free_from_congr :
    (fuel : ℕ) (known known' : List Text) (stem : Text) (n : ℕ)
    → ((m : ℕ) → n ≤ m → one_of (candidate stem m) known ≡ one_of (candidate stem m) known')
    → free_from fuel known stem n ≡ free_from fuel known' stem n
unfolding free_from
free_from_congr zero known known' stem n h = refl
free_from_congr (suc fuel) known known' stem n h =
    ground (arith, h n, free_from_congr fuel known known' stem (suc n) (λ m le. h m (omega arith)))

-- The result is one of the ids from `n` on.
free_from-candidate :
    (fuel : ℕ) (known : List Text) (stem : Text) (n : ℕ)
    → (m : ℕ) × (n ≤ m) × (free_from fuel known stem n ≡ candidate stem m)
unfolding free_from
free_from-candidate zero known stem n = (n, omega arith, refl)
free_from-candidate (suc fuel) known stem n = elim (Bool-cases (one_of (candidate stem n) known)) [
  | inl old ↦
      let (m, le, e) = free_from-candidate fuel known stem (suc n) in (m, omega arith, rw old e)
  | inr new ↦ (n, omega arith, rw new)
]

differs : (stem : Text) (m n : ℕ) → n < m → same (candidate stem m) (candidate stem n) ≡ false
differs stem m n lt = elim (Bool-cases (same (candidate stem m) (candidate stem n))) [
  | inl e ↦
      let q : m ≡ n = candidate-injective stem m n ((same_iff _ _).0 e) in absurd (omega arith)
  | inr e ↦ e
]

one_of-without_later :
    (known : List Text) (stem : Text) (n m : ℕ)
    → n < m
    → one_of (candidate stem m) known ≡ one_of (candidate stem m) (without (candidate stem n) known)
one_of-without_later known stem n m lt =
    ground (arith, one_of-without (candidate stem m) (candidate stem n) known, differs stem m n)

free_from-old :
    (fuel : ℕ) (known : List Text) (stem : Text) (n : ℕ)
    → one_of (candidate stem n) known ≡ true
    → free_from (suc fuel) known stem n ≡ free_from fuel known stem (suc n)
unfolding free_from
free_from-old fuel known stem n old = rw old

free_from-new :
    (fuel : ℕ) (known : List Text) (stem : Text) (n : ℕ)
    → one_of (candidate stem n) known ≡ false
    → free_from (suc fuel) known stem n ≡ candidate stem n
unfolding free_from
free_from-new fuel known stem n new = rw new

free_from-not-known :
    (fuel : ℕ) (known : List Text) (stem : Text) (n : ℕ)
    → length known ≤ fuel
    → one_of (free_from fuel known stem n) known ≡ false
free_from-not-known zero [] stem n h = unfold one_of in refl
free_from-not-known zero (k ∷ ks) stem n h = elim h [ ]
free_from-not-known (suc fuel) known stem n h =
    elim (Bool-cases (one_of (candidate stem n) known)) [
      | inl old ↦
          let rest = without (candidate stem n) known in
          let (m, le, e) = free_from-candidate fuel known stem (suc n) in
          let same_result : free_from fuel known stem (suc n) ≡ free_from fuel rest stem (suc n) =
            free_from_congr fuel known rest stem (suc n) (one_of-without_later known stem n) in
          let free : one_of (free_from fuel rest stem (suc n)) rest ≡ false =
            free_from-not-known fuel rest stem (suc n)
              (omega (arith, length-without (candidate stem n) known old)) in
          ap (λ s. one_of s known) (free_from-old fuel known stem n old ∙ e)
          ∙ one_of-without_later known stem n m le
          ∙ ap (λ s. one_of s rest) (sym e ∙ same_result)
          ∙ free
      | inr new ↦ ap (λ s. one_of s known) (free_from-new fuel known stem n new) ∙ new
    ]

-- The loop ends with an id that is not known.
pub free_id-not-known :
    (known : List Text) (stem : Text) → one_of (free_id known stem) known ≡ false
unfolding free_id
free_id-not-known known stem = free_from-not-known (length known) known stem 1 (omega arith)
