-- ===== src/Text/Decimal.antt =====
-- `"%d" % n` and `str(n)` of a natural number.
use web_zapret.Base.{
  ℕ, zero, suc, ◌+◌, ◌-◌, ◌*◌, ◌/◌, ◌%◌, ◌<◌, ◌≡◌, refl, sym, ap, ◌∙◌, [], ◌∷◌, ◌++◌, arith, ltb,
  if◌then◌else◌,
}
use web_zapret.Text.{Text, codes}

digits : ℕ → ℕ → Text
digits zero n = []
digits (suc fuel) n =
    let more = digits fuel (n / 10) ++ (48 + n % 10) ∷ [] in
    if ltb n 10 then (48 + n) ∷ [] else more

-- The fuel is enough: `n / 10 < n` in every round that goes on.
unfoldable pub decimal : ℕ → Text
unfolding digits
decimal n = digits (suc n) n

-- The number that decimal digits spell behind `n`.
unfoldable pub read : ℕ → Text → ℕ
read n [] = n
read n (c ∷ s) = read (n * 10 + (c - 48)) s

read-concat : (n : ℕ) (s : Text) (c : ℕ) → read n (s ++ c ∷ []) ≡ read n s * 10 + (c - 48)
unfolding read
read-concat n [] c = refl
read-concat n (d ∷ s) c = read-concat (n * 10 + (d - 48)) s c

read-digits : (fuel n : ℕ) → n < fuel → read 0 (digits fuel n) ≡ n
unfolding digits read
read-digits zero n h = elim h [ ]
read-digits (suc fuel) n h =
    ground (arith, read-concat 0 (digits fuel (n / 10)) (48 + n % 10), read-digits fuel (n / 10))

-- A printed number is read back.
pub read-decimal : (n : ℕ) → read 0 (decimal n) ≡ n
unfolding decimal
read-decimal n = read-digits (suc n) n (omega arith)

pub decimal-injective : (m n : ℕ) → decimal m ≡ decimal n → m ≡ n
decimal-injective m n e = sym (read-decimal m) ∙ ap (read 0) e ∙ read-decimal n

decimal_test : decimal 1705 ≡ codes "1705"
unfolding decimal
decimal_test = refl
