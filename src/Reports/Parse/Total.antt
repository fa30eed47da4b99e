-- ===== src/Reports/Parse/Total.antt =====
-- The selection returns on the rows of a parsed check report.
use web_zapret.Base.{◌≡◌, refl, if_both, ℤ, pos}
use web_zapret.Text.{Text}
use web_zapret.Value.{Value, int, Dict, truthy, or_else}

pub or_else-int : (n : ℤ) → (m : ℤ) × (or_else (int n) (int (pos 0)) ≡ int m)
unfolding or_else
or_else-int n = if_both (λ v. (m : ℤ) × (v ≡ int m)) (truthy (int n)) (n, refl) (pos 0, refl)
