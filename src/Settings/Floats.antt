-- ===== src/Settings/Floats.antt =====
-- The order of doubles that the clamps and the ranking of src/blockcheck.py use.
use web_zapret.Base.{◌*◌, ◌^◌, ◌≡◌, refl, Bool, true, false, not, ◌&&◌, ℤ, ltb_ℤ, arith}
use web_zapret.Value.{Float, ratio, infinity, nan}
use web_zapret.Settings.{ltb_float, signed}

-- `a == b` of two doubles
unfoldable pub same_float : Float → Float → Bool
same_float (ratio s m k) (ratio t n j) =
    not (ltb_ℤ (signed s (m * 2 ^ j)) (signed t (n * 2 ^ k)))
    && not (ltb_ℤ (signed t (n * 2 ^ k)) (signed s (m * 2 ^ j)))
same_float (infinity true) (infinity true) = true
same_float (infinity false) (infinity false) = true
same_float a b = false

pub ltb_ℤ-asym : (a b : ℤ) → ltb_ℤ a b ≡ true → ltb_ℤ b a ≡ false
ltb_ℤ-asym a b h = ground arith

pub ltb_float-asym : (a b : Float) → ltb_float a b ≡ true → ltb_float b a ≡ false
unfolding ltb_float
ltb_float-asym (ratio s m k) (ratio t n j) h =
    ltb_ℤ-asym (signed s (m * 2 ^ j)) (signed t (n * 2 ^ k)) h
ltb_float-asym (ratio s m k) (infinity t) h = ground arith
ltb_float-asym (ratio s m k) nan h = refl
ltb_float-asym (infinity s) (ratio t n j) h = ground arith
ltb_float-asym (infinity s) (infinity t) h = ground arith
ltb_float-asym (infinity s) nan h = refl
ltb_float-asym nan (ratio t n j) h = refl
ltb_float-asym nan (infinity t) h = refl
ltb_float-asym nan nan h = refl

pub same_float-not_less : (a b : Float) → same_float a b ≡ true → ltb_float b a ≡ false
unfolding same_float ltb_float
same_float-not_less (ratio s m k) (ratio t n j) h = ground arith
same_float-not_less (infinity true) (infinity true) h = refl
same_float-not_less (infinity false) (infinity false) h = refl
same_float-not_less a b h = cc

pub same_float-not_greater : (a b : Float) → same_float a b ≡ true → ltb_float a b ≡ false
unfolding same_float ltb_float
same_float-not_greater (ratio s m k) (ratio t n j) h = ground arith
same_float-not_greater (infinity true) (infinity true) h = refl
same_float-not_greater (infinity false) (infinity false) h = refl
same_float-not_greater a b h = cc
