-- ===== src/Text/Laws.antt =====
-- Laws of the methods of `str`.
use web_zapret.Base.{ℕ, ◌≡◌, refl, ◌↔◌, ◌≢◌, true, false, ◌||◌, List, [], ◌∷◌, ◌++◌, arith}
use web_zapret.Text.{before_text, Text, same, one_of, starts_with, has_char, before}

same-eq : (s t : Text) → same s t ≡ true → s ≡ t
unfolding same
same-eq [] [] h = refl
same-eq [] (_ ∷ _) h = cc
same-eq (_ ∷ _) [] h = cc
same-eq (a ∷ s) (b ∷ t) h = ground (arith, same-eq s t)

pub same_refl : (s : Text) → same s s ≡ true
unfolding same
same_refl [] = refl
same_refl (a ∷ s) = ground (arith, same_refl s)

pub same_iff : (s t : Text) → (same s t ≡ true) ↔ (s ≡ t)
same_iff s t = (same-eq s t, λ e. rw e (same_refl t))

pub one_of-cons : (s t : Text) (ts : List Text) → one_of s (t ∷ ts) ≡ (same s t || one_of s ts)
unfolding one_of
one_of-cons s t ts = refl

pub starts_with-append : (p s : Text) → starts_with (p ++ s) p ≡ true
unfolding starts_with
starts_with-append [] s = refl
starts_with-append (a ∷ p) s = ground (arith, starts_with-append p s)

-- A prefix of a text, with the rest.
pub starts_with-split : (s p : Text) → starts_with s p ≡ true → (r : Text) × (s ≡ p ++ r)
unfolding starts_with
starts_with-split s [] h = (s, refl)
starts_with-split [] (b ∷ p) h = cc
starts_with-split (a ∷ s) (b ∷ p) h =
    let (r, e) = starts_with-split s p (ground arith) in (r, ground arith)

-- Two prefixes that differ at a place exclude one another.
pub starts_with-clash :
    (s p q : Text) (a b : ℕ) (p' q' : Text)
    → a ≢ b
    → starts_with s (p ++ a ∷ p') ≡ true
    → starts_with s (p ++ b ∷ q') ≡ false
unfolding starts_with
starts_with-clash [] [] q a b p' q' n h = refl
starts_with-clash (c ∷ s) [] q a b p' q' n h = ground arith
starts_with-clash [] (d ∷ p) q a b p' q' n h = refl
starts_with-clash (c ∷ s) (d ∷ p) q a b p' q' n h =
    ground (arith, starts_with-clash s p q a b p' q' n)

pub has_char-append : (c : ℕ) (s t : Text) → has_char c (s ++ t) ≡ (has_char c s || has_char c t)
unfolding has_char
has_char-append c [] t = refl
has_char-append c (a ∷ s) t = ground (arith, has_char-append c s t)

-- The part before the first `c` of `p ++ c ∷ s` is `p`, if `p` has no `c`.
pub before-append : (c : ℕ) (p s : Text) → has_char c p ≡ false → before c (p ++ c ∷ s) ≡ p
unfolding before has_char
before-append c [] s h = ground arith
before-append c (a ∷ p) s h = ground (arith, before-append c p s)

pub before_text_asym : (s t : Text) → before_text s t ≡ true → before_text t s ≡ false
unfolding before_text
before_text_asym s [] h = cc
before_text_asym [] (b ∷ t) h = refl
before_text_asym (a ∷ s) (b ∷ t) h = ground (arith, before_text_asym s t)

pub before_text_irrefl : (s : Text) → before_text s s ≡ false
unfolding before_text
before_text_irrefl [] = refl
before_text_irrefl (a ∷ s) = ground (arith, before_text_irrefl s)

-- What is not before a text that is not before another one is not before that one.
pub before_text_cotrans :
    (s t u : Text) → before_text s t ≡ false → before_text t u ≡ false → before_text s u ≡ false
unfolding before_text
before_text_cotrans s t [] h k = refl
before_text_cotrans s [] (c ∷ u) h k = cc
before_text_cotrans [] (b ∷ t) (c ∷ u) h k = cc
before_text_cotrans (a ∷ s) (b ∷ t) (c ∷ u) h k = ground (arith, before_text_cotrans s t u)

-- Of two texts that differ, one is before the other one.
pub before_text_total :
    (s t : Text) → same s t ≡ false → before_text s t ≡ false → before_text t s ≡ true
unfolding before_text same
before_text_total [] [] h k = cc
before_text_total [] (b ∷ t) h k = cc
before_text_total (a ∷ s) [] h k = refl
before_text_total (a ∷ s) (b ∷ t) h k = ground (arith, before_text_total s t)

pub same_sym : (s t : Text) → same s t ≡ same t s
unfolding same
same_sym [] [] = refl
same_sym [] (b ∷ t) = refl
same_sym (a ∷ s) [] = refl
same_sym (a ∷ s) (b ∷ t) = ground (arith, same_sym s t)
