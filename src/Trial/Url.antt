-- ===== src/Trial/Url.antt =====
-- What the test of the URL in `test_strategy` admits.
use mathlib.Core.List.{reverse, reverse-cons}
use web_zapret.Base.{
  ℕ, ◌≤◌, ◌≡◌, ◌⊎◌, inl, inr, refl, ◌∙◌, Bool, true, false, not, [], ◌∷◌, ◌++◌, length, all, All,
  Option, none, some, ◌==◌, arith, Bool-cases,
}
use web_zapret.Text.{Text, codes, strip, lstrip, is_space}
use web_zapret.Trial.{
  is_letter, behind, without_s, is_end, is_run, is_rest, has_host, is_schemed, is_url, is_testable,
}

-- The last character of a text is white space.
abbrev last_space : Text → Bool
last_space [] = false
last_space (c ∷ []) = is_space c
last_space (c ∷ d ∷ s) = last_space (d ∷ s)

last_space-concat : (s : Text) (c : ℕ) → last_space (s ++ c ∷ []) ≡ is_space c
last_space-concat [] c = refl
last_space-concat (a ∷ []) c = refl
last_space-concat (a ∷ b ∷ s) c = last_space-concat (b ∷ s) c

reverse-lstrip : (s : Text) → last_space (reverse (lstrip s)) ≡ false
unfolding lstrip
reverse-lstrip [] = refl
reverse-lstrip (c ∷ s) = elim (Bool-cases (is_space c)) [
  | inl space ↦ rw space (reverse-lstrip s)
  | inr other ↦ rw other (rw (reverse-cons c s) (last_space-concat (reverse s) c ∙ other))
]

pub strip-last : (s : Text) → last_space (strip s) ≡ false
unfolding strip
strip-last s = reverse-lstrip (reverse (lstrip s))

abbrev pub is_clear : Text → Bool
is_clear s = all (λ c. not (is_space c)) s

-- A run up to the end or a last line feed has no white space if the last character is none.
is_run-clear : (s : Text) → is_run s ≡ true → last_space s ≡ false → is_clear s ≡ true
unfolding is_run is_end
is_run-clear [] r h = refl
is_run-clear (c ∷ []) r h = rw h refl
is_run-clear (c ∷ d ∷ s) r h = ground (arith, is_run-clear (d ∷ s))

letter-clear : (p c : ℕ) → 97 ≤ p → p ≤ 122 → is_letter p c ≡ true → is_space c ≡ false
unfolding is_letter is_space
letter-clear p c lo hi h = ground arith

abbrev IsLower : Text → Type 0
IsLower ps = All (λ p. (97 ≤ p) × (p ≤ 122)) ps

behind-is_run :
    (ps s r : Text) → IsLower ps → behind ps s ≡ some r → is_run r ≡ true → is_run s ≡ true
unfolding behind is_run
behind-is_run [] s r low h run = ground arith
behind-is_run (p ∷ ps) [] r low h run = refl
behind-is_run (p ∷ ps) (c ∷ s) r ((lo, hi), low) h run =
    ground (arith, letter-clear p c lo hi, behind-is_run ps s r low)

without_s-is_run : (s : Text) → is_run (without_s s) ≡ true → is_run s ≡ true
unfolding without_s is_run
without_s-is_run [] h = refl
without_s-is_run (c ∷ s) h = ground (arith, letter-clear b's' c (omega arith) (omega arith))

is_run-cons : (c : ℕ) (s : Text) → is_space c ≡ false → is_run s ≡ true → is_run (c ∷ s) ≡ true
unfolding is_run
is_run-cons c s h run = ground arith

is_rest-is_run : (s : Text) → is_rest s ≡ true → is_run s ≡ true
unfolding is_rest is_run
is_rest-is_run [] h = refl
is_rest-is_run (c ∷ s) h = ground arith

punctuation-clear : (c : ℕ) → (c ≡ b':') ⊎ (c ≡ b'/') → is_space c ≡ false
unfolding is_space
punctuation-clear c (inl e) = rw e refl
punctuation-clear c (inr e) = rw e refl

has_host-parts :
    (a b c : ℕ) (s : Text)
    → has_host (a ∷ b ∷ c ∷ s) ≡ true
    → (a ≡ b':') × (b ≡ b'/') × (c ≡ b'/') × (is_rest s ≡ true)
unfolding has_host
has_host-parts a b c s h = (ground arith, ground arith, ground arith, ground arith)

has_host-is_run : (s : Text) → has_host s ≡ true → is_run s ≡ true
unfolding has_host
has_host-is_run [] h = cc
has_host-is_run (a ∷ []) h = cc
has_host-is_run (a ∷ b ∷ []) h = cc
has_host-is_run (a ∷ b ∷ c ∷ s) h =
    let (colon, slash, slash', rest) = has_host-parts a b c s h in
    is_run-cons a (b ∷ c ∷ s) (punctuation-clear a (inl colon)) (
      is_run-cons b (c ∷ s) (punctuation-clear b (inr slash))
        (is_run-cons c s (punctuation-clear c (inr slash')) (is_rest-is_run s rest)))

is_schemed-is_run :
    (o : Option Text) → is_schemed o ≡ true → (r : Text) × (o ≡ some r) × (is_run r ≡ true)
unfolding is_schemed
is_schemed-is_run none h = cc
is_schemed-is_run (some r) h = (r, refl, without_s-is_run r (has_host-is_run (without_s r) h))

is_url-is_run : (s : Text) → is_url s ≡ true → is_run s ≡ true
unfolding is_url
is_url-is_run s h =
    let (r, found, run) = is_schemed-is_run (behind (codes "http") s) h in
    behind-is_run (codes "http") s r (omega arith) found run

-- A text that matches the pattern and does not end in white space holds none.
pub is_url-clear : (s : Text) → is_url s ≡ true → last_space s ≡ false → is_clear s ≡ true
is_url-clear s h last = is_run-clear s (is_url-is_run s h) last

-- The text begins with the letter h, in either case.
abbrev pub BeginsWithH : Text → Type 0
BeginsWithH [] = ⊥
BeginsWithH (c ∷ s) = (c ≡ b'h') ⊎ (c ≡ b'H')

letter_h : (c : ℕ) → is_letter b'h' c ≡ true → (c ≡ b'h') ⊎ (c ≡ b'H')
unfolding is_letter
letter_h c h = elim (Bool-cases (c == b'h')) [
  | inl lower ↦ inl (ground arith)
  | inr other ↦ inr (ground arith)
]

is_url-BeginsWithH : (s : Text) → is_url s ≡ true → BeginsWithH s
unfolding is_url behind is_schemed
is_url-BeginsWithH [] h = cc
is_url-BeginsWithH (c ∷ s) h = letter_h c (ground arith)

-- A URL that is tested.
pub record IsTarget (url : Text) : Type 0 where
  pub begins : BeginsWithH url
  pub clear : is_clear url ≡ true
  pub short : length url ≤ 2048

pub strip-IsTarget : (s : Text) → is_testable (strip s) ≡ true → IsTarget (strip s)
unfolding is_testable
strip-IsTarget s h =
    let matched : is_url (strip s) ≡ true = ground arith in
    record {
      begins = is_url-BeginsWithH (strip s) matched;
      clear = is_url-clear (strip s) matched (strip-last s);
      short = ground arith;
    }
