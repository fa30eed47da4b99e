-- ===== src/Text.antt =====
-- Python texts as lists of code points, and the methods of `str` that the program calls.
pub mod Laws
pub mod Decimal
pub mod Shlex
use Prim.Native.Char.{code}
use Prim.Native.String
use Prim.Native.String.{String}
use web_zapret.Base.{
  ℕ, ◌+◌, ◌-◌, ◌≡◌, refl, Bool, true, false, ◌&&◌, ◌||◌, List, [], ◌∷◌, ◌++◌, ltb, leb, ◌==◌,
  if◌then◌else◌,
}
use mathlib.Core.List.{reverse}

abbrev pub Text : Type 0
Text = List ℕ

abbrev pub codes : String → Text
codes String.[] = []
codes (String.◌∷◌ c s) = code c ∷ codes s

-- `s == t`
unfoldable pub same : Text → Text → Bool
same [] [] = true
same [] (_ ∷ _) = false
same (_ ∷ _) [] = false
same (a ∷ s) (b ∷ t) = a == b && same s t

-- `s < t`
unfoldable pub before_text : Text → Text → Bool
before_text s [] = false
before_text [] (_ ∷ _) = true
before_text (a ∷ s) (b ∷ t) = ltb a b || (a == b && before_text s t)

-- `s in (…)`
unfoldable pub one_of : Text → List Text → Bool
unfolding same
one_of s [] = false
one_of s (t ∷ ts) = same s t || one_of s ts

-- `s.startswith(p)`
unfoldable pub starts_with : Text → Text → Bool
starts_with s [] = true
starts_with [] (_ ∷ _) = false
starts_with (a ∷ s) (b ∷ p) = a == b && starts_with s p

-- `p in s`
unfoldable pub contains : Text → Text → Bool
unfolding starts_with
contains [] p = starts_with [] p
contains (a ∷ s) p = starts_with (a ∷ s) p || contains s p

-- `c in s` for one character
unfoldable pub has_char : ℕ → Text → Bool
has_char c [] = false
has_char c (a ∷ s) = a == c || has_char c s

-- a character before the first part
unfoldable pub push : ℕ → List Text → List Text
push a [] = (a ∷ []) ∷ []
push a (p ∷ ps) = (a ∷ p) ∷ ps

-- `s.split(c)`
unfoldable pub split : ℕ → Text → List Text
unfolding push
split c [] = [] ∷ []
split c (a ∷ s) = let rest = split c s in if a == c then [] ∷ rest else push a rest

-- `s.partition(c)[0]`, which is also `s.split(c, 1)[0]`
unfoldable pub before : ℕ → Text → Text
before c [] = []
before c (a ∷ s) = let rest = before c s in if a == c then [] else a ∷ rest

-- `s.partition(c)[2]`
unfoldable pub after : ℕ → Text → Text
after c [] = []
after c (a ∷ s) = let rest = after c s in if a == c then s else rest

-- `sep.join(parts)`
unfoldable pub join : Text → List Text → Text
join sep [] = []
join sep (p ∷ []) = p
join sep (p ∷ q ∷ ps) = p ++ (sep ++ join sep (q ∷ ps))

-- `parts[-1]` of a split, which has a part
unfoldable pub last_part : List Text → Text
last_part [] = []
last_part (p ∷ []) = p
last_part (p ∷ q ∷ ps) = last_part (q ∷ ps)

-- `c.isspace()`
unfoldable pub is_space : ℕ → Bool
is_space c =
    (leb 9 c && leb c 13)
    || (leb 28 c && leb c 32)
    || c == 0x85
    || c == 0xa0
    || c == 0x1680
    || (leb 0x2000 c && leb c 0x200a)
    || c == 0x2028
    || c == 0x2029
    || c == 0x202f
    || c == 0x205f
    || c == 0x3000

unfoldable pub lstrip : Text → Text
unfolding is_space
lstrip [] = []
lstrip (c ∷ s) = let rest = lstrip s in if is_space c then rest else c ∷ s

-- `s.strip()`
unfoldable pub strip : Text → Text
unfolding lstrip
strip s = reverse (lstrip (reverse (lstrip s)))

close_word : Text → List Text → List Text
close_word [] ws = ws
close_word (c ∷ w) ws = reverse (c ∷ w) ∷ ws

words_from : Text → Text → List Text
words_from w [] = close_word w []
words_from w (c ∷ s) =
    let cut = close_word w (words_from [] s) in
    let longer = words_from (c ∷ w) s in if is_space c then cut else longer

-- `s.split()`
unfoldable pub words : Text → List Text
unfolding words_from close_word is_space
words s = words_from [] s

-- `c.lower()` of one character. Outside ASCII only the two characters whose lower case meets ASCII
-- are changed: no other one is told apart from its lower case by the code's tests.
lower_char : ℕ → Text
lower_char c =
    if leb b'A' c && leb c b'Z'
    then (c + 32) ∷ []
    else if c == 0x212a
    then b'k' ∷ []
    else if c == 0x130
    then b'i' ∷ 0x307 ∷ []
    else c ∷ []

-- `s.lower()`
unfoldable pub lower : Text → Text
unfolding lower_char
lower [] = []
lower (c ∷ s) = lower_char c ++ lower s

upper_latin : ℕ → Text
upper_latin d =
    if d == 0x1e96
    then b'H' ∷ 0x331 ∷ []
    else if d == 0x1e97
    then b'T' ∷ 0x308 ∷ []
    else if d == 0x1e98
    then b'W' ∷ 0x30a ∷ []
    else if d == 0x1e99
    then b'Y' ∷ 0x30a ∷ []
    else b'A' ∷ 0x2be ∷ []

upper_ligature : ℕ → Text
upper_ligature d =
    if d == 0xfb00
    then codes "FF"
    else if d == 0xfb01
    then codes "FI"
    else if d == 0xfb02
    then codes "FL"
    else if d == 0xfb03
    then codes "FFI"
    else if d == 0xfb04
    then codes "FFL"
    else codes "ST"

-- `c.upper()` of one character, with those outside ASCII whose upper case has ASCII letters.
upper_char : ℕ → Text
upper_char c =
    if leb b'a' c && leb c b'z'
    then (c - 32) ∷ []
    else if c == 0xdf
    then codes "SS"
    else if c == 0x131
    then codes "I"
    else if c == 0x17f
    then codes "S"
    else if c == 0x149
    then 0x2bc ∷ b'N' ∷ []
    else if c == 0x1f0
    then b'J' ∷ 0x30c ∷ []
    else if leb 0x1e96 c && leb c 0x1e9a
    then upper_latin c
    else if leb 0xfb00 c && leb c 0xfb06
    then upper_ligature c
    else c ∷ []

-- `s.upper()`
unfoldable pub upper : Text → Text
unfolding upper_char upper_latin upper_ligature
upper [] = []
upper (c ∷ s) = upper_char c ++ upper s

-- Names the methods on one line, for the tests that run them.
unfoldable pub text_methods : Unit {0}
unfolding one_of starts_with contains has_char split before after join last_part strip words lower
    upper
text_methods = tt

-- Tests on small inputs.
split_test : split b',' (codes "a,,b") ≡ codes "a" ∷ [] ∷ codes "b" ∷ []
unfolding split
split_test = refl

words_test : words (codes " ab  c ") ≡ codes "ab" ∷ codes "c" ∷ []
unfolding words
words_test = refl

strip_test : strip (codes " a b ") ≡ codes "a b"
unfolding strip
strip_test = refl

upper_test : upper (codes "quic") ≡ codes "QUIC"
unfolding upper
upper_test = refl
