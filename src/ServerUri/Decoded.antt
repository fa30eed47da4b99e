-- ===== src/ServerUri/Decoded.antt =====
-- What a client reads from the URI.
use web_zapret.Base.{
  ℕ, ◌+◌, ◌-◌, ◌*◌, ◌/◌, ◌%◌, ◌<◌, ◌≡◌, refl, ap, ◌∙◌, false, List, [], ◌∷◌, ◌++◌, ltb, ◌==◌, All,
  if◌then◌else◌, arith,
}
use web_zapret.Text.{Text, codes, before, has_char}
use web_zapret.Text.Laws.{before-append}
use web_zapret.Logs.{drop}
use web_zapret.Value.{int_text}
use web_zapret.ServerUri.{Server, symbol, b64encode, credentials, ss_uri}

-- The six bits of a character of the URL-safe alphabet.
value_of : ℕ → ℕ
value_of c =
    if c == b'_'
    then 63
    else if c == b'-'
    then 62
    else if ltb c 58
    then c + 4
    else if ltb c 91
    then c - 65
    else c - 71

value_of-symbol : (n : ℕ) → n < 64 → value_of (symbol n) ≡ n
unfolding value_of symbol
value_of-symbol n h = ground arith

-- The bytes of groups of four characters, the last group of which may be shorter.
pub b64decode : Text → List ℕ
unfolding value_of
b64decode (w ∷ x ∷ y ∷ z ∷ rest) =
    (value_of w * 4 + value_of x / 16)
    ∷ (value_of x % 16 * 16 + value_of y / 4)
    ∷ (value_of y % 4 * 64 + value_of z)
    ∷ b64decode rest
b64decode (w ∷ x ∷ y ∷ []) =
    (value_of w * 4 + value_of x / 16) ∷ (value_of x % 16 * 16 + value_of y / 4) ∷ []
b64decode (w ∷ x ∷ []) = (value_of w * 4 + value_of x / 16) ∷ []
b64decode _ = []

abbrev pub AreBytes : List ℕ → Type 0
AreBytes bytes = All (λ b. b < 256) bytes

b64decode-b64encode : (bytes : List ℕ) → AreBytes bytes → b64decode (b64encode bytes) ≡ bytes
unfolding b64decode b64encode
b64decode-b64encode [] h = refl
b64decode-b64encode (a ∷ []) (p, h) =
    rw (value_of-symbol (a / 4) (omega arith), value_of-symbol (a % 4 * 16) (omega arith))
      (ground arith)
b64decode-b64encode (a ∷ b ∷ []) (p, (q, h)) =
    rw
      (
        value_of-symbol (a / 4) (omega arith),
        value_of-symbol (a % 4 * 16 + b / 16) (omega arith),
        value_of-symbol (b % 16 * 4) (omega arith),
      )
      (ground arith)
b64decode-b64encode (a ∷ b ∷ c ∷ rest) (p, (q, (r, h))) =
    rw
      (
        value_of-symbol (a / 4) (omega arith),
        value_of-symbol (a % 4 * 16 + b / 16) (omega arith),
        value_of-symbol (b % 16 * 4 + c / 64) (omega arith),
        value_of-symbol (c % 64) (omega arith),
        b64decode-b64encode rest h,
      )
      (ground arith)

symbol-ne-at : (n : ℕ) → n < 64 → (symbol n == b'@') ≡ false
unfolding symbol
symbol-ne-at n h = ground arith

has_char-b64encode : (bytes : List ℕ) → AreBytes bytes → has_char b'@' (b64encode bytes) ≡ false
unfolding has_char b64encode
has_char-b64encode [] h = refl
has_char-b64encode (a ∷ []) (p, h) =
    rw (symbol-ne-at (a / 4) (omega arith), symbol-ne-at (a % 4 * 16) (omega arith)) refl
has_char-b64encode (a ∷ b ∷ []) (p, (q, h)) =
    rw
      (
        symbol-ne-at (a / 4) (omega arith),
        symbol-ne-at (a % 4 * 16 + b / 16) (omega arith),
        symbol-ne-at (b % 16 * 4) (omega arith),
      )
      refl
has_char-b64encode (a ∷ b ∷ c ∷ rest) (p, (q, (r, h))) =
    rw
      (
        symbol-ne-at (a / 4) (omega arith),
        symbol-ne-at (a % 4 * 16 + b / 16) (omega arith),
        symbol-ne-at (b % 16 * 4 + c / 64) (omega arith),
        symbol-ne-at (c % 64) (omega arith),
        has_char-b64encode rest h,
      )
      refl

-- A client that takes the text between `ss://` and the first `@` and decodes it has the bytes of the method
-- and the password, whatever they are and whatever the host is, if the encoding makes bytes.
pub ss_uri_decoded :
    (s : Server) (host : Text)
    → AreBytes (s.utf8 (credentials s))
    → b64decode (before b'@' (drop 5 (ss_uri s host))) ≡ s.utf8 (credentials s)
unfolding ss_uri drop
ss_uri_decoded s host h =
    let bytes = s.utf8 (credentials s) in
    ap b64decode (
      before-append b'@' (b64encode bytes)
        (host ++ (codes ":" ++ (int_text s.port ++ codes "#web_zapret2")))
        (has_char-b64encode bytes h))
    ∙ b64decode-b64encode bytes h
