-- ===== src/Text/Shlex.antt =====
-- `shlex.split(text)` of the standard library, in POSIX mode and with no comments: its state machine.
use web_zapret.Base.{
  ℕ, ◌≡◌, refl, sym, ap, ◌∙◌, Bool, true, false, ◌||◌, ◌&&◌, List, [], ◌∷◌, ◌++◌, ◌==◌,
  if◌then◌else◌, Result, ok, err, value_error, ◌>>=◌, arith, append_assoc, append-nil, All, Refuses,
  >>=-Refuses,
}
use web_zapret.Text.{Text, codes, join}

pub data Mode : Type 0 where
  blank word : Mode
  in_quote : ℕ → Mode
  -- behind a backslash, in a word or in double quotes
  in_escape : Bool → Mode

pub record Lexer : Type 0 where
  pub mode : Mode
  pub token : Text

abbrev is_blank : ℕ → Bool
is_blank c = c == b' ' || c == 9 || c == 13 || c == 10

abbrev is_quote : ℕ → Bool
is_quote c = c == b'"' || c == 39

abbrev backslash : ℕ
backslash = 92

abbrev add : Text → ℕ → Text
add token c = token ++ c ∷ []

-- One character: the next state, and the token that it ends, if it ends one.
step : Mode → Text → ℕ → Lexer × List Text
step blank token c =
    if is_blank c
    then (record { mode = blank; token = [] }, [])
    else if c == backslash
    then (record { mode = in_escape false; token = [] }, [])
    else if is_quote c
    then (record { mode = in_quote c; token = [] }, [])
    else (record { mode = word; token = c ∷ [] }, [])
step word token c =
    if is_blank c
    then (record { mode = blank; token = [] }, token ∷ [])
    else if is_quote c
    then (record { mode = in_quote c; token = token }, [])
    else if c == backslash
    then (record { mode = in_escape false; token = token }, [])
    else (record { mode = word; token = add token c }, [])
step (in_quote q) token c =
    if c == q
    then (record { mode = word; token = token }, [])
    else if c == backslash && q == b'"'
    then (record { mode = in_escape true; token = token }, [])
    else (record { mode = in_quote q; token = add token c }, [])
step (in_escape false) token c = (record { mode = word; token = add token c }, [])
step (in_escape true) token c =
    let kept = if c == backslash || c == b'"' then token else add token backslash in
    (record { mode = in_quote b'"'; token = add kept c }, [])

-- The end of the text.
finish : Mode → Text → Result (List Text)
finish blank token = ok []
finish word token = ok (token ∷ [])
finish (in_quote q) token = err (value_error (codes "No closing quotation"))
finish (in_escape q) token = err (value_error (codes "No escaped character"))

lex : Mode → Text → Text → Result (List Text)
lex mode token [] = finish mode token
lex mode token (c ∷ s) =
    let (next, done) = step mode token c in lex next.mode next.token s >>= λ rest. ok (done ++ rest)

unfoldable pub shlex_split : Text → Result (List Text)
unfolding lex step finish
shlex_split s = lex blank [] s

-- A token that needs no quoting: not empty, and no white space, quote or backslash in it.
abbrev is_special : ℕ → Bool
is_special c = is_blank c || is_quote c || c == backslash

abbrev IsPlainChar : ℕ → Type 0
IsPlainChar c = is_special c ≡ false

abbrev pub IsPlain : Text → Type 0
IsPlain [] = ⊥
IsPlain (c ∷ s) = IsPlainChar c × All IsPlainChar s

step-blank_plain :
    (token : Text) (c : ℕ)
    → IsPlainChar c
    → step blank token c ≡ (record { mode = word; token = c ∷ [] }, [])
unfolding step
step-blank_plain token c h = ground arith

step-word_plain :
    (token : Text) (c : ℕ)
    → IsPlainChar c
    → step word token c ≡ (record { mode = word; token = add token c }, [])
unfolding step
step-word_plain token c h = ground arith

bind_ok {ℓ} : {A : Type ℓ} (m : Result A) → (m >>= λ a. ok a) ≡ m
bind_ok (ok a) = refl
bind_ok (err e) = refl

lex-word_plain :
    (token : Text) (c : ℕ) (s : Text)
    → IsPlainChar c
    → lex word token (c ∷ s) ≡ lex word (add token c) s
unfolding lex
lex-word_plain token c s h = rw (step-word_plain token c h) (bind_ok (lex word (add token c) s))

lex-blank_plain : (c : ℕ) (s : Text) → IsPlainChar c → lex blank [] (c ∷ s) ≡ lex word (c ∷ []) s
unfolding lex
lex-blank_plain c s h = rw (step-blank_plain [] c h) (bind_ok (lex word (c ∷ []) s))

lex-word :
    (p token rest : Text)
    → All IsPlainChar p
    → lex word token (p ++ rest) ≡ lex word (token ++ p) rest
lex-word [] token rest h = ap (λ t. lex word t rest) (sym (append-nil token))
lex-word (c ∷ p) token rest (h, hs) =
    lex-word_plain token c (p ++ rest) h
    ∙ lex-word p (add token c) rest hs
    ∙ ap (λ t. lex word t rest) (append_assoc token (c ∷ []) p)

lex-blank : (t rest : Text) → IsPlain t → lex blank [] (t ++ rest) ≡ lex word t rest
lex-blank [] rest h = absurd h
lex-blank (c ∷ p) rest (h, hs) = lex-blank_plain c (p ++ rest) h ∙ lex-word p (c ∷ []) rest hs

-- Joining plain tokens with blanks and splitting gives the tokens back.
pub shlex_split-join : (ts : List Text) → All IsPlain ts → shlex_split (join (codes " ") ts) ≡ ok ts
unfolding shlex_split join
shlex_split-join [] h = refl
shlex_split-join (t ∷ []) (h, _) = ap (λ s. lex blank [] s) (sym (append-nil t)) ∙ lex-blank t [] h
shlex_split-join (t ∷ u ∷ ts) (h, hs) =
    lex-blank t _ h ∙ ap (λ m. m >>= λ rest. ok (t ∷ rest)) (shlex_split-join (u ∷ ts) hs)

finish-Refuses : (mode : Mode) (token : Text) → Refuses (finish mode token)
unfolding finish
finish-Refuses blank token = tt
finish-Refuses word token = tt
finish-Refuses (in_quote q) token = tt
finish-Refuses (in_escape q) token = tt

lex-Refuses : (mode : Mode) (token s : Text) → Refuses (lex mode token s)
unfolding lex
lex-Refuses mode token [] = finish-Refuses mode token
lex-Refuses mode token (c ∷ s) =
    let (next, done) = step mode token c in
    >>=-Refuses (lex next.mode next.token s) _ (lex-Refuses next.mode next.token s) (λ _. tt)

pub shlex_split-Refuses : (s : Text) → Refuses (shlex_split s)
unfolding shlex_split
shlex_split-Refuses s = lex-Refuses blank [] s

quoted_test :
    shlex_split (codes "--a=\"x y\" 'b' c\\ d")
    ≡ ok (codes "--a=x y" ∷ codes "b" ∷ codes "c d" ∷ [])
unfolding shlex_split
quoted_test = refl

open_test : shlex_split (codes "'a") ≡ err (value_error (codes "No closing quotation"))
unfolding shlex_split
open_test = refl
