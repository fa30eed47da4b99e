-- ===== src/Catalog/Args.antt =====
-- What `validate_args` lets through, and that the renderer takes it.
use web_zapret.Base.{
  ◌≡◌, ◌≢◌, refl, sym, ap, subst, ◌∙◌, true, false, not, ◌||◌, List, [], ◌∷◌, Result, ok, err,
  value_error, value_error_repr, type_error, index_error, key_error, unbound_local, os_error,
  overflow_error, guard, Refuses, >>=-Refuses, guard-Refuses, guard-eq-ok, >>=-eq-ok, ok_inj, All,
  arith,
}
use web_zapret.Text.{Text, codes, one_of, starts_with, has_char, before, join}
use web_zapret.Text.Shlex.{shlex_split, shlex_split-Refuses, IsPlain, shlex_split-join}
use web_zapret.Catalog.{forbidden_args, check_tokens, unparsable, valid_tokens, validate_args}

-- A token that passes the checks.
pub record IsSafe (t : Text) : Type 0 where
  pub no_nul : has_char 0 t ≡ false
  pub is_option : starts_with t (codes "--") ≡ true
  pub not_forbidden : one_of (before b'=' t) forbidden_args ≡ false

check_tokens_sound : (ts : List Text) {u : Unit {0}} → check_tokens ts ≡ ok u → All IsSafe ts
unfolding check_tokens
check_tokens_sound [] h = tt
check_tokens_sound (t ∷ ts) h =
    let (form, h₁) = guard-eq-ok (not (has_char 0 t || not (starts_with t (codes "--")))) _ _ h in
    let (free, h₂) = guard-eq-ok (not (one_of (before b'=' t) forbidden_args)) _ _ h₁ in
    (
      record { no_nul = ground arith; is_option = ground arith; not_forbidden = ground arith },
      check_tokens_sound ts h₂,
    )

check_tokens_complete : (ts : List Text) → All IsSafe ts → check_tokens ts ≡ ok tt
unfolding check_tokens
check_tokens_complete [] h = refl
check_tokens_complete (t ∷ ts) (s, h) =
    rw (s.no_nul, s.is_option, s.not_forbidden) (check_tokens_complete ts h)

valid_tokens_sound :
    (ts : List Text) {out : Text}
    → valid_tokens ts ≡ ok out
    → (ts ≢ []) × All IsSafe ts × (out ≡ join (codes " ") ts)
unfolding valid_tokens
valid_tokens_sound [] h = cc
valid_tokens_sound (t ∷ ts) h =
    let (_, checked, same_out) = >>=-eq-ok (check_tokens (t ∷ ts)) _ h in
    (cc, check_tokens_sound (t ∷ ts) checked, sym (ok_inj same_out))

unparsable-eq-ok : (r : Result (List Text)) {ts : List Text} → unparsable r ≡ ok ts → r ≡ ok ts
unfolding unparsable
unparsable-eq-ok (ok ts) h = h
unparsable-eq-ok (err (value_error m)) h = cc
unparsable-eq-ok (err _) h = cc

-- `validate_args` succeeds only on a text that splits into at least one token, where every token
-- starts with "--", holds no NUL and is none of the twelve forbidden options; its result is the tokens
-- joined by blanks.
pub validate_args_sound :
    (text out : Text)
    → validate_args text ≡ ok out
    → (ts : List Text) × (shlex_split text ≡ ok ts)
      × (ts ≢ [])
      × All IsSafe ts
      × (out ≡ join (codes " ") ts)
unfolding validate_args
validate_args_sound text out h =
    let (ts, lexed, valid) = >>=-eq-ok (unparsable (shlex_split text)) _ h in
    let (filled, safe, same_out) = valid_tokens_sound ts valid in
    (ts, unparsable-eq-ok (shlex_split text) lexed, filled, safe, same_out)

validate_args_complete :
    (text : Text) (ts : List Text)
    → shlex_split text ≡ ok ts
    → ts ≢ []
    → All IsSafe ts
    → validate_args text ≡ ok (join (codes " ") ts)
unfolding validate_args
validate_args_complete text [] lexed filled safe = absurd (filled refl)
validate_args_complete text (t ∷ ts) lexed filled safe =
    rw (lexed, unparsable, valid_tokens, check_tokens_complete (t ∷ ts) safe)

-- Where no token needs quoting, the result stands for the same tokens as the text: it splits into
-- them again, and validating it once more gives it back.
pub validate_args_stable :
    (text out : Text) (ts : List Text)
    → validate_args text ≡ ok out
    → shlex_split text ≡ ok ts
    → All IsPlain ts
    → (shlex_split out ≡ ok ts) × (validate_args out ≡ ok out)
validate_args_stable text out ts h lexed plain =
    let (ts', lexed', filled, safe, same_out) = validate_args_sound text out h in
    let same_tokens : ts' ≡ ts = ok_inj (sym lexed' ∙ lexed) in
    let safe' : All IsSafe ts = subst (All IsSafe) same_tokens safe in
    let out_eq : out ≡ join (codes " ") ts = same_out ∙ ap (join (codes " ")) same_tokens in
    let again : shlex_split out ≡ ok ts = ap shlex_split out_eq ∙ shlex_split-join ts plain in
    (
      again,
      validate_args_complete out ts again (subst (λ l. l ≢ []) same_tokens filled) safe'
          ∙ ap ok (sym out_eq),
    )

check_tokens-Refuses : (ts : List Text) → Refuses (check_tokens ts)
unfolding check_tokens
check_tokens-Refuses [] = tt
check_tokens-Refuses (t ∷ ts) =
    >>=-Refuses (guard (not (has_char 0 t || not (starts_with t (codes "--")))) _) _
      (guard-Refuses (not (has_char 0 t || not (starts_with t (codes "--")))) _ tt)
      (λ _.
        >>=-Refuses (guard (not (one_of (before b'=' t) forbidden_args)) _) _
          (guard-Refuses (not (one_of (before b'=' t) forbidden_args)) _ tt)
          (λ _. check_tokens-Refuses ts))

unparsable-Refuses : (r : Result (List Text)) → Refuses r → Refuses (unparsable r)
unfolding unparsable
unparsable-Refuses (ok ts) h = tt
unparsable-Refuses (err (value_error m)) h = tt
unparsable-Refuses (err (value_error_repr m t)) h = tt
unparsable-Refuses (err type_error) h = h
unparsable-Refuses (err index_error) h = h
unparsable-Refuses (err (key_error k)) h = h
unparsable-Refuses (err (unbound_local k)) h = h
unparsable-Refuses (err os_error) h = h
unparsable-Refuses (err overflow_error) h = h

valid_tokens-Refuses : (ts : List Text) → Refuses (valid_tokens ts)
unfolding valid_tokens
valid_tokens-Refuses [] = tt
valid_tokens-Refuses (t ∷ ts) =
    >>=-Refuses (check_tokens (t ∷ ts)) _ (check_tokens-Refuses (t ∷ ts)) (λ _. tt)

-- `validate_args` of a text returns or raises a `ValueError`, which the import catches.
pub validate_args-Refuses : (text : Text) → Refuses (validate_args text)
unfolding validate_args
validate_args-Refuses text =
    >>=-Refuses (unparsable (shlex_split text)) _
      (unparsable-Refuses (shlex_split text) (shlex_split-Refuses text)) valid_tokens-Refuses
