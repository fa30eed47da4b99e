-- ===== src/Catalog.antt =====
-- The catalog functions of src/blockcheck.py: which discovered strategies are imported, under which
-- ids, and how they are merged into the live catalog.
pub mod Args
pub mod Fresh
pub mod Entries
pub mod Stored
pub mod Import
use web_zapret.Base.{
  ℕ, zero, suc, ◌+◌, Bool, true, false, not, ◌&&◌, ◌||◌, List, [], ◌∷◌, ◌++◌, keep, map, take,
  length, leb, ◌==◌, Result, ok, err, value_error, value_error_repr, guard, ◌>>=◌, ◌>>◌,
  if◌then◌else◌,
}
use mathlib.Core.List.{reverse}
use web_zapret.Text.{
  Text, codes, one_of, starts_with, contains, has_char, before, join, lower, upper,
}
use web_zapret.Text.Decimal.{decimal}
use web_zapret.Text.Shlex.{shlex_split}

-- `[a-z0-9]`
unfoldable pub is_slug_char : ℕ → Bool
is_slug_char c = (leb b'a' c && leb c b'z') || (leb b'0' c && leb c b'9')

-- `re.sub(r"[^a-z0-9]+", "_", s)`; the flag says that the last character stood in such a run
squeeze : Bool → Text → Text
unfolding is_slug_char
squeeze in_run [] = []
squeeze in_run (c ∷ s) =
    let plain = is_slug_char c in
    let rest = squeeze (not plain) s in
    if plain then c ∷ rest else if in_run then rest else b'_' ∷ rest

strip_left : Text → Text
strip_left [] = []
strip_left (c ∷ s) = let rest = strip_left s in if c == b'_' then rest else c ∷ s

or_x : Text → Text
or_x [] = codes "x"
or_x (c ∷ s) = c ∷ s

-- `slug(text, limit)`
pub slug : Text → ℕ → Text
unfolding squeeze strip_left or_x lower
slug text limit =
    or_x (take limit (reverse (strip_left (reverse (strip_left (squeeze false (lower text)))))))

abbrev pub forbidden_args : List Text
forbidden_args =
    codes "--qnum"
    ∷ codes "--fwmark"
    ∷ codes "--daemon"
    ∷ codes "--pidfile"
    ∷ codes "--intercept"
    ∷ codes "--dry-run"
    ∷ codes "--version"
    ∷ codes "--chdir"
    ∷ codes "--uid"
    ∷ codes "--user"
    ∷ codes "--lua-init"
    ∷ codes "--writable"
    ∷ []

check_tokens : List Text → Result (Unit {0})
check_tokens [] = ok tt
check_tokens (t ∷ ts) = do
  guard (not (has_char 0 t || not (starts_with t (codes "--"))))
      (value_error_repr (codes "invalid strategy argument: ") t)
  guard (not (one_of (before b'=' t) forbidden_args))
      (value_error (codes "forbidden strategy argument: " ++ before b'=' t))
  check_tokens ts

-- the `except ValueError` around `shlex.split`
unparsable : Result (List Text) → Result (List Text)
unparsable (err (value_error m)) = err (value_error (codes "unparsable strategy args: " ++ m))
unparsable r = r

valid_tokens : List Text → Result Text
unfolding check_tokens
valid_tokens [] = err (value_error (codes "empty strategy args"))
valid_tokens (t ∷ ts) = check_tokens (t ∷ ts) >> ok (join (codes " ") (t ∷ ts))

-- `validate_args(text)` of a text
pub validate_args : Text → Result Text
unfolding unparsable valid_tokens
validate_args text = unparsable (shlex_split text) >>= λ tokens. valid_tokens tokens

-- `_needs_no_reasm`, as its body stands: it returns `True` or, at its end, `None`, and is read as a
-- truth value.
pub needs_no_reasm : Text → Text → Bool
needs_no_reasm args protocol =
    contains args (codes "--filter-tcp=443") || contains args (codes "--payload=tls_client_hello")

-- The two lines that stand behind the `return` of `merge_catalog` and never run: the test of a TLS
-- protocol.
pub detached_tail : Text → Bool
detached_tail protocol =
    starts_with (upper protocol) (codes "HTTPS") && contains (upper protocol) (codes "TLS1")

-- the ids that are tried: `stem`, `stem_2`, `stem_3`, …
unfoldable pub candidate : Text → ℕ → Text
candidate stem n = if n == 1 then stem else stem ++ (codes "_" ++ decimal n)

-- `while strategy_id in known_ids: counter += 1; …`
free_from : ℕ → List Text → Text → ℕ → Text
free_from zero known stem n = candidate stem n
free_from (suc fuel) known stem n =
    let next = free_from fuel known stem (suc n) in
    if one_of (candidate stem n) known then next else candidate stem n

-- Fuel for as many rounds as there are known ids: each round meets another one.
pub free_id : List Text → Text → Text
unfolding free_from
free_id known stem = free_from (length known) known stem 1
