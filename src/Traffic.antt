-- ===== src/Traffic.antt =====
-- `get_traffic_stats` of src/panel/panel.py. A listing of iptables is a text, none if the call fails.
pub mod Counted
pub mod Tests
use web_zapret.Base.{
  ℕ, Bool, true, false, ◌&&◌, List, [], ◌∷◌, Option, none, some, Result, ok, err, value_error,
  ◌>>=◌, ◌==◌, if◌then◌else◌, ℤ, pos, negsuc, ◌+ℤ◌,
}
use web_zapret.Text.{Text, codes, same, words}
use web_zapret.Logs.{splitlines}

-- What the counters are read from.
pub record Source : Type 0 where
  -- the listings of the chains WZFW and NFQIN
  pub listed_out : Option Text
  pub listed_in : Option Text
  -- the state files nfqws_bytes_in and nfqws_bytes_out, stripped, empty if they cannot be read
  pub stored_in : Text
  pub stored_out : Text
  -- `int` of a text, none where it raises a `ValueError`
  pub to_int : Text → Option ℤ

pub record Traffic : Type 0 where
  pub bytes_in : ℤ
  pub bytes_out : ℤ
  pub total : ℤ

pub is_zero : ℤ → Bool
is_zero (pos n) = n == 0
is_zero (negsuc n) = false

-- `x or "0"`
pub or_zero : Text → Text
or_zero [] = codes "0"
or_zero (c ∷ s) = c ∷ s

module _ (s : Source) where
  bytes_or_none : Option ℤ → ℤ
  bytes_or_none none = pos 0
  bytes_or_none (some n) = n

  -- What a line adds, by its words.
  counted : Text → List Text → ℤ
  unfolding bytes_or_none
  counted target (packets ∷ bytes ∷ rule ∷ rest) =
      if same rule target then bytes_or_none (s.to_int bytes) else pos 0
  counted target _ = pos 0

  -- The loop over the lines.
  count_lines : Text → ℤ → List Text → ℤ
  unfolding counted
  count_lines target n [] = n
  count_lines target n (line ∷ lines) = count_lines target (n +ℤ counted target (words line)) lines

  count_of : Text → Option Text → ℤ
  unfolding count_lines
  count_of target none = pos 0
  count_of target (some listing) = count_lines target (pos 0) (splitlines listing)

  int_or_raise : Option ℤ → Result ℤ
  int_or_raise none = err (value_error (codes "invalid literal for int()"))
  int_or_raise (some n) = ok n

  pub stats : ℤ → ℤ → Traffic
  stats i o = record { bytes_in = i; bytes_out = o; total = i +ℤ o }

  -- the fallback to the state files
  stored : Result Traffic
  unfolding int_or_raise or_zero stats
  stored = do
    i ← int_or_raise (s.to_int (or_zero s.stored_in))
    o ← int_or_raise (s.to_int (or_zero s.stored_out))
    ok (stats i o)

  -- `get_traffic_stats()`
  unfoldable pub get_traffic_stats : Result Traffic
  unfolding count_of is_zero stored stats
  get_traffic_stats =
      let o = count_of (codes "NFQUEUE") s.listed_out in
      let i = count_of (codes "RETURN") s.listed_in in
      if is_zero i && is_zero o then stored else ok (stats i o)
