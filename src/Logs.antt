-- ===== src/Logs.antt =====
-- The readers of log files: `tail_file` of src/blockcheck.py, and `_read_file_lines` and `tail_log` of
-- src/panel/panel.py. A file is given as its bytes, none if it cannot be read.
pub mod Merged
use web_zapret.Base.{
  ℕ, zero, suc, ◌-◌, Bool, false, ◌&&◌, ◌||◌, List, [], ◌∷◌, length, ltb, leb, Option, none, some,
  ◌==◌, if◌then◌else◌, ℤ, pos, negsuc,
}
use mathlib.Core.List.{reverse}
use web_zapret.Text.{Text, join}

-- `xs[n:]`
unfoldable pub drop {ℓ} : {A : Type ℓ} → ℕ → List A → List A
drop zero xs = xs
drop (suc n) [] = []
drop (suc n) (x ∷ xs) = drop n xs

-- `xs[-n:]`: all of them if n is 0
unfoldable pub last_rows {ℓ} : {A : Type ℓ} → ℤ → List A → List A
unfolding drop
last_rows (pos n) xs = if n == 0 then xs else drop (length xs - n) xs
last_rows (negsuc n) xs = drop (suc n) xs

is_break : ℕ → Bool
is_break c =
    (leb 10 c && leb c 13) || (leb 28 c && leb c 30) || c == 0x85 || c == 0x2028 || c == 0x2029

close_line : Text → List Text
close_line [] = []
close_line (c ∷ w) = reverse (c ∷ w) ∷ []

-- the flag says that the last character was a carriage return
lines_from : Bool → Text → Text → List Text
unfolding is_break close_line
lines_from cr w [] = close_line w
lines_from cr w (c ∷ s) =
    let joined = lines_from false w s in
    let cut = lines_from (c == 13) [] s in
    let longer = lines_from false (c ∷ w) s in
    if cr && c == 10 then joined else if is_break c then reverse w ∷ cut else longer

-- `s.splitlines()`
unfoldable pub splitlines : Text → List Text
unfolding lines_from
splitlines s = lines_from false [] s

-- `rows[1:]` where the first row may be cut
without_first : List Text → List Text
without_first [] = []
without_first (row ∷ rows) = rows

-- the lines of the last bytes of a file; `decode` is `bytes.decode("utf-8", "replace")`
unfoldable pub last_lines : (List ℕ → Text) → ℕ → List ℕ → List Text
unfolding drop splitlines without_first
last_lines decode max_bytes bytes =
    let rows = splitlines (decode (drop (length bytes - max_bytes) bytes)) in
    if ltb max_bytes (length bytes) then without_first rows else rows

-- `tail_file(path, lines, max_bytes)`
unfoldable pub tail_file : (List ℕ → Text) → ℤ → ℕ → Option (List ℕ) → Text
unfolding last_lines last_rows
tail_file decode n max_bytes none = []
tail_file decode n max_bytes (some bytes) =
    join (10 ∷ []) (last_rows n (last_lines decode max_bytes bytes))
