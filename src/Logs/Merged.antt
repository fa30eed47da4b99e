-- ===== src/Logs/Merged.antt =====
-- The logs of the panel, src/panel/panel.py: `_read_file_lines`, `_collected_entries`, `merged_log`,
-- `export_logs` and `tail_log`. The files of the log directory are a function of their names.
pub mod Tail
pub mod Entries
pub mod Read
pub mod Tests
use web_zapret.Base.{
  ℕ, zero, suc, ◌-◌, ◌*◌, Bool, true, false, not, ◌&&◌, ◌||◌, List, [], ◌∷◌, ◌++◌, map, all, length,
  take, max, min, ltb, leb, ◌==◌, Option, none, some, if◌then◌else◌, ℤ, pos, negsuc, sort_onto,
}
use web_zapret.Text.{before_text, Text, codes, same, join}
use web_zapret.Text.Decimal.{decimal}
use web_zapret.Logs.{drop, last_rows, last_lines}

-- A file as it is read.
pub data File : Type 0 where
  absent : File
  unreadable : Text → File
  contents : List ℕ → File

abbrev pub Files : Type 0
Files = Text → File

-- `LOG_MODULES`
abbrev pub log_modules : List Text
log_modules =
    codes "actions"
    ∷ codes "ss-server"
    ∷ codes "sockd"
    ∷ codes "nfqws"
    ∷ codes "redsocks"
    ∷ codes "ss-local"
    ∷ codes "udprelay"
    ∷ codes "panel"
    ∷ codes "test"
    ∷ codes "bcw"
    ∷ []

-- `[a-z0-9_-]`
is_source_char : ℕ → Bool
is_source_char c =
    (leb b'a' c && leb c b'z') || (leb b'0' c && leb c b'9') || c == b'_' || c == b'-'

-- `re.fullmatch(r"[a-z0-9_-]{1,64}", src)`
unfoldable pub is_source : Text → Bool
unfolding is_source_char
is_source src = leb 1 (length src) && leb (length src) 64 && all is_source_char src

-- What Python does with the bytes and the characters of a log: `decode("utf-8", "replace")`, and the
-- digits of a regular expression's `d`, which are those of all scripts.
pub record Reader : Type 0 where
  pub decode : List ℕ → Text
  pub is_decimal : ℕ → Bool

-- A text begins with digits where the pattern has a `d`, and with its other characters.
pub matches : (ℕ → Bool) → Text → Text → Bool
matches digit [] s = true
matches digit (p ∷ ps) [] = false
matches digit (p ∷ ps) (c ∷ s) = (if p == b'd' then digit c else p == c) && matches digit ps s

-- `_TS_RE.match(ln)`: the stamp, or the last one
pub stamp_of : (ℕ → Bool) → Text → Text → Text
unfolding matches drop
stamp_of digit last line =
    if matches digit (codes "[dddd-dd-ddTdd:dd:ddZ]") line then take 20 (drop 1 line) else last

pub record Entry : Type 0 where
  pub stamp : Text
  pub module_rank : ℕ
  pub line_seq : ℕ
  pub text : Text

-- `"" if mod == "actions" else ("[%s] " % mod)`
tag_of : Text → Text
tag_of name = if same name (codes "actions") then [] else codes "[" ++ (name ++ codes "] ")

-- The loop over one file's lines.
entries_of : (ℕ → Bool) → Text → ℕ → Text → ℕ → List Text → List Entry
unfolding stamp_of tag_of
entries_of digit name rank last seq [] = []
entries_of digit name rank last seq (line ∷ lines) =
    let stamp = stamp_of digit last line in
    (record { stamp = stamp; module_rank = rank; line_seq = seq; text = tag_of name ++ line })
    ∷ entries_of digit name rank stamp (suc seq) lines

-- `a < b` of two keys of the sort
pub before : Entry → Entry → Bool
unfolding before_text
before a b =
    before_text a.stamp b.stamp
    || (same a.stamp b.stamp
        && (ltb a.module_rank b.module_rank
            || (a.module_rank == b.module_rank && ltb a.line_seq b.line_seq)))

pub size_limit : Text → ℕ
size_limit name = if same name (codes "actions") then 256 * 1024 else 64 * 1024

module _ (rt : Reader) where
  -- `_read_file_lines(path, max_bytes)`
  pub read_file_lines : File → ℕ → Option (List Text)
  unfolding last_lines
  read_file_lines absent max_bytes = none
  read_file_lines (unreadable why) max_bytes =
      some ((codes "(log read error: " ++ (why ++ codes ")")) ∷ [])
  read_file_lines (contents bytes) max_bytes = some (last_lines rt.decode max_bytes bytes)

  pub lines_or_none : Option (List Text) → List Text
  lines_or_none none = []
  lines_or_none (some lines) = lines

  -- `_collected_entries(tail_bytes)` before the sort
  pub collected : Files → (Text → ℕ) → ℕ → List Text → List Entry
  unfolding read_file_lines lines_or_none entries_of
  collected files limit rank [] = []
  collected files limit rank (name ∷ names) =
      entries_of rt.is_decimal name rank [] 0
        (lines_or_none (read_file_lines (files name) (limit name)))
      ++ collected files limit (suc rank) names

  -- `_collected_entries(tail_bytes)`
  unfoldable pub collected_entries : Files → (Text → ℕ) → List Entry
  unfolding collected before sort_onto
  collected_entries files limit = sort_onto before [] (collected files limit 0 log_modules)

  -- The lines of `merged_log(n)`.
  pub merged_rows : Files → ℕ → List Text
  unfolding collected_entries size_limit
  merged_rows files n =
      map (λ (e : Entry). e.text) (last_rows (pos n) (collected_entries files size_limit))

  rows_or_message : List Text → List Text
  rows_or_message [] = codes "(no log entries available across modules)" ∷ []
  rows_or_message (row ∷ rows) = row ∷ rows

  pub with_end : Text → List Text → Text
  with_end default [] = default
  with_end default (row ∷ rows) = join (10 ∷ []) (row ∷ rows) ++ 10 ∷ []

  -- `merged_log(n)`
  unfoldable pub merged_log : Files → ℕ → Text
  unfolding merged_rows with_end
  merged_log files n =
      with_end (codes "(no log entries available across modules)" ++ 10 ∷ []) (merged_rows files n)

  -- `max(1, min(int(n), 5000))`
  pub row_count : ℤ → ℕ
  row_count (pos n) = max 1 (min n 5000)
  row_count (negsuc n) = 1

  -- the end of `tail_log`
  pub tail_of : Text → ℕ → Option (List Text) → Text
  unfolding last_rows
  tail_of src n none = codes "(no log for " ++ (src ++ (codes ")" ++ 10 ∷ []))
  tail_of src n (some lines) = join (10 ∷ []) (last_rows (pos n) lines) ++ 10 ∷ []

  -- `tail_log(src, n)`, of an integer
  unfoldable pub tail_log : Files → Text → ℤ → Text
  unfolding is_source merged_log row_count tail_of read_file_lines
  tail_log files src n =
      if not (is_source src)
      then codes "(bad log source)"
      else if same src (codes "all")
      then merged_log files (row_count n)
      else tail_of src (row_count n) (read_file_lines (files src) 262144)

  -- the lines of `export_logs` behind its header
  pub export_rows : Files → List Text
  unfolding collected_entries rows_or_message
  export_rows files =
      let rows = map (λ (e : Entry). e.text) (collected_entries files (λ _. 8 * 1024 * 1024)) in
      rows_or_message rows
