-- ===== src/Logs/Merged/Entries.antt =====
-- The entries of the merged log and their order, `_collected_entries` of src/panel/panel.py.
use web_zapret.Base.{
  ℕ, suc, ◌≤◌, ◌<◌, ◌≡◌, ◌⊎◌, inl, inr, refl, sym, Bool, true, false, Bool-cases, List, [], ◌∷◌,
  ◌++◌, take, Option, none, some, ltb, ◌==◌, ◌&&◌, ◌||◌, arith,
}
use web_zapret.Text.{before_text, Text, codes, same}
use web_zapret.Text.Laws.{before_text_total, same_iff}
use web_zapret.Logs.{drop}
use web_zapret.Logs.Merged.{
  Reader, Files, Entry, before, matches, stamp_of, tag_of, entries_of, lines_or_none,
  read_file_lines, collected,
}

-- One entry stands in front of another one: it has the earlier stamp, or the same stamp and the module
-- that is first in the list, or stands first in the same module's file.
abbrev pub IsInFront : Entry → Entry → Type 0
IsInFront a b =
    (before_text a.stamp b.stamp ≡ true)
    ⊎ ((a.stamp ≡ b.stamp)
        × ((a.module_rank < b.module_rank)
            ⊎ ((a.module_rank ≡ b.module_rank) × (a.line_seq ≤ b.line_seq))))

-- A line that starts with a time in brackets.
abbrev pub has_time : (ℕ → Bool) → Text → Bool
has_time digit line = matches digit (codes "[dddd-dd-ddTdd:dd:ddZ]") line

-- The entry of a line: its place, its text with the module's name in front, unless the module is
-- `actions`, and its time, or the one of the line before if it has none.
pub record IsEntryOf (digit : ℕ → Bool) (name : Text) (rank seq : ℕ) (last line : Text) (e : Entry)
    : Type 0 where
  pub ranked : e.module_rank ≡ rank
  pub placed : e.line_seq ≡ seq
  pub plain : name ≡ codes "actions" → e.text ≡ line
  pub tagged : ¬ (name ≡ codes "actions") → e.text ≡ (codes "[" ++ (name ++ codes "] ")) ++ line
  pub timed : has_time digit line ≡ true → e.stamp ≡ take 20 (drop 1 line)
  pub untimed : has_time digit line ≡ false → e.stamp ≡ last

-- The entries of one file, line by line.
abbrev pub AreEntriesOf : (ℕ → Bool) → Text → ℕ → Text → ℕ → List Text → List Entry → Type 0
AreEntriesOf digit name rank last seq [] [] = Unit
AreEntriesOf digit name rank last seq [] (e ∷ es) = ⊥
AreEntriesOf digit name rank last seq (line ∷ lines) [] = ⊥
AreEntriesOf digit name rank last seq (line ∷ lines) (e ∷ es) =
    IsEntryOf digit name rank seq last line e
    × AreEntriesOf digit name rank e.stamp (suc seq) lines es

-- The entries of what was read of a file: none where there is no file.
abbrev pub AreRead : (ℕ → Bool) → Text → ℕ → Option (List Text) → List Entry → Type 0
AreRead digit name rank none es = es ≡ []
AreRead digit name rank (some lines) es = AreEntriesOf digit name rank [] 0 lines es

-- The entries of the modules' files, one file behind the other.
abbrev pub AreCollected : Reader → Files → (Text → ℕ) → ℕ → List Text → List Entry → Type 0
AreCollected rt files limit rank [] es = es ≡ []
AreCollected rt files limit rank (name ∷ names) es =
    (own : List Entry) × (more : List Entry) × (es ≡ own ++ more)
    × AreRead rt.is_decimal name rank (read_file_lines rt (files name) (limit name)) own
    × AreCollected rt files limit (suc rank) names more

pub same-false : (s t : Text) → same s t ≡ false → ¬ (s ≡ t)
same-false s t h e = let both = (same_iff s t).1 e in cc

unequal : (s t : Text) → ¬ (s ≡ t) → same s t ≡ false
unequal s t h = elim (Bool-cases (same s t)) [ inl e ↦ absurd (h ((same_iff s t).0 e)) | inr e ↦ e ]

entries_of-AreEntriesOf :
    (digit : ℕ → Bool) (name : Text) (rank : ℕ) (last : Text) (seq : ℕ) (lines : List Text)
    → AreEntriesOf digit name rank last seq lines (entries_of digit name rank last seq lines)
unfolding entries_of stamp_of tag_of
entries_of-AreEntriesOf digit name rank last seq [] = tt
entries_of-AreEntriesOf digit name rank last seq (line ∷ lines) = (
  record {
    ranked = refl;
    placed = refl;
    plain = λ e. rw ((same_iff name (codes "actions")).1 e) refl;
    tagged = λ other. rw (unequal name (codes "actions") other) refl;
    timed = λ e. rw e refl;
    untimed = λ e. rw e refl;
  },
  entries_of-AreEntriesOf digit name rank (stamp_of digit last line) (suc seq) lines,
)

module _ (rt : Reader) where
  read-AreRead :
      (name : Text) (rank : ℕ) (lines : Option (List Text))
      → AreRead rt.is_decimal name rank lines
          (entries_of rt.is_decimal name rank [] 0 (lines_or_none rt lines))
  unfolding lines_or_none entries_of
  read-AreRead name rank none = refl
  read-AreRead name rank (some lines) = entries_of-AreEntriesOf rt.is_decimal name rank [] 0 lines

  pub collected-AreCollected :
      (files : Files) (limit : Text → ℕ) (rank : ℕ) (names : List Text)
      → AreCollected rt files limit rank names (collected rt files limit rank names)
  unfolding collected
  collected-AreCollected files limit rank [] = refl
  collected-AreCollected files limit rank (name ∷ names) =
      let lines = read_file_lines rt (files name) (limit name) in
      (
        entries_of rt.is_decimal name rank [] 0 (lines_or_none rt lines),
        collected rt files limit (suc rank) names,
        refl,
        read-AreRead name rank lines,
        collected-AreCollected files limit (suc rank) names,
      )

equal_text : (s t : Text) → before_text s t ≡ false → before_text t s ≡ false → s ≡ t
equal_text s t h k = elim (Bool-cases (same s t)) [
  | inl e ↦ (same_iff s t).0 e
  | inr e ↦ let later = before_text_total s t e h in cc
]

ranks : (m n i j : ℕ) → (ltb n m || (n == m && ltb j i)) ≡ false → (m < n) ⊎ ((m ≡ n) × (i ≤ j))
ranks m n i j h = elim (Bool-cases (ltb m n)) [
  | inl e ↦ inl (ground arith)
  | inr e ↦ inr (ground arith, ground arith)
]

-- An entry that another one does not precede is in front of it.
pub before-IsInFront : (a b : Entry) → before b a ≡ false → IsInFront a b
unfolding before
before-IsInFront a b h = elim (Bool-cases (before_text a.stamp b.stamp)) [
  | inl e ↦ inl e
  | inr e ↦
      let behind : before_text b.stamp a.stamp ≡ false = ground arith in
      let stamps = equal_text a.stamp b.stamp e behind in
      let alike = (same_iff b.stamp a.stamp).1 (sym stamps) in
      inr (stamps, ranks a.module_rank b.module_rank a.line_seq b.line_seq (ground arith))
]
