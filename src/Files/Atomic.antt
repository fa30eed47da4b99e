-- ===== src/Files/Atomic.antt =====
-- What a reader sees of a write, at whatever moment.
use web_zapret.Base.{
  ◌≡◌, refl, ap, ◌∙◌, ◌⊎◌, inl, inr, Bool, true, false, not, List, [], ◌∷◌, ◌++◌, All, All-append,
  Option, some, if_each, append_assoc, append-nil, sym, arith,
}
use web_zapret.Text.{Text}
use web_zapret.Value.{Value}
use web_zapret.Files.{
  Disk, Attempt, text_or_empty, appended, filled, replaced, write_json, parsed, read_json,
}

-- The whole text of the pieces.
unfoldable pub whole : List Text → Text
whole [] = []
whole (piece ∷ pieces) = piece ++ whole pieces

filled-whole :
    (file : Option Text) (t : Text) (pieces : List Text)
    → (filled (record { file = file; temp = some t }) pieces).temp ≡ some (t ++ whole pieces)
unfolding text_or_empty filled whole
filled-whole file t [] = ap (λ x. some x) (sym (append-nil t))
filled-whole file t (piece ∷ pieces) =
    filled-whole file (t ++ piece) pieces ∙ ap (λ x. some x) (append_assoc t piece (whole pieces))

appended-file : (d : Disk) (pieces : List Text) → All (λ s. s.file ≡ d.file) (appended d pieces)
unfolding appended text_or_empty
appended-file d [] = tt
appended-file d (piece ∷ pieces) =
    (refl, appended-file (record d { temp = some (text_or_empty d.temp ++ piece) }) pieces)

-- The state behind the last one.
abbrev pub after : Disk → List Disk → Disk
after d [] = d
after d (s ∷ states) = after s states

after-append : (d s : Disk) (states : List Disk) → after d (states ++ s ∷ []) ≡ s
after-append d s [] = refl
after-append d s (x ∷ states) = after-append x s states

module _ (loads : Text → Option Value) (default v : Value) where
  abbrev seen : Disk → Value
  seen s = read_json loads default s

  -- What a write does to the readers of the file.
  pub record IsAtomic (d : Disk) (r : List Disk × Bool) : Type 0 where
    pub each : All (λ s. (seen s ≡ seen d) ⊎ (seen s ≡ v)) r.0
    pub refused : r.1 ≡ false → All (λ s. seen s ≡ seen d) r.0
    pub stored : r.1 ≡ true → seen (after d r.0) ≡ v

  seen-file : (d s : Disk) → s.file ≡ d.file → seen s ≡ seen d
  unfolding read_json
  seen-file d s h = rw h refl

  seen-each :
      (d : Disk) (states : List Disk)
      → All (λ s. s.file ≡ d.file) states
      → All (λ s. seen s ≡ seen d) states
  seen-each d [] h = tt
  seen-each d (s ∷ states) (e, h) = (seen-file d s e, seen-each d states h)

  seen-left :
      (d : Disk) (states : List Disk)
      → All (λ s. s.file ≡ d.file) states
      → All (λ s. (seen s ≡ seen d) ⊎ (seen s ≡ v)) states
  seen-left d [] h = tt
  seen-left d (s ∷ states) (e, h) = (inl (seen-file d s e), seen-left d states h)

  unchanged-IsAtomic :
      (d : Disk) (states : List Disk)
      → All (λ s. s.file ≡ d.file) states
      → IsAtomic d (states, false)
  unchanged-IsAtomic d states h = record {
    each = seen-left d states h;
    refused = λ _. seen-each d states h;
    stored = λ e. cc e;
  }

  seen-replaced :
      (d : Disk) (pieces : List Text)
      → loads (whole pieces) ≡ some v
      → seen (replaced (filled (record { file = d.file; temp = some [] }) pieces)) ≡ v
  unfolding read_json replaced parsed
  seen-replaced d pieces h = rw (filled-whole d.file [] pieces, h) refl

  replaced-IsAtomic :
      (d : Disk) (states : List Disk) (s : Disk)
      → All (λ x. x.file ≡ d.file) states
      → seen s ≡ v
      → IsAtomic d (states ++ s ∷ [], true)
  replaced-IsAtomic d states s h new = record {
    each =
        All-append (λ x. (seen x ≡ seen d) ⊎ (seen x ≡ v)) states (s ∷ []) (seen-left d states h)
          (inr new, tt);
    refused = λ e. cc e;
    stored = λ _. ap seen (after-append d s states) ∙ new;
  }

  -- A write that is interrupted at any moment, or that another thread watches, whatever its system calls do
  -- and in whatever pieces the text is written: if the pieces of a dump that ends are together a text that
  -- is parsed as the value, then in each state that the write passes through `read_json` returns what it
  -- returned before, or the value, and never a part of it; a write that returns `False` changes nothing for
  -- the readers, and behind one that returns `True` they read the value.
  pub write_json-IsAtomic :
      (a : Attempt) (d : Disk)
      → (a.dumps ≡ true → loads (whole a.pieces) ≡ some v)
      → IsAtomic d (write_json a d)
  unfolding write_json
  write_json-IsAtomic a d parses =
      let empty : Disk = record { file = d.file; temp = some [] } in
      let written = empty ∷ appended empty a.pieces in
      let kept : All (λ s. s.file ≡ d.file) written = (refl, appended-file empty a.pieces) in
      if_each (IsAtomic d) (not a.makes_directory) (λ _. unchanged-IsAtomic d [] tt)
        (λ _.
          if_each (IsAtomic d) (not a.opens) (λ _. unchanged-IsAtomic d [] tt)
            (λ _.
              if_each (IsAtomic d) (not a.dumps) (λ _. unchanged-IsAtomic d written kept)
                (λ dumped.
                  if_each (IsAtomic d) (not a.renames) (λ _. unchanged-IsAtomic d written kept)
                    (λ _.
                      replaced-IsAtomic d written _ kept
                        (seen-replaced d a.pieces (parses (ground arith)))))))
