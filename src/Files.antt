-- ===== src/Files.antt =====
-- `read_json` and `write_json` of src/panel/panel.py and src/blockcheck.py: a file and the temporary file
-- beside it, which a write fills and then renames.
pub mod Atomic
pub mod Tests
use web_zapret.Base.{Bool, true, false, not, List, [], ◌∷◌, ◌++◌, Option, none, some, if◌then◌else◌}
use web_zapret.Text.{Text}
use web_zapret.Value.{Value}

-- The contents of `path` and of `path + ".tmp"`, none where there is no such file.
pub record Disk : Type 0 where
  pub file : Option Text
  pub temp : Option Text

-- How the system calls of a write end: whether the directory is made (the panel's write does not make one),
-- whether the temporary file is opened, what is written to it, piece by piece, before `json.dump` ends,
-- whether that ends without an exception and the file is closed, and whether it is renamed.
pub record Attempt : Type 0 where
  pub makes_directory : Bool
  pub opens : Bool
  pub pieces : List Text
  pub dumps : Bool
  pub renames : Bool

text_or_empty : Option Text → Text
text_or_empty none = []
text_or_empty (some t) = t

-- The pieces that are written, and the states that they leave.
pub appended : Disk → List Text → List Disk
unfolding text_or_empty
appended d [] = []
appended d (piece ∷ pieces) =
    let next = record d { temp = some (text_or_empty d.temp ++ piece) } in
    next ∷ appended next pieces

pub filled : Disk → List Text → Disk
unfolding text_or_empty
filled d [] = d
filled d (piece ∷ pieces) = filled (record d { temp = some (text_or_empty d.temp ++ piece) }) pieces

-- `os.replace(tmp, path)`
pub replaced : Disk → Disk
replaced d = record { file = d.temp; temp = none }

-- `write_json(path, obj)`: the states that it passes through, in their order, and what it returns.
unfoldable pub write_json : Attempt → Disk → List Disk × Bool
unfolding appended filled replaced
write_json a d =
    let empty = record d { temp = some [] } in
    let written = empty ∷ appended empty a.pieces in
    if not a.makes_directory
    then ([], false)
    else if not a.opens
    then ([], false)
    else if not a.dumps
    then (written, false)
    else if not a.renames
    then (written, false)
    else (written ++ replaced (filled empty a.pieces) ∷ [], true)

parsed : Option Value → Value → Value
parsed none default = default
parsed (some v) default = v

-- `read_json(path, default)`, where `loads` is `json.load`, none where it raises
unfoldable pub read_json : (Text → Option Value) → Value → Disk → Value
unfolding parsed
read_json loads default d = elim d.file [ none ↦ default | some t ↦ parsed (loads t) default ]
