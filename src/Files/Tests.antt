-- ===== src/Files/Tests.antt =====
-- Writes that are interrupted, refused and completed.
use web_zapret.Base.{if◌then◌else◌, ◌≡◌, refl, Option, some, none, true, false, [], ◌∷◌, pos}
use web_zapret.Text.{Text, codes, same, text_methods}
use web_zapret.Value.{Value, null, int, str}
use web_zapret.Files.{Disk, Attempt, write_json}
use web_zapret.Files.Atomic.{whole, IsAtomic, write_json-IsAtomic}

-- The two complete texts are parsed, and no part of them.
abbrev loads : Text → Option Value
loads t =
    if same t (codes "1")
    then some (int (pos 1))
    else if same t (codes "\"a\"")
    then some (str (codes "a"))
    else none

abbrev disk : Disk
disk = record { file = some (codes "1"); temp = none }

abbrev attempt : Attempt
attempt = record {
  makes_directory = true;
  opens = true;
  pieces = codes "\"" ∷ codes "a" ∷ codes "\"" ∷ [];
  dumps = true;
  renames = true;
}

write_json-IsAtomic_example : IsAtomic loads null (str (codes "a")) disk (write_json attempt disk)
unfolding whole text_methods
write_json-IsAtomic_example =
    write_json-IsAtomic loads null (str (codes "a")) attempt disk (λ _. refl)

-- A dump that raises in its middle leaves a part of it beside the file.
part_test : write_json (record attempt { pieces = codes "\"" ∷ []; dumps = false }) disk ≡ (
  record { file = some (codes "1"); temp = some [] }
      ∷ record { file = some (codes "1"); temp = some (codes "\"") }
      ∷ [],
  false,
)
unfolding write_json
part_test = refl
