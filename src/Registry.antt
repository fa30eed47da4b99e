-- ===== src/Registry.antt =====
-- The catalog as a map from ids to strategies, over the two components that change it: `delete_strategy` of
-- src/panel/panel.py and `merge_catalog` of src/blockcheck.py, whose result the panel writes.
pub mod Found
pub mod Refined
pub mod Tests
use web_zapret.Base.{
  ◌≡◌, Bool, true, false, not, ◌&&◌, List, [], ◌∷◌, Option, none, some, Result, ok, ◌>>=◌,
  if◌then◌else◌, All,
}
use web_zapret.Text.{Text, codes, same}
use web_zapret.Dict.{get_or}
use web_zapret.Value.{Value, null, str, Dict, Runtime}
use web_zapret.Catalog.Stored.{merge_catalog}
use web_zapret.Deletion.{is_text, delete_strategy}

-- The strategy that a list has under an id.
unfoldable pub find : Text → List Dict → Option Dict
find t [] = none
find t (d ∷ ds) =
    let rest = find t ds in if is_text t (get_or (codes "id") null d) then some d else rest

-- A strategy whose id is a text.
abbrev pub HasText : Dict → Type 0
HasText d = (s : Text) × (get_or (codes "id") null d ≡ str s)

-- What the panel does to the catalog: a deletion, under the strategy of the state file, and an import of
-- entries. The flag says that the write succeeds.
pub data Op : Type 0 where
  delete : Text → Bool → Text → Op
  import_entries : Bool → List Dict → Op

-- The entries have ids, and so has the strategy that is deleted.
abbrev pub IsOp : Op → Type 0
IsOp (delete cur writes sid) = same [] sid ≡ false
IsOp (import_entries writes es) = All HasText es

pub step : Runtime → Op → Dict → Result Dict
step rt (delete cur writes sid) catalog = delete_strategy cur writes sid catalog >>= λ r. ok r.0
step rt (import_entries writes es) catalog =
    merge_catalog rt catalog es >>= λ merged. ok (if writes then merged else catalog)

unfoldable pub steps : Runtime → List Op → Dict → Result Dict
unfolding step
steps rt [] catalog = ok catalog
steps rt (op ∷ ops) catalog = step rt op catalog >>= λ next. steps rt ops next

-- The same, on a map.
abbrev pub View : Type 0
View = Text → Option Dict

-- `new` over `old`
abbrev pub over : Option Dict → Option Dict → Option Dict
over none old = old
over (some d) old = some d

abbrev pub replayed : Op → View → View
replayed (delete cur writes sid) f t =
    if writes && (not (same sid (codes "none")) && (not (same sid cur) && same t sid))
    then none
    else f t
replayed (import_entries writes es) f t = if writes then over (find t es) (f t) else f t

unfoldable pub replay : List Op → View → View
replay [] f = f
replay (op ∷ ops) f = replay ops (replayed op f)
