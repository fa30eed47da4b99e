-- ===== src/Catalog/Import/Tests.antt =====
-- Runs of the import on a result with two domains.
use web_zapret.Base.{
  List, [], ◌∷◌, ◌++◌, ◌≡◌, ◌≢◌, refl, map, All, Result, ok, err, type_error, pos,
}
use web_zapret.Text.{Text, codes, join, text_methods}
use web_zapret.Text.Shlex.{shlex_split}
use web_zapret.Dict.{get_or, insert}
use web_zapret.Value.{
  Value, str, list, dict, int, nil, cons, end, field, Dict, Runtime, of_elems, of_pairs,
  value_methods,
}
use web_zapret.Text.Decimal.{decimal}
use web_zapret.Catalog.{validate_args, free_id, candidate, slug}
use web_zapret.Catalog.Args.{IsSafe, validate_args_sound}
use web_zapret.Catalog.Entries.{over_limit, State, Entry, entry_dict}
use web_zapret.Catalog.Stored.{merge_catalog, dicts}
use web_zapret.Catalog.Import.{args_of, ids_of, plan_import}
use web_zapret.Catalog.Import.Sound.{IsPlan, limit_of, plan_import-IsPlan}
use web_zapret.Catalog.Import.Merge.{merge_catalog-plan}

free_id_test : free_id (codes "bcw" ∷ codes "bcw_2" ∷ []) (codes "bcw") ≡ codes "bcw_3"
unfolding free_id text_methods candidate decimal
free_id_test = refl

abbrev two_args : Text
two_args = codes "--a --b"

abbrev two_tokens : List Text
two_tokens = codes "--a" ∷ codes "--b" ∷ []

validate_args_sound_example :
    (ts : List Text) × (shlex_split (codes "--a  --b") ≡ ok ts)
    × (ts ≢ [])
    × All IsSafe ts
    × (two_args ≡ join (codes " ") ts)
unfolding validate_args shlex_split text_methods
validate_args_sound_example = validate_args_sound (codes "--a  --b") two_args refl

-- What the import runs, on one line.
unfoldable import_methods : Unit {0}
unfolding free_id validate_args shlex_split text_methods value_methods get_or insert args_of
    over_limit ids_of candidate slug decimal
import_methods = tt

abbrev runtime : Runtime
runtime = record { repr = λ v. []; to_int = λ v. err type_error; percent = λ v. ok (codes "100%") }

abbrev row_of : Text → Value
row_of args =
    dict (field (codes "protocol") (str (codes "HTTP")) (field (codes "args") (str args) end))

abbrev run_result : Value
run_result = dict (
    field (codes "domains")
      (list (
        cons
          (dict (
            field (codes "domain") (str (codes "a.org")) (
              field (codes "working")
                (list (
                  cons (row_of (codes "--lua-desync=fake")) (
                    cons (row_of (codes "--qnum=1"))
                      (cons (row_of (codes "--lua-desync=fake")) nil))))
                end)))
          nil))
      end)

abbrev one_limit : Dict
one_limit = (codes "max_import", int (pos 1)) ∷ []

abbrev old_entries : List Dict
old_entries = ((codes "id", str (codes "bcw_a_org_http")) ∷ []) ∷ []

abbrev planned : Result State
planned = plan_import runtime run_result one_limit old_entries (codes "r1") (codes "now")

abbrev state_of : Result State → State
state_of (ok st) = st
state_of (err e) = record {
  entries = [];
  skipped = [];
  known_args = [];
  known_ids = [];
  per_protocol = [];
}

planned_ids_test :
    map (λ (e : Entry). e.id) (state_of planned).entries ≡ codes "bcw_a_org_http_2" ∷ []
unfolding plan_import import_methods
planned_ids_test = refl

abbrev planned_state : State
planned_state = state_of planned

planned_test : planned ≡ ok planned_state
unfolding plan_import import_methods
planned_test = refl

limit_test : limit_of runtime one_limit ≡ ok (pos 1)
unfolding import_methods
limit_test = refl

plan_import-IsPlan_example : IsPlan runtime (pos 1) old_entries planned_state.entries
plan_import-IsPlan_example =
    plan_import-IsPlan runtime run_result one_limit old_entries (codes "r1") (codes "now")
      planned_state (pos 1) planned_test limit_test

abbrev old_catalog : Dict
old_catalog =
    (codes "version", int (pos 1))
    ∷ (codes "strategies", list (of_elems (map (λ d. dict (of_pairs d)) old_entries)))
    ∷ []

merge_catalog-plan_example :
    merge_catalog runtime old_catalog (map entry_dict planned_state.entries)
    ≡ ok (
        insert
          (codes "strategies")
          (list (
            of_elems
              (map (λ d. dict (of_pairs d)) (old_entries ++ map entry_dict planned_state.entries))))
          old_catalog)
unfolding import_methods dicts
merge_catalog-plan_example =
    merge_catalog-plan runtime run_result one_limit old_catalog
      (map (λ d. dict (of_pairs d)) old_entries) old_entries (codes "r1") (codes "now")
      planned_state (pos 1) planned_test limit_test refl refl (refl, tt)
