-- ===== src/Registry/Tests.antt =====
-- An import and a deletion.
use web_zapret.Base.{◌≡◌, refl, List, [], ◌∷◌, true, none, ok, err, type_error}
use web_zapret.Text.{Text, codes, text_methods}
use web_zapret.Dict.{lookup, get_or, insert}
use web_zapret.Value.{str, Dict, Runtime, value_methods}
use web_zapret.Catalog.Stored.{dicts, merge_catalog, other_id}
use web_zapret.Deletion.{strategies_of, store, delete_strategy}
use web_zapret.Deletion.Deleted.{strategies_of-store}
use web_zapret.Registry.{Op, delete, import_entries, View, find, steps, replay}
use web_zapret.Registry.Refined.{IsView, steps_refine}

abbrev runtime : Runtime
runtime = record { repr = λ v. []; to_int = λ v. err type_error; percent = λ v. err type_error }

abbrev entry : Text → Dict
entry id = (codes "id", str id) ∷ []

abbrev old : List Dict
old = entry (codes "none") ∷ entry (codes "quic") ∷ []

abbrev catalog : Dict
catalog = store old []

abbrev ops : List Op
ops =
    import_entries true (entry (codes "bcw") ∷ []) ∷ delete (codes "none") true (codes "quic") ∷ []

abbrev view : View
view t = find t old

left_test :
    steps runtime ops catalog ≡ ok (store (entry (codes "none") ∷ entry (codes "bcw") ∷ []) [])
unfolding steps text_methods value_methods lookup get_or insert merge_catalog other_id dicts
    delete_strategy store strategies_of
left_test = refl

removed_test : replay ops view (codes "quic") ≡ none
unfolding replay find text_methods lookup get_or
removed_test = refl

steps_refine_example :
    (left : Dict) × (steps runtime ops catalog ≡ ok left) × IsView left (replay ops view)
unfolding text_methods lookup get_or
steps_refine_example =
    steps_refine runtime ops catalog view (((codes "bcw", refl), tt), (refl, tt))
      (record {
        ds = old;
        listed = strategies_of-store old [];
        has_text = ((codes "none", refl), ((codes "quic", refl), tt));
        reads = λ t. refl;
      })
