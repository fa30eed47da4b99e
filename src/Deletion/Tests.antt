-- ===== src/Deletion/Tests.antt =====
-- A deletion from a catalog of two strategies.
use web_zapret.Base.{◌≡◌, refl, [], ◌∷◌, map, true, Result, ok, err}
use web_zapret.Text.{codes, text_methods}
use web_zapret.Dict.{lookup, get_or, insert}
use web_zapret.Value.{str, list, dict, Dict, of_elems, of_pairs, value_methods}
use web_zapret.Catalog.Stored.{dicts}
use web_zapret.Deletion.{Reply, unwritten, delete_strategy}
use web_zapret.Deletion.Deleted.{IsDeletion, delete_strategy-IsDeletion}

abbrev catalog : Dict
catalog =
    (
      codes "strategies",
      list (
          of_elems (
            map (λ d. dict (of_pairs d))
              (((codes "id", str (codes "none")) ∷ [])
                ∷ ((codes "id", str (codes "quic")) ∷ [])
                ∷ []))),
    )
    ∷ []

abbrev result_of : Result (Dict × Reply) → Dict × Reply
result_of (ok r) = r
result_of (err e) = ([], unwritten)

abbrev result : Dict × Reply
result = result_of (delete_strategy (codes "none") true (codes "quic") catalog)

deleted_test : delete_strategy (codes "none") true (codes "quic") catalog ≡ ok result
unfolding delete_strategy text_methods value_methods lookup get_or insert dicts
deleted_test = refl

left_test :
    result.0
    ≡ (
      codes "strategies",
      list (of_elems (map (λ d. dict (of_pairs d)) (((codes "id", str (codes "none")) ∷ []) ∷ []))),
    )
      ∷ []
unfolding delete_strategy text_methods value_methods lookup get_or insert dicts
left_test = refl

delete_strategy-IsDeletion_example : IsDeletion (codes "quic") catalog result
unfolding text_methods
delete_strategy-IsDeletion_example =
    delete_strategy-IsDeletion (codes "none") true (codes "quic") catalog result refl deleted_test
