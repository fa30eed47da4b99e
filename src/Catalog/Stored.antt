-- ===== src/Catalog/Stored.antt =====
-- `merge_catalog` of src/blockcheck.py, and the test for dictionaries that the catalog functions share.
use web_zapret.Base.{Bool, not, List, [], ◌∷◌, ◌++◌, map, keep, Result, ok, ◌>>=◌}
use web_zapret.Text.{Text, codes, one_of}
use web_zapret.Dict.{insert}
use web_zapret.Value.{
  Value, null, list, dict, nil, Dict, of_pairs, of_elems, as_list, as_dict, py_str, Runtime,
}
use web_zapret.Catalog.Entries.{at}

-- `str(s.get("id")) not in ids`
unfoldable pub other_id : Runtime → List Text → Dict → Bool
other_id rt ids s = not (one_of (py_str rt.repr (at (codes "id") null s)) ids)

-- the elements, each of which must be a dictionary
unfoldable pub dicts : List Value → Result (List Dict)
dicts [] = ok []
dicts (v ∷ vs) = do d ← as_dict v; ds ← dicts vs; ok (d ∷ ds)

-- `merge_catalog(catalog, entries)`; the new entries are dictionaries.
unfoldable pub merge_catalog : Runtime → Dict → List Dict → Result Dict
unfolding other_id dicts
merge_catalog rt catalog entries = do
  strategies ← as_list (at (codes "strategies") (list nil) catalog)
  old ← dicts strategies
  let ids = map (λ e. py_str rt.repr (at (codes "id") null e)) entries
  let kept = keep (other_id rt ids) old
  ok (
      insert (codes "strategies") (list (of_elems (map (λ d. dict (of_pairs d)) (kept ++ entries))))
        catalog)
