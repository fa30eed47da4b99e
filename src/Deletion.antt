-- ===== src/Deletion.antt =====
-- `delete_strategy`, `strategies`, `strategy_ids` and `active_strategy` of src/panel/panel.py, on the catalog
-- file's dictionary. The strategies are dictionaries, as the panel's own functions write them.
pub mod Deleted
pub mod Tests
use web_zapret.Base.{
  ℕ, Bool, true, false, not, List, [], ◌∷◌, ◌++◌, map, keep, Result, ok, err, ◌>>=◌, if◌then◌else◌,
}
use web_zapret.Catalog.Stored.{dicts}
use web_zapret.Text.{Text, codes, same, one_of}
use web_zapret.Dict.{get_or, insert}
use web_zapret.Value.{Value, null, str, list, dict, nil, Dict, of_elems, of_pairs, as_list, as_dict}

pub data Reply : Type 0 where
  unknown_strategy built_in active unwritten : Reply
  deleted : Text → List Value → Reply

-- `strat.get("strategies", [])`
unfoldable pub strategies_of : Dict → Result (List Dict)
strategies_of catalog = as_list (get_or (codes "strategies") (list nil) catalog) >>= λ vs. dicts vs

-- `v == text`
unfoldable pub is_text : Text → Value → Bool
is_text t (str s) = same s t
is_text t v = false

-- `text in [s.get("id", "") for s in …]`
unfoldable pub has_id : Text → List Dict → Bool
unfolding is_text
has_id t [] = false
has_id t (d ∷ ds) =
    let rest = has_id t ds in if is_text t (get_or (codes "id") (str []) d) then true else rest

-- `cur if cur in strategy_ids() else ""`
unfoldable pub active_strategy : Text → List Dict → Text
unfolding has_id
active_strategy cur ds = if has_id cur ds then cur else []

-- `s.get("id") != sid`
unfoldable pub stays : Text → Dict → Bool
unfolding is_text
stays sid d = not (is_text sid (get_or (codes "id") null d))

unfoldable pub store : List Dict → Dict → Dict
store ds catalog =
    insert (codes "strategies") (list (of_elems (map (λ d. dict (of_pairs d)) ds))) catalog

-- `delete_strategy(strategy_id)`: the catalog that it leaves, and its reply. `cur` is the state file's
-- strategy, and the flag says that the write succeeds.
unfoldable pub delete_strategy : Text → Bool → Text → Dict → Result (Dict × Reply)
unfolding strategies_of active_strategy stays store
delete_strategy cur writes sid catalog = do
  ds ← strategies_of catalog
  let kept = keep (stays sid) ds
  ok (
      if not (has_id sid ds)
      then (catalog, unknown_strategy)
      else if same sid (codes "none")
      then (catalog, built_in)
      else if same sid (active_strategy cur ds)
      then (catalog, active)
      else if not writes
      then (catalog, unwritten)
      else (store kept catalog, deleted sid (map (λ d. get_or (codes "id") null d) kept)))
