-- ===== src/Harness/Pruning.antt =====
-- `prune_runs` of src/blockcheck.py, on the names of the run directories.
pub mod Newest
use web_zapret.Base.{
  ℕ, suc, ◌-◌, Bool, List, [], Option, none, some, length, keep, ℤ, pos, negsuc, sort_onto,
}
use web_zapret.Text.{Text, before_text}
use web_zapret.Logs.{drop}

-- the order of `sorted(…, reverse=True)`
pub newer : Text → Text → Bool
newer a b = before_text b a

-- `names[n:]`
pub from_position : ℤ → List Text → List Text
unfolding drop
from_position (pos n) names = drop n names
from_position (negsuc n) names = drop (length names - suc n) names

-- `prune_runs(runs_dir, keep)`: the directories that it removed. There are no names where `os.listdir` fails;
-- `removes` says that `os.rmdir` succeeds.
unfoldable pub prune_runs : Option (List Text) → ℤ → (Text → Bool) → List Text
unfolding newer from_position sort_onto
prune_runs none kept removes = []
prune_runs (some names) kept removes = keep removes (from_position kept (sort_onto newer [] names))
