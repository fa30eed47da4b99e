-- ===== src/Overview/Tests.antt =====
-- The overview of a panel with a schedule and a last run.
use web_zapret.Base.{◌≡◌, refl, some, Result, ok, err, type_error, [], ◌∷◌, pos}
use web_zapret.Text.{Text, codes}
use web_zapret.Value.{dict, of_pairs, Dict, Value, int, str}
use web_zapret.Reports.Tests.{doubles}
use web_zapret.Harness.Encoded.{result_dict}
use web_zapret.Harness.Tests.{good_run}
use web_zapret.Jobs.{running}
use web_zapret.Overview.{Panel, Overview, first_twelve}
use web_zapret.Overview.Shown.{file_of}

abbrev local : Value → Result Text
local (int n) = ok (codes "2026-01-01 04:00:00")
local v = err type_error

abbrev state : Dict
state = (codes "enabled", str (codes "on")) ∷ (codes "next_run", int (pos 99)) ∷ []

-- The result as it is written.
abbrev result : Dict
result = result_dict good_run

-- A job whose process is gone, and a slot that is armed.
abbrev panel : Panel
panel = record {
  environ = [];
  settings_file = dict (of_pairs ((codes "workers", str (codes "16")) ∷ []));
  schedule_file = dict (of_pairs state);
  world = record {
    job = record { phase = running; run_id = codes "r1"; pid = some 7 };
    alive = [];
    waiting = [];
  };
  last_file = file_of doubles.runtime (some (result, good_run));
}

-- A text in place of the strategies is cut, too; a number cannot be.
number_test : first_twelve (int (pos 3)) ≡ err type_error
unfolding first_twelve
number_test = refl
