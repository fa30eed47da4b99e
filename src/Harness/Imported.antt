-- ===== src/Harness/Imported.antt =====
-- The result of a run is what `plan_import` reads.
use web_zapret.Text.{Text}
use web_zapret.Value.{Dict}
