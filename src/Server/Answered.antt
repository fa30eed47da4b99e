-- ===== src/Server/Answered.antt =====
-- Which requests are answered.
use web_zapret.Text.{Text}
use web_zapret.Value.{Value, Dict}
