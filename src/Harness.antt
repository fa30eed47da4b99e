-- ===== src/Harness.antt =====
-- The data of a run of the selection in src/blockcheck.py, `_run_step` and `run`. What happens outside the
-- program is a Machine: a world that the clock, the subprocesses and the log move on.
pub mod Loop
pub mod Failure
pub mod Main
pub mod Pruning
pub mod Encoded
pub mod Brief
pub mod Imported
pub mod AutoImport
pub mod Tests
use web_zapret.Base.{
  ℕ, zero, suc, ◌-◌, ◌*◌, Bool, true, false, not, ◌&&◌, ◌||◌, List, [], ◌∷◌, ◌++◌, map, take, any,
  length, max, Option, none, some, Result, ok, err, ◌>>=◌, ◌==◌, if◌then◌else◌, ℤ, pos, negsuc,
}
use web_zapret.Text.{Text, codes, join}
use web_zapret.Dict.{get_or, lookup}
use web_zapret.Value.{
  Value, null, bool, int, str, list, nil, Dict, truthy, texts_of, py_str, int_text, py_int,
}
use web_zapret.Settings.{Spec, settings_spec}
use web_zapret.Commands.{Run, Plan, plan}
use web_zapret.Reports.{Doubles, Reason, Selection, refused_row, select_working}
use web_zapret.Reports.Parse.{Report, parse_scan_report, parse_check_report}
use web_zapret.Logs.{tail_file}

-- How `subprocess.run` ends: with an exit status, by its timeout, or with an `OSError`.
pub data Ended : Type 0 where
  exited : ℤ → Ended
  timed_out : Ended
  not_run : Text → Ended

-- What the run meets. Instants are ticks, `unit` of them to a second.
pub record Machine (W : Type 0) : Type 0 where
  pub unit : ℕ
  -- `time.time()`
  pub now : W → ℕ × W
  -- `time.strftime("%Y-%m-%dT%H:%M:%SZ", time.gmtime(t))`
  pub utc : ℕ → Text
  -- `round(t - started, 1)`
  pub took : ℕ → ℕ → Value
  -- `os.path.basename(os.path.normpath(path))`
  pub last_name : Text → Text
  -- `started + float(v)`
  pub later : ℕ → Value → Result ℕ
  -- a command with its timeout; its output goes to the log
  pub exec : List Text → ℕ → W → Ended × W
  -- `log.write`
  pub write : Text → W → W
  -- the bytes of the log
  pub log_bytes : W → Option (List ℕ)
  -- `read_report(path)`
  pub report : Text → W → Value
  -- `json.loads`
  pub loads : Text → Option Value
  -- `"%s" % timeout`
  pub seconds : ℕ → Text
  -- `bytes.decode("utf-8", "replace")`
  pub decode : List ℕ → Text
  -- the text of a reason for a refusal
  pub reason_text : Reason → Text

-- What `_run_step` returns, with the world it leaves.
pub record Step (W : Type 0) : Type 0 where
  pub rc : ℤ
  pub note : Option Text
  pub world : W

-- `dom`
pub record Dom : Type 0 where
  pub domain : Value
  pub scan_rc : Option ℤ
  pub check_rc : Option ℤ
  pub block_type : Value
  pub blocked : Value
  pub scanned : ℕ
  pub checked : ℕ
  pub inconclusive : Value
  pub working : List Dict
  pub refused : List Dict
  pub scan : Option Report
  pub check : Option Report

new_dom : Value → Dom
new_dom domain = record {
  domain = domain;
  scan_rc = none;
  check_rc = none;
  block_type = str [];
  blocked = list nil;
  scanned = 0;
  checked = 0;
  inconclusive = bool false;
  working = [];
  refused = [];
  scan = none;
  check = none;
}

-- One round of the loop: what it appends to `result["domains"]` and to `result["errors"]`.
pub record Round (W : Type 0) : Type 0 where
  pub dom : Dom
  pub error : Option Text
  pub world : W

-- The lists of the result behind the loop.
pub record Rounds (W : Type 0) : Type 0 where
  pub domains : List Dom
  pub errors : List Text
  pub world : W

-- The run's name and times in the result.
pub record Times : Type 0 where
  pub run_id : Text
  pub started_at : Text
  pub finished_at : Text
  pub took_s : Value

-- `result`
pub record Summary : Type 0 where
  pub good : Bool
  pub success : Bool
  pub times : Times
  pub queue : Value
  pub settings : Dict
  pub plans : List Run
  pub domains : List Dom
  pub errors : List Text
  pub log : Text

pub is_zero : ℤ → Bool
is_zero (pos n) = n == 0
is_zero (negsuc n) = false

-- `": " + note if note else ""`
note_text : Option Text → Text
note_text none = []
note_text (some []) = []
note_text (some (c ∷ s)) = codes ": " ++ c ∷ s

pub no_rows : List Dict → Bool
no_rows [] = true
no_rows (row ∷ rows) = false

head_text : List Text → Text
head_text [] = []
head_text (t ∷ ts) = t

-- an error as a list
pub as_error : Option Text → List Text
as_error none = []
as_error (some t) = t ∷ []

-- `d["scan_rc"] == 0`
pub scan_passed : Dom → Bool
unfolding is_zero
scan_passed d = elim (d.scan_rc) [ none ↦ false | some rc ↦ is_zero rc ]

-- `{key: settings.get(key) for key in SETTINGS_SPEC}`
settings_in : Dict → List Spec → Dict
settings_in settings [] = []
settings_in settings (s ∷ specs) = (s.key, get_or s.key null settings) ∷ settings_in settings specs
