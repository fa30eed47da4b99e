-- ===== src/Commands.antt =====
-- The command lines of blockcheckw that src/blockcheck.py builds: `_globals`, `scan_argv`, `check_argv`,
-- `run_paths` and `plan`. An argument is a value, since the settings' texts are passed on as they are.
pub mod Embedded
pub mod Planned
pub mod Tests
use Prim.Native.String.{String}
use web_zapret.Base.{
  ℕ, Bool, true, false, ◌&&◌, List, [], ◌∷◌, ◌++◌, Option, none, some, Result, ok, err, key_error,
  ◌>>=◌, if◌then◌else◌, ℤ, pos, negsuc, max, ltb_ℤ,
}
use web_zapret.Text.{Text, codes, same, join}
use web_zapret.Dict.{lookup, get_or}
use web_zapret.Value.{
  Value, null, str, Dict, truthy, or_else, as_list, texts_of, py_str, int_text, Runtime, py_int,
}
use web_zapret.Catalog.{slug}

-- One domain's paths and command lines.
pub record Run : Type 0 where
  pub domain : Value
  pub scan_out : Text
  pub check_out : Text
  pub log : Text
  pub scan : List Value
  pub check : List Value

pub record Plan : Type 0 where
  pub bin : Value
  pub queue : Value
  pub home : Text
  pub runs : List Run

abbrev pub word : String → Value
word s = str (codes s)

-- `settings[key]`
required_of : Text → Option Value → Result Value
required_of key none = err (key_error key)
required_of key (some v) = ok v

pub required : Text → Dict → Result Value
unfolding required_of
required key settings = required_of key (lookup key settings)

-- `if settings.get(key): args += [option, settings[key]]`
pub optional : Text → String → Dict → List Value
optional key option settings =
    let v = get_or key null settings in if truthy v then word option ∷ v ∷ [] else []

-- `max(MIN_PROFILES_FOR_CHECK, n)`
at_least_eight : ℤ → ℤ
at_least_eight n = if ltb_ℤ (pos 8) n then n else pos 8

-- `settings.get("grid") == "file" and settings.get("grid_file")`
is_file : Value → Bool
is_file (str s) = same s (codes "file")
is_file v = false

from_file : Dict → List Value
unfolding optional is_file
from_file settings =
    if is_file (get_or (codes "grid") null settings)
    then optional (codes "grid_file") "--from-file" settings
    else []

-- `os.path.join(path, name)` of a name that does not start with a slash
join_path : Text → Text → Text
join_path [] name = name
join_path (c ∷ path) name =
    if ends_in_slash c path then (c ∷ path) ++ name else (c ∷ path) ++ b'/' ∷ name
  where
    ends_in_slash : ℕ → Text → Bool
    ends_in_slash c [] = same (c ∷ []) (codes "/")
    ends_in_slash c (d ∷ path) = ends_in_slash d path

workers_of : Option ℤ → List Value
workers_of none = []
workers_of (some n) = word "-w" ∷ str (int_text n) ∷ []

-- `str(path)` of the file of one domain
file_of : Text → Text → Text → Text → Text
unfolding join_path
file_of run_dir prefix base suffix = join_path run_dir (prefix ++ (base ++ suffix))

module _ (rt : Runtime) where
  -- `int(settings[key])`
  number : Text → Dict → Result ℤ
  unfolding required
  number key settings = required key settings >>= λ v. py_int rt v

  -- `str(int(settings[key]))`
  shown : Text → Dict → Result Value
  unfolding number
  shown key settings = number key settings >>= λ n. ok (str (int_text n))

  -- `_globals(settings, workers)`
  pub globals : Dict → Option ℤ → Result (List Value)
  unfolding required number at_least_eight workers_of optional
  globals settings workers = do
    bin ← required (codes "bin") settings
    n ← number (codes "profiles_per_instance") settings
    ok (
        bin ∷ workers_of workers
        ++ (word "--profiles-per-instance"
            ∷ str (int_text (at_least_eight n))
            ∷ word "--auto"
            ∷ word "--no-conflict-cleanup"
            ∷ optional (codes "via") "--via" settings))

  -- `",".join(settings["protocols"])`
  joined : Dict → Result Value
  unfolding required
  joined settings = do
    v ← required (codes "protocols") settings
    vs ← as_list v
    ts ← texts_of vs
    ok (str (join (codes ",") ts))

  -- `scan_argv(settings, domain, scan_out)`
  pub scan_argv : Dict → Value → Text → Result (List Value)
  unfolding globals joined shown from_file
  scan_argv settings domain scan_out = do
    workers ← number (codes "workers") settings
    args ← globals settings (some workers)
    protocols ← joined settings
    dns ← required (codes "dns") settings
    timeout ← shown (codes "scan_timeout") settings
    top ← shown (codes "scan_top") settings
    ok (
        args
        ++ (word "scan"
              ∷ word "-d"
              ∷ domain
              ∷ word "-p"
              ∷ protocols
              ∷ word "--dns"
              ∷ dns
              ∷ word "--timeout"
              ∷ timeout
              ∷ word "--top"
              ∷ top
              ∷ word "-o"
              ∷ str scan_out
              ∷ optional (codes "alive_via") "--alive-via" settings
            ++ from_file settings))

  -- `check_argv(settings, domain, scan_out, check_out)`
  pub check_argv : Dict → Value → Text → Text → Result (List Value)
  unfolding globals shown required optional
  check_argv settings domain scan_out check_out = do
    args ← globals settings none
    dns ← required (codes "dns") settings
    timeout ← shown (codes "check_timeout") settings
    idle ← shown (codes "idle_ms") settings
    take_n ← shown (codes "take") settings
    passes ← shown (codes "passes") settings
    probe ← required (codes "probe_path") settings
    identity ← required (codes "identity_path") settings
    ok (
        args
        ++ (word "check"
            ∷ word "--from-file"
            ∷ str scan_out
            ∷ word "-d"
            ∷ domain
            ∷ word "--dns"
            ∷ dns
            ∷ word "--timeout"
            ∷ timeout
            ∷ word "--idle-ms"
            ∷ idle
            ∷ word "--take"
            ∷ take_n
            ∷ word "--passes"
            ∷ passes
            ∷ word "--probe-path"
            ∷ probe
            ∷ word "--identity-path"
            ∷ identity
            ∷ word "-o"
            ∷ str check_out
            ∷ optional (codes "reference_via") "--reference-via" settings))

  -- one round of `plan`, with `run_paths(run_dir, domain)`
  run_of : Text → Dict → Value → Result Run
  unfolding scan_argv check_argv file_of
  run_of run_dir settings domain = do
    let base = slug (py_str rt.repr (or_else domain (str []))) 40
    let scan_out = file_of run_dir (codes "scan_") base (codes ".json")
    let check_out = file_of run_dir (codes "check_") base (codes ".json")
    scan ← scan_argv settings domain scan_out
    check ← check_argv settings domain scan_out check_out
    ok (record {
      domain = domain;
      scan_out = scan_out;
      check_out = check_out;
      log = file_of run_dir (codes "bcw_") base (codes ".log");
      scan = scan;
      check = check;
    })

  runs_of : Text → Dict → List Value → Result (List Run)
  unfolding run_of
  runs_of run_dir settings [] = ok []
  runs_of run_dir settings (v ∷ vs) = do
    run ← run_of run_dir settings v
    rest ← runs_of run_dir settings vs
    ok (run ∷ rest)

  -- `plan(settings, run_dir)`
  unfoldable pub plan : Dict → Text → Result Plan
  unfolding runs_of required join_path
  plan settings run_dir = do
    domains ← required (codes "domains") settings
    vs ← as_list domains
    runs ← runs_of run_dir settings vs
    bin ← required (codes "bin") settings
    queue ← required (codes "queue") settings
    ok (record { bin = bin; queue = queue; home = join_path run_dir (codes "home"); runs = runs })
