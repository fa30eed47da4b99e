-- ===== src/Overview.antt =====
-- `bcw_overview` of src/panel/panel.py as a whole, with `_bcw_last_summary`, and `format_local` of
-- src/blockcheck.py.
pub mod Domains
pub mod Shown
pub mod Tests
use web_zapret.Base.{
  ℕ, Bool, true, false, List, [], ◌∷◌, map, take, Option, none, some, Result, ok, err, type_error,
  ◌>>=◌, if◌then◌else◌, ℤ, pos,
}
use web_zapret.Text.{Text, codes}
use web_zapret.Dict.{get_or}
use web_zapret.Value.{
  Value, null, bool, int, str, list, nil, dict, end, Dict, elems, of_elems, truthy, or_else,
  as_list, as_dict, py_len, Runtime,
}
use web_zapret.Settings.{Numbers}
use web_zapret.Settings.Normalize.{Outcome, load_settings}
use web_zapret.Settings.Store.{load_schedule}
use web_zapret.Harness.Brief.{summarize}
use web_zapret.Jobs.{World, Job, in_progress, bcw_overview}

-- What an overview reads: the environment, the values of the files of the settings, of the schedule and of
-- the last run, null where a file cannot be read, and the shared job.
pub record Panel : Type 0 where
  pub environ : List (Text × Text)
  pub settings_file : Value
  pub schedule_file : Value
  pub world : World
  pub last_file : Value

-- An entry of the last run's `domains`.
pub record LastDomain : Type 0 where
  pub domain : Value
  pub block_type : Value
  pub scanned : Value
  pub checked : Value
  pub inconclusive : Value
  pub working_count : ℕ
  pub refused_count : ℕ
  pub working : Value

-- What `_bcw_last_summary` returns of a run.
pub record Last : Type 0 where
  pub run_id : Value
  pub started_at : Value
  pub finished_at : Value
  pub took_s : Value
  pub good : Value
  pub success : Value
  pub errors : Value
  pub summary : Text
  pub domains : List LastDomain

-- The reply of a ready engine, but for `availability`.
pub record Overview : Type 0 where
  pub settings : Outcome
  pub schedule : Outcome
  pub next_run : Value
  pub next_run_local : Text
  pub last_run : Value
  pub last_run_local : Text
  pub job : Job
  pub is_running : Bool
  pub last : Option Last

pub data Reply : Type 0 where
  -- the engine is not ready, with the reason
  unavailable : Text → Reply
  available : Overview → Reply

-- `v[:12]`
first_twelve : Value → Result Value
first_twelve (list vs) = ok (list (of_elems (take 12 (elems vs))))
first_twelve (str s) = ok (str (take 12 s))
first_twelve v = err type_error

-- One round of the loop over the domains.
last_domain : Dict → Result LastDomain
unfolding first_twelve
last_domain dom = do
  let working = or_else (get_or (codes "working") null dom) (list nil)
  working_count ← py_len working
  refused_count ← py_len (or_else (get_or (codes "refused") null dom) (list nil))
  shown ← first_twelve working
  ok (record {
    domain = get_or (codes "domain") null dom;
    block_type = get_or (codes "block_type") null dom;
    scanned = get_or (codes "scanned") (int (pos 0)) dom;
    checked = get_or (codes "checked") (int (pos 0)) dom;
    inconclusive = get_or (codes "inconclusive") (bool false) dom;
    working_count = working_count;
    refused_count = refused_count;
    working = shown;
  })

pub last_domains : List Value → Result (List LastDomain)
unfolding last_domain
last_domains [] = ok []
last_domains (v ∷ vs) = do dom ← as_dict v; d ← last_domain dom; ds ← last_domains vs; ok (d ∷ ds)

module _ (rt : Runtime) where
  -- behind `if not last`
  summary_of : Dict → Result Last
  unfolding last_domains
  summary_of last = do
    doms ← as_list (or_else (get_or (codes "domains") null last) (list nil))
    domains ← last_domains doms
    summary ← summarize rt last
    ok (record {
      run_id = get_or (codes "run_id") null last;
      started_at = get_or (codes "started_at") null last;
      finished_at = get_or (codes "finished_at") null last;
      took_s = get_or (codes "took_s") null last;
      good = get_or (codes "ok") (bool false) last;
      success = get_or (codes "success") (bool false) last;
      errors = or_else (get_or (codes "errors") null last) (list nil);
      summary = summary;
      domains = domains;
    })

  -- `_bcw_last_summary(last)`
  last_summary : Value → Result (Option Last)
  unfolding summary_of
  last_summary v =
      if truthy v then (as_dict v >>= λ last. summary_of last >>= λ s. ok (some s)) else ok none

  module _ (nums : Numbers) (local : Value → Result Text) where
    -- `format_local(stamp)`, where `local` is `time.localtime` with the format
    format_local : Value → Result Text
    format_local stamp = if truthy stamp then local stamp else ok []

    -- From the write of the job on, with what has been loaded and the state of the schedule.
    shown : Panel → Outcome → Outcome → Dict → Result Reply
    unfolding format_local last_summary
    shown p settings schedule state = do
      let next_run = get_or (codes "next_run") null state
      let last_run = get_or (codes "last_run") null state
      next_local ← format_local next_run
      last_local ← format_local last_run
      last ← last_summary p.last_file
      ok (
          available (record {
            settings = settings;
            schedule = schedule;
            next_run = next_run;
            next_run_local = next_local;
            last_run = last_run;
            last_run_local = last_local;
            job = (bcw_overview p.world).job;
            is_running = in_progress p.world;
            last = last;
          }))

    -- With the schedule, whose file holds the state of the scheduler, too.
    with_schedule : Panel → Outcome → Result Outcome → World × Result Reply
    unfolding shown
    with_schedule p settings (err e) = (p.world, err e)
    with_schedule p settings (ok schedule) = (
      bcw_overview p.world,
      as_dict (or_else p.schedule_file (dict end)) >>= λ state. shown p settings schedule state,
    )

    with_settings : Panel → Result Outcome → World × Result Reply
    unfolding with_schedule
    with_settings p (err e) = (p.world, err e)
    with_settings p (ok settings) =
        with_schedule p settings (load_schedule nums p.environ p.schedule_file)

    -- `bcw_overview()`, with the error of an engine that is not ready: the job that it leaves, and the reply.
    unfoldable pub overview : Option Text → Panel → World × Result Reply
    unfolding with_settings
    overview (some error) p = (p.world, ok (unavailable error))
    overview none p = with_settings p (load_settings nums p.environ p.settings_file)
