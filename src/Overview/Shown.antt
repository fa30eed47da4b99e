-- ===== src/Overview/Shown.antt =====
-- What an overview shows of a panel whose files are those that it writes itself.
use web_zapret.Base.{◌≡◌, ◌⊎◌, false, map, Option, none, some, Result, ok}
use web_zapret.Text.{Text, codes}
use web_zapret.Dict.{get_or, lookup}
use web_zapret.Value.{Value, null, bool, str, list, dict, Dict, of_elems, of_pairs, truthy, Runtime}
use web_zapret.Settings.{Numbers, settings_spec}
use web_zapret.Settings.Normalize.{Outcome, load_settings}
use web_zapret.Settings.Fits.Defaults.{FitAll}
use web_zapret.Settings.Store.{load_schedule, schedule_spec}
use web_zapret.Harness.{Summary}
use web_zapret.Harness.Encoded.{dicts_value, dom_dict}
use web_zapret.Harness.Brief.Described.{brief}
use web_zapret.Jobs.{is_running, in_progress, bcw_overview}
use web_zapret.Overview.{Panel, Last, Overview}
use web_zapret.Overview.Domains.{domain_of}

-- The dictionary of a run's result, with the keys that the overview reads; it has others, too, among them
-- the run's id and its times.
pub record IsResult (d : Dict) (r : Summary) : Type 0 where
  pub good : lookup (codes "ok") d ≡ some (bool r.good)
  pub success : lookup (codes "success") d ≡ some (bool r.success)
  pub domains : lookup (codes "domains") d ≡ some (dicts_value (map dom_dict r.domains))
  pub errors : lookup (codes "errors") d ≡ some (list (of_elems (map (λ t. str t) r.errors)))

module _ (rt : Runtime) where
  -- What is shown of a run.
  abbrev pub last_of : Dict → Summary → Last
  last_of d r = record {
    run_id = get_or (codes "run_id") null d;
    started_at = get_or (codes "started_at") null d;
    finished_at = get_or (codes "finished_at") null d;
    took_s = get_or (codes "took_s") null d;
    good = bool r.good;
    success = bool r.success;
    errors = list (of_elems (map (λ t. str t) r.errors));
    summary = brief rt r;
    domains = map domain_of r.domains;
  }

  -- The file of the last run: none, or the dictionary of a result.
  abbrev pub file_of : Option (Dict × Summary) → Value
  file_of none = null
  file_of (some (d, r)) = dict (of_pairs d)

  abbrev pub AreResults : Option (Dict × Summary) → Type 0
  AreResults none = Unit
  AreResults (some (d, r)) = IsResult d r

  abbrev pub shown_of : Option (Dict × Summary) → Option Last
  shown_of none = none
  shown_of (some (d, r)) = some (last_of d r)

  -- A stamp of the schedule's file is missing or 0, or one that the local time can be told of.
  abbrev pub IsStamp : (Value → Result Text) → Value → Type 0
  IsStamp local v = (truthy v ≡ false) ⊎ ((t : Text) × (local v ≡ ok t))

  module _ (nums : Numbers) (local : Value → Result Text) where
    abbrev overview_of : Panel → Outcome → Outcome → Dict → Text → Text → Option Last → Overview
    overview_of p settings schedule state next_local last_local last = record {
      settings = settings;
      schedule = schedule;
      next_run = get_or (codes "next_run") null state;
      next_run_local = next_local;
      last_run = get_or (codes "last_run") null state;
      last_run_local = last_local;
      job = (bcw_overview p.world).job;
      is_running = in_progress p.world;
      last = last;
    }

    -- What the overview of a ready engine shows, of a panel whose last run is known.
    pub record IsShown (p : Panel) (last : Option (Dict × Summary)) (o : Overview) : Type 0 where
      pub settings : load_settings nums p.environ p.settings_file ≡ ok o.settings
      pub settings_fit : FitAll o.settings.settings settings_spec
      pub schedule : load_schedule nums p.environ p.schedule_file ≡ ok o.schedule
      pub schedule_fits : FitAll o.schedule.settings schedule_spec
      pub process : o.is_running ≡ in_progress p.world
      pub phase : is_running o.job.phase ≡ o.is_running
      pub summary : o.last ≡ shown_of last
