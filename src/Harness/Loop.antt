-- ===== src/Harness/Loop.antt =====
-- The run itself: `_run_step`, and `run` with the body of its loop.
pub mod Iteration
pub mod Reported
use web_zapret.Base.{
  ℕ, zero, suc, ◌-◌, ◌*◌, Bool, true, false, not, ◌&&◌, ◌||◌, List, [], ◌∷◌, ◌++◌, map, take, any,
  length, max, Option, none, some, Result, ok, err, ◌>>=◌, ◌==◌, if◌then◌else◌, ℤ, pos, negsuc,
}
use web_zapret.Text.{Text, codes, join}
use web_zapret.Dict.{get_or, lookup}
use web_zapret.Value.{
  Value, null, bool, int, str, list, nil, Dict, truthy, texts_of, py_str, int_text, py_int,
}
use web_zapret.Settings.{Spec, settings_spec}
use web_zapret.Commands.{Run, Plan, plan}
use web_zapret.Reports.{Doubles, Reason, Selection, refused_row, select_working}
use web_zapret.Reports.Parse.{Report, parse_scan_report, parse_check_report}
use web_zapret.Logs.{tail_file}
use web_zapret.Harness.{
  new_dom, Step, Dom, Round, Rounds, Summary, Times, Machine, Ended, exited, timed_out, not_run,
  is_zero, note_text, no_rows, head_text, as_error, scan_passed, settings_in,
}

module _ {W : Type 0} (m : Machine W) (rt : Doubles) where
  -- the three ends of `_run_step`
  step_of : List Text → ℕ → Ended × W → Step W
  unfolding head_text
  step_of cmd timeout (exited rc, w) = record { rc = rc; note = none; world = w }
  step_of cmd timeout (timed_out, w) = record {
    rc = pos 124;
    note = some (codes "timeout after " ++ (m.seconds timeout ++ codes "s"));
    world =
        m.write
          (10 ∷ codes "!! step timed out after " ++ (m.seconds timeout ++ (codes "s" ++ 10 ∷ [])))
          w;
  }
  step_of cmd timeout (not_run why, w) = record {
    rc = pos 127;
    note = some why;
    world =
        m.write (10 ∷ codes "!! cannot run " ++ (head_text cmd ++ (codes ": " ++ (why ++ 10 ∷ []))))
          w;
  }

  -- `_run_step(cmd, log_path, timeout, env, cwd)`
  run_step : List Value → ℕ → W → Result (Step W)
  unfolding step_of
  run_step args timeout w = do
    cmd ← texts_of args
    ok (
        step_of cmd timeout
          (m.exec cmd timeout (m.write (10 ∷ codes "$ " ++ (join (codes " ") cmd ++ 10 ∷ [])) w)))

  -- `budget = max(5, deadline - time.time())`, and the step under it
  timed_step : ℕ → List Value → W → Result (Step W)
  unfolding run_step
  timed_step deadline args w =
      let (t, next) = m.now w in run_step args (max (5 * m.unit) (deadline - t)) next

  -- `"%s: …" % item["domain"]`
  error_of : Run → Text → Text
  error_of item text = py_str rt.runtime.repr item.domain ++ (codes ": " ++ text)

  failed_text : Text → Step W → Text
  unfolding note_text
  failed_text name s =
      name ++ (codes " failed (rc=" ++ (int_text s.rc ++ (note_text s.note ++ codes ")")))

  -- behind `parse_check_report`
  checked_round : Dict → Run → Dom → W → Option Report → Result (Round W)
  unfolding error_of
  checked_round settings item dom w none = ok (record {
    dom = dom;
    error = some (error_of item (codes "check produced no readable report"));
    world = w;
  })
  checked_round settings item dom w (some check) = do
    s ← select_working rt check.rows settings
    ok (record {
      dom = record dom {
        checked = length check.rows;
        inconclusive = get_or (codes "inconclusive") null check.entries;
        check = some check;
        working = s.accepted;
        refused = take 100 (map (refused_row m.reason_text) s.refused);
      };
      error = none;
      world = w;
    })

  -- behind the second `_run_step`
  check_round : Dict → Run → Dom → Step W → Result (Round W)
  unfolding error_of failed_text checked_round
  check_round settings item dom s =
      let ran = record dom { check_rc = some s.rc } in
      if not (is_zero s.rc)
      then ok (record {
        dom = ran;
        error = some (error_of item (failed_text (codes "check") s));
        world = s.world;
      })
      else (parse_check_report rt m.loads (m.report item.check_out s.world) >>= λ check.
          checked_round settings item ran s.world check)

  with_scan : Dom → Report → Dom
  with_scan dom scan = record dom {
    block_type = get_or (codes "block_type") null scan.entries;
    blocked = get_or (codes "blocked") null scan.entries;
    scanned = length scan.rows;
    scan = some scan;
  }

  -- behind `parse_scan_report`
  scanned_round : ℕ → Dict → Run → Dom → W → Option Report → Result (Round W)
  unfolding error_of check_round timed_step no_rows with_scan
  scanned_round deadline settings item dom w none = ok (record {
    dom = dom;
    error = some (error_of item (codes "scan produced no readable report"));
    world = w;
  })
  scanned_round deadline settings item dom w (some scan) =
      if no_rows scan.rows
      then ok (record { dom = with_scan dom scan; error = none; world = w })
      else (timed_step deadline item.check w >>= λ s.
          check_round settings item (with_scan dom scan) s)

  -- behind the first `_run_step`
  scan_round : ℕ → Dict → Run → Dom → Step W → Result (Round W)
  unfolding error_of failed_text scanned_round
  scan_round deadline settings item dom s =
      let ran = record dom { scan_rc = some s.rc } in
      if not (is_zero s.rc)
      then ok (record {
        dom = ran;
        error = some (error_of item (failed_text (codes "scan") s));
        world = s.world;
      })
      else (parse_scan_report rt m.loads (m.report item.scan_out s.world) >>= λ scan.
          scanned_round deadline settings item ran s.world scan)

  -- the body of `for item in plans`
  pub run_domain : ℕ → Dict → Run → W → Result (Round W)
  unfolding timed_step scan_round new_dom
  run_domain deadline settings item w = timed_step deadline item.scan w >>= λ s.
      scan_round deadline settings item (new_dom item.domain) s

  pub run_domains : ℕ → Dict → List Run → W → Result (Rounds W)
  unfolding run_domain as_error
  run_domains deadline settings [] w = ok (record { domains = []; errors = []; world = w })
  run_domains deadline settings (item ∷ items) w = do
    r ← run_domain deadline settings item w
    rest ← run_domains deadline settings items r.world
    ok (record {
      domains = r.dom ∷ rest.domains;
      errors = as_error r.error ++ rest.errors;
      world = rest.world;
    })

  -- `tail_file(log_path, lines)`: the number is read when the file has been read
  log_of : Value → Option (List ℕ) → Result Text
  log_of lines none = ok (tail_file m.decode (pos 0) 262144 none)
  log_of lines (some bytes) =
      py_int rt.runtime lines >>= λ n. ok (tail_file m.decode n 262144 (some bytes))

  -- `run_id`, `started_at`, `finished_at` and `took_s`, of the world behind the loop
  times_of : Text → ℕ → W → Times × W
  times_of run_dir started w =
      let (finished, w₁) = m.now w in
      let (ended, w₂) = m.now w₁ in
      (
        record {
          run_id = m.last_name run_dir;
          started_at = m.utc started;
          finished_at = m.utc finished;
          took_s = m.took started ended;
        },
        w₂,
      )

  -- behind the loop
  summary_of : Dict → List Run → Rounds W → Times → Text → Summary
  unfolding scan_passed settings_in
  summary_of settings plans r times log = record {
    good = any scan_passed r.domains;
    success = any (λ (d : Dom). not (no_rows d.working)) r.domains;
    queue = get_or (codes "queue") (int (pos 200)) settings;
    settings = settings_in settings settings_spec;
    times = times;
    plans = plans;
    domains = r.domains;
    errors = r.errors;
    log = log;
  }

  -- `run(settings, run_dir)`
  unfoldable pub run : Dict → Text → W → Result Summary
  unfolding run_domains summary_of log_of times_of
  run settings run_dir w = do
    let (started, first) = m.now w
    deadline ← m.later started (get_or (codes "job_timeout") (int (pos 3600)) settings)
    p ← plan rt.runtime settings run_dir
    r ← run_domains deadline settings p.runs first
    let (times, last) = times_of run_dir started r.world
    log ← log_of (get_or (codes "log_lines") (int (pos 400)) settings) (m.log_bytes last)
    ok (summary_of settings p.runs r times log)
