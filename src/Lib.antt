-- ===== src/Lib.antt =====
-- web_zapret2 is a control panel for the packet engine nfqws2. Its catalog holds strategies, texts
-- of engine options; the panel applies one of them, and a selection job runs the external program
-- blockcheckw, which probes for strategies that work, filters what it found, and imports the rest
-- into the catalog. A scheduler starts selection jobs at set times.
--
-- The library follows the parts of the program:
--
--   Base       lists, Boolean tests, results with Python's exceptions, integers, a stable sort
--   Text       Python's texts as lists of code points and the methods that the program calls;
--              Text.Shlex is shlex.split, Text.Decimal "%d" and int() of digits
--   Dict       dictionaries in the order of insertion
--   Value      values of parsed JSON and the built-in operations on them
--   Files      src/blockcheck.py: read_json and write_json, as src/panel/panel.py has them too
--   Strategy   src/strategy.py: native_options and strategy_args
--   Catalog    src/blockcheck.py: slug, FORBIDDEN_ARGS, validate_args, _needs_no_reasm; in
--              Catalog.Import plan_import, with its entries and its loop's variables in
--              Catalog.Entries; in Catalog.Stored merge_catalog
--   Schedule   src/blockcheck.py: valid_hhmm, next_run_at, schedule_due; src/panel/panel.py: the
--              loop _bcw_scheduler and the re-arming of a saved schedule in do_POST
--   Settings   src/blockcheck.py: the specifications of the settings and of the schedule, as_bool
--              to coerce, env_defaults; in Settings.Normalize normalize and load_settings, in
--              Settings.Store normalize_schedule, load_schedule, save_settings and save_schedule;
--              in Settings.Store.Next the command next of main
--   Commands   src/blockcheck.py: _globals, scan_argv, check_argv, run_paths and plan
--   Reports    src/blockcheck.py: filter_reason, rank and select_working; in Reports.Parse
--              parse_scan_report and parse_check_report
--   Harness    src/blockcheck.py: in Harness.Loop _run_step and run; in Harness.Main
--              settings_from_file and the commands plan and run of main, in Harness.Pruning
--              prune_runs; Harness.Encoded is the dictionary of a result, Harness.Brief summarize,
--              and Harness.AutoImport bcw_import of src/panel/panel.py
--   Collector  src/panel/panel.py: _bcw_collect from the output of the harness on
--   Logs       src/blockcheck.py: tail_file; in Logs.Merged the logs of src/panel/panel.py:
--              _read_file_lines, _collected_entries, merged_log, tail_log and the lines of
--              export_logs
--   Deletion   src/panel/panel.py: delete_strategy, strategies, strategy_ids and active_strategy
--   Upload     src/panel/panel.py: import_strategy_from_json
--   Registry   the catalog as a map from ids to strategies, over Deletion and merge_catalog
--   Server     src/panel/panel.py: authed, _read_body, do_GET, do_POST and do_OPTIONS, up to the
--              call that a request leads to; what the call raises is its own component's matter
--   Trial      src/panel/panel.py: test_strategy
--   Traffic    src/panel/panel.py: get_traffic_stats
--   Devices    src/panel/panel.py: connected_devices
--   PublicHost src/panel/panel.py: detect_public_host with its cache
--   ServerUri  src/panel/panel.py: ss_uri
--   Status     src/panel/panel.py: status, over the four above, with service_state and state_get
--   Overview   src/panel/panel.py: bcw_overview as a whole, with _bcw_last_summary
--   Jobs       src/panel/panel.py: pid_alive, bcw_start_run, the write of the job by _bcw_collect,
--              bcw_cancel and the write of bcw_overview; in Jobs.Threads the two saves of a start
--              and the read and the write of an overview as separate steps
--
-- The settings of a run are loaded before it starts and hold max_import and the prefix that
-- plan_import reads; those of the schedule are what next_run_at reads. A catalog entry that
-- plan_import makes is stored by merge_catalog and rendered by strategy_args when the engine
-- starts; Schedule.tick starts the run that Jobs.bcw_start_run launches, and the harness that it
-- launches, Harness.Loop.run, plans its command lines by Commands.plan, parses and ranks what they
-- leave by Reports, and writes the result that plan_import reads. Server leads the requests to
-- these calls: Deletion, Upload, Trial, Status, Overview, Settings.Store, Jobs and Logs. When the
-- harness ends, Collector takes the result from what it printed, or from the file that it left, and
-- writes it.
--
-- Correspondence. A function has the name of the Python function, or a name of its own where it is
-- a part of one: the comment above it says which. A raised exception is the `err` of a Result. Sets
-- of texts are lists. A loop's variables are the fields of a record (Options, State). The job file
-- and the live processes are a World; each call of the panel is a function on it, and a history is
-- a list of calls. In Jobs.Threads a history is a list of smaller steps: a start holds _BCW_LOCK
-- from its first save to its second one, and an overview holds it never. The process of a collector
-- that is left behind is found by its position among those that wait. The loop of run is a
-- recursion on the plans, and a round returns what it appends to the result's two lists. The world
-- that the clock, the subprocesses and the log move on is passed from call to call. A reply of the
-- panel is a constructor that stands for its text where the text is a constant. A write of a file
-- whose outcome the code ignores, as those of the scheduler's state and of the running job, has a
-- flag that says whether it succeeds; by Files a write that fails leaves the file as it was.
--
-- Stored files. load_settings, load_schedule, the commands plan, run and next, and the overview
-- take any JSON value as the file's content, lists, texts and numbers too. save_settings and
-- save_schedule take the dictionary of a file that holds an object, and a file that is written is
-- read again as the value that was written. sorted and
-- list.sort are an insertion that keeps the order of equal elements.
--
-- Parameters. Runtime is what Python's runtime does with values that are not modelled further
-- (repr, int() of floats and texts, the percent format), Numbers what the settings ask of it
-- (float(), int(), the comparison of values that are not both integers), Doubles what the ranking
-- asks of it. Calendar is localtime and mktime. The theorems hold for all of them, but for the
-- hypotheses that they name. Machine is what a run meets: the clock, how each subprocess ends, the
-- reports that it leaves, and the bytes of the log. Host is what the upload asks of the runtime:
-- the negation and the comparison of the keys of its sort, which raise where the values are no
-- numbers, and the printed percentage. Decoder is the decoding of the harness's output and
-- raw_decode, Bench the panel's part in the test of a strategy with the script that it runs, Source
-- the listings of iptables with int() of a text, Ports the listened ports with int(text, 16), Call
-- what a detection of the public address meets, Server the configured server with the bytes of a
-- text in UTF-8. Library is base64, int() of a text and json.loads for the handler. The files of
-- the log directory are a function of their names. Instants are natural numbers of ticks; the
-- program's are doubles, which are multiples of 2 ^ -22 seconds between the years 2004 and 2106.
-- Upper and lower case change the characters whose image has ASCII characters, since the code
-- compares the results with ASCII texts only. Reader is the decoding of the bytes of a log, with the
-- digits that \d stands for in a text; elsewhere \d and isdigit() are about ASCII digits. Python's
-- limit of 4300 digits for int() of a text is left out.
--
-- Fuel. The loop that looks for a free id has as much fuel as there are known ids, the loop of the
-- mode interval as much as there are ticks up to now, the printing of a number n has n + 1: each is
-- enough by a theorem on the loop.
--
-- Not modelled: the environment of the subprocesses and the write of result.json; the part of
-- bcw_import behind its exception, and what _bcw_collect does behind it; translate_nfqws_args,
-- which nothing calls; apply, bcw_availability, bcw_ready and _nfqueue_bound, which run
-- subprocesses and look at files; the lines that are printed; what the handler sends; and the shell
-- scripts, which start and stop the engine.
pub mod Base
pub mod Text
pub mod Dict
pub mod Value
pub mod Files
pub mod Strategy
pub mod Catalog
pub mod Schedule
pub mod Settings
pub mod Commands
pub mod Reports
pub mod Deletion
pub mod Trial
pub mod Traffic
pub mod Devices
pub mod PublicHost
pub mod ServerUri
pub mod Status
pub mod Jobs
pub mod Logs
pub mod Harness
pub mod Collector
pub mod Overview
pub mod Upload
pub mod Registry
pub mod Server
