-- ===== src/Catalog/Import.antt =====
-- `plan_import` of src/blockcheck.py.
pub mod Invariant
pub mod Sound
pub mod Merge
pub mod Total
pub mod Tests
use web_zapret.Base.{
  ◌+◌, List, [], ◌∷◌, ◌++◌, Result, ok, err, value_error, value_error_repr, ◌>>=◌, if◌then◌else◌,
  pos,
}
use web_zapret.Text.{Text, codes, one_of, join, words}
use web_zapret.Dict.{get_or}
use web_zapret.Value.{
  Value, null, int, str, list, dict, nil, Dict, pairs, truthy, or_else, as_text, texts_of, as_list,
  as_dict, py_str, Runtime, int_text, py_int, format_int,
}
use web_zapret.Catalog.{slug, validate_args}
use web_zapret.Catalog.Entries.{State, Config, at, over_limit, gather, skip, new_entry, add}

module _ (rt : Runtime) where
  pub exc_text : Text → Text → Text
  exc_text m t = m ++ rt.repr (str t)

  -- the texts of an entry's two options
  known_of : Value → List Text
  known_of v = if truthy v then join (codes " ") (words (py_str rt.repr v)) ∷ [] else []

  pub args_of : Dict → List Text
  unfolding known_of
  args_of entry =
      known_of (at (codes "nfqws_opt") null entry) ++ known_of (at (codes "lua_opt") null entry)

  pub ids_of : Dict → List Text
  ids_of entry =
      let v = at (codes "id") null entry in if truthy v then py_str rt.repr v ∷ [] else []

  share_text : Value → Result Text
  share_text null = ok (codes "n/a")
  share_text v = rt.percent v

  -- `",".join(row.get("admits") or []) or row.get("observed", "n/a")`, printed
  authenticity : Dict → Result Text
  authenticity row = do
    admits ← as_list (or_else (at (codes "admits") null row) (list nil))
    ts ← texts_of admits
    ok (
        py_str rt.repr
          (or_else (str (join (codes ",") ts)) (at (codes "observed") (str (codes "n/a")) row)))

  describe : Text → Dict → Result Text
  unfolding share_text authenticity
  describe domain row = do
    passes_ok ← format_int rt (at (codes "passes_ok") (int (pos 0)) row)
    passes_total ← format_int rt (at (codes "passes_total") (int (pos 0)) row)
    share ← share_text (at (codes "median_share") null row)
    latency ← py_int rt (or_else (at (codes "median_latency_ms") (int (pos 0)) row) (int (pos 0)))
    auth ← authenticity row
    ok (
        codes "Selected by blockcheckw: "
        ++ (passes_ok
            ++ (codes "/"
                ++ (passes_total
                    ++ (codes " full passes, "
                        ++ (share
                            ++ (codes " of the reference volume, "
                                ++ (int_text latency
                                    ++ (codes " ms, authenticity: "
                                        ++ (auth
                                            ++ (if truthy (str domain)
                                                then codes " (domain: " ++ (domain ++ codes ")")
                                                else [])))))))))))

  -- behind the `try`: the arguments are valid
  place : Config → State → Text → Dict → Dict → Text → Text → Result State
  unfolding add new_entry skip describe
  place c st domain dom row protocol args =
      let refused = λ (reason : Text).
        ok (
          skip st
            (record { domain = domain; protocol = protocol; args = args; reason = reason })) in
      if one_of args st.known_args
      then refused (codes "already in the catalog")
      else if over_limit c.limit (get_or protocol 0 st.per_protocol)
      then refused (codes "over max_import=" ++ (int_text c.limit ++ codes " for this protocol"))
      else (describe domain row >>= λ desc.
          ok (add st (new_entry c st domain dom row protocol args desc)))

  invalid : State → Text → Text → Value → Text → State
  unfolding skip
  invalid st domain protocol args reason =
      skip st (record {
        domain = domain;
        protocol = protocol;
        args = py_str rt.repr args;
        reason = reason;
      })

  -- `try: args = validate_args(…) except ValueError as exc: …`
  try_args : Config → State → Text → Dict → Dict → Text → Result Text → Result State
  unfolding place invalid exc_text
  try_args c st domain dom row protocol (ok args) = place c st domain dom row protocol args
  try_args c st domain dom row protocol (err (value_error m)) =
      ok (invalid st domain protocol (at (codes "args") (str []) row) m)
  try_args c st domain dom row protocol (err (value_error_repr m t)) =
      ok (invalid st domain protocol (at (codes "args") (str []) row) (exc_text m t))
  try_args c st domain dom row protocol (err e) = err e

  protocol_of : Dict → Text
  protocol_of row =
      py_str rt.repr (or_else (at (codes "protocol") null row) (str (codes "HTTPS/TLS1.2")))

  import_row : Config → State → Text → Dict → Dict → Result State
  unfolding try_args protocol_of
  import_row c st domain dom row =
      try_args c st domain dom row (protocol_of row)
        (as_text (or_else (at (codes "args") (str []) row) (str [])) >>= λ text. validate_args text)

  import_rows : Config → State → Text → Dict → List Value → Result State
  unfolding import_row
  import_rows c st domain dom [] = ok st
  import_rows c st domain dom (v ∷ vs) = do
    row ← as_dict v
    next ← import_row c st domain dom row
    import_rows c next domain dom vs

  import_domains : Config → State → List Value → Result State
  unfolding import_rows
  import_domains c st [] = ok st
  import_domains c st (v ∷ vs) = do
    dom ← as_dict v
    rows ← as_list (or_else (at (codes "working") null dom) (list nil))
    next ← import_rows c st (py_str rt.repr (at (codes "domain") (str []) dom)) dom rows
    import_domains c next vs

  -- `(result.get("domains") if isinstance(result, dict) else None) or []`
  domains_of : Value → Value
  domains_of (dict fs) = or_else (at (codes "domains") null (pairs fs)) (list nil)
  domains_of _ = list nil

  pub start : List Dict → State
  unfolding gather
  start existing = record {
    entries = [];
    skipped = [];
    known_args = gather args_of existing;
    known_ids = gather ids_of existing;
    per_protocol = [];
  }

  config_of : Dict → Text → Text → Result Config
  config_of settings run_id now = do
    limit ← py_int rt (or_else (at (codes "max_import") (int (pos 5)) settings) (int (pos 0)))
    let prefix = or_else (at (codes "import_prefix") null settings) (str (codes "bcw"))
    ok (record {
      limit = limit;
      prefix = slug (py_str rt.repr (or_else prefix (str []))) 16;
      run_id = run_id;
      now = now;
    })

  pub plan_import : Value → Dict → List Dict → Text → Text → Result State
  unfolding config_of domains_of import_domains start
  plan_import result settings existing run_id now = do
    c ← config_of settings run_id now
    domains ← as_list (domains_of result)
    import_domains c (start existing) domains
