-- ===== src/Collector.antt =====
-- `_bcw_collect` of src/panel/panel.py from the output of the harness on: what the thread writes, in its
-- order, and the exception that may end it.
pub mod Collected
pub mod Tests
use web_zapret.Base.{
  ℕ, Bool, true, false, not, List, [], ◌∷◌, ◌++◌, Option, none, some, Result, ok, err, Exc, ◌>>=◌,
  ◌==◌, if◌then◌else◌, ℤ, pos,
}
use web_zapret.Text.{Text, codes}
use web_zapret.Dict.{get_or}
use web_zapret.Value.{Value, null, list, nil, dict, end, Dict, truthy, or_else, as_dict, Runtime}
use web_zapret.Harness.Brief.{summarize}
use web_zapret.Harness.AutoImport.{bcw_import}

-- What the thread does that others can see, but for the lines that it prints.
pub data Effect : Type 0 where
  -- the job file, with the state `done` or `error` and the exit status
  saved_job : Bool → ℤ → Effect
  -- the file of the last run
  saved_last : Value → Effect
  -- the call of `prune_runs`, whose exceptions are caught
  pruned : Effect
  -- the line of actions.log
  logged : Text → Effect

-- What has been done, and the exception that the thread ended with.
pub record Trace : Type 0 where
  pub effects : List Effect
  pub raised : Option Exc

-- The runtime's parts: `bytes.decode("utf-8", "replace")`, and `raw_decode`, none where it raises.
pub record Decoder : Type 0 where
  pub decode : List ℕ → Text
  pub raw_decode : Text → Option Value

-- `out[out.find(b"{"):]`
unfoldable pub from_brace : List ℕ → Option (List ℕ)
from_brace [] = none
from_brace (c ∷ out) = let rest = from_brace out in if c == b'{' then some (c ∷ out) else rest

or_empty : Option Value → Value
or_empty none = dict end
or_empty (some v) = v

-- `res` behind the `try`
decoded : Decoder → Option (List ℕ) → Value
unfolding or_empty
decoded d none = dict end
decoded d (some rest) = or_empty (d.raw_decode (d.decode rest))

-- `not isinstance(res, dict) or not res`
is_unusable : Value → Bool
is_unusable (dict end) = true
is_unusable (dict fs) = false
is_unusable v = true

-- `res`: what the harness printed, or its file, which is none if it cannot be read
pub result_of : Decoder → List ℕ → Option Value → Value
unfolding from_brace decoded is_unusable or_empty
result_of d out stored =
    let res = decoded d (from_brace out) in
    if is_unusable res then or_else (or_empty stored) (dict end) else res

-- `read_json(path)`
or_null : Option Value → Value
or_null none = null
or_null (some v) = v

-- what has been done before an exception, or before the rest
done : List Effect → Option Exc → Trace
done es e = record { effects = es; raised = e }

-- The writes behind the job file's.
last_of : Bool → Value → List Effect
last_of good res = (if good then saved_last res ∷ [] else []) ++ pruned ∷ []

raised_by : {A : Type 0} → Result A → Option Exc
raised_by (err e) = some e
raised_by (ok a) = none

-- `if res.get("success") and (res.get("settings") or {}).get("auto_import")`
wants_import : Dict → Result Bool
wants_import res =
    if truthy (get_or (codes "success") null res)
    then (as_dict (or_else (get_or (codes "settings") null res) (dict end)) >>= λ settings.
        ok (truthy (get_or (codes "auto_import") null settings)))
    else ok false

-- The import, whose reply is never `ok`: nothing is applied.
imported : Bool → Option Value → Result Bool → Option Exc
unfolding raised_by or_null
imported ready stored (err e) = some e
imported ready stored (ok false) = none
imported ready stored (ok true) = raised_by (bcw_import ready (or_null stored))

module _ (rt : Runtime) where
  -- `summarize(res) if res else "no result"`
  summary_of : Dict → Result Text
  summary_of [] = ok (codes "no result")
  summary_of (p ∷ ps) = summarize rt (p ∷ ps)

  -- behind the summary
  finish : List Effect → Bool → Option Value → Dict → Result Text → Trace
  unfolding wants_import imported done
  finish es ready stored res (err e) = done es (some e)
  finish es ready stored res (ok summary) =
      done (es ++ logged summary ∷ []) (imported ready stored (wants_import res))

  -- behind the result, which must be a dictionary
  collect : Bool → ℤ → Option Value → Value → Result Dict → Trace
  unfolding last_of summary_of finish done
  collect ready rc stored res (err e) = done [] (some e)
  collect ready rc stored res (ok d) =
      let good = truthy (get_or (codes "ok") null d) in
      finish (saved_job good rc ∷ last_of good res) ready stored d (summary_of d)

  -- `_bcw_collect(proc, job)`: the harness printed `out` and exited with `rc`, and left `stored` in its
  -- file result.json; the flag says that the engine is ready.
  unfoldable pub bcw_collect : Decoder → Bool → List ℕ → ℤ → Option Value → Trace
  unfolding result_of collect
  bcw_collect d ready out rc stored =
      let res = result_of d out stored in collect ready rc stored res (as_dict res)
