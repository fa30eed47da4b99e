-- ===== src/Collector/Collected.antt =====
-- What the collector does with the result of a run.
use web_zapret.Base.{
  ℕ, ◌≡◌, refl, ap, ◌∙◌, inl, inr, true, false, Bool, List, [], ◌∷◌, ◌++◌, Option, none, some, ok,
  err, Exc, unbound_local, ◌&&◌, if◌then◌else◌, ℤ, Bool-cases,
}
use web_zapret.Text.{Text, codes, same}
use web_zapret.Dict.{get_or, lookup}
use web_zapret.Value.{
  Value, null, dict, Dict, truthy, or_else, as_dict, pairs, of_pairs, pairs-of_pairs, Runtime, end,
}
use web_zapret.Reports.{Doubles}
use web_zapret.Harness.{Machine, Summary}
use web_zapret.Harness.Loop.{run}
use web_zapret.Harness.Encoded.{result_dict}
use web_zapret.Harness.Brief.Described.{brief, summarize-brief}
use web_zapret.Harness.AutoImport.{bcw_import, bcw_import_raises}
use web_zapret.Collector.{
  Effect, saved_job, saved_last, pruned, logged, Decoder, from_brace, result_of, bcw_collect,
  decoded, is_unusable, or_empty, or_null, done, last_of, raised_by, wants_import, imported,
  summary_of, finish, collect,
}

abbrev result_value : Summary → Value
result_value r = dict (of_pairs (result_dict r))

-- The harness printed a text whose first value, from its first brace on, is a value.
abbrev pub Prints : Decoder → List ℕ → Value → Type 0
Prints d out v =
    (rest : List ℕ) × (from_brace out ≡ some rest) × (d.raw_decode (d.decode rest) ≡ some v)

result_of-printed :
    (d : Decoder) (out : List ℕ) (stored : Option Value) (r : Summary)
    → Prints d out (result_value r)
    → result_of d out stored ≡ result_value r
unfolding result_of decoded is_unusable or_empty result_dict of_pairs
result_of-printed d out stored r (rest, found, parsed) = rw (found, parsed) refl

-- The run is imported where it has a strategy that works and its settings want the import.
abbrev pub is_imported : Summary → Bool
is_imported r = r.success && truthy (get_or (codes "auto_import") null r.settings)

settings_in_or : (s : Dict) → as_dict (or_else (dict (of_pairs s)) (dict end)) ≡ ok s
unfolding or_else truthy as_dict pairs of_pairs
settings_in_or [] = refl
settings_in_or ((k, v) ∷ s) = ap (λ (t : Dict). ok ((k, v) ∷ t)) (pairs-of_pairs s)

wants_import-result : (r : Summary) → wants_import (result_dict r) ≡ ok (is_imported r)
unfolding wants_import result_dict get_or lookup same truthy
wants_import-result r = elim (Bool-cases r.success) [
  | inl good ↦ rw (good, settings_in_or r.settings) refl
  | inr bad ↦ rw bad refl
]

-- What the thread raises.
abbrev pub raised_of : Bool → Option Exc
raised_of auto = if auto then some (unbound_local (codes "rows")) else none

raised_import :
    (v : Value) (worked auto : Bool)
    → (worked ≡ true → bcw_import true v ≡ err (unbound_local (codes "rows")))
    → imported true (some v) (ok (worked && auto)) ≡ raised_of (worked && auto)
unfolding imported or_null raised_by
raised_import v true true h = rw (h refl) refl
raised_import v true false h = refl
raised_import v false auto h = refl

summary_of-result : (rt : Runtime) (r : Summary) → summary_of rt (result_dict r) ≡ ok (brief rt r)
unfolding summary_of result_dict
summary_of-result rt r = summarize-brief rt r

good-result : (r : Summary) → truthy (get_or (codes "ok") null (result_dict r)) ≡ r.good
unfolding result_dict get_or lookup same truthy
good-result r = refl

-- The writes of the thread, for a result that is good or not.
abbrev pub writes_of : Bool → ℤ → Value → Text → List Effect
writes_of good rc res summary =
    saved_job good rc ∷ ((if good then saved_last res ∷ [] else []) ++ pruned ∷ [])
    ++ logged summary ∷ []

collect-result :
    (rt : Runtime) (ready : Bool) (rc : ℤ) (stored : Option Value) (r : Summary)
    → collect rt ready rc stored (result_value r) (as_dict (result_value r)) ≡ record {
      effects = writes_of r.good rc (result_value r) (brief rt r);
      raised = imported ready stored (ok (is_imported r));
    }
unfolding collect finish last_of done as_dict
collect-result rt ready rc stored r =
    rw
      (pairs-of_pairs (result_dict r), summary_of-result rt r, good-result r, wants_import-result r)
      refl

-- The end of a run, from the result that `run` returned to the thread of the panel: if the first value
-- that the harness printed from its first brace on is the result, and its file holds the same, the thread
-- saves the job as `done` if the result is `ok` and as `error` if not, saves the result as the last run
-- only in the first case, prunes the old runs and logs the summary, in that order. Then it ends, with an
-- `UnboundLocalError` exactly where the run was a success and its settings want the import.
pub collect_run :
    {W : Type 0} (m : Machine W) (rt : Doubles) (d : Decoder) (settings : Dict) (run_dir : Text)
    (w : W) (r : Summary) (out : List ℕ) (rc : ℤ)
    → run m rt settings run_dir w ≡ ok r
    → Prints d out (dict (of_pairs (result_dict r)))
    → bcw_collect rt.runtime d true out rc (some (dict (of_pairs (result_dict r)))) ≡ record {
      effects = writes_of r.good rc (dict (of_pairs (result_dict r))) (brief rt.runtime r);
      raised = raised_of (is_imported r);
    }
unfolding bcw_collect
collect_run m rt d settings run_dir w r out rc ran printed =
    ap (λ v. collect rt.runtime true rc (some (result_value r)) v (as_dict v))
      (result_of-printed d out (some (result_value r)) r printed)
    ∙ collect-result rt.runtime true rc (some (result_value r)) r
    ∙ ap
        (λ e. record {
          effects = writes_of r.good rc (result_value r) (brief rt.runtime r);
          raised = e;
        })
        (raised_import (result_value r) r.success
          (truthy (get_or (codes "auto_import") null r.settings))
          (bcw_import_raises m rt settings run_dir w r ran))
