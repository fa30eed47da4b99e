-- ===== src/Commands/Tests.antt =====
-- Runs of `plan` with one domain.
use web_zapret.Base.{
  ◌≡◌, ◌⊎◌, refl, List, [], ◌∷◌, map, All, none, false, Result, ok, err, type_error, pos,
}
use web_zapret.Text.{Text, codes, text_methods}
use web_zapret.Text.Decimal.{decimal}
use web_zapret.Dict.{lookup, get_or}
use web_zapret.Value.{Value, null, str, int, Dict, Runtime, value_methods}
use web_zapret.Settings.{Numbers, texts_value}
use web_zapret.Settings.Normalize.{Outcome, value_at, load_settings}
use web_zapret.Commands.{Run, Plan, plan, join_path, word}
use web_zapret.Commands.Embedded.{IsEmbeddedRun, plan-IsEmbedded}
use web_zapret.Settings.Normalize.Total.{is_object}
use web_zapret.Commands.Planned.{loaded-plan_total}

abbrev runtime : Runtime
runtime = record { repr = λ v. []; to_int = λ v. err type_error; percent = λ v. err type_error }

abbrev pub numbers : Numbers
numbers = record {
  repr = λ v. [];
  to_float = λ t. none;
  is_far = λ x v. false;
  to_int = λ v. err type_error;
  greater = λ a b. err type_error;
}

path_test : join_path (codes "/run/") (codes "home") ≡ codes "/run/home"
unfolding join_path text_methods
path_test = refl

abbrev pub settings : Dict
settings =
    (codes "bin", word "bcw")
    ∷ (codes "profiles_per_instance", int (pos 3))
    ∷ (codes "workers", int (pos 2))
    ∷ (codes "protocols", texts_value (codes "http" ∷ codes "tls13" ∷ []))
    ∷ (codes "domains", texts_value (codes "a.org" ∷ []))
    ∷ (codes "dns", word "auto")
    ∷ (codes "scan_timeout", int (pos 0))
    ∷ (codes "scan_top", int (pos 5))
    ∷ (codes "check_timeout", int (pos 3))
    ∷ (codes "idle_ms", int (pos 100))
    ∷ (codes "take", int (pos 3))
    ∷ (codes "passes", int (pos 3))
    ∷ (codes "probe_path", word "/")
    ∷ (codes "identity_path", word "/r")
    ∷ (codes "queue", int (pos 200))
    ∷ []

abbrev no_file : Value
no_file = null

abbrev plan_of : Result Plan → Plan
plan_of (ok p) = p
plan_of (err e) = record { bin = word ""; queue = word ""; home = []; runs = [] }

abbrev planned : Plan
planned = plan_of (plan runtime settings (codes "/run"))

planned_test : plan runtime settings (codes "/run") ≡ ok planned
unfolding plan text_methods value_methods lookup get_or decimal
planned_test = refl

plan-IsEmbedded_example : All (IsEmbeddedRun settings) planned.runs
plan-IsEmbedded_example = plan-IsEmbedded runtime settings (codes "/run") planned planned_test

loaded-plan_total_example :
    ((r : Outcome) × (load_settings numbers [] no_file ≡ ok r)
      × (ds : List Text) × (value_at (codes "domains") null r.settings ≡ texts_value ds)
      × (p : Plan) × (plan runtime r.settings (codes "/run") ≡ ok p)
      × (map (λ (run : Run). run.domain) p.runs ≡ map (λ d. str d) ds))
    ⊎ ((is_object no_file ≡ false) × (load_settings numbers [] no_file ≡ err type_error))
loaded-plan_total_example = loaded-plan_total runtime numbers [] no_file (codes "/run")
