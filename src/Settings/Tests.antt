-- ===== src/Settings/Tests.antt =====
-- Runs of the settings, with a runtime that reads no doubles.
use web_zapret.Base.{◌≡◌, refl, Bool, true, false, [], ◌∷◌, none, Result, ok, err, type_error, pos}
use web_zapret.Text.{codes, text_methods}
use web_zapret.Text.Decimal.{read, decimal}
use web_zapret.Dict.{lookup, get_or, insert}
use web_zapret.Value.{Value, int, str, dict, of_pairs, Dict, value_methods}
use web_zapret.Schedule.{valid_hhmm}
use web_zapret.Settings.{Numbers, int_kind, settings_spec, coerce, env_defaults}
use web_zapret.Settings.Normalize.{Outcome, normalize, settings_of, load_settings}
use web_zapret.Settings.Normalize.Rules.{IsConsistent, normalize-IsConsistent}
use web_zapret.Settings.Store.{schedule_spec, normalize_schedule, save_settings}
use web_zapret.Settings.Store.Saved.{IsSaved, save_settings-IsSaved}

abbrev pub numbers : Numbers
numbers = record {
  repr = λ v. [];
  to_float = λ t. none;
  is_far = λ x v. false;
  to_int = λ v. err type_error;
  greater = λ a b. err type_error;
}

clamped_test :
    coerce numbers (int_kind 1 60) (int (pos 3)) (str (codes " +99 ")) ≡ ok (int (pos 60))
unfolding coerce text_methods value_methods read
clamped_test = refl

abbrev given : Dict
given =
    (codes "workers", str (codes "16"))
    ∷ (codes "protocols", str (codes "tls13, http quic"))
    ∷ (codes "via", str (codes "wg0"))
    ∷ []

abbrev outcome_of : Result Outcome → Outcome
outcome_of (ok r) = r
outcome_of (err e) = record { settings = []; warnings = []; errors = [] }

abbrev given_file : Value
given_file = dict (of_pairs given)

abbrev loaded : Outcome
loaded = outcome_of (settings_of numbers ((codes "BCW_QUEUE", codes "300") ∷ []) given)

abbrev base : Dict
base = env_defaults numbers ((codes "BCW_QUEUE", codes "300") ∷ []) settings_spec (codes "BCW_")

loaded_test : normalize numbers given base ≡ ok loaded
unfolding settings_of env_defaults text_methods value_methods read lookup get_or insert
loaded_test = refl

no_errors_test : loaded.errors ≡ []
unfolding settings_of env_defaults text_methods value_methods read lookup get_or insert
no_errors_test = refl

normalize-IsConsistent_example : IsConsistent numbers loaded.settings
normalize-IsConsistent_example =
    normalize-IsConsistent numbers given base loaded loaded_test no_errors_test

-- A file that holds a list of texts is read as if it were empty, but for a warning; a number is refused.
number_test : load_settings numbers [] (int (pos 5)) ≡ err type_error
unfolding load_settings value_methods
number_test = refl

abbrev bad : Dict
bad = (codes "grid", str (codes "file")) ∷ []

abbrev saved_of : Result (Dict × Outcome × Bool) → Dict × Outcome × Bool
saved_of (ok r) = r
saved_of (err e) = ([], outcome_of (err e), false)

abbrev saved : Dict × Outcome × Bool
saved = saved_of (save_settings numbers [] true bad given)

saved_test : save_settings numbers [] true bad given ≡ ok saved
unfolding save_settings env_defaults text_methods value_methods read lookup get_or insert
saved_test = refl

save_settings-IsSaved_example : IsSaved numbers [] true bad given saved
save_settings-IsSaved_example = save_settings-IsSaved numbers [] true bad given saved saved_test

abbrev weekly : Dict
weekly =
    (codes "mode", str (codes "weekly"))
    ∷ (codes "days", str (codes "mon,fri,mon"))
    ∷ (codes "interval_min", int (pos 1))
    ∷ []

abbrev schedule_base : Dict
schedule_base = env_defaults numbers [] schedule_spec (codes "BCW_SCHEDULE_")

abbrev schedule : Outcome
schedule = outcome_of (normalize_schedule numbers weekly schedule_base)

schedule_test : normalize_schedule numbers weekly schedule_base ≡ ok schedule
unfolding normalize_schedule env_defaults text_methods value_methods read lookup get_or insert
    decimal valid_hhmm
schedule_test = refl

schedule_errors_test : schedule.errors ≡ []
unfolding normalize_schedule env_defaults text_methods value_methods read lookup get_or insert
    decimal valid_hhmm
schedule_errors_test = refl
