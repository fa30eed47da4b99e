-- ===== src/Settings/Normalize/Total.antt =====
-- `normalize` returns, and its settings fit the specifications.
use web_zapret.Base.{
  ℕ, ◌≡◌, refl, ap, ◌∙◌, ◌⊎◌, inl, inr, Bool, true, false, not, ◌||◌, Bool-cases, type_error, List,
  [], ◌∷◌, map, keep, All, Option, none, some, Result, ok, err, bind_total, if_both, pos, arith,
  ltb_ℤ,
}
use web_zapret.Text.{Text, codes, one_of}
use web_zapret.Dict.{lookup, get_or-found, insert}
use web_zapret.Value.{
  texts_of-texts, texts_of, as_text, truthy, or_else, pairs, elems, Value, null, str, list, dict,
  end, Fields, field, nil, int, Dict, as_list, elems-of_elems,
}
use web_zapret.Settings.{
  Numbers, csv_kind, int_kind, Spec, spec, settings_spec, protocols, texts_value, as_csv, coerce,
  env_defaults,
}
use web_zapret.Settings.Fits.{IsSpec, coerce-Fits}
use web_zapret.Settings.Fits.Defaults.{
  FitAll, IsKeyed, insert-FitAll, settings_spec-IsSpec, settings_spec-IsKeyed, env_defaults-fit,
}
use web_zapret.Settings.Normalize.{
  Outcome, Warning, value_at, fromkeys, fix_queue, is_queue, greater, clean, cross_rules,
  take_value, merge_one, merge_values, normalize, settings_of, without_values, settings_in,
  load_settings, merge_found,
}

take_value-FitAll :
    (rt : Numbers) (specs : List Spec) (s : Spec) (raw : Value) (out : Dict) (r : Result Value)
    → IsSpec s
    → IsKeyed specs s
    → coerce rt s.kind s.default raw ≡ r
    → FitAll out specs
    → FitAll (take_value rt s raw out r).0 specs
unfolding take_value
take_value-FitAll rt specs s raw out (err e) h keyed c fits = fits
take_value-FitAll rt specs s raw out (ok v) (le, fit) keyed c fits =
    insert-FitAll s v out specs keyed (coerce-Fits rt s.kind s.default raw v le fit c) fits

merge_one-FitAll :
    (rt : Numbers) (values : Dict) (specs : List Spec) (s : Spec) (out : Dict)
    → IsSpec s
    → IsKeyed specs s
    → FitAll out specs
    → FitAll (merge_one rt values s out).0 specs
unfolding merge_one merge_found
merge_one-FitAll rt values specs s out h keyed fits = go (lookup s.key values)
  where
    go : (o : Option Value) → FitAll (merge_found rt s out o).0 specs
    go none = fits
    go (some raw) =
        take_value-FitAll rt specs s raw out (coerce rt s.kind s.default raw) h keyed refl fits

pub merge_values-FitAll :
    (rt : Numbers) (values : Dict) (specs ts : List Spec) (out : Dict)
    → All IsSpec ts
    → All (λ t. IsKeyed specs t) ts
    → FitAll out specs
    → FitAll (merge_values rt values ts out).0 specs
unfolding merge_values
merge_values-FitAll rt values specs [] out h keyed fits = fits
merge_values-FitAll rt values specs (t ∷ ts) out (h, hs) (k, keyed) fits =
    merge_values-FitAll rt values specs ts (merge_one rt values t out).0 hs keyed
      (merge_one-FitAll rt values specs t out h k fits)

pub as_list-texts : (ts : List Text) → as_list (texts_value ts) ≡ ok (map (λ t. str t) ts)
unfolding as_list
as_list-texts ts = ap (λ l. ok l) (elems-of_elems (map (λ t. str t) ts))

-- The proofs about one key are found by the place of its specification.
clean-FitAll :
    (out : Dict) (ps ds : List Text)
    → FitAll out settings_spec
    → FitAll (clean out ps ds) settings_spec
unfolding clean
clean-FitAll out ps ds fits =
    insert-FitAll (spec (codes "domains") csv_kind (texts_value (codes "youtube.com" ∷ [])))
      (texts_value ds) (insert (codes "protocols") (texts_value ps) out) settings_spec
      settings_spec-IsKeyed.1.1.1.1.0 (ds, refl)
      (insert-FitAll
        (spec (codes "protocols") csv_kind (texts_value (codes "tls12" ∷ codes "tls13" ∷ [])))
        (texts_value ps) out settings_spec settings_spec-IsKeyed.1.1.1.1.1.0 (ps, refl) fits)

fix_queue-FitAll : (out : Dict) → FitAll out settings_spec → FitAll (fix_queue out) settings_spec
unfolding fix_queue
fix_queue-FitAll out fits =
    if_both (λ d. FitAll d settings_spec) (is_queue (value_at (codes "queue") null out)) fits
      (insert-FitAll (spec (codes "queue") (int_kind 1 65535) (int (pos 200))) (int (pos 200)) out
        settings_spec settings_spec-IsKeyed.1.1.1.1.1.1.1.1.1.0
        (200, refl, omega arith, omega arith) fits)

greater_total :
    (rt : Numbers) (a b : Value) (m n : ℕ)
    → a ≡ int (pos m)
    → b ≡ int (pos n)
    → greater rt a b ≡ ok (ltb_ℤ (pos n) (pos m))
unfolding greater
greater_total rt a b m n e f = rw (e, f) refl

cross_rules_total :
    (rt : Numbers) (out : Dict) (warnings : List Warning)
    → FitAll out settings_spec
    → (r : Outcome) × (cross_rules rt out warnings ≡ ok r) × FitAll r.settings settings_spec
unfolding cross_rules
cross_rules_total rt out warnings fits =
    let P = λ (r : Outcome). FitAll r.settings settings_spec in
    let (ts, e) = fits.1.1.1.1.1.0 in
    let listed = get_or-found (codes "protocols") (list nil) null (texts_value ts) out e cc in
    let cleaned =
      clean out (keep (λ p. one_of p protocols) (fromkeys ts))
        (fromkeys (as_csv rt (value_at (codes "domains") (list nil) out))) in
    let clean_fits = clean-FitAll out _ _ fits in
    let (m, workers, _, _) = clean_fits.1.1.1.1.1.1.1.0 in
    let (n, profiles, _, _) = clean_fits.1.1.1.1.1.1.1.1.0 in
    bind_total P _ _ _ (ap as_list listed ∙ as_list-texts ts) (
      bind_total P _ _ ts (texts_of-texts ts) (
        bind_total P _ _ _
          (greater_total rt (value_at (codes "workers") null cleaned)
            (value_at (codes "profiles_per_instance") null cleaned) m n workers profiles)
          (_, refl, fix_queue-FitAll cleaned clean_fits)))

pub settings_of_total :
    (rt : Numbers) (environ : List (Text × Text)) (values : Dict)
    → (r : Outcome) × (settings_of rt environ values ≡ ok r) × FitAll r.settings settings_spec
unfolding settings_of normalize
settings_of_total rt environ values =
    let base = env_defaults rt environ settings_spec (codes "BCW_") in
    cross_rules_total rt (merge_values rt values settings_spec base).0 _ (
      merge_values-FitAll rt values settings_spec settings_spec base settings_spec-IsSpec
        settings_spec-IsKeyed (env_defaults-fit rt environ (codes "BCW_")))

abbrev is_dict : Value → Bool
is_dict (dict fs) = true
is_dict v = false

-- The file holds an object, or is read as an empty one.
abbrev pub is_object : Value → Bool
is_object v = not (truthy v) || is_dict v

-- The settings are loaded and fit, or a test fails and a `TypeError` is raised.
abbrev Loads : Bool → Result Outcome → Type 0
Loads object call =
    ((r : Outcome) × (call ≡ ok r) × FitAll r.settings settings_spec)
    ⊎ ((object ≡ false) × (call ≡ err type_error))

without_values-Loads :
    (rt : Numbers) (environ : List (Text × Text)) (has_key : Bool) (ts : List Text)
    → Loads false
        (without_values rt (env_defaults rt environ settings_spec (codes "BCW_")) has_key ts)
unfolding without_values
without_values-Loads rt environ has_key ts = if_both (Loads false) has_key (inr (refl, refl)) (
    inl (
      cross_rules_total rt (env_defaults rt environ settings_spec (codes "BCW_")) _
        (env_defaults-fit rt environ (codes "BCW_"))))

texts_of_cases :
    (vs : List Value) → ((ts : List Text) × (texts_of vs ≡ ok ts)) ⊎ (texts_of vs ≡ err type_error)
unfolding texts_of as_text
texts_of_cases [] = inl ([], refl)
texts_of_cases (str t ∷ vs) = elim (texts_of_cases vs) [
  | inl rest ↦ inl (t ∷ rest.0, rw rest.1 refl)
  | inr e ↦ inr (rw e refl)
]
texts_of_cases (v ∷ vs) = inr refl

settings_in-Loads :
    (rt : Numbers) (environ : List (Text × Text)) (v : Value)
    → Loads (is_dict v) (settings_in rt environ v)
unfolding settings_in
settings_in-Loads rt environ (dict fs) = inl (settings_of_total rt environ (pairs fs))
settings_in-Loads rt environ (str t) = without_values-Loads rt environ _ (map (λ c. c ∷ []) t)
settings_in-Loads rt environ (list vs) = elim (texts_of_cases (elems vs)) [
  | inl (ts, e) ↦ rw e (without_values-Loads rt environ _ ts)
  | inr e ↦ inr (refl, rw e refl)
]
settings_in-Loads rt environ v = inr (refl, refl)

pub load_settings_total :
    (rt : Numbers) (environ : List (Text × Text)) (stored : Value)
    → ((r : Outcome) × (load_settings rt environ stored ≡ ok r) × FitAll r.settings settings_spec)
      ⊎ ((is_object stored ≡ false) × (load_settings rt environ stored ≡ err type_error))
unfolding load_settings settings_in or_else
load_settings_total rt environ stored = elim (Bool-cases (truthy stored)) [
  | inl set ↦ rw set (settings_in-Loads rt environ stored)
  | inr unset ↦ rw unset (inl (settings_of_total rt environ (pairs end)))
]

-- A file that holds an object.
pub load_settings-dict :
    (rt : Numbers) (environ : List (Text × Text)) (fs : Fields)
    → load_settings rt environ (dict fs) ≡ settings_of rt environ (pairs fs)
unfolding load_settings settings_in or_else truthy
load_settings-dict rt environ end = refl
load_settings-dict rt environ (field k v fs) = refl
