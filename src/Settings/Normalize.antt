-- ===== src/Settings/Normalize.antt =====
-- `normalize` of src/blockcheck.py. A warning or an error is a constructor that stands for its message.
pub mod Rules
pub mod Total
use web_zapret.Base.{
  ℕ, Bool, true, false, not, ◌&&◌, ◌||◌, List, [], ◌∷◌, ◌++◌, map, keep, any, all, length, leb,
  Option, none, some, ◌==◌, Result, ok, err, Exc, type_error, ◌>>=◌, if◌then◌else◌, pos, ltb_ℤ, ◌*◌,
  ◌^◌,
}
use web_zapret.Text.{Text, codes, same, one_of, starts_with, strip, contains}
use web_zapret.Dict.{lookup, get_or, insert}
use web_zapret.Value.{
  Float, ratio, Value, null, int, float, str, list, nil, dict, end, Dict, pairs, elems, or_else,
  truthy, as_list, texts_of, py_str,
}
use web_zapret.Settings.{
  Numbers, Kind, int_kind, float_kind, Spec, settings_spec, protocols, texts_value, as_csv, coerce,
  env_defaults, is_given,
}

pub data Warning : Type 0 where
  kept : Text → Exc → Warning
  clamped : Text → Value → Value → Warning
  unknown_settings : List Text → Warning
  unknown_protocols : List Text → Warning
  fixed_queue : Value → Warning
  unknown_days : Warning

pub data Problem : Type 0 where
  no_protocol : Problem
  bad_domain : Text → Problem
  no_domain : Problem
  no_grid_file : Problem
  two_gateways : Problem
  not_absolute : Text → Problem
  too_many_workers : Problem
  bad_time : Problem

-- What `normalize` returns.
pub record Outcome : Type 0 where
  pub settings : Dict
  pub warnings : List Warning
  pub errors : List Problem

abbrev pub value_at : Text → Value → Dict → Value
value_at k v d = get_or k v d

abbrev pub report {ℓ} : {A : Type ℓ} → Bool → A → List A
report b x = if b then x ∷ [] else []

abbrev pub is_empty {ℓ} : {A : Type ℓ} → List A → Bool
is_empty [] = true
is_empty (_ ∷ _) = false

-- `list(dict.fromkeys(xs))`
unfoldable pub fromkeys : List Text → List Text
fromkeys [] = []
fromkeys (x ∷ xs) = x ∷ keep (λ y. not (same x y)) (fromkeys xs)

-- `[A-Za-z0-9._:-]`
is_domain_char : ℕ → Bool
is_domain_char c =
    (leb b'a' c && leb c b'z')
    || (leb b'A' c && leb c b'Z')
    || (leb b'0' c && leb c b'9')
    || c == b'.'
    || c == b'_'
    || c == b':'
    || c == b'-'

-- `re.fullmatch(r"[A-Za-z0-9._:-]{1,253}", domain)`
pub is_domain : Text → Bool
unfolding is_domain_char
is_domain d = is_given d && leb (length d) 253 && all is_domain_char d

-- a value that is a text, against a text
unfoldable pub is_word : Value → Text → Bool
is_word (str s) t = same s t
is_word v t = false

-- `v == 200`
unfoldable pub is_queue : Value → Bool
is_queue (int (pos n)) = n == 200
is_queue (float (ratio false m k)) = m == 200 * 2 ^ k
is_queue v = false

fix_queue : Dict → Dict
unfolding is_queue
fix_queue out =
    if is_queue (value_at (codes "queue") null out)
    then out
    else insert (codes "queue") (int (pos 200)) out

-- the two lists, cleaned and stored
clean : Dict → List Text → List Text → Dict
clean out ps ds =
    insert (codes "domains") (texts_value ds) (insert (codes "protocols") (texts_value ps) out)

module _ (rt : Numbers) where
  drift : Text → Value → Value → Option Float → List Warning
  drift key raw v none = []
  drift key raw v (some x) = report (rt.is_far x v) (clamped key raw v)

  -- `_clamp_warning(key, raw, value, spec)`, for the two kinds that ask for it
  clamp_warning : Kind → Text → Value → Value → List Warning
  unfolding drift
  clamp_warning (int_kind _ _) key raw v =
      drift key raw v (rt.to_float (strip (py_str rt.repr raw)))
  clamp_warning (float_kind _ _) key raw v =
      drift key raw v (rt.to_float (strip (py_str rt.repr raw)))
  clamp_warning _ key raw v = []

  -- one round of the loop over the specifications, on a value that was given
  take_value : Spec → Value → Dict → Result Value → Dict × List Warning
  unfolding clamp_warning
  take_value s raw out (err e) = (out, kept s.key e ∷ [])
  take_value s raw out (ok v) = (insert s.key v out, clamp_warning s.kind s.key raw v)

  merge_found : Spec → Dict → Option Value → Dict × List Warning
  unfolding take_value
  merge_found s out none = (out, [])
  merge_found s out (some raw) = take_value s raw out (coerce rt s.kind s.default raw)

  -- one round, whose value is skipped if it is not given
  merge_one : Dict → Spec → Dict → Dict × List Warning
  unfolding merge_found
  merge_one values s out = merge_found s out (lookup s.key values)

  -- the loop of `normalize`
  unfoldable pub merge_values : Dict → List Spec → Dict → Dict × List Warning
  unfolding merge_one
  merge_values values [] out = (out, [])
  merge_values values (s ∷ specs) out =
      let (next, warned) = merge_one values s out in
      let (last, more) = merge_values values specs next in (last, warned ++ more)

  -- `a > b`
  pub greater : Value → Value → Result Bool
  greater (int a) (int b) = ok (ltb_ℤ b a)
  greater a b = rt.greater a b

  -- `str(out.get(key, "")).startswith("/")`
  pub is_absolute : Text → Dict → Bool
  is_absolute key out = starts_with (py_str rt.repr (value_at key (str []) out)) (codes "/")

  -- the errors of the cross-field rules, the lists of protocols and domains being cleaned
  rule_errors : Dict → List Text → List Text → Bool → List Problem
  unfolding is_domain is_word is_absolute
  rule_errors out ps ds crowded =
      report (is_empty ps) no_protocol
      ++ (map (λ d. bad_domain d) (keep (λ d. not (is_domain d)) ds)
          ++ (report (is_empty ds) no_domain
              ++ (report
                    (is_word (value_at (codes "grid") null out) (codes "file")
                      && not (truthy (value_at (codes "grid_file") null out)))
                    no_grid_file
                  ++ (report
                        (truthy (value_at (codes "via") null out)
                          && truthy (value_at (codes "reference_via") null out))
                        two_gateways
                      ++ (report (not (is_absolute (codes "probe_path") out))
                            (not_absolute (codes "probe_path"))
                          ++ (report (not (is_absolute (codes "identity_path") out))
                                (not_absolute (codes "identity_path"))
                              ++ report crowded too_many_workers))))))

  -- the cross-field rules of `normalize`
  pub cross_rules : Dict → List Warning → Result Outcome
  unfolding texts_of fromkeys greater rule_errors fix_queue clean
  cross_rules out warnings = do
    values ← as_list (value_at (codes "protocols") (list nil) out)
    given ← texts_of values
    let ps = keep (λ p. one_of p protocols) (fromkeys given)
    let bad = keep (λ p. not (one_of p protocols)) given
    let ds = fromkeys (as_csv rt (value_at (codes "domains") (list nil) out))
    let cleaned = clean out ps ds
    let queue = value_at (codes "queue") null cleaned
    crowded ←
        greater (value_at (codes "workers") null cleaned)
          (value_at (codes "profiles_per_instance") null cleaned)
    ok (record {
      settings = fix_queue cleaned;
      warnings =
          warnings
          ++ (report (not (is_empty bad)) (unknown_protocols bad)
              ++ report (not (is_queue queue)) (fixed_queue queue));
      errors = rule_errors cleaned ps ds crowded;
    })

  -- `normalize(values, base)` of the full specification
  unfoldable pub normalize : Dict → Dict → Result Outcome
  unfolding merge_values cross_rules
  normalize values base =
      let (out, warned) = merge_values values settings_spec base in
      let unknown =
        keep (λ k. not (one_of k (map (λ (s : Spec). s.key) settings_spec)))
          (map (λ p. p.0) values) in
      cross_rules out (warned ++ report (not (is_empty unknown)) (unknown_settings unknown))

  -- `normalize(values, defaults)`, on the defaults of the environment
  unfoldable pub settings_of : List (Text × Text) → Dict → Result Outcome
  unfolding normalize
  settings_of environ values =
      normalize values (env_defaults rt environ settings_spec (codes "BCW_"))

  -- `normalize` of texts that are no object: a key among them is subscripted, which raises, and the others
  -- are unknown.
  without_values : Dict → Bool → List Text → Result Outcome
  unfolding cross_rules
  without_values base has_key texts =
      if has_key
      then err type_error
      else cross_rules base (report (not (is_empty texts)) (unknown_settings texts))

  -- `normalize` of any value that is not falsy: the tests `key in values` of a list and of a text, which
  -- finds parts of it, pass or raise; any other value has no elements.
  pub settings_in : List (Text × Text) → Value → Result Outcome
  unfolding settings_of without_values
  settings_in environ (dict fs) = settings_of environ (pairs fs)
  settings_in environ (list vs) = texts_of (elems vs) >>= λ ts.
      without_values (env_defaults rt environ settings_spec (codes "BCW_"))
        (any (λ (s : Spec). one_of s.key ts) settings_spec) ts
  settings_in environ (str t) =
      without_values (env_defaults rt environ settings_spec (codes "BCW_"))
        (any (λ (s : Spec). contains t s.key) settings_spec) (map (λ c. c ∷ []) t)
  settings_in environ v = err type_error

  -- `load_settings`: the value of the panel's file over the defaults of the environment; a file that is
  -- missing or broken is read as an empty object
  unfoldable pub load_settings : List (Text × Text) → Value → Result Outcome
  unfolding settings_in
  load_settings environ stored = settings_in environ (or_else stored (dict end))
