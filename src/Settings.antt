-- ===== src/Settings.antt =====
-- The settings of src/blockcheck.py: the coercion of one value by its specification (`as_bool`, `as_int`,
-- `as_float`, `as_csv`, `coerce`), and `env_defaults`. A value's kind carries its bounds or its choices.
pub mod Floats
pub mod Fits
pub mod Normalize
pub mod Store
pub mod Tests
use web_zapret.Base.{
  ℕ, zero, suc, ◌+◌, ◌*◌, ◌^◌, Bool, true, false, not, ◌&&◌, ◌||◌, List, [], ◌∷◌, ◌++◌, map, keep,
  all, max, min, Option, none, some, ltb, leb, ◌==◌, Result, ok, err, value_error, value_error_repr,
  Exc, ◌>>=◌, if◌then◌else◌, ℤ, pos, negsuc, ltb_ℤ,
}
use web_zapret.Text.{Text, codes, one_of, starts_with, strip, lower, upper, is_space, push}
use web_zapret.Text.Decimal.{read}
use web_zapret.Dict.{lookup, get_or, insert}
use web_zapret.Value.{
  Float, ratio, infinity, nan, Value, null, bool, int, float, str, list, dict, Dict, elems,
  of_elems, truthy, or_else, py_str,
}

-- What the settings leave to the Python runtime: the print of floats and containers, `float(text)` (none
-- is a `ValueError`), the test `abs(a - float(v)) > 1e-9` of a double against a coerced number, `int(v)`,
-- and `a > b` of values that are not both integers.
pub record Numbers : Type 0 where
  pub repr : Value → Text
  pub to_float : Text → Option Float
  pub is_far : Float → Value → Bool
  pub to_int : Value → Result ℤ
  pub greater : Value → Value → Result Bool

pub data Kind : Type 0 where
  bool_kind csv_kind str_kind : Kind
  int_kind : ℕ → ℕ → Kind
  float_kind : Float → Float → Kind
  enum_kind : List Text → Kind

-- `_spec(kind, default, lo, hi, choices)`
pub record Spec : Type 0 where
  pub key : Text
  pub kind : Kind
  pub default : Value

abbrev pub spec : Text → Kind → Value → Spec
spec key kind default = record { key = key; kind = kind; default = default }

abbrev pub protocols : List Text
protocols = codes "http" ∷ codes "tls12" ∷ codes "tls13" ∷ []

abbrev pub zero_float : Float
zero_float = ratio false 0 0

abbrev pub texts_value : List Text → Value
texts_value ts = list (of_elems (map (λ t. str t) ts))

abbrev pub settings_spec : List Spec
settings_spec =
    spec (codes "enabled") bool_kind (bool true)
    ∷ spec (codes "bin") str_kind (str (codes "/opt/webzapret/bin/blockcheckw"))
    ∷ spec (codes "grid") (enum_kind (codes "corpus" ∷ codes "file" ∷ [])) (str (codes "corpus"))
    ∷ spec (codes "grid_file") str_kind (str [])
    ∷ spec (codes "domains") csv_kind (texts_value (codes "youtube.com" ∷ []))
    ∷ spec (codes "protocols") csv_kind (texts_value (codes "tls12" ∷ codes "tls13" ∷ []))
    ∷ spec (codes "dns") (enum_kind (codes "auto" ∷ codes "system" ∷ codes "doh" ∷ []))
        (str (codes "auto"))
    ∷ spec (codes "workers") (int_kind 1 2048) (int (pos 64))
    ∷ spec (codes "profiles_per_instance") (int_kind 1 65535) (int (pos 1024))
    ∷ spec (codes "queue") (int_kind 1 65535) (int (pos 200))
    ∷ spec (codes "via") str_kind (str [])
    ∷ spec (codes "alive_via") str_kind (str [])
    ∷ spec (codes "scan_timeout") (int_kind 0 3600) (int (pos 0))
    ∷ spec (codes "scan_top") (int_kind 0 1000) (int (pos 5))
    ∷ spec (codes "passes") (int_kind 0 10) (int (pos 3))
    ∷ spec (codes "take") (int_kind 0 1000) (int (pos 3))
    ∷ spec (codes "check_timeout") (int_kind 1 60) (int (pos 3))
    ∷ spec (codes "idle_ms") (int_kind 100 60000) (int (pos 1000))
    ∷ spec (codes "probe_path") str_kind (str (codes "/"))
    ∷ spec (codes "identity_path") str_kind (str (codes "/robots.txt"))
    ∷ spec (codes "reference_via") str_kind (str [])
    ∷ spec (codes "min_share") (float_kind zero_float (ratio false 10 0)) (float zero_float)
    ∷ spec (codes "exclude_mirage") bool_kind (bool true)
    ∷ spec (codes "max_import") (int_kind 0 100) (int (pos 5))
    ∷ spec (codes "import_prefix") str_kind (str (codes "bcw"))
    ∷ spec (codes "auto_import") bool_kind (bool false)
    ∷ spec (codes "auto_apply") bool_kind (bool false)
    ∷ spec (codes "job_timeout") (int_kind 60 14400) (int (pos 3600))
    ∷ spec (codes "log_lines") (int_kind 50 5000) (int (pos 400))
    ∷ spec (codes "raise_limits") bool_kind (bool true)
    ∷ spec (codes "nf_queue_maxlen") (int_kind 1024 1048576) (int (pos 65536))
    ∷ spec (codes "nf_conntrack_max") (int_kind 4096 4194304) (int (pos 131072))
    ∷ []

abbrev true_words : List Text
true_words = codes "1" ∷ codes "true" ∷ codes "yes" ∷ codes "on" ∷ codes "enabled" ∷ codes "y" ∷ []

abbrev false_words : List Text
false_words =
    codes "0" ∷ codes "false" ∷ codes "no" ∷ codes "off" ∷ codes "disabled" ∷ codes "n" ∷ [] ∷ []

is_digit : ℕ → Bool
is_digit c = leb b'0' c && leb c b'9'

-- `\d+`
is_number : Text → Bool
unfolding is_digit
is_number [] = false
is_number (c ∷ s) = all is_digit (c ∷ s)

-- `-n`
negated : ℕ → ℤ
negated zero = pos 0
negated (suc n) = negsuc n

abbrev not_a_number : {A : Type 0} → Text → Result A
not_a_number shown = err (value_error (codes "not a number: " ++ shown))

-- `int(text)` of a text that `[+-]?\d+` matches
parse_int : Text → Option ℤ
unfolding is_number negated
parse_int [] = none
parse_int (c ∷ s) =
    if c == b'-'
    then (if is_number s then some (negated (read 0 s)) else none)
    else if c == b'+'
    then (if is_number s then some (pos (read 0 s)) else none)
    else if is_number (c ∷ s)
    then some (pos (read 0 (c ∷ s)))
    else none

-- `min(hi, max(lo, number))`
clamp : ℕ → ℕ → ℤ → ℕ
clamp lo hi (pos n) = min hi (max lo n)
clamp lo hi (negsuc n) = min hi lo

-- the whole number whose quotient by a power of two is the float
pub signed : Bool → ℕ → ℤ
unfolding negated
signed true m = negated m
signed false m = pos m

-- `a < b` of two doubles
unfoldable pub ltb_float : Float → Float → Bool
unfolding signed
ltb_float nan b = false
ltb_float (infinity s) nan = false
ltb_float (ratio s m k) nan = false
ltb_float (infinity s) (infinity t) = s && not t
ltb_float (infinity s) (ratio t n j) = s
ltb_float (ratio s m k) (infinity t) = not t
ltb_float (ratio s m k) (ratio t n j) = ltb_ℤ (signed s (m * 2 ^ j)) (signed t (n * 2 ^ k))

-- `min(hi, max(lo, number))`: the first argument stays where the comparison is false
clamp_float : Float → Float → Float → Float
unfolding ltb_float
clamp_float lo hi x =
    let raised = if ltb_float lo x then x else lo in if ltb_float raised hi then raised else hi

-- `re.split(r"[,\s]+", text)`, with empty pieces between separators that follow each other; they are
-- dropped by the caller, as those at the ends are.
pieces : Text → List Text
pieces [] = [] ∷ []
pieces (c ∷ s) = let rest = pieces s in if c == b',' || is_space c then [] ∷ rest else push c rest

pub is_given : Text → Bool
is_given [] = false
is_given (_ ∷ _) = true

module _ (rt : Numbers) where
  -- `as_bool(value, default)`
  pub as_bool : Value → Value → Value
  as_bool (bool b) default = bool b
  as_bool null default = default
  as_bool value default =
      let text = lower (strip (py_str rt.repr value)) in
      if one_of text true_words
      then bool true
      else if one_of text false_words
      then bool false
      else default

  as_int_of : ℕ → ℕ → Value → Option ℤ → Result Value
  unfolding clamp
  as_int_of lo hi value none = not_a_number (rt.repr value)
  as_int_of lo hi value (some n) = ok (int (pos (clamp lo hi n)))

  -- `as_int(value, default, lo, hi)`
  pub as_int : Value → ℕ → ℕ → Result Value
  unfolding as_int_of parse_int
  as_int (bool b) lo hi = not_a_number (rt.repr (bool b))
  as_int value lo hi = as_int_of lo hi value (parse_int (strip (py_str rt.repr value)))

  as_float_of : Float → Float → Value → Option Float → Result Value
  unfolding clamp_float
  as_float_of lo hi value none = not_a_number (rt.repr value)
  as_float_of lo hi value (some x) = ok (float (clamp_float lo hi x))

  -- `as_float(value, default, lo, hi)`
  pub as_float : Value → Float → Float → Result Value
  unfolding as_float_of
  as_float (bool b) lo hi = not_a_number (rt.repr (bool b))
  as_float value lo hi = as_float_of lo hi value (rt.to_float (strip (py_str rt.repr value)))

  -- `as_csv(value)`
  pub as_csv : Value → List Text
  unfolding pieces is_given elems
  as_csv (list vs) = keep is_given (map (λ v. strip (py_str rt.repr v)) (elems vs))
  as_csv value = keep is_given (map strip (pieces (py_str rt.repr (or_else value (str [])))))

  -- `coerce(kind, raw, spec)`
  unfoldable pub coerce : Kind → Value → Value → Result Value
  unfolding as_bool as_int as_float as_csv
  coerce bool_kind default raw = ok (as_bool raw default)
  coerce (int_kind lo hi) default raw = as_int raw lo hi
  coerce (float_kind lo hi) default raw = as_float raw lo hi
  coerce csv_kind default null = ok default
  coerce csv_kind default raw = ok (texts_value (as_csv raw))
  coerce (enum_kind choices) default null = ok (if one_of [] choices then str [] else default)
  coerce (enum_kind choices) default raw =
      let text = lower (strip (py_str rt.repr raw)) in
      ok (if one_of text choices then str text else default)
  coerce str_kind default null = ok (str (strip (py_str rt.repr default)))
  coerce str_kind default raw = ok (str (strip (py_str rt.repr raw)))

  -- One value of `env_defaults`; `coerce` raises nothing but `ValueError`.
  or_default : Value → Result Value → Value
  or_default default (ok v) = v
  or_default default (err e) = default

  pub env_of : Spec → Option Text → Value
  unfolding coerce or_default
  env_of s none = s.default
  env_of s (some raw) = or_default s.default (coerce s.kind s.default (str raw))

  env_value : List (Text × Text) → Text → Spec → Value
  unfolding env_of
  env_value environ prefix s = env_of s (lookup (prefix ++ upper s.key) environ)

  -- `env_defaults(environ, spec, prefix)`
  unfoldable pub env_defaults : List (Text × Text) → List Spec → Text → Dict
  unfolding env_value
  env_defaults environ [] prefix = []
  env_defaults environ (s ∷ specs) prefix =
      (s.key, env_value environ prefix s) ∷ env_defaults environ specs prefix
