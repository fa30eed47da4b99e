-- ===== src/Settings/Fits.antt =====
-- What kind of value `coerce` and `env_defaults` produce for a setting.
pub mod Defaults
use web_zapret.Base.{
  ℕ, suc, ◌≤◌, ◌≡◌, refl, sym, ap, ◌∙◌, subst, Bool, true, false, not, ◌&&◌, List, [], ◌∷◌, ◌++◌,
  map, keep, all, All, max, min, Option, none, some, Result, ok, err, ok_inj, if◌then◌else◌,
  if_both, if_each, Bool-cases, ℤ, pos, negsuc, arith, leb, any,
}
use web_zapret.Text.{Text, codes, same, one_of, strip, lower, upper}
use web_zapret.Text.Laws.{same_iff, same_refl}
use web_zapret.Dict.{lookup, get_or, insert, get_or-insert, get_or-head, get_or-tail}
use web_zapret.Value.{Float, Value, null, bool, int, float, str, list, dict, Dict, py_str}
use web_zapret.Settings.{
  Numbers, Kind, bool_kind, csv_kind, str_kind, int_kind, float_kind, enum_kind, Spec,
  settings_spec, zero_float, texts_value, true_words, false_words, clamp, clamp_float, parse_int,
  as_bool, as_int, as_int_of, as_float, as_float_of, as_csv, coerce, or_default, env_of, env_value,
  env_defaults,
}

-- A value of the kind: an integer between the bounds, one of the choices, a list of texts, …
abbrev pub Fits : Kind → Value → Type 0
Fits bool_kind v = (b : Bool) × (v ≡ bool b)
Fits csv_kind v = (ts : List Text) × (v ≡ texts_value ts)
Fits str_kind v = (t : Text) × (v ≡ str t)
Fits (int_kind lo hi) v = (n : ℕ) × (v ≡ int (pos n)) × (lo ≤ n) × (n ≤ hi)
Fits (float_kind lo hi) v = (x : Float) × (v ≡ float x)
Fits (enum_kind choices) v = (t : Text) × (v ≡ str t) × (one_of t choices ≡ true)

-- The bounds of a kind are in order.
abbrev pub IsBounded : Kind → Type 0
IsBounded (int_kind lo hi) = lo ≤ hi
IsBounded _ = Unit

abbrev pub IsSpec : Spec → Type 0
IsSpec s = IsBounded s.kind × Fits s.kind s.default

clamp-bounds : (lo hi : ℕ) (n : ℤ) → lo ≤ hi → (lo ≤ clamp lo hi n) × (clamp lo hi n ≤ hi)
unfolding clamp
clamp-bounds lo hi (pos n) h = (omega arith, omega arith)
clamp-bounds lo hi (negsuc n) h = (omega arith, omega arith)

as_bool-Fits :
    (rt : Numbers) (raw default : Value)
    → Fits bool_kind default
    → Fits bool_kind (as_bool rt raw default)
unfolding as_bool
as_bool-Fits rt (bool b) default fit = (b, refl)
as_bool-Fits rt null default fit = fit
as_bool-Fits rt raw default fit =
    let text = lower (strip (py_str rt.repr raw)) in
    if_both (Fits bool_kind) (one_of text true_words) (true, refl)
      (if_both (Fits bool_kind) (one_of text false_words) (false, refl) fit)

as_int_of-Fits :
    (rt : Numbers) (lo hi : ℕ) (raw : Value) (o : Option ℤ) (v : Value)
    → lo ≤ hi
    → as_int_of rt lo hi raw o ≡ ok v
    → Fits (int_kind lo hi) v
unfolding as_int_of
as_int_of-Fits rt lo hi raw none v le h = cc
as_int_of-Fits rt lo hi raw (some n) v le h =
    let (above, below) = clamp-bounds lo hi n le in (clamp lo hi n, sym (ok_inj h), above, below)

as_int-Fits :
    (rt : Numbers) (raw : Value) (lo hi : ℕ) (v : Value)
    → lo ≤ hi
    → as_int rt raw lo hi ≡ ok v
    → Fits (int_kind lo hi) v
unfolding as_int
as_int-Fits rt (bool b) lo hi v le h = cc
as_int-Fits rt raw lo hi v le h =
    as_int_of-Fits rt lo hi raw (parse_int (strip (py_str rt.repr raw))) v le h

as_float-Fits :
    (rt : Numbers) (raw : Value) (lo hi : Float) (v : Value)
    → as_float rt raw lo hi ≡ ok v
    → Fits (float_kind lo hi) v
unfolding as_float as_float_of
as_float-Fits rt (bool b) lo hi v h = cc
as_float-Fits rt raw lo hi v h = go (rt.to_float (strip (py_str rt.repr raw))) h
  where
    go : (o : Option Float) → as_float_of rt lo hi raw o ≡ ok v → Fits (float_kind lo hi) v
    go none h = cc
    go (some x) h = (clamp_float lo hi x, sym (ok_inj h))

enum-Fits :
    (choices : List Text) (text : Text) (default : Value)
    → Fits (enum_kind choices) default
    → Fits (enum_kind choices) (if one_of text choices then str text else default)
enum-Fits choices text default fit =
    if_each (Fits (enum_kind choices)) (one_of text choices) (λ e. (text, refl, e)) (λ _. fit)

-- If the bounds of a kind are in order and the default fits the kind, a value that `coerce` returns fits
-- it too, whatever is given: it never leaves the bounds or the choices.
pub coerce-Fits :
    (rt : Numbers) (kind : Kind) (default raw v : Value)
    → IsBounded kind
    → Fits kind default
    → coerce rt kind default raw ≡ ok v
    → Fits kind v
unfolding coerce
coerce-Fits rt bool_kind default raw v le fit h =
    subst (Fits bool_kind) (ok_inj h) (as_bool-Fits rt raw default fit)
coerce-Fits rt (int_kind lo hi) default raw v le fit h = as_int-Fits rt raw lo hi v le h
coerce-Fits rt (float_kind lo hi) default raw v le fit h = as_float-Fits rt raw lo hi v h
coerce-Fits rt csv_kind default null v le fit h = subst (Fits csv_kind) (ok_inj h) fit
coerce-Fits rt csv_kind default raw v le fit h = (as_csv rt raw, sym (ok_inj h))
coerce-Fits rt (enum_kind choices) default null v le fit h =
    subst (Fits (enum_kind choices)) (ok_inj h) (enum-Fits choices [] default fit)
coerce-Fits rt (enum_kind choices) default raw v le fit h =
    subst (Fits (enum_kind choices)) (ok_inj h)
      (enum-Fits choices (lower (strip (py_str rt.repr raw))) default fit)
coerce-Fits rt str_kind default null v le fit h = (strip (py_str rt.repr default), sym (ok_inj h))
coerce-Fits rt str_kind default raw v le fit h = (strip (py_str rt.repr raw), sym (ok_inj h))

or_default-Fits :
    (rt : Numbers) (s : Spec) (raw : Text) (r : Result Value)
    → IsSpec s
    → coerce rt s.kind s.default (str raw) ≡ r
    → Fits s.kind (or_default rt s.default r)
unfolding or_default
or_default-Fits rt s raw (err e) (le, fit) h = fit
or_default-Fits rt s raw (ok v) (le, fit) h = coerce-Fits rt s.kind s.default (str raw) v le fit h

pub env_of-Fits :
    (rt : Numbers) (s : Spec) (o : Option Text) → IsSpec s → Fits s.kind (env_of rt s o)
unfolding env_of
env_of-Fits rt s none (le, fit) = fit
env_of-Fits rt s (some raw) h =
    or_default-Fits rt s raw (coerce rt s.kind s.default (str raw)) h refl
