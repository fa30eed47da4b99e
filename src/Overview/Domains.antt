-- ===== src/Overview/Domains.antt =====
-- What the summary of the last run shows of its domains.
use web_zapret.Base.{
  some, ℕ, zero, suc, ◌≡◌, refl, ap, ◌∙◌, true, List, [], ◌∷◌, map, take, length, ok, pos,
}
use web_zapret.Text.{Text, same}
use web_zapret.Dict.{get_or, lookup}
use web_zapret.Value.{
  Value, int, str, list, dict, nil, Dict, elems, of_elems, elems-of_elems, of_pairs, pairs-of_pairs,
  truthy, or_else, as_dict,
}
use web_zapret.Harness.{Dom}
use web_zapret.Harness.Encoded.{dicts_value, dom_dict}
use web_zapret.Harness.Brief.Described.{py_len-dicts}
use web_zapret.Overview.{LastDomain, first_twelve, last_domain, last_domains}

-- What is shown of a domain: its rows are counted, and the first twelve of those that work are listed.
abbrev pub domain_of : Dom → LastDomain
domain_of d = record {
  domain = d.domain;
  block_type = d.block_type;
  scanned = int (pos d.scanned);
  checked = int (pos d.checked);
  inconclusive = d.inconclusive;
  working_count = length d.working;
  refused_count = length d.refused;
  working = dicts_value (take 12 d.working);
}

take-map : {A B : Type 0} (f : A → B) (n : ℕ) (xs : List A) → take n (map f xs) ≡ map f (take n xs)
take-map f zero xs = refl
take-map f (suc n) [] = refl
take-map f (suc n) (x ∷ xs) = ap (λ l. f x ∷ l) (take-map f n xs)

first_twelve-dicts :
    (ds : List Dict)
    → first_twelve (or_else (dicts_value ds) (list nil)) ≡ ok (dicts_value (take 12 ds))
unfolding first_twelve or_else truthy of_elems elems
first_twelve-dicts [] = refl
first_twelve-dicts (d ∷ ds) =
    ap (λ vs. ok (list (of_elems (dict (of_pairs d) ∷ vs))))
      (ap (take 11) (elems-of_elems (map (λ x. dict (of_pairs x)) ds))
        ∙ take-map (λ (x : Dict). dict (of_pairs x)) 11 ds)

last_domain-dom_dict : (d : Dom) → last_domain (dom_dict d) ≡ ok (domain_of d)
unfolding last_domain dom_dict get_or lookup same
last_domain-dom_dict d =
    rw (py_len-dicts d.working, py_len-dicts d.refused, first_twelve-dicts d.working) refl

pub last_domains-dicts :
    (ds : List Dom)
    → last_domains (map (λ d. dict (of_pairs d)) (map dom_dict ds)) ≡ ok (map domain_of ds)
unfolding last_domains as_dict
last_domains-dicts [] = refl
last_domains-dicts (d ∷ ds) =
    rw (pairs-of_pairs (dom_dict d), last_domain-dom_dict d, last_domains-dicts ds) refl

pub errors_or-texts :
    (es : List Text)
    → or_else (list (of_elems (map (λ t. str t) es))) (list nil)
      ≡ list (of_elems (map (λ t. str t) es))
unfolding or_else truthy of_elems
errors_or-texts [] = refl
errors_or-texts (e ∷ es) = refl

-- A dictionary with a key is truthy.
pub truthy-lookup :
    (key : Text) (v : Value) (d : Dict) → lookup key d ≡ some v → truthy (dict (of_pairs d)) ≡ true
unfolding truthy of_pairs lookup
truthy-lookup key v [] h = cc
truthy-lookup key v (p ∷ d) h = refl
