-- ===== src/Harness/Brief/Described.antt =====
-- What `summarize` says of the result of a run.
use web_zapret.Base.{
  ℕ, zero, suc, ◌≡◌, refl, ap, ◌∙◌, List, [], ◌∷◌, ◌++◌, map, length, ok, ◌==◌, if◌then◌else◌, pos,
  length-map, arith,
}
use web_zapret.Text.{Text, codes, join, same}
use web_zapret.Text.Decimal.{decimal}
use web_zapret.Dict.{get_or, lookup}
use web_zapret.Value.{
  null, int, str, list, dict, nil, Dict, truthy, or_else, or_else-items, elems, of_elems, of_pairs,
  elems-of_elems, pairs-of_pairs, as_dict, py_str, py_len, py_int, int_text, Runtime,
}
use web_zapret.Harness.{Dom, Summary}
use web_zapret.Harness.Encoded.{dicts_value, dom_dict, result_dict}
use web_zapret.Harness.Brief.{
  or_no_domains, counted, checked_bit, note_of, domain_line, domain_lines, errors_part, summarize,
}

pub py_len-dicts : (ds : List Dict) → py_len (or_else (dicts_value ds) (list nil)) ≡ ok (length ds)
unfolding py_len or_else truthy of_elems elems
py_len-dicts [] = refl
py_len-dicts (d ∷ ds) =
    ap (λ (k : ℕ). ok (suc k))
      (ap length (elems-of_elems (map (λ x. dict (of_pairs x)) ds))
        ∙ length-map (λ (x : Dict). dict (of_pairs x)) ds)

module _ (rt : Runtime) where
  -- The line of a domain: what it is, and how many rows were scanned, checked and accepted.
  line_of : Dom → Text
  unfolding note_of
  line_of d = join (codes ", ") (
      (py_str rt.repr d.domain
        ++ (codes ": " ++ py_str rt.repr (or_else d.block_type (str (codes "?")))))
      ∷ (codes "scanned " ++ decimal d.scanned)
      ∷ ((if d.checked == 0 then [] else (codes "checked " ++ decimal d.checked) ∷ [])
          ++ (codes "working " ++ decimal (length d.working)) ∷ note_of d.inconclusive))

  abbrev errors_line : List Text → List Text
  errors_line [] = []
  errors_line (e ∷ es) = (decimal (length (e ∷ es)) ++ codes " error(s)") ∷ []

  pub brief : Summary → Text
  unfolding line_of
  brief r = or_no_domains (join (codes " | ") (map line_of r.domains ++ errors_line r.errors))

  counted-int : (l : Text) (n : ℕ) → counted rt l (int (pos n)) ≡ ok (l ++ decimal n)
  unfolding counted or_else truthy py_int int_text
  counted-int l zero = refl
  counted-int l (suc n) = ground arith

  checked_bit-int :
      (n : ℕ)
      → checked_bit rt (int (pos n))
        ≡ ok (if n == 0 then [] else (codes "checked " ++ decimal n) ∷ [])
  unfolding checked_bit truthy py_int int_text
  checked_bit-int zero = refl
  checked_bit-int (suc n) = ground arith

  domain_line-dom_dict : (d : Dom) → domain_line rt (dom_dict d) ≡ ok (line_of d)
  unfolding domain_line dom_dict line_of get_or lookup same
  domain_line-dom_dict d =
      rw
        (
          counted-int (codes "scanned ") d.scanned,
          checked_bit-int d.checked,
          py_len-dicts d.working,
        )
        refl

  domain_lines-dicts :
      (ds : List Dom)
      → domain_lines rt (map (λ d. dict (of_pairs d)) (map dom_dict ds)) ≡ ok (map line_of ds)
  unfolding domain_lines as_dict
  domain_lines-dicts [] = refl
  domain_lines-dicts (d ∷ ds) =
      rw (pairs-of_pairs (dom_dict d), domain_line-dom_dict d, domain_lines-dicts ds) refl

  errors_part-texts :
      (es : List Text) → errors_part (list (of_elems (map (λ t. str t) es))) ≡ ok (errors_line es)
  unfolding errors_part truthy of_elems py_len elems
  errors_part-texts [] = refl
  errors_part-texts (e ∷ es) =
      ap (λ (k : ℕ). ok ((decimal (suc k) ++ codes " error(s)") ∷ []))
        (ap length (elems-of_elems (map (λ t. str t) es)) ∙ length-map (λ (t : Text). str t) es)

  -- The summary of every result of a run exists, and says of each domain what it is.
  pub summarize-brief : (r : Summary) → summarize rt (result_dict r) ≡ ok (brief r)
  unfolding summarize result_dict brief get_or lookup same
  summarize-brief r =
      rw
        (
          or_else-items (of_elems (map (λ d. dict (of_pairs d)) (map dom_dict r.domains))),
          elems-of_elems (map (λ d. dict (of_pairs d)) (map dom_dict r.domains)),
          domain_lines-dicts r.domains,
          errors_part-texts r.errors,
        )
        refl

  -- The summary reads two keys of the result.
  pub summarize-same :
      (d e : Dict)
      → get_or (codes "domains") null d ≡ get_or (codes "domains") null e
      → get_or (codes "errors") null d ≡ get_or (codes "errors") null e
      → summarize rt d ≡ summarize rt e
  unfolding summarize
  summarize-same d e same_domains same_errors = rw (same_domains, same_errors) refl
