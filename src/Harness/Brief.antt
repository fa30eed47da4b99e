-- ===== src/Harness/Brief.antt =====
-- `summarize` of src/blockcheck.py, on a result that was read from JSON.
pub mod Described
use web_zapret.Base.{ℕ, Bool, List, [], ◌∷◌, ◌++◌, Result, ok, ◌>>=◌, if◌then◌else◌, ℤ, pos}
use web_zapret.Text.{Text, codes, join}
use web_zapret.Text.Decimal.{decimal}
use web_zapret.Dict.{get_or}
use web_zapret.Value.{
  Value, null, int, str, list, nil, Dict, truthy, or_else, as_list, as_dict, py_str, py_len, py_int,
  int_text, Runtime,
}

-- `" | ".join(parts) or "no domains"`
or_no_domains : Text → Text
or_no_domains [] = codes "no domains"
or_no_domains (c ∷ s) = c ∷ s

-- the note of a domain that was not blocked; the dash is the source's
note_of : Value → List Text
note_of v =
    if truthy v
    then (codes "CONTROL PASSED " ++ 0x2014 ∷ codes " domain is not blocked") ∷ []
    else []

-- `if result.get("errors"): …`
errors_part : Value → Result (List Text)
errors_part v =
    if truthy v then (py_len v >>= λ n. ok ((decimal n ++ codes " error(s)") ∷ [])) else ok []

module _ (rt : Runtime) where
  -- `"… %d" % int(v)` of a value with a default of 0
  counted : Text → Value → Result Text
  counted label v = py_int rt (or_else v (int (pos 0))) >>= λ n. ok (label ++ int_text n)

  -- `if dom.get("checked"): …`
  checked_bit : Value → Result (List Text)
  checked_bit v =
      if truthy v then (py_int rt v >>= λ n. ok ((codes "checked " ++ int_text n) ∷ [])) else ok []

  -- one round of the loop
  domain_line : Dict → Result Text
  unfolding counted checked_bit note_of
  domain_line dom = do
    scanned ← counted (codes "scanned ") (get_or (codes "scanned") null dom)
    checked ← checked_bit (get_or (codes "checked") null dom)
    working ← py_len (or_else (get_or (codes "working") null dom) (list nil))
    let head =
        py_str rt.repr (get_or (codes "domain") null dom)
        ++ (codes ": "
            ++ py_str rt.repr (or_else (get_or (codes "block_type") null dom) (str (codes "?"))))
    ok (
        join (codes ", ") (
          head
          ∷ scanned
          ∷ (checked
              ++ (codes "working " ++ decimal working)
                ∷ note_of (get_or (codes "inconclusive") null dom))))

  domain_lines : List Value → Result (List Text)
  unfolding domain_line
  domain_lines [] = ok []
  domain_lines (v ∷ vs) = do
    dom ← as_dict v
    line ← domain_line dom
    rest ← domain_lines vs
    ok (line ∷ rest)

  -- `summarize(result)`
  unfoldable pub summarize : Dict → Result Text
  unfolding domain_lines errors_part or_no_domains
  summarize result = do
    doms ← as_list (or_else (get_or (codes "domains") null result) (list nil))
    lines ← domain_lines doms
    errors ← errors_part (get_or (codes "errors") null result)
    ok (or_no_domains (join (codes " | ") (lines ++ errors)))
