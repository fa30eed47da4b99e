-- ===== src/Upload.antt =====
-- `import_strategy_from_json` of src/panel/panel.py, on the catalog file's value.
pub mod Stored
pub mod Ranked
pub mod Appended
pub mod Tests
use web_zapret.Base.{
  ℕ, suc, ◌+◌, Bool, true, false, not, ◌&&◌, ◌||◌, List, [], ◌∷◌, ◌++◌, map, keep, any, take, leb,
  Option, none, some, Result, ok, err, type_error, value_error, ◌>>=◌, ◌==◌, if◌then◌else◌, ℤ, pos,
}
use web_zapret.Text.{Text, codes, same, starts_with, contains, lower, strip}
use web_zapret.Text.Decimal.{decimal}
use web_zapret.Text.Shlex.{shlex_split}
use web_zapret.Dict.{lookup, get_or, insert}
use web_zapret.Value.{
  Value, null, bool, int, str, list, dict, nil, Dict, pairs, of_pairs, of_elems, truthy, as_text,
  as_list, as_dict, py_str, int_text, Runtime, py_int,
}
use web_zapret.Catalog.{is_slug_char, candidate}
use web_zapret.Catalog.Stored.{dicts}
use web_zapret.Deletion.{stays, strategies_of, store}

-- The key of the sort: the negated success rate, and the latency.
abbrev pub Key : Type 0
Key = Value × Value

-- What the import asks of the runtime.
pub record Host : Type 0 where
  pub runtime : Runtime
  -- `-v`
  pub negate : Value → Result Value
  -- `a < b` of two keys
  pub less : Key → Key → Result Bool
  -- `"%.1f%%" % (v * 100)`
  pub rate_text : Value → Result Text
  -- `str(int(time.time()))`
  pub seconds : Text
  -- `time.strftime("%Y-%m-%d %H:%M:%S")`
  pub import_time : Text

pub data Reply : Type 0 where
  -- an answer whose `ok` is false: nothing to import, a file that cannot be written, or an exception
  no_strategies unwritten failed : Reply
  imported : List Dict → Reply

-- `re.sub(r"[^a-z0-9]", "", domain.lower())[:20]`
domain_slug : Text → Text
domain_slug domain = take 20 (keep is_slug_char (lower domain))

-- `id_base if idx == 0 else "%s_%d" % (id_base, idx + 1)`, which numbers as the selection does
pub nth_id : Text → ℕ → Text
nth_id base n = candidate base (suc n)

as_empty : Option Value → Dict → Dict
as_empty none catalog = insert (codes "strategies") (list nil) catalog
as_empty (some v) catalog = catalog

-- `not isinstance(original_args, str) or not original_args.strip()`
pub args_of : Value → Result Text
args_of (str s) =
    if truthy (str (strip s))
    then ok s
    else err (value_error (codes "Strategy args must be a non-empty string"))
args_of v = err (value_error (codes "Strategy args must be a non-empty string"))

-- the detection of `no_reasm`
is_tls : List Text → Bool
is_tls tokens =
    any (λ t. contains t (codes "tls_client_hello")) tokens
    || any (λ t. starts_with t (codes "--filter-tcp=443")) tokens

module _ (h : Host) where
  keyed : List Value → Result (List (Key × Dict))
  keyed [] = ok []
  keyed (v ∷ vs) = do
    s ← as_dict v
    rate ← h.negate (get_or (codes "success_rate") (int (pos 0)) s)
    rest ← keyed vs
    ok (((rate, get_or (codes "median_latency_ms") (int (pos 9999)) s), s) ∷ rest)

  -- a strategy stands behind those that it is not less than
  place_best : Key × Dict → List (Key × Dict) → Result (List (Key × Dict))
  place_best x [] = ok (x ∷ [])
  place_best x (y ∷ ys) = do
    ahead ← h.less x.0 y.0
    if ahead then ok (x ∷ y ∷ ys) else (place_best x ys >>= λ rest. ok (y ∷ rest))

  sort_onto : List (Key × Dict) → List (Key × Dict) → Result (List (Key × Dict))
  unfolding place_best
  sort_onto done [] = ok done
  sort_onto done (x ∷ xs) = place_best x done >>= λ next. sort_onto next xs

  -- `sorted(strategies_list, key=…)`; where a comparison raises, so does the whole
  pub ranked : List Value → Result (List Dict)
  unfolding keyed sort_onto
  ranked vs = do ks ← keyed vs; sorted ← sort_onto [] ks; ok (map (λ k. k.1) sorted)

  -- `new_strategy`
  pub new_strategy : Text → Text → Dict → Result Dict
  unfolding args_of is_tls
  new_strategy domain id s = do
    let protocol = get_or (codes "protocol") (str (codes "HTTPS/TLS1.2")) s
    args ← args_of (get_or (codes "args") (str []) s)
    tokens ← shlex_split args
    rate ← h.rate_text (get_or (codes "success_rate") (int (pos 0)) s)
    latency ← py_int h.runtime (get_or (codes "median_latency_ms") (int (pos 0)) s)
    ok (
        (codes "id", str id)
        ∷ (
          codes "name",
          str (
              codes "Custom: "
              ++ (domain ++ (codes " (" ++ (py_str h.runtime.repr protocol ++ codes ")")))),
        )
        ∷ (
          codes "desc",
          str (
              codes "Imported from "
              ++ (domain
                  ++ (codes " test results ("
                      ++ (rate
                          ++ (codes " success, " ++ (int_text latency ++ codes "ms latency)")))))),
        )
        ∷ (codes "nfqws_opt", str args)
        ∷ (codes "lua_opt", str (if contains args (codes "--lua-desync=") then args else []))
        ∷ (codes "protocol", protocol)
        ∷ (codes "imported", bool true)
        ∷ (codes "import_time", str h.import_time)
        ∷ (codes "import_original_args", str args)
        ∷ (if is_tls tokens then (codes "no_reasm", bool true) ∷ [] else []))

  -- The loop from a position on: the catalog's strategies, and those that were imported.
  pub import_from : Text → Text → ℕ → List Dict → List Dict → Result (List Dict × List Dict)
  unfolding new_strategy nth_id
  import_from domain base n old [] = ok (old, [])
  import_from domain base n old (s ∷ rest) = do
    entry ← new_strategy domain (nth_id base n) s
    done ← import_from domain base (suc n) (keep (stays (nth_id base n)) old ++ entry ∷ []) rest
    ok (done.0, entry ∷ done.1)

  -- `timestamp[:10].replace("-", "") if timestamp else …`
  date_slug : Value → Result Text
  date_slug v =
      if truthy v
      then (as_text v >>= λ t. ok (keep (λ c. not (c == b'-')) (take 10 t)))
      else ok h.seconds

  -- the `try` block behind its first test: the catalog that is to be written, and the new strategies
  pub import_all : Value → Dict → Value → Result (Dict × List Dict)
  unfolding ranked date_slug domain_slug as_empty import_from
  import_all catalog given strategies = do
    vs ← as_list strategies
    rows ← ranked vs
    domain ← as_text (get_or (codes "domain") (str (codes "custom")) given)
    date ← date_slug (get_or (codes "timestamp") (str []) given)
    let base = codes "custom_" ++ (domain_slug domain ++ (codes "_" ++ date))
    before ← as_dict catalog
    let filled = as_empty (lookup (codes "strategies") before) before
    old ← strategies_of filled
    done ← import_from domain base 0 old rows
    ok (store done.0 filled, done.1)

  answer : Bool → Value → Result (Dict × List Dict) → Value × Reply
  answer writes catalog (err e) = (catalog, failed)
  answer writes catalog (ok (filled, entries)) =
      if writes then (dict (of_pairs filled), imported entries) else (catalog, unwritten)

  -- `import_strategy_from_json(data)`: the catalog that it leaves, and its reply. The flag says that the
  -- write succeeds.
  unfoldable pub import_strategy_from_json : Bool → Value → Value → Value × Reply
  unfolding import_all answer
  import_strategy_from_json writes catalog (dict given) =
      let strategies = get_or (codes "strategies") (list nil) (pairs given) in
      if not (truthy strategies)
      then (catalog, no_strategies)
      else answer writes catalog (import_all catalog (pairs given) strategies)
  import_strategy_from_json writes catalog v = (catalog, failed)
