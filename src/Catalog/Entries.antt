-- ===== src/Catalog/Entries.antt =====
-- The new entries of `plan_import` of src/blockcheck.py, and the variables of its loops.
use web_zapret.Base.{
  ℕ, suc, Bool, true, false, not, ◌&&◌, List, [], ◌∷◌, ◌++◌, if◌then◌else◌, ℤ, pos, negsuc, ltb_ℤ,
  ◌==◌,
}
use web_zapret.Text.{Text, codes, contains}
use web_zapret.Dict.{get_or, insert}
use web_zapret.Value.{
  Value, null, bool, int, float, str, list, dict, nil, Dict, of_pairs, truthy, or_else, ratio,
}
use web_zapret.Catalog.{slug, needs_no_reasm, free_id}

-- A new catalog entry; the texts `nfqws_opt` and `import_original_args` are both `args`.
pub record Entry : Type 0 where
  pub id : Text
  pub name : Text
  pub desc : Text
  pub args : Text
  pub protocol : Text
  pub import_time : Text
  pub bcw : Value
  pub no_reasm : Bool

pub record Skipped : Type 0 where
  pub domain : Text
  pub protocol : Text
  pub args : Text
  pub reason : Text

-- The variables of the loops.
pub record State : Type 0 where
  pub entries : List Entry
  pub skipped : List Skipped
  pub known_args : List Text
  pub known_ids : List Text
  pub per_protocol : List (Text × ℕ)

-- What stays the same through a run.
pub record Config : Type 0 where
  pub limit : ℤ
  pub prefix : Text
  pub run_id : Text
  pub now : Text

abbrev pub at : Text → Value → Dict → Value
at k v d = get_or k v d

-- `limit and per_protocol.get(protocol, 0) >= limit`
unfoldable pub over_limit : ℤ → ℕ → Bool
over_limit (pos n) k = not (n == 0) && not (ltb_ℤ (pos k) (pos n))
over_limit (negsuc n) k = true

unfoldable pub gather : (Dict → List Text) → List Dict → List Text
gather f [] = []
gather f (e ∷ es) = f e ++ gather f es

bcw_of : Config → Text → Dict → Dict → Value
bcw_of c domain dom row = dict (
    of_pairs (
      (codes "domain", str domain)
      ∷ (codes "block_type", at (codes "block_type") (str []) dom)
      ∷ (codes "run_id", str c.run_id)
      ∷ (codes "passes_ok", at (codes "passes_ok") (int (pos 0)) row)
      ∷ (codes "passes_total", at (codes "passes_total") (int (pos 0)) row)
      ∷ (codes "median_share", at (codes "median_share") null row)
      ∷ (codes "median_latency_ms", at (codes "median_latency_ms") (int (pos 0)) row)
      ∷ (codes "success_rate", at (codes "success_rate") (float (ratio false 0 0)) row)
      ∷ (codes "admits", or_else (at (codes "admits") null row) (list nil))
      ∷ (codes "observed", at (codes "observed") (str []) row)
      ∷ []))

pub stem_of : Config → Text → Text → Text
stem_of c domain protocol =
    c.prefix ++ (codes "_" ++ (slug domain 20 ++ (codes "_" ++ slug protocol 16)))

unfoldable pub skip : State → Skipped → State
skip st s = record st { skipped = st.skipped ++ s ∷ [] }

-- `entry = {…}`
unfoldable pub new_entry : Config → State → Text → Dict → Dict → Text → Text → Text → Entry
unfolding stem_of bcw_of
new_entry c st domain dom row protocol args desc =
    let shown = if truthy (str domain) then domain else codes "domain" in
    record {
      id = free_id st.known_ids (stem_of c domain protocol);
      name = codes "blockcheckw: " ++ (shown ++ (codes " (" ++ (protocol ++ codes ")")));
      desc = desc;
      args = args;
      protocol = protocol;
      import_time = c.now;
      bcw = bcw_of c domain dom row;
      no_reasm = needs_no_reasm args protocol;
    }

-- the four updates behind it
unfoldable pub add : State → Entry → State
add st e = record st {
  entries = st.entries ++ e ∷ [];
  known_args = e.args ∷ st.known_args;
  known_ids = e.id ∷ st.known_ids;
  per_protocol = insert e.protocol (suc (get_or e.protocol 0 st.per_protocol)) st.per_protocol;
}

-- The entry as the catalog stores it.
unfoldable pub entry_dict : Entry → Dict
entry_dict e =
    (codes "id", str e.id)
    ∷ (codes "name", str e.name)
    ∷ (codes "desc", str e.desc)
    ∷ (codes "nfqws_opt", str e.args)
    ∷ (codes "lua_opt", str (if contains e.args (codes "--lua-desync=") then e.args else []))
    ∷ (codes "protocol", str e.protocol)
    ∷ (codes "imported", bool true)
    ∷ (codes "import_time", str e.import_time)
    ∷ (codes "import_original_args", str e.args)
    ∷ (codes "bcw", e.bcw)
    ∷ (if e.no_reasm then (codes "no_reasm", bool true) ∷ [] else [])
