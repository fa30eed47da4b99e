-- ===== src/Status/Shown.antt =====
-- When `status` answers, and which strategy it shows.
use web_zapret.Base.{
  ℕ, ◌≡◌, ◌⊎◌, inl, inr, refl, ap, ◌∙◌, ◌&&◌, true, List, [], ◌∷◌, Option, none, some, Result, ok,
  err, value_error, ◌>>=◌, if_each, Bool-cases,
}
use web_zapret.Text.{Text, codes, same}
use web_zapret.Dict.{get_or, lookup}
use web_zapret.Value.{Value, null, str, list, nil, Dict, or_else}
use web_zapret.Deletion.{is_text, has_id, strategies_of, active_strategy}
use web_zapret.Registry.{find}
use web_zapret.Traffic.{Traffic, get_traffic_stats, is_zero, or_zero}
use web_zapret.Traffic.Counted.{
  IsRead, from_rules, from_files, unread, in_sum, out_sum, get_traffic_stats-IsRead,
}
use web_zapret.PublicHost.{Cache, Reply, detect_public_host}
use web_zapret.Status.{Machine, Status, state_or, entry_of, shown, status}

-- A default that is the empty text is as good as none where an id that is not empty is looked for.
is_text-default :
    (c : ℕ) (t : Text) (d : Dict)
    → is_text (c ∷ t) (get_or (codes "id") (str []) d)
      ≡ is_text (c ∷ t) (get_or (codes "id") null d)
unfolding get_or is_text same
is_text-default c t d = go (lookup (codes "id") d)
  where
    go :
        (o : Option Value)
        → is_text (c ∷ t) (elim o [ none ↦ str [] | some w ↦ w ])
          ≡ is_text (c ∷ t) (elim o [ none ↦ null | some w ↦ w ])
    go none = refl
    go (some w) = refl

has_id-find :
    (c : ℕ) (t : Text) (ds : List Dict)
    → has_id (c ∷ t) ds ≡ true
    → (d : Dict) × (find (c ∷ t) ds ≡ some d)
unfolding has_id find
has_id-find c t [] h = cc
has_id-find c t (d ∷ ds) h = elim (Bool-cases (is_text (c ∷ t) (get_or (codes "id") null d))) [
  | inl here ↦ (d, rw here refl)
  | inr other ↦
      let (e, found) = has_id-find c t ds (rw (is_text-default c t d ∙ other) at h) in
      (e, rw other found)
]

-- No strategy is active, or a strategy of the catalog is, and the status shows its name (or its id), its
-- options and its scripts.
abbrev pub IsShown : List Dict → Status → Type 0
IsShown ds s =
    (s.strategy_id ≡ [])
    ⊎ ((d : Dict) × (find s.strategy_id ds ≡ some d)
        × (s.strategy_name ≡ get_or (codes "name") (str s.strategy_id) d)
        × (s.nfqws_opt
            ≡ or_else (get_or (codes "lua_opt") null d) (get_or (codes "nfqws_opt") (str []) d))
        × (s.lua_init ≡ get_or (codes "lua_init") (list nil) d))

shown-IsShown :
    (m : Machine) (strat : Text) (ds : List Dict) (host : Reply) (traffic : Traffic)
    → (strat ≡ []) ⊎ (has_id strat ds ≡ true)
    → IsShown ds (shown m strat (entry_of (find strat ds)) host traffic)
unfolding shown entry_of
shown-IsShown m [] ds host traffic known = inl refl
shown-IsShown m (c ∷ t) ds host traffic (inl none_active) = cc
shown-IsShown m (c ∷ t) ds host traffic (inr known) =
    let (d, found) = has_id-find c t ds known in
    inr (
      d,
      found,
      ap (λ o. get_or (codes "name") (str (c ∷ t)) (entry_of o)) found,
      ap
          (λ o.
            or_else (get_or (codes "lua_opt") null (entry_of o))
              (get_or (codes "nfqws_opt") (str []) (entry_of o)))
          found,
      ap (λ o. get_or (codes "lua_init") (list nil) (entry_of o)) found,
    )

active_strategy-known :
    (cur : Text) (ds : List Dict)
    → (active_strategy cur ds ≡ []) ⊎ (has_id (active_strategy cur ds) ds ≡ true)
unfolding active_strategy
active_strategy-known cur ds =
    if_each (λ t. (t ≡ []) ⊎ (has_id t ds ≡ true)) (has_id cur ds) (λ h. inr h) (λ _. inl refl)

-- The outcome of `status`.
pub data IsAnswer (m : Machine) (ds : List Dict) (r : Result (Status × Cache)) : Type 0 where
  answered :
      (s : Status) (next : Cache)
      → r ≡ ok (s, next)
      → get_traffic_stats m.counters ≡ ok s.traffic
      → IsShown ds s
      → IsAnswer m ds r
  raised :
      (t : Text)
      → r ≡ err (value_error t)
      → (is_zero (in_sum m.counters) && is_zero (out_sum m.counters)) ≡ true
      → (m.counters.to_int (or_zero m.counters.stored_in) ≡ none)
        ⊎ (m.counters.to_int (or_zero m.counters.stored_out) ≡ none)
      → IsAnswer m ds r

module _ (m : Machine) (cache : Cache) (ds : List Dict) where
  -- behind the catalog
  rest : Result Traffic → Result (Status × Cache)
  rest read =
      let strat = active_strategy (state_or (codes "standard") m.strategy_file) ds in
      let (host, next) = detect_public_host m.public_host m.unit cache m.detection in
      read >>= λ traffic. ok (shown m strat (entry_of (find strat ds)) host traffic, next)

  rest-ok :
      (traffic : Traffic)
      → get_traffic_stats m.counters ≡ ok traffic
      → IsAnswer m ds (rest (ok traffic))
  unfolding rest shown
  rest-ok traffic e =
      let strat = active_strategy (state_or (codes "standard") m.strategy_file) ds in
      let (host, next) = detect_public_host m.public_host m.unit cache m.detection in
      answered (shown m strat (entry_of (find strat ds)) host traffic) next refl e (
        shown-IsShown m strat ds host traffic
          (active_strategy-known (state_or (codes "standard") m.strategy_file) ds))

  rest-IsAnswer :
      (read : Result Traffic)
      → get_traffic_stats m.counters ≡ read
      → IsRead m.counters read
      → IsAnswer m ds (rest read)
  unfolding rest
  rest-IsAnswer read e (from_rules _ busy q) = rw q (rest-ok _ (e ∙ q))
  rest-IsAnswer read e (from_files _ i o idle p p' q) = rw q (rest-ok _ (e ∙ q))
  rest-IsAnswer read e (unread _ t idle bad q) = rw q (raised t refl idle bad)

  -- The request for the status, where the catalog's strategies can be read: it is answered, and then no
  -- strategy is shown as active or a strategy of the catalog is, with its own name, options and scripts; or
  -- it ends in a `ValueError`, and then neither rule of the firewall has counted a byte and a state file of
  -- the counters holds no number.
  pub status-IsAnswer : strategies_of m.catalog ≡ ok ds → IsAnswer m ds (status m cache)
  unfolding status rest
  status-IsAnswer e =
      rw e (rest-IsAnswer (get_traffic_stats m.counters) refl (get_traffic_stats-IsRead m.counters))
