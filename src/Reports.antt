-- ===== src/Reports.antt =====
-- The false-positive filter and the ranking of src/blockcheck.py: `filter_reason`, `rank` and
-- `select_working`. A reason is a constructor that stands for its text.
pub mod Order
pub mod Parse
pub mod Selected
pub mod Tests
use web_zapret.Base.{
  ℕ, zero, suc, Bool, true, false, not, ◌&&◌, ◌||◌, List, [], ◌∷◌, ◌++◌, map, Option, none, some,
  Result, ok, err, type_error, ◌>>=◌, if◌then◌else◌, ℤ, pos, ltb, ltb_ℤ, ◌==◌, sort_onto,
}
use web_zapret.Text.{Text, codes, same}
use web_zapret.Dict.{get_or, insert}
use web_zapret.Value.{
  Float, Value, null, bool, int, float, str, list, dict, nil, cons, Dict, truthy, or_else, py_str,
  Runtime, py_int,
}
use web_zapret.Settings.{ltb_float, zero_float}
use web_zapret.Settings.Floats.{same_float}

-- What the code leaves to the runtime here: `float(v)` of a value that is no double, and `v < x` for one.
pub record Doubles : Type 0 where
  pub runtime : Runtime
  pub to_float : Value → Result Float
  pub less : Value → Float → Result Bool

pub data Reason : Type 0 where
  mirage : Reason
  observed : Text → Reason
  no_reference : Reason
  low_share : Value → Float → Reason

-- `row.get("admits") == ["Mirage"]`
is_mirage : Value → Bool
is_mirage (list (cons (str s) nil)) = same s (codes "Mirage")
is_mirage v = false

-- The key of the ranking; the rate and the share are the ones that the code negates.
pub record Key : Type 0 where
  pub idle : ℕ
  pub rate : Float
  pub share : Float
  pub latency : ℤ

-- `a < b` of two keys, whose doubles are numbers
unfoldable pub precedes : Key → Key → Bool
precedes a b =
    ltb a.idle b.idle
    || (a.idle == b.idle
        && (ltb_float b.rate a.rate
            || (same_float a.rate b.rate
                && (ltb_float b.share a.share
                    || (same_float a.share b.share && ltb_ℤ a.latency b.latency)))))

-- A row with its key.
pub record Ranked : Type 0 where
  pub key : Key
  pub row : Dict

-- the order of the sort
pub row_precedes : Ranked → Ranked → Bool
unfolding precedes
row_precedes a b = precedes a.key b.key

pub record Selection : Type 0 where
  pub accepted : List Dict
  pub refused : List (Dict × Reason)

-- A verdict put in front of those on the rows behind it.
judged : Dict → Option Reason → Selection → Selection
judged row none s = record s { accepted = row ∷ s.accepted }
judged row (some reason) s = record s { refused = (row, reason) ∷ s.refused }

-- `dict(row, reason=reason)`; `texts` prints the reason
pub refused_row : (Reason → Text) → Dict × Reason → Dict
refused_row texts (row, reason) = insert (codes "reason") (str (texts reason)) row

module _ (rt : Doubles) where
  pub float_of : Value → Result Float
  float_of (float x) = ok x
  float_of v = rt.to_float v

  -- `share < min_share`
  is_below : Value → Float → Result Bool
  is_below (float x) limit = ok (ltb_float x limit)
  is_below v limit = rt.less v limit

  -- the test of the share, once the least share is positive
  share_reason : Value → Float → Result (Option Reason)
  unfolding is_below
  share_reason null limit = ok (some no_reference)
  share_reason share limit = do
    below ← is_below share limit
    ok (if below then some (low_share share limit) else none)

  -- `filter_reason(row, settings)`
  unfoldable pub filter_reason : Dict → Dict → Result (Option Reason)
  unfolding is_mirage float_of share_reason
  filter_reason row settings =
      let refuted = is_mirage (get_or (codes "admits") null row) in
      let seen = or_else (get_or (codes "observed") null row) (str (codes "not working")) in
      if not (truthy (get_or (codes "working") null row))
      then ok (some (if refuted then mirage else observed (py_str rt.runtime.repr seen)))
      else if truthy (get_or (codes "exclude_mirage") null settings) && refuted
      then ok (some mirage)
      else (float_of
            (or_else (get_or (codes "min_share") (float zero_float) settings) (float zero_float))
          >>= λ limit.
              if ltb_float zero_float limit
              then share_reason (get_or (codes "median_share") null row) limit
              else ok none)

  pub share_of : Value → Result Float
  unfolding float_of
  share_of null = ok zero_float
  share_of v = float_of v

  -- the key of `rank`
  key_of : Dict → Result Key
  unfolding float_of share_of
  key_of row = do
    rate ← float_of (get_or (codes "success_rate") (float zero_float) row)
    share ← share_of (get_or (codes "median_share") null row)
    latency ←
        py_int rt.runtime
          (or_else (get_or (codes "median_latency_ms") (int (pos 0)) row) (int (pos 0)))
    ok (record {
      idle = if truthy (get_or (codes "working") null row) then 0 else 1;
      rate = rate;
      share = share;
      latency = latency;
    })

  pub keyed : List Dict → Result (List Ranked)
  unfolding key_of
  keyed [] = ok []
  keyed (row ∷ rows) = do
    key ← key_of row
    rest ← keyed rows
    ok (record { key = key; row = row } ∷ rest)

  -- `rank(rows)`, with the keys
  pub rank : List Dict → Result (List Ranked)
  unfolding keyed row_precedes sort_onto
  rank rows = keyed rows >>= λ rs. ok (sort_onto row_precedes [] rs)

  judge : Dict → List Ranked → Result Selection
  unfolding judged
  judge settings [] = ok (record { accepted = []; refused = [] })
  judge settings (r ∷ rs) = do
    reason ← filter_reason r.row settings
    rest ← judge settings rs
    ok (judged r.row reason rest)

  -- `select_working(rows, settings)`
  unfoldable pub select_working : List Dict → Dict → Result Selection
  unfolding rank judge
  select_working rows settings = rank rows >>= λ rs. judge settings rs
