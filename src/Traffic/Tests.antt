-- ===== src/Traffic/Tests.antt =====
-- Counters of a listing with one rule, and state files with and without a number.
use web_zapret.Base.{◌≡◌, refl, [], ◌∷◌, ◌++◌, none, some, ok, err, value_error, pos, ◌+ℤ◌}
use web_zapret.Text.{Text, codes, text_methods}
use web_zapret.Text.Decimal.{read}
use web_zapret.Logs.{splitlines}
use web_zapret.Traffic.{Source, get_traffic_stats}

abbrev pub listing : Text
listing = codes "Chain WZFW" ++ 10 ∷ codes "  12  3400 NFQUEUE all" ++ 10 ∷ codes " 1 6 RETURN all"

abbrev pub source : Source
source = record {
  listed_out = some listing;
  listed_in = none;
  stored_in = [];
  stored_out = codes "7";
  to_int = λ t. some (pos (read 0 t));
}

listing_test :
    get_traffic_stats source
    ≡ ok (record { bytes_in = pos 0; bytes_out = pos 3400; total = pos 3400 })
unfolding get_traffic_stats text_methods splitlines read ◌+ℤ◌
listing_test = refl

-- No listing, and a state file that holds no number.
broken_test :
    get_traffic_stats (record source { listed_out = none; to_int = λ t. none })
    ≡ err (value_error (codes "invalid literal for int()"))
unfolding get_traffic_stats
broken_test = refl
