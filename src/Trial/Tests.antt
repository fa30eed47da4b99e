-- ===== src/Trial/Tests.antt =====
-- Tests of a strategy of a small catalog.
use web_zapret.Base.{◌≡◌, refl, true, [], ◌∷◌, some, ok, err, os_error, type_error, pos}
use web_zapret.Text.{codes, text_methods, is_space}
use web_zapret.Text.Decimal.{decimal}
use web_zapret.Dict.{lookup, get_or}
use web_zapret.Logs.{last_rows, drop}
use web_zapret.Value.{null, bool, int, str, dict, Dict, of_pairs, Runtime, value_methods}
use web_zapret.Deletion.{has_id}
use web_zapret.Trial.{exited, timed_out, not_run, Bench, failure, test_strategy}
use web_zapret.Collector.{from_brace}
use web_zapret.Trial.Isolated.{Harness, with_harness, test_strategy-agree}

abbrev runtime : Runtime
runtime = record { repr = λ v. []; to_int = λ v. err type_error; percent = λ v. err type_error }

-- Two harnesses that differ where they are run with nothing.
abbrev answering : Harness
answering [] n = not_run os_error
answering (a ∷ rest) n = exited (pos 0) (codes "log {") []

abbrev other : Harness
other [] n = timed_out
other (a ∷ rest) n = exited (pos 0) (codes "log {") []

abbrev answer : Dict
answer = (codes "ok", bool true) ∷ []

abbrev bench : Bench
bench = record {
  catalog = ((codes "id", str (codes "quic")) ∷ []) ∷ [];
  default_url = codes "https://a.org/";
  default_timeout = pos 120;
  harness = answering;
  raw_decode = λ t. some (dict (of_pairs answer));
}

good_test : test_strategy bench runtime (codes "quic") (codes " HTTP://b.org ") null ≡ ok answer
unfolding test_strategy text_methods value_methods is_space has_id from_brace lookup get_or
good_test = refl

option_test :
    test_strategy bench runtime (codes "quic") (codes "--exec=http://b") null
    ≡ ok (failure (codes "test URL must be a single http(s) URL"))
unfolding test_strategy text_methods value_methods is_space has_id from_brace lookup get_or
option_test = refl

-- A reply with no object in it is malformed.
silent_test :
    test_strategy
      (with_harness bench (λ args n. exited (pos 7) [] (codes "no queue")))
      runtime
      (codes "quic")
      []
      (int (pos 5))
    ≡ ok (failure (codes "malformed test harness output (rc=7): no queue"))
unfolding test_strategy text_methods value_methods is_space has_id from_brace lookup get_or decimal
    drop last_rows
silent_test = refl

test_strategy-agree_example :
    test_strategy (with_harness bench answering) runtime (codes "quic") [] null
    ≡ test_strategy (with_harness bench other) runtime (codes "quic") [] null
test_strategy-agree_example =
    test_strategy-agree bench answering other (λ sid url n known target time. refl) runtime
      (codes "quic") [] null
