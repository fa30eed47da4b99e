-- ===== src/Trial.antt =====
-- `test_strategy` of src/panel/panel.py. The harness of the test is a function of its command and its
-- time limit.
pub mod Url
pub mod Isolated
pub mod Tests
use web_zapret.Base.{
  ℕ, Bool, true, false, not, ◌&&◌, ◌||◌, List, [], ◌∷◌, ◌++◌, length, max, min, ltb, Option, none,
  some, Result, ok, err, Exc, type_error, value_error, value_error_repr, ◌>>=◌, ◌==◌, ◌+◌, ◌-◌,
  if◌then◌else◌, ℤ, pos, negsuc,
}
use web_zapret.Text.{Text, codes, same, starts_with, strip, is_space}
use web_zapret.Dict.{lookup}
use web_zapret.Value.{
  Value, bool, int, str, dict, end, Dict, pairs, or_else, Runtime, py_int, int_text,
}
use web_zapret.Deletion.{has_id}
use web_zapret.Logs.{last_rows}
use web_zapret.Collector.{from_brace}

-- How `subprocess.run` of the harness ends.
pub data Ended : Type 0 where
  -- the exit status, the output and the errors
  exited : ℤ → Text → Text → Ended
  timed_out : Ended
  -- any other exception of the call
  not_run : Exc → Ended

-- The panel's configuration and state, as far as the test reads them.
pub record Bench : Type 0 where
  -- the strategies of the catalog
  pub catalog : List Dict
  -- TEST_YTDLP_URL and TEST_YTDLP_TIMEOUT
  pub default_url : Text
  pub default_timeout : ℤ
  -- the harness, with the arguments behind its name
  pub harness : List Text → ℤ → Ended
  -- `raw_decode`, none where it raises
  pub raw_decode : Text → Option Value

-- A character that matches a lower-case letter of the scheme without regard to case; the long s is the
-- only other one.
is_letter : ℕ → ℕ → Bool
is_letter p c = c == p || (c + 32 == p || (p == b's' && c == 0x17f))

-- The rest of a text behind letters.
behind : Text → Text → Option Text
unfolding is_letter
behind [] s = some s
behind (p ∷ ps) [] = none
behind (p ∷ ps) (c ∷ s) = let rest = behind ps s in if is_letter p c then rest else none

-- `s?` of the pattern: what follows it is no letter
without_s : Text → Text
unfolding is_letter
without_s [] = []
without_s (c ∷ s) = if is_letter b's' c then s else c ∷ s

is_end : Text → Bool
is_end [] = true
is_end (c ∷ s) = false

-- `[^\s]*$`, where the end may be in front of a last line feed
is_run : Text → Bool
unfolding is_end
is_run [] = true
is_run (c ∷ s) = (not (is_space c) && is_run s) || (c == 10 && is_end s)

-- `[^\s]+$`
is_rest : Text → Bool
unfolding is_run
is_rest [] = false
is_rest (c ∷ s) = not (is_space c) && is_run s

-- `://[^\s]+$`
has_host : Text → Bool
unfolding is_rest
has_host (a ∷ b ∷ c ∷ s) = a == b':' && (b == b'/' && (c == b'/' && is_rest s))
has_host _ = false

is_schemed : Option Text → Bool
unfolding without_s has_host
is_schemed none = false
is_schemed (some s) = has_host (without_s s)

-- `_TEST_URL_RE.match(url)`
pub is_url : Text → Bool
unfolding behind is_schemed
is_url url = is_schemed (behind (codes "http") url)

-- `url or default`
or_text : Text → Text → Text
or_text [] t = t
or_text (c ∷ s) t = c ∷ s

-- `not url or len(url) > 2048 or not _TEST_URL_RE.match(url)`, negated
pub is_testable : Text → Bool
unfolding is_end is_url
is_testable url = not (is_end url) && (not (ltb 2048 (length url)) && is_url url)

-- `max(10, min(n, 600))`
pub bounded : ℤ → ℤ
bounded (pos n) = pos (max 10 (min n 600))
bounded (negsuc n) = pos 10

-- `timeout`, where a `TypeError` or a `ValueError` leaves the default
timeout_or : ℤ → Result ℤ → Result ℤ
unfolding bounded
timeout_or default (ok n) = ok (bounded n)
timeout_or default (err type_error) = ok default
timeout_or default (err (value_error m)) = ok default
timeout_or default (err (value_error_repr m t)) = ok default
timeout_or default (err e) = err e

-- `{"ok": False, "error": …}`
pub failure : Text → Dict
failure t = (codes "ok", bool false) ∷ (codes "error", str t) ∷ []

-- `timeout + 180`
pub limit_of : ℤ → ℤ
limit_of (pos n) = pos (n + 180)
limit_of (negsuc n) = if ltb n 180 then pos (179 - n) else negsuc (n - 180)

malformed : ℤ → Text → Text → Dict
unfolding or_text failure last_rows
malformed rc raw errors = failure (
    codes "malformed test harness output (rc="
    ++ (int_text rc ++ (codes "): " ++ last_rows (pos 800) (or_text raw errors))))

has_ok : Option Value → Bool
has_ok none = false
has_ok (some v) = true

-- `res` if it is a dictionary with the key `ok`
accepted : Dict → Option Value → Dict
unfolding has_ok
accepted other (some (dict fs)) =
    if has_ok (lookup (codes "ok") (pairs fs)) then pairs fs else other
accepted other _ = other

module _ (b : Bench) where
  first_value : Option Text → Option Value
  first_value none = none
  first_value (some t) = b.raw_decode t

  -- behind `subprocess.run`
  reply_of : Ended → Result Dict
  unfolding malformed accepted first_value failure
  reply_of (exited rc raw errors) =
      ok (accepted (malformed rc raw errors) (first_value (from_brace raw)))
  reply_of timed_out = ok (failure (codes "test harness timed out"))
  reply_of (not_run e) = err e

  -- the harness is run with the strategy, the URL and the time
  launch : Text → Text → ℤ → Result Dict
  unfolding reply_of limit_of
  launch sid url n = reply_of (b.harness (sid ∷ url ∷ int_text n ∷ []) (limit_of n))

  module _ (rt : Runtime) where
    -- `test_strategy(strategy_id, url, timeout)`
    unfoldable pub test_strategy : Text → Text → Value → Result Dict
    unfolding is_testable timeout_or or_text launch failure
    test_strategy sid url timeout =
        let target = strip (or_text url b.default_url) in
        if not (has_id sid b.catalog)
        then ok (failure (codes "unknown strategy '" ++ (sid ++ codes "'")))
        else if not (is_testable target)
        then ok (failure (codes "test URL must be a single http(s) URL"))
        else (timeout_or b.default_timeout (py_int rt (or_else timeout (int b.default_timeout)))
            >>= λ n. launch sid target n)
