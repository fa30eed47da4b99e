-- ===== src/Trial/Isolated.antt =====
-- What `test_strategy` passes to the harness, and what it replies.
use web_zapret.Base.{
  ℕ, ◌≤◌, ◌≡◌, ◌⊎◌, inl, inr, refl, ap, true, List, [], ◌∷◌, Result, ok, err, type_error,
  value_error, value_error_repr, index_error, key_error, unbound_local, os_error, overflow_error,
  ◌>>=◌, ℤ, pos, negsuc, arith, Bool-cases, Ensures, ok-Ensures,
}
use web_zapret.Text.{Text, strip}
use web_zapret.Value.{Value, int, or_else, Runtime, py_int, int_text}
use web_zapret.Deletion.{has_id}
use web_zapret.Trial.{
  Ended, Bench, is_testable, timeout_or, bounded, or_text, limit_of, reply_of, first_value, launch,
  test_strategy,
}
use web_zapret.Trial.Url.{IsTarget, strip-IsTarget}

-- The seconds of a test: between 10 and 600, or the configured default.
abbrev pub IsTime : ℤ → ℤ → Type 0
IsTime default n = ((k : ℕ) × (n ≡ pos k) × (10 ≤ k) × (k ≤ 600)) ⊎ (n ≡ default)

bounded-IsTime : (default n : ℤ) → IsTime default (bounded n)
unfolding bounded
bounded-IsTime default (pos n) = inl (_, refl, omega arith, omega arith)
bounded-IsTime default (negsuc n) = inl (10, refl, omega arith, omega arith)

timeout_or-IsTime :
    (default : ℤ) (call : Result ℤ) → Ensures (IsTime default) (timeout_or default call)
unfolding timeout_or
timeout_or-IsTime default (ok n) = ok-Ensures (IsTime default) (bounded-IsTime default n)
timeout_or-IsTime default (err type_error) = ok-Ensures (IsTime default) (inr refl)
timeout_or-IsTime default (err (value_error m)) = ok-Ensures (IsTime default) (inr refl)
timeout_or-IsTime default (err (value_error_repr m t)) = ok-Ensures (IsTime default) (inr refl)
timeout_or-IsTime default (err index_error) = λ n e. cc e
timeout_or-IsTime default (err (key_error k)) = λ n e. cc e
timeout_or-IsTime default (err (unbound_local k)) = λ n e. cc e
timeout_or-IsTime default (err os_error) = λ n e. cc e
timeout_or-IsTime default (err overflow_error) = λ n e. cc e

abbrev pub Harness : Type 0
Harness = List Text → ℤ → Ended

abbrev pub with_harness : Bench → Harness → Bench
with_harness b h = record b { harness = h }

-- The two harnesses end alike where a strategy of the catalog is tested at a URL for a time in bounds.
abbrev pub Agree : Bench → Harness → Harness → Type 0
Agree b h h' =
    (sid url : Text) (n : ℤ)
    → has_id sid b.catalog ≡ true
    → IsTarget url
    → IsTime b.default_timeout n
    → h (sid ∷ url ∷ int_text n ∷ []) (limit_of n) ≡ h' (sid ∷ url ∷ int_text n ∷ []) (limit_of n)

module _ (b : Bench) (h h' : Harness) (agree : Agree b h h') where
  launch-agree :
      (sid url : Text) (n : ℤ)
      → has_id sid b.catalog ≡ true
      → IsTarget url
      → IsTime b.default_timeout n
      → launch (with_harness b h) sid url n ≡ launch (with_harness b h') sid url n
  unfolding launch reply_of first_value
  launch-agree sid url n known target time =
      ap (reply_of (with_harness b h)) (agree sid url n known target time)

  timed-agree :
      (sid url : Text) (call : Result ℤ)
      → has_id sid b.catalog ≡ true
      → IsTarget url
      → Ensures (IsTime b.default_timeout) call
      → (call >>= λ n. launch (with_harness b h) sid url n)
        ≡ (call >>= λ n. launch (with_harness b h') sid url n)
  timed-agree sid url (err e) known target time = refl
  timed-agree sid url (ok n) known target time = launch-agree sid url n known target (time n refl)

  -- What the harness is run with: for every strategy, URL and time that a request names, the reply is the
  -- same under two harnesses that end alike on the id of a strategy in the catalog, a URL of at most 2048
  -- characters with no white space that begins with the letter h, so that it is no option, and a time
  -- between 10 and 600 seconds or the configured default, with 180 seconds more as the limit.
  pub test_strategy-agree :
      (rt : Runtime) (sid url : Text) (timeout : Value)
      → test_strategy (with_harness b h) rt sid url timeout
        ≡ test_strategy (with_harness b h') rt sid url timeout
  unfolding test_strategy
  test_strategy-agree rt sid url timeout =
      let target = strip (or_text url b.default_url) in
      elim (Bool-cases (has_id sid b.catalog)) [
        | inr unknown ↦ rw unknown refl
        | inl known ↦ elim (Bool-cases (is_testable target)) [
          | inr bad ↦ rw (known, bad) refl
          | inl good ↦
              rw (known, good)
                (timed-agree sid target
                  (timeout_or b.default_timeout
                    (py_int rt (or_else timeout (int b.default_timeout))))
                  known (strip-IsTarget (or_text url b.default_url) good)
                  (timeout_or-IsTime b.default_timeout
                    (py_int rt (or_else timeout (int b.default_timeout)))))
        ]
      ]
