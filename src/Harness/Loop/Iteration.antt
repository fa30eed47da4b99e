-- ===== src/Harness/Loop/Iteration.antt =====
-- One round of the loop of `run`: what its record of the domain says.
use web_zapret.Base.{
  ℕ, ◌≡◌, refl, ap, subst, ◌⊎◌, inl, inr, Bool, true, false, not, ◌&&◌, ◌||◌, List, [], ◌++◌,
  Option, none, some, ok, Ensures, ok-Ensures, >>=-Ensures, append_assoc, All, if_each, ℤ, pos,
  negsuc, arith,
}
use web_zapret.Text.{Text, codes, starts_with}
use web_zapret.Text.Laws.{starts_with-append}
use web_zapret.Value.{Value, Dict, py_str}
use web_zapret.Commands.{Run}
use web_zapret.Reports.{Doubles, Selection, filter_reason, select_working}
use web_zapret.Reports.Parse.{Report, parse_scan_report, parse_check_report}
use web_zapret.Reports.Selected.{select_working-IsSelection, select_working-All}
use web_zapret.Reports.Parse.Usable.{IsUsable, parsed-IsUsable}
use web_zapret.Harness.{Machine, Step, Dom, new_dom, Round, is_zero, no_rows, scan_passed}
use web_zapret.Harness.Loop.{
  timed_step, error_of, failed_text, checked_round, check_round, with_scan, scanned_round,
  scan_round, run_domain,
}

passed : Option ℤ → Bool
passed none = false
passed (some rc) = is_zero rc

failed_check : Option ℤ → Option Report → Bool
unfolding passed
failed_check rc none = true
failed_check rc (some check) = not (passed rc)

failed_scan : Option Report → Option ℤ → Option Report → Bool
unfolding failed_check
failed_scan none rc check = true
failed_scan (some scan) rc check = not (no_rows scan.rows) && failed_check rc check

-- A domain failed if its scan did, or if it found strategies and their check did.
pub is_failed : Dom → Bool
unfolding passed failed_scan
is_failed d = not (passed d.scan_rc) || failed_scan d.scan d.check_rc d.check

zero_rc : (rc : ℤ) → not (is_zero rc) ≡ false → rc ≡ pos 0
unfolding is_zero
zero_rc (pos n) h = ap pos (ground arith)
zero_rc (negsuc n) h = cc

pub not_passed-failed : (d : Dom) → scan_passed d ≡ false → is_failed d ≡ true
unfolding is_failed passed scan_passed
not_passed-failed d h = go d.scan_rc h
  where
    go :
        (o : Option ℤ)
        → elim o [ none ↦ false | some rc ↦ is_zero rc ] ≡ false
        → (not (passed o) || failed_scan d.scan d.check_rc d.check) ≡ true
    go none e = refl
    go (some rc) e = ground arith

module _ (rt : Doubles) where
  -- the start of a domain's error message
  abbrev pub message_start : Value → Text
  message_start domain = py_str rt.runtime.repr domain ++ codes ": "

  -- The error of a round is there if the domain failed, and begins with the domain.
  abbrev pub Told : Dom → Option Text → Type 0
  Told d none = is_failed d ≡ false
  Told d (some t) = (is_failed d ≡ true) × (starts_with t (message_start d.domain) ≡ true)

  -- The strategies of a domain: none, or those that both steps, and the filter, have passed.
  pub record IsSound (settings : Dict) (d : Dom) : Type 0 where
    pub both_passed : (d.working ≡ []) ⊎ ((d.scan_rc ≡ some (pos 0)) × (d.check_rc ≡ some (pos 0)))
    pub all_passed : All (λ row. filter_reason rt row settings ≡ ok none) d.working
    pub all_usable : All IsUsable d.working

  pub record IsRound {W : Type 0} (settings : Dict) (item : Run) (r : Round W) : Type 0 where
    pub same_domain : r.dom.domain ≡ item.domain
    pub told : Told r.dom r.error
    pub sound : IsSound settings r.dom

  starts_with-error :
      {W : Type 0} (m : Machine W) (item : Run) (text : Text)
      → starts_with (error_of m rt item text) (message_start item.domain) ≡ true
  unfolding error_of
  starts_with-error m item text =
      subst (λ t. starts_with t (message_start item.domain) ≡ true)
        (append_assoc (py_str rt.runtime.repr item.domain) (codes ": ") text)
        (starts_with-append (message_start item.domain) text)

  module _ {W : Type 0} (m : Machine W) (settings : Dict) (item : Run) where
    -- A round that ends with an error has no strategies.
    failure_reported :
        (dom : Dom) (text : Text) (w : W)
        → dom.domain ≡ item.domain
        → dom.working ≡ []
        → is_failed dom ≡ true
        → IsRound settings item
            (record { dom = dom; error = some (error_of m rt item text); world = w })
    failure_reported dom text w same_domain idle failed = record {
      same_domain = same_domain;
      told = (failed, rw same_domain (starts_with-error m item text));
      sound = record { both_passed = inl idle; all_passed = rw idle tt; all_usable = rw idle tt };
    }

    accepted_pass :
        (rows : List Dict) (s : Selection)
        → select_working rt rows settings ≡ ok s
        → All (λ row. filter_reason rt row settings ≡ ok none) s.accepted
    accepted_pass rows s h =
        let (_, _, _, selected) = select_working-IsSelection rt rows settings s h in selected.passed

    checked_round-IsRound :
        (dom : Dom) (w : W) (scan : Report) (source : Value) (o : Option Report)
        → dom.domain ≡ item.domain
        → dom.working ≡ []
        → dom.scan_rc ≡ some (pos 0)
        → dom.check_rc ≡ some (pos 0)
        → dom.scan ≡ some scan
        → no_rows scan.rows ≡ false
        → dom.check ≡ none
        → parse_check_report rt m.loads source ≡ ok o
        → Ensures (IsRound settings item) (checked_round m rt settings item dom w o)
    unfolding checked_round is_failed is_zero
    checked_round-IsRound dom w scan source none d i s c r n o parsed =
        ok-Ensures (IsRound settings item) (
          failure_reported dom (codes "check produced no readable report") w d i
            (rw (s, c, r, o, n) refl))
    checked_round-IsRound dom w scan source (some check) d i s c r n o parsed =
        >>=-Ensures (IsRound settings item) (select_working rt check.rows settings) _ (λ sel chosen.
          ok-Ensures (IsRound settings item) (record {
            same_domain = d;
            told = rw (s, c, r, n) refl;
            sound = record {
              both_passed = inr (s, c);
              all_passed = accepted_pass check.rows sel chosen;
              all_usable =
                  select_working-All IsUsable rt check.rows settings sel chosen
                    (parsed-IsUsable rt m.loads source check parsed);
            };
          }))

    check_round-IsRound :
        (dom : Dom) (scan : Report) (s : Step W)
        → dom.domain ≡ item.domain
        → dom.working ≡ []
        → dom.scan_rc ≡ some (pos 0)
        → dom.scan ≡ some scan
        → no_rows scan.rows ≡ false
        → dom.check ≡ none
        → Ensures (IsRound settings item) (check_round m rt settings item dom s)
    unfolding check_round is_failed is_zero
    check_round-IsRound dom scan s d i c r n o =
        if_each (Ensures (IsRound settings item)) (not (is_zero s.rc))
          (λ _. ok-Ensures (IsRound settings item) (
            failure_reported (record dom { check_rc = some s.rc })
              (failed_text m rt (codes "check") s) s.world d i (rw (c, r, o, n) refl)))
          (λ e.
            >>=-Ensures (IsRound settings item)
              (parse_check_report rt m.loads (m.report item.check_out s.world)) _
              (λ check parsed.
                checked_round-IsRound (record dom { check_rc = some s.rc }) s.world scan _ check d i
                  c (ap (λ z. some z) (zero_rc s.rc e)) r n o parsed))

    scanned_round-IsRound :
        (deadline : ℕ) (dom : Dom) (w : W) (o : Option Report)
        → dom.domain ≡ item.domain
        → dom.working ≡ []
        → dom.scan_rc ≡ some (pos 0)
        → dom.scan ≡ none
        → dom.check ≡ none
        → Ensures (IsRound settings item) (scanned_round m rt deadline settings item dom w o)
    unfolding scanned_round is_failed is_zero with_scan
    scanned_round-IsRound deadline dom w none d i c r o =
        ok-Ensures (IsRound settings item)
          (failure_reported dom (codes "scan produced no readable report") w d i (rw (c, r) refl))
    scanned_round-IsRound deadline dom w (some scan) d i c r o =
        if_each (Ensures (IsRound settings item)) (no_rows scan.rows)
          (λ e. ok-Ensures (IsRound settings item) (record {
            same_domain = d;
            told = rw (c, e) refl;
            sound = record { both_passed = inl i; all_passed = rw i tt; all_usable = rw i tt };
          }))
          (λ e.
            >>=-Ensures (IsRound settings item) (timed_step m rt deadline item.check w) _
              (λ s _. check_round-IsRound (with_scan m rt dom scan) scan s d i c refl e o))

    pub run_domain-IsRound :
        (deadline : ℕ) (w : W)
        → Ensures (IsRound settings item) (run_domain m rt deadline settings item w)
    unfolding run_domain scan_round new_dom is_failed
    run_domain-IsRound deadline w =
        >>=-Ensures (IsRound settings item) (timed_step m rt deadline item.scan w) _ (λ s _.
          let ran = record (new_dom item.domain) { scan_rc = some s.rc } in
          if_each (Ensures (IsRound settings item)) (not (is_zero s.rc))
            (λ e. ok-Ensures (IsRound settings item) (
              failure_reported ran (failed_text m rt (codes "scan") s) s.world refl refl
                (rw e refl)))
            (λ e.
              >>=-Ensures (IsRound settings item)
                (parse_scan_report rt m.loads (m.report item.scan_out s.world)) _
                (λ scan _.
                  scanned_round-IsRound deadline ran s.world scan refl refl
                    (ap (λ z. some z) (zero_rc s.rc e)) refl refl)))
