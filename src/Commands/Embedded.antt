-- ===== src/Commands/Embedded.antt =====
-- The global flags of the command lines of `plan`.
use Prim.Native.String.{String}
use web_zapret.Base.{
  ℕ, ◌≤◌, ◌≡◌, refl, sym, ap, ◌∙◌, subst, true, List, [], ◌∷◌, ◌++◌, append_assoc, All, Option,
  none, some, ok, >>=-eq-ok, ok_inj, if_each, ℤ, pos, negsuc, ltb_ℤ, arith,
}
use web_zapret.Text.{Text, codes}
use web_zapret.Text.Decimal.{decimal}
use web_zapret.Value.{Value, str, Dict, int_text, as_list, Runtime}
use web_zapret.Commands.{
  Run, Plan, word, required, optional, at_least_eight, workers_of, number, shown, joined, globals,
  scan_argv, check_argv, run_of, runs_of, plan,
}

-- A command line in the embedded mode: the program, the number of workers if there is one, at least eight
-- profiles for each instance, and the flags that keep the live engine alive, all before the subcommand.
abbrev pub IsEmbedded : List Value → String → Dict → List Value → Type 0
IsEmbedded workers command settings args =
    (bin : Value) × (k : ℕ) × (rest : List Value) × (8 ≤ k)
    × (args
        ≡ bin ∷ workers
          ++ (word "--profiles-per-instance"
                ∷ str (decimal k)
                ∷ word "--auto"
                ∷ word "--no-conflict-cleanup"
                ∷ optional (codes "via") "--via" settings
              ++ (word command ∷ rest)))

-- Both commands of a run; only the scan has workers.
abbrev pub IsEmbeddedRun : Dict → Run → Type 0
IsEmbeddedRun settings run =
    ((n : ℤ) × IsEmbedded (word "-w" ∷ str (int_text n) ∷ []) "scan" settings run.scan)
    × IsEmbedded [] "check" settings run.check

at_least_eight-pos : (n : ℤ) → (k : ℕ) × (8 ≤ k) × (at_least_eight n ≡ pos k)
unfolding at_least_eight
at_least_eight-pos n =
    if_each (λ z. (k : ℕ) × (8 ≤ k) × (z ≡ pos k)) (ltb_ℤ (pos 8) n) (over n)
      (λ _. (8, omega arith, refl))
  where
    over : (z : ℤ) → ltb_ℤ (pos 8) z ≡ true → (k : ℕ) × (8 ≤ k) × (z ≡ pos k)
    over (pos k) h = (k, ground arith, refl)
    over (negsuc k) h = absurd (ground arith)

abbrev flags : Value → List Value → ℤ → List Value → List Value
flags bin workers n via =
    bin ∷ workers
    ++ (word "--profiles-per-instance"
        ∷ str (int_text n)
        ∷ word "--auto"
        ∷ word "--no-conflict-cleanup"
        ∷ via)

flags-append :
    (bin : Value) (workers : List Value) (n : ℤ) (via rest : List Value)
    → (flags bin workers n via ++ rest) ≡ flags bin workers n (via ++ rest)
flags-append bin workers n via rest = ap (λ l. bin ∷ l) (append_assoc workers _ rest)

globals-shape :
    (rt : Runtime) (settings : Dict) (workers : Option ℤ) (args : List Value) (command : String)
    (rest : List Value)
    → globals rt settings workers ≡ ok args
    → IsEmbedded (workers_of workers) command settings (args ++ (word command ∷ rest))
unfolding globals int_text
globals-shape rt settings workers args command rest h =
    let (bin, _, h₁) = >>=-eq-ok (required (codes "bin") settings) _ h in
    let (n, _, h₂) = >>=-eq-ok (number rt (codes "profiles_per_instance") settings) _ h₁ in
    let (k, enough, e) = at_least_eight-pos n in
    (
      bin,
      k,
      rest,
      enough,
      ap (λ l. l ++ (word command ∷ rest)) (sym (ok_inj h₂))
          ∙ flags-append bin (workers_of workers) (at_least_eight n)
              (optional (codes "via") "--via" settings) (word command ∷ rest)
          ∙ ap
              (λ z.
                flags bin (workers_of workers) z
                  (optional (codes "via") "--via" settings ++ (word command ∷ rest)))
              e,
    )

scan_argv-IsEmbedded :
    (rt : Runtime) (settings : Dict) (domain : Value) (scan_out : Text) (args : List Value)
    → scan_argv rt settings domain scan_out ≡ ok args
    → (n : ℤ) × IsEmbedded (word "-w" ∷ str (int_text n) ∷ []) "scan" settings args
unfolding scan_argv workers_of
scan_argv-IsEmbedded rt settings domain scan_out args h =
    let (n, _, h₁) = >>=-eq-ok (number rt (codes "workers") settings) _ h in
    let (front, flagged, h₂) = >>=-eq-ok (globals rt settings (some n)) _ h₁ in
    let (_, _, h₃) = >>=-eq-ok (joined rt settings) _ h₂ in
    let (_, _, h₄) = >>=-eq-ok (required (codes "dns") settings) _ h₃ in
    let (_, _, h₅) = >>=-eq-ok (shown rt (codes "scan_timeout") settings) _ h₄ in
    let (_, _, h₆) = >>=-eq-ok (shown rt (codes "scan_top") settings) _ h₅ in
    (
      n,
      subst (λ a. IsEmbedded (word "-w" ∷ str (int_text n) ∷ []) "scan" settings a) (ok_inj h₆)
          (globals-shape rt settings (some n) front "scan" _ flagged),
    )

check_argv-IsEmbedded :
    (rt : Runtime) (settings : Dict) (domain : Value) (scan_out check_out : Text)
    (args : List Value)
    → check_argv rt settings domain scan_out check_out ≡ ok args
    → IsEmbedded [] "check" settings args
unfolding check_argv workers_of
check_argv-IsEmbedded rt settings domain scan_out check_out args h =
    let (front, flagged, h₁) = >>=-eq-ok (globals rt settings none) _ h in
    let (_, _, h₂) = >>=-eq-ok (required (codes "dns") settings) _ h₁ in
    let (_, _, h₃) = >>=-eq-ok (shown rt (codes "check_timeout") settings) _ h₂ in
    let (_, _, h₄) = >>=-eq-ok (shown rt (codes "idle_ms") settings) _ h₃ in
    let (_, _, h₅) = >>=-eq-ok (shown rt (codes "take") settings) _ h₄ in
    let (_, _, h₆) = >>=-eq-ok (shown rt (codes "passes") settings) _ h₅ in
    let (_, _, h₇) = >>=-eq-ok (required (codes "probe_path") settings) _ h₆ in
    let (_, _, h₈) = >>=-eq-ok (required (codes "identity_path") settings) _ h₇ in
    subst (λ a. IsEmbedded [] "check" settings a) (ok_inj h₈)
      (globals-shape rt settings none front "check" _ flagged)

run_of-IsEmbedded :
    (rt : Runtime) (run_dir : Text) (settings : Dict) (domain : Value) (run : Run)
    → run_of rt run_dir settings domain ≡ ok run
    → IsEmbeddedRun settings run
unfolding run_of
run_of-IsEmbedded rt run_dir settings domain run h =
    let (scan, scanned, h₁) = >>=-eq-ok (scan_argv rt settings domain _) _ h in
    let (check, checked, h₂) = >>=-eq-ok (check_argv rt settings domain _ _) _ h₁ in
    subst (IsEmbeddedRun settings) (ok_inj h₂) (
      scan_argv-IsEmbedded rt settings domain _ scan scanned,
      check_argv-IsEmbedded rt settings domain _ _ check checked,
    )

runs_of-IsEmbedded :
    (rt : Runtime) (run_dir : Text) (settings : Dict) (vs : List Value) (runs : List Run)
    → runs_of rt run_dir settings vs ≡ ok runs
    → All (IsEmbeddedRun settings) runs
unfolding runs_of
runs_of-IsEmbedded rt run_dir settings [] runs h =
    subst (All (IsEmbeddedRun settings)) (ok_inj h) tt
runs_of-IsEmbedded rt run_dir settings (v ∷ vs) runs h =
    let (run, first, h₁) = >>=-eq-ok (run_of rt run_dir settings v) _ h in
    let (rest, others, h₂) = >>=-eq-ok (runs_of rt run_dir settings vs) _ h₁ in
    subst (All (IsEmbeddedRun settings)) (ok_inj h₂) (
      run_of-IsEmbedded rt run_dir settings v run first,
      runs_of-IsEmbedded rt run_dir settings vs rest others,
    )

-- Every command line of a plan, whatever the settings are, runs blockcheckw in its embedded mode:
-- `--no-conflict-cleanup` and at least eight profiles for each instance stand before the subcommand; the
-- scan alone has workers.
pub plan-IsEmbedded :
    (rt : Runtime) (settings : Dict) (run_dir : Text) (p : Plan)
    → plan rt settings run_dir ≡ ok p
    → All (IsEmbeddedRun settings) p.runs
unfolding plan
plan-IsEmbedded rt settings run_dir p h =
    let (domains, _, h₁) = >>=-eq-ok (required (codes "domains") settings) _ h in
    let (vs, _, h₂) = >>=-eq-ok (as_list domains) _ h₁ in
    let (runs, planned, h₃) = >>=-eq-ok (runs_of rt run_dir settings vs) _ h₂ in
    let (_, _, h₄) = >>=-eq-ok (required (codes "bin") settings) _ h₃ in
    let (_, _, h₅) = >>=-eq-ok (required (codes "queue") settings) _ h₄ in
    subst (λ (q : Plan). All (IsEmbeddedRun settings) q.runs) (ok_inj h₅)
      (runs_of-IsEmbedded rt run_dir settings vs runs planned)
