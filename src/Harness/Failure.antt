-- ===== src/Harness/Failure.antt =====
-- What the flags of the result of `run` promise.
use web_zapret.Base.{
  length-map, ◌≡◌, suc, refl, sym, ap, ◌∙◌, inl, inr, true, false, not, List, [], ◌∷◌, any, length,
  ok, All, arith, or_false,
}
use web_zapret.Text.{Text}
use web_zapret.Value.{Dict}
use web_zapret.Commands.{Run}
use web_zapret.Reports.{Doubles}
use web_zapret.Harness.{Machine, Dom, Summary, is_zero, no_rows, scan_passed}
use web_zapret.Harness.Loop.{run}
use web_zapret.Harness.Loop.Iteration.{not_passed-failed, IsSound}
use web_zapret.Harness.Loop.Reported.{Complaints, end, silent, told, run-IsReported}

module _ (rt : Doubles) where
  all_told :
      (ds : List Dom) (es : List Text)
      → Complaints rt ds es
      → any scan_passed ds ≡ false
      → length es ≡ length ds
  all_told [] [] end h = refl
  all_told [] (_ ∷ _) c h = elim c [ ]
  all_told (d ∷ ds) es (silent _ _ _ quiet c) h =
      let (lost, _) = or_false (scan_passed d) (any scan_passed ds) h in
      let failed = not_passed-failed d lost in ground arith
  all_told (d ∷ ds) (e ∷ es) (told _ _ _ _ failed begins c) h =
      let (_, rest) = or_false (scan_passed d) (any scan_passed ds) h in
      ap suc (all_told ds es c rest)

  worked :
      (settings : Dict) (ds : List Dom)
      → All (IsSound rt settings) ds
      → any (λ (d : Dom). not (no_rows d.working)) ds ≡ true
      → any scan_passed ds ≡ true
  unfolding scan_passed no_rows is_zero
  worked settings [] s h = cc
  worked settings (d ∷ ds) (s, ss) h = elim (s.both_passed) [
    | inl idle ↦ let rest = worked settings ds ss (rw idle at h) in ground arith
    | inr (scanned, _) ↦ rw scanned refl
  ]

  -- The flags of a run that returns: if it is not `ok`, then there is an error for each of its plans; and if
  -- it is a `success`, then it is `ok`.
  pub run_flags :
      {W : Type 0} (m : Machine W) (settings : Dict) (run_dir : Text) (w : W) (r : Summary)
      → run m rt settings run_dir w ≡ ok r
      → (r.good ≡ false → length r.errors ≡ length r.plans) × (r.success ≡ true → r.good ≡ true)
  run_flags m settings run_dir w r h =
      let i = run-IsReported rt m settings run_dir w r h in
      (
        λ bad.
            all_told r.domains r.errors i.told (sym i.good_any ∙ bad)
            ∙ sym (length-map (λ (d : Dom). d.domain) r.domains)
            ∙ ap length i.in_order
            ∙ length-map (λ (p : Run). p.domain) r.plans,
        λ good. i.good_any ∙ worked settings r.domains i.sound (sym i.success_any ∙ good),
      )
