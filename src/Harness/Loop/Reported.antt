-- ===== src/Harness/Loop/Reported.antt =====
-- What the result of `run` says of each domain.
use web_zapret.Base.{
  ℕ, ◌≡◌, refl, true, false, not, List, [], ◌∷◌, ◌++◌, map, any, Option, none, some, ok, Ensures,
  ok-Ensures, >>=-Ensures, All, pos,
}
use web_zapret.Text.{Text, codes, starts_with}
use web_zapret.Dict.{get_or}
use web_zapret.Value.{int, Dict}
use web_zapret.Commands.{Run, plan}
use web_zapret.Reports.{Doubles}
use web_zapret.Harness.{Machine, Dom, Round, Rounds, Summary, no_rows, as_error, scan_passed}
use web_zapret.Harness.Loop.{run_domain, run_domains, log_of, times_of, summary_of, run}
use web_zapret.Harness.Loop.Iteration.{
  is_failed, message_start, Told, IsSound, IsRound, run_domain-IsRound,
}

module _ (rt : Doubles) where
  -- The errors are those of the failed domains, one for each, in their order.
  pub data Complaints : List Dom → List Text → Type 0 where
    end : Complaints [] []
    silent :
        (d : Dom) (ds : List Dom) (es : List Text)
        → is_failed d ≡ false
        → Complaints ds es
        → Complaints (d ∷ ds) es
    told :
        (d : Dom) (ds : List Dom) (e : Text) (es : List Text)
        → is_failed d ≡ true
        → starts_with e (message_start rt d.domain) ≡ true
        → Complaints ds es
        → Complaints (d ∷ ds) (e ∷ es)

  -- What the lists of the result say, for the plans of a run.
  record AreRounds {W : Type 0} (settings : Dict) (items : List Run) (r : Rounds W) : Type 0 where
    in_order : map (λ (d : Dom). d.domain) r.domains ≡ map (λ (i : Run). i.domain) items
    told : Complaints r.domains r.errors
    sound : All (IsSound rt settings) r.domains

  with_round :
      {W : Type 0} (settings : Dict) (item : Run) (items : List Run) (r : Round W) (rest : Rounds W)
      → IsRound rt settings item r
      → AreRounds settings items rest
      → AreRounds settings (item ∷ items) (record {
        domains = r.dom ∷ rest.domains;
        errors = as_error r.error ++ rest.errors;
        world = rest.world;
      })
  unfolding as_error
  with_round settings item items r rest one others = record {
    in_order = rw (one.same_domain, others.in_order) refl;
    told = go r.error one.told;
    sound = (one.sound, others.sound);
  }
    where
      go :
          (o : Option Text)
          → Told rt r.dom o
          → Complaints (r.dom ∷ rest.domains) (as_error o ++ rest.errors)
      go none quiet = silent r.dom rest.domains rest.errors quiet others.told
      go (some t) (failed, begins) = told r.dom rest.domains t rest.errors failed begins others.told

  run_domains-AreRounds :
      {W : Type 0} (m : Machine W) (deadline : ℕ) (settings : Dict) (items : List Run) (w : W)
      → Ensures (AreRounds settings items) (run_domains m rt deadline settings items w)
  unfolding run_domains
  run_domains-AreRounds m deadline settings [] w =
      ok-Ensures (AreRounds settings []) (record { in_order = refl; told = end; sound = tt })
  run_domains-AreRounds m deadline settings (item ∷ items) w =
      let P = AreRounds settings (item ∷ items) in
      >>=-Ensures P (run_domain m rt deadline settings item w) _ (λ r one.
        >>=-Ensures P (run_domains m rt deadline settings items r.world) _ (λ rest others.
          ok-Ensures P (
            with_round settings item items r rest
              (run_domain-IsRound rt m settings item deadline w r one)
              (run_domains-AreRounds m deadline settings items r.world rest others))))

  -- What the result says of the plans that were run.
  pub record IsReported (settings : Dict) (r : Summary) : Type 0 where
    pub in_order : map (λ (d : Dom). d.domain) r.domains ≡ map (λ (i : Run). i.domain) r.plans
    pub told : Complaints r.domains r.errors
    pub sound : All (IsSound rt settings) r.domains
    pub good_any : r.good ≡ any scan_passed r.domains
    pub success_any : r.success ≡ any (λ (d : Dom). not (no_rows d.working)) r.domains

  -- A run that returns, whatever its subprocesses do, reports each planned domain once, in the order of the
  -- plans. It has one error for each domain that failed, in that order, which begins with the domain, and no
  -- other error: a domain fails if its scan does or leaves no report, or if the scan found strategies and
  -- their check fails or leaves no report. The strategies that it calls working have passed the filter and
  -- have the types of a parsed row, and where there are any, both steps exited with 0. It is `ok` if and only
  -- if a scan exited with 0, and `success` if and only if there is a strategy that works.
  pub run-IsReported :
      {W : Type 0} (m : Machine W) (settings : Dict) (run_dir : Text) (w : W) (r : Summary)
      → run m rt settings run_dir w ≡ ok r
      → IsReported settings r
  unfolding run summary_of
  run-IsReported m settings run_dir w =
      let P = IsReported settings in
      let (started, first) = m.now w in
      >>=-Ensures P (m.later started (get_or (codes "job_timeout") (int (pos 3600)) settings)) _
        (λ deadline _. >>=-Ensures P (plan rt.runtime settings run_dir) _ (λ p _.
          >>=-Ensures P (run_domains m rt deadline settings p.runs first) _ (λ rounds ran.
            let all_rounds = run_domains-AreRounds m deadline settings p.runs first rounds ran in
            >>=-Ensures P
              (log_of m rt (get_or (codes "log_lines") (int (pos 400)) settings)
                (m.log_bytes (times_of m rt run_dir started rounds.world).1))
              _
              (λ log _. ok-Ensures P (record {
                in_order = all_rounds.in_order;
                told = all_rounds.told;
                sound = all_rounds.sound;
                good_any = refl;
                success_any = refl;
              })))))
