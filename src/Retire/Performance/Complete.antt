-- ===== src/Retire/Performance/Complete.antt =====
-- The performance monitor over a whole run.
use riscv_pipeline_research.Base.{
  ℕ, ◌+◌, ◌≤◌, ◌≡◌, ◌↔◌, refl, ap, ◌∙◌, arith, true, List, [], ◌∷◌, ◌++◌, pos_part, neg_part,
  Outcome, ok, err, ==_iff, length, int_of_bool, numbered,
}
use riscv_pipeline_research.Timing.{TimingExpectation}
use riscv_pipeline_research.Retire.{RetireEvent}
use riscv_pipeline_research.Retire.Tally.{one_more}
use riscv_pipeline_research.Retire.Contiguous.{IsNumbered, indexed-numbered}
use riscv_pipeline_research.Retire.Performance.{
  PerformanceResult, PerformanceMonitor, Results, performance_monitor, observe_retire, compared,
  passed, count_of, sum_of, complete, checked_count, expected_count, failed_count, passed_count,
  overall_pass, total_excess_cycles, total_early_cycles,
}
use riscv_pipeline_research.Retire.Performance.Order.{At, start-At, observe_retire-next, next-At}

-- A run stops at the first exception.
abbrev pub observe_all : List RetireEvent → PerformanceMonitor → Outcome PerformanceMonitor
observe_all [] m = ok m
observe_all (r ∷ rs) m = elim (observe_retire r m).0 [
  | err e ↦ err e
  | ok _ ↦ observe_all rs (observe_retire r m).1
]

observe_all-cons :
    (r : RetireEvent) (rs : List RetireEvent) (m m' : PerformanceMonitor)
    (result : PerformanceResult)
    → observe_retire r m ≡ (ok result, m')
    → observe_all (r ∷ rs) m ≡ observe_all rs m'
observe_all-cons r rs m m' result h = ap (λ a. go a) h
  where
    go : Outcome PerformanceResult × PerformanceMonitor → Outcome PerformanceMonitor
    go a = elim a.0 [ err e ↦ err e | ok _ ↦ observe_all rs a.1 ]

-- One retirement for each expectation, in order, after the first `n`.
abbrev pub IsRun : ℕ → List TimingExpectation → List RetireEvent → Type 0
IsRun n [] [] = Unit {0}
IsRun n [] (r ∷ rs) = ⊥
IsRun n (e ∷ es) [] = ⊥
IsRun n (e ∷ es) (r ∷ rs) = (r.instruction_id ≡ n + 1) × IsRun (n + 1) es rs

abbrev pub IsOnTime : List TimingExpectation → List RetireEvent → Type 0
IsOnTime [] rs = Unit {0}
IsOnTime (e ∷ es) [] = ⊥
IsOnTime (e ∷ es) (r ∷ rs) = (r.cycle ≡ e.retire_cycle) × IsOnTime es rs

abbrev pub expected_cycles : List TimingExpectation → ℕ
expected_cycles [] = 0
expected_cycles (e ∷ es) = e.retire_cycle + expected_cycles es

abbrev pub observed_cycles : List RetireEvent → ℕ
observed_cycles [] = 0
observed_cycles (r ∷ rs) = r.cycle + observed_cycles rs

abbrev excess : PerformanceResult → ℕ
excess r = pos_part r.delta_cycles

abbrev lead : PerformanceResult → ℕ
lead r = neg_part r.delta_cycles

count_of-append :
    (rs : Results) (k : ℕ) (result : PerformanceResult)
    → count_of passed (rs ++ (k, result) ∷ []) ≡ count_of passed rs + int_of_bool (passed result)
count_of-append [] k result = omega arith
count_of-append (x ∷ rs) k result = omega (arith, count_of-append rs k result)

count_of-le : (rs : Results) → count_of passed rs ≤ length rs
count_of-le [] = omega arith
count_of-le (x ∷ rs) = ground (arith, count_of-le rs)

sum_of-append :
    (f : PerformanceResult → ℕ) (rs : Results) (k : ℕ) (result : PerformanceResult)
    → sum_of f (rs ++ (k, result) ∷ []) ≡ sum_of f rs + f result
sum_of-append f [] k result = omega arith
sum_of-append f (x ∷ rs) k result = omega (arith, sum_of-append f rs k result)

compared-passed :
    (r : RetireEvent) (e : TimingExpectation)
    → (passed (compared r e) ≡ true) ↔ (r.cycle ≡ e.retire_cycle)
unfolding passed
compared-passed r e = ground arith

compared-balance :
    (r : RetireEvent) (e : TimingExpectation)
    → excess (compared r e) + e.retire_cycle ≡ lead (compared r e) + r.cycle
compared-balance r e = ground arith

-- How a run ends: nothing is missing, the passes are counted, and the excess balances.
record Ends (n : ℕ) (es : List TimingExpectation) (rs : List RetireEvent) (m : PerformanceMonitor)
    : Type 0 where
  after : PerformanceMonitor
  runs : observe_all rs m ≡ ok after
  done : length after.results_by_id ≡ length after.expected_by_id
  right :
      (count_of passed after.results_by_id ≡ length after.results_by_id)
      ↔ ((count_of passed m.results_by_id ≡ n) × IsOnTime es rs)
  balance :
      sum_of excess after.results_by_id + expected_cycles es + sum_of lead m.results_by_id
      ≡ sum_of lead after.results_by_id + observed_cycles rs + sum_of excess m.results_by_id

observe_all-Ends :
    (n : ℕ) (es : List TimingExpectation) (rs : List RetireEvent) (m : PerformanceMonitor)
    → At n es m
    → IsRun n es rs
    → Ends n es rs m
observe_all-Ends n [] [] m at run = record {
  after = m;
  runs = refl;
  done = omega (arith, at.checked, at.total);
  right = (λ h. (h ∙ at.checked, tt), λ h. omega (arith, h.0, at.checked));
  balance = omega arith;
}
observe_all-Ends n [] (r ∷ rs) m at run = absurd run
observe_all-Ends n (e ∷ es) [] m at run = absurd run
observe_all-Ends n (e ∷ es) (r ∷ rs) m at run =
    let ends =
      observe_all-Ends (n + 1) es rs _ (next-At n e es m r (compared r e) at run.0) run.1 in
    record {
      after = ends.after;
      runs = observe_all-cons r rs m _ _ (observe_retire-next n e es m r at run.0) ∙ ends.runs;
      done = ends.done;
      right =
          one_more (count_of passed m.results_by_id) n (passed (compared r e))
            (omega (arith, count_of-le m.results_by_id, at.checked)) (compared-passed r e)
            (rw (count_of-append m.results_by_id r.instruction_id (compared r e)) at ends.right);
      balance = omega (
        arith,
        ends.balance,
        compared-balance r e,
        sum_of-append excess m.results_by_id r.instruction_id (compared r e),
        sum_of-append lead m.results_by_id r.instruction_id (compared r e),
      );
    }

overall_pass_iff :
    (m : PerformanceMonitor)
    → length m.results_by_id ≡ length m.expected_by_id
    → (overall_pass m ≡ true) ↔ (count_of passed m.results_by_id ≡ length m.results_by_id)
unfolding overall_pass complete failed_count checked_count expected_count passed_count
overall_pass_iff m done = ground (arith, count_of-le m.results_by_id)

-- A monitor that is built from expectations numbered from 1, and sees one retirement for each of
-- them in order, raises no exception and is then complete; it passes the run exactly if every
-- instruction retired in the cycle that was expected of it, and the cycles that it counts as excess
-- and as early account for the whole difference between what was observed and what was expected.
pub performance_monitor-completes :
    (es : List TimingExpectation) (rs : List RetireEvent)
    → IsNumbered (λ (e : TimingExpectation). e.instruction_id) 1 es
    → IsRun 0 es rs
    → (m : PerformanceMonitor) × (m' : PerformanceMonitor) × (performance_monitor es ≡ ok m)
      × (observe_all rs m ≡ ok m')
      × (complete m' ≡ true)
      × ((overall_pass m' ≡ true) ↔ IsOnTime es rs)
      × (total_excess_cycles m' + expected_cycles es ≡ total_early_cycles m' + observed_cycles rs)
unfolding performance_monitor complete checked_count expected_count total_excess_cycles
    total_early_cycles
performance_monitor-completes es rs numbers run =
    let m : PerformanceMonitor = record {
      expected_by_id = numbered 1 es;
      results_by_id = [];
      last_observed_id = 0;
    } in
    let ends = observe_all-Ends 0 es rs m (start-At es) run in
    (
      m,
      ends.after,
      rw (indexed-numbered (λ (e : TimingExpectation). e.instruction_id) es numbers) refl,
      ends.runs,
      (==_iff _ _).1 ends.done,
      (
        λ h. (ends.right.0 ((overall_pass_iff ends.after ends.done).0 h)).1,
        λ h. (overall_pass_iff ends.after ends.done).1 (ends.right.1 (refl, h)),
      ),
      omega (arith, ends.balance),
    )
