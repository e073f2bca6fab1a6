-- ===== src/Retire/Performance.antt =====
-- The performance monitor, research/week8/performance_monitor.py: the cycle in which an instruction
-- retires against the one that the timing oracle gives.
pub mod Order
pub mod Complete
use riscv_pipeline_research.Base.{
  ℕ, ◌+◌, ◌-◌, Bool, true, false, not, ◌&&◌, Option, none, some, List, [], ◌∷◌, ℤ, pos, negsuc,
  pos_part, neg_part, sub_ℕ, ltb_ℤ, Outcome, ok, err, protocol_error, ◌>>=◌, ◌==◌, leb,
  if◌then◌else◌, int_of_bool, length, lookup, insert, sorted, has_key,
}
use riscv_pipeline_research.Timing.{TimingExpectation}
use riscv_pipeline_research.Retire.{RetireEvent}
use riscv_pipeline_research.Retire.Contiguous.{indexed}

pub record PerformanceResult : Type 0 where
  pub instruction_id : ℕ
  pub expected_retire_cycle : ℕ
  pub observed_retire_cycle : ℕ
  pub delta_cycles : ℤ

-- `PerformanceResult.passed`, `late` and `early`
abbrev pub is_zero : ℤ → Bool
is_zero (pos n) = n == 0
is_zero (negsuc n) = false

unfoldable pub passed : PerformanceResult → Bool
passed r = is_zero r.delta_cycles

unfoldable pub late : PerformanceResult → Bool
late r = ltb_ℤ (pos 0) r.delta_cycles

unfoldable pub early : PerformanceResult → Bool
early r = ltb_ℤ r.delta_cycles (pos 0)

pub record PerformanceMonitor : Type 0 where
  pub expected_by_id : List (ℕ × TimingExpectation)
  pub results_by_id : List (ℕ × PerformanceResult)
  pub last_observed_id : ℕ

-- `PerformanceMonitor(…)`
unfoldable pub performance_monitor : List TimingExpectation → Outcome PerformanceMonitor
performance_monitor expectations = do
  expected_by_id ← indexed (λ item. item.instruction_id) 1 expectations []
  ok (record { expected_by_id = expected_by_id; results_by_id = []; last_observed_id = 0 })

abbrev pub Results : Type 0
Results = List (ℕ × PerformanceResult)

abbrev pub count_of : (PerformanceResult → Bool) → Results → ℕ
count_of p [] = 0
count_of p (x ∷ xs) = int_of_bool (p x.1) + count_of p xs

abbrev pub sum_of : (PerformanceResult → ℕ) → Results → ℕ
sum_of f [] = 0
sum_of f (x ∷ xs) = f x.1 + sum_of f xs

abbrev pub max_of : (PerformanceResult → ℕ) → Results → ℕ
max_of f [] = 0
max_of f (x ∷ xs) = let rest = max_of f xs in if leb rest (f x.1) then f x.1 else rest

unfoldable pub expected_count : PerformanceMonitor → ℕ
expected_count m = length m.expected_by_id

unfoldable pub checked_count : PerformanceMonitor → ℕ
checked_count m = length m.results_by_id

unfoldable pub passed_count : PerformanceMonitor → ℕ
passed_count m = count_of passed m.results_by_id

unfoldable pub failed_count : PerformanceMonitor → ℕ
unfolding checked_count passed_count
failed_count m = checked_count m - passed_count m

unfoldable pub late_count : PerformanceMonitor → ℕ
late_count m = count_of late m.results_by_id

unfoldable pub early_count : PerformanceMonitor → ℕ
early_count m = count_of early m.results_by_id

-- `max(0, result.delta_cycles)` is the positive part, `max(0, -result.delta_cycles)` the negative.
unfoldable pub total_excess_cycles : PerformanceMonitor → ℕ
total_excess_cycles m = sum_of (λ r. pos_part r.delta_cycles) m.results_by_id

unfoldable pub max_excess_cycles : PerformanceMonitor → ℕ
max_excess_cycles m = max_of (λ r. pos_part r.delta_cycles) m.results_by_id

unfoldable pub total_early_cycles : PerformanceMonitor → ℕ
total_early_cycles m = sum_of (λ r. neg_part r.delta_cycles) m.results_by_id

abbrev pub failing_ids : Results → List ℕ
failing_ids [] = []
failing_ids (x ∷ xs) = if not (passed x.1) then x.0 ∷ failing_ids xs else failing_ids xs

unfoldable pub failed_instruction_ids : PerformanceMonitor → List ℕ
failed_instruction_ids m = failing_ids (sorted m.results_by_id)

abbrev pub without_result : Results → List (ℕ × TimingExpectation) → List ℕ
without_result results [] = []
without_result results (x ∷ xs) =
    if not (has_key x.0 results) then x.0 ∷ without_result results xs else without_result results xs

unfoldable pub missing_instruction_ids : PerformanceMonitor → List ℕ
missing_instruction_ids m = without_result m.results_by_id (sorted m.expected_by_id)

unfoldable pub complete : PerformanceMonitor → Bool
unfolding checked_count expected_count
complete m = checked_count m == expected_count m

unfoldable pub overall_pass : PerformanceMonitor → Bool
unfolding complete failed_count
overall_pass m = complete m && (failed_count m == 0)

-- The result that `observe_retire` notes.
abbrev pub compared : RetireEvent → TimingExpectation → PerformanceResult
compared retire expected = record {
  instruction_id = retire.instruction_id;
  expected_retire_cycle = expected.retire_cycle;
  observed_retire_cycle = retire.cycle;
  delta_cycles = sub_ℕ retire.cycle expected.retire_cycle;
}

-- `observe_retire` from the expectation that it looks up.
abbrev pub against :
    Option TimingExpectation
    → RetireEvent
    → PerformanceMonitor
    → Outcome PerformanceResult × PerformanceMonitor
against none retire m = (err protocol_error, m)
against (some expected) retire m =
    if has_key retire.instruction_id m.results_by_id
    then (err protocol_error, m)
    else if not (retire.instruction_id == m.last_observed_id + 1)
    then (err protocol_error, m)
    else (
      ok (compared retire expected),
      record m {
        results_by_id = insert retire.instruction_id (compared retire expected) m.results_by_id;
        last_observed_id = retire.instruction_id;
      },
    )

unfoldable pub observe_retire :
    RetireEvent → PerformanceMonitor → Outcome PerformanceResult × PerformanceMonitor
observe_retire retire m = against (lookup retire.instruction_id m.expected_by_id) retire m
