-- ===== src/Tests/Retire.antt =====
-- The monitor, the two scoreboards and their common verdict on the retirement of one instruction,
-- `addi x1, x0, 5`.
use riscv_pipeline_research.Base.{
  ℕ, ◌+◌, ◌≡◌, ◌≢◌, ◌↔◌, refl, arith, true, false, Option, none, some, List, [], ◌∷◌, pos, ok, err,
  protocol_error, inl, numbered,
}
use riscv_pipeline_research.Machine
use riscv_pipeline_research.Machine.{ArchitecturalStep}
use riscv_pipeline_research.Retire.{RetireTag, RetireEvent, new_monitor}
use riscv_pipeline_research.Retire.Pipeline.{Cycle, watch_all, watch_all-delayed}
use riscv_pipeline_research.Retire.Expected.{ExpectedRetire, from_architectural_step}
use riscv_pipeline_research.Retire.Functional.{
  FunctionalResult, FunctionalScoreboard, functional_scoreboard, complete, failed_count, check,
}
use riscv_pipeline_research.Retire.Functional.Checks.{Judged, observe_retire-Judged}
use riscv_pipeline_research.Retire.Functional.Stream
use riscv_pipeline_research.Retire.Functional.Stream.{Observation, in_c, in_d, IsRightRun}
use riscv_pipeline_research.Retire.Functional.Complete.{functional_scoreboard-completes}
use riscv_pipeline_research.Retire.Performance
use riscv_pipeline_research.Retire.Performance.{
  PerformanceResult, PerformanceMonitor, performance_monitor, total_excess_cycles,
  total_early_cycles,
}
use riscv_pipeline_research.Retire.Performance.Order.{start-At, observe_retire-order}
use riscv_pipeline_research.Retire.Performance.Complete
use riscv_pipeline_research.Retire.Performance.Complete.{
  IsOnTime, expected_cycles, observed_cycles, performance_monitor-completes,
}
use riscv_pipeline_research.Retire.Verdict.{
  CrossVerdict, combine_verdicts, IsVerdict, combine_verdicts-IsVerdict,
}
use riscv_pipeline_research.Scoreboard.{CheckName}
use riscv_pipeline_research.Tests.Device.{report, no_store}
use riscv_pipeline_research.Tests.Timing.{expectation1}

abbrev tag : RetireTag
tag = record { instruction_id = 1; pc = 0; instruction = 0x0050_0093 }

-- A cycle in which the monitor is given `accepted`.
abbrev cycle_of : ℕ → Option RetireTag → Cycle
cycle_of n accepted = record { accepted = accepted; cycle = n; regwrite = false; rd = 0; wdata = 0 }

-- The tag is accepted in the first cycle; the third shows its register write.
abbrev cycles : List Cycle
cycles =
    cycle_of 1 (some tag)
    ∷ cycle_of 2 none
    ∷ record { accepted = none; cycle = 3; regwrite = true; rd = 1; wdata = 5 }
    ∷ []

abbrev retired : RetireEvent
retired = record { cycle = 3; valid = true; regwrite = true; rd = 1; wdata = 5; instruction_id = 1 }

watch_all-delayed_example : watch_all cycles new_monitor ≡ ok (none ∷ none ∷ some retired ∷ [])
watch_all-delayed_example = watch_all-delayed none none none 0 0 cycles (
  (refl, omega arith, omega arith),
  ((refl, omega arith, omega arith), ((omega arith, omega arith), omega arith, tt)),
)

abbrev entry : ExpectedRetire
entry = record {
  instruction_id = 1;
  pc = 0;
  instruction = 0x0050_0093;
  next_pc = 4;
  regwrite = true;
  rd = some 1;
  wdata = some 5;
  store_address = none;
  store_data = none;
  store_width_bytes = none;
}

abbrev seen : List Observation
seen = in_c no_store ∷ in_d retired 0 ∷ []

functional_scoreboard-completes_example :
    (b : FunctionalScoreboard) × (b' : FunctionalScoreboard) × (functional_scoreboard
        (from_architectural_step report ∷ [])
      ≡ ok b)
    × (Stream.observe_all seen b ≡ ok b')
    × (complete b' ≡ true)
    × ((failed_count b' ≡ 0) ↔ IsRightRun (report ∷ []) [] seen)
functional_scoreboard-completes_example =
    functional_scoreboard-completes (report ∷ []) seen (numbered_report, tt)
      (omega arith, omega arith, (omega arith, omega arith, tt))
  where
    numbered_report : (from_architectural_step report).instruction_id ≡ 1
    numbered_report = unfold from_architectural_step in refl

abbrev waiting : FunctionalScoreboard
waiting = record {
  expected_by_id = numbered 1 (from_architectural_step report ∷ []);
  store_by_id = numbered 1 (no_store ∷ []);
  results_by_id = [];
}

observe_retire-Judged_example : Judged report retired no_store 0 waiting
observe_retire-Judged_example =
    observe_retire-Judged report retired no_store 0 waiting (omega arith) refl refl refl

performance_monitor-completes_example :
    (m : PerformanceMonitor) × (m' : PerformanceMonitor) × (performance_monitor (expectation1 ∷ [])
      ≡ ok m)
    × (Complete.observe_all (retired ∷ []) m ≡ ok m')
    × (Performance.complete m' ≡ true)
    × ((Performance.overall_pass m' ≡ true) ↔ IsOnTime (expectation1 ∷ []) (retired ∷ []))
    × (total_excess_cycles m' + expected_cycles (expectation1 ∷ [])
        ≡ total_early_cycles m' + observed_cycles (retired ∷ []))
performance_monitor-completes_example =
    performance_monitor-completes (expectation1 ∷ []) (retired ∷ []) (refl, tt) (omega arith, tt)

abbrev fresh : PerformanceMonitor
fresh = record {
  expected_by_id = numbered 1 (expectation1 ∷ []);
  results_by_id = [];
  last_observed_id = 0;
}

observe_retire-order_example :
    Performance.observe_retire (record retired { instruction_id = 2 }) fresh
    ≡ (err protocol_error, fresh)
observe_retire-order_example =
    observe_retire-order 0 (expectation1 ∷ []) fresh (record retired { instruction_id = 2 })
      (start-At (expectation1 ∷ [])) (inl (λ same. absurd (omega (arith, same))))

abbrev functional_result : FunctionalResult
functional_result = record { instruction_id = 1; checks = check CheckName.write_data 5 6 ∷ [] }

abbrev performance_result : PerformanceResult
performance_result = record {
  instruction_id = 1;
  expected_retire_cycle = 4;
  observed_retire_cycle = 6;
  delta_cycles = pos 2;
}

combine_verdicts-IsVerdict_example :
    ((functional_result.instruction_id ≢ performance_result.instruction_id)
      → combine_verdicts functional_result performance_result ≡ err protocol_error)
    × (functional_result.instruction_id ≡ performance_result.instruction_id
        → (v : CrossVerdict) × (combine_verdicts functional_result performance_result ≡ ok v)
          × IsVerdict functional_result performance_result v)
combine_verdicts-IsVerdict_example = combine_verdicts-IsVerdict functional_result performance_result
