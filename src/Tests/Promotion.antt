-- ===== src/Tests/Promotion.antt =====
-- The hit that `add x2, x1, x1` makes after `addi x1, x0, 5`, from its realization to its promotion.
use riscv_pipeline_research.Base.{
  ℕ, ◌+◌, ◌≤◌, ◌<◌, ◌≡◌, ◌↔◌, ◌⊎◌, arith, refl, true, false, none, some, List, [], ◌∷◌, pos, ok,
  lookup, take,
}
use riscv_pipeline_research.Isa.{ProducerType, ConsumerType}
use riscv_pipeline_research.Event.{ExecutionEvent}
use riscv_pipeline_research.HazardBins.History.{
  L1Hit, Role, is_positive_producer, is_nearest_writer,
}
use riscv_pipeline_research.HazardBins.Predicates.{h03}
use riscv_pipeline_research.Timing.{Forward, forward_for_age}
use riscv_pipeline_research.HazardBins.RawBins.{RawBin, distance_of}
use riscv_pipeline_research.Realization.{ControlRealizationResult, check, passed}
use riscv_pipeline_research.Realization.Agreement.{Realizes, age_of, check-Realizes}
use riscv_pipeline_research.Validated.{
  ResultKind, L1ValidationOutcome, ValidatedCollector, new_validated, evidence_for,
  evaluate_architecture,
}
use riscv_pipeline_research.Validated.Steps.{prune}
use riscv_pipeline_research.Validated.Balance.{IsBalanced}
use riscv_pipeline_research.Validated.Gate.{Participates, Needs, evaluate_architecture-promotes}
use riscv_pipeline_research.Validated.Operations.{
  Operation, registers, records, prunes, perform_all, perform_all-IsBalanced,
}
use riscv_pipeline_research.Validated.Pruning.{IsNeeded, prune-keeps}
use riscv_pipeline_research.Tests.{producer, consumer}
use riscv_pipeline_research.Tests.Coverage.{h02_hit}

-- `jal x0, 4` and `addi x2, x1, 0`, behind `producer`.
abbrev jump : ExecutionEvent
jump = record consumer {
  instruction = 0x0040_006f;
  rs1 = 0;
  rs2 = 4;
  rd = 0;
  uses_rs1 = false;
  uses_rs2 = false;
  producer_type = ProducerType.pc_plus_4;
  consumer_type = ConsumerType.no_gpr_source;
  forward_a = 0;
  forward_b = 0;
}

abbrev reader : ExecutionEvent
reader = record producer {
  instruction_index = 3;
  pc = 8;
  instruction = 0x0000_8113;
  rs1 = 1;
  rs2 = 0;
  rd = 2;
}

abbrev h03_hit : L1Hit
h03_hit = record {
  bin_id = 3;
  consumer_instruction_index = 3;
  producer_instruction_indices = 1 ∷ [];
  matched_sources = Role.rs1 ∷ [];
}

h03_fires : h03 (jump ∷ producer ∷ []) reader ≡ some h03_hit
unfolding h03 is_positive_producer is_nearest_writer
h03_fires = refl

-- The two bubbles behind the jump delay the reader.
check-Realizes_example :
    (f : Forward) × (forward_for_age (some (pos (age_of RawBin.alu_d2_rs1))) ≡ ok f)
    × ((result : ControlRealizationResult) × (check h03_hit reader ((2, jump) ∷ (1, producer) ∷ [])
          ≡ ok result)
        × ((passed result ≡ true) ↔ Realizes RawBin.alu_d2_rs1 f h03_hit reader))
    × (distance_of RawBin.alu_d2_rs1 ≡ 2
        → (f ≡ Forward.mem_wb)
          × (forward_for_age (some (pos (age_of RawBin.alu_d2_rs1 + 2)))
              ≡ ok Forward.register_file))
check-Realizes_example =
    check-Realizes RawBin.alu_d2_rs1 (jump ∷ producer ∷ []) reader h03_hit
      ((2, jump) ∷ (1, producer) ∷ []) 2 h03_fires (omega arith)

-- The results of both instructions arrive, the register write of the second as the last.
abbrev calls : List Operation
calls =
    records (pos 1) ResultKind.pc true
    ∷ records (pos 1) ResultKind.store true
    ∷ records (pos 1) ResultKind.writeback true
    ∷ registers h02_hit true
    ∷ records (pos 2) ResultKind.pc true
    ∷ records (pos 2) ResultKind.store true
    ∷ records (pos 2) ResultKind.writeback true
    ∷ prunes (pos 2)
    ∷ []

perform_all-IsBalanced_example : IsBalanced (perform_all calls new_validated)
perform_all-IsBalanced_example = perform_all-IsBalanced calls

evaluate_architecture-promotes_example :
    ((o : L1ValidationOutcome) × ((evaluate_architecture h02_hit
          (perform_all calls new_validated)).0
        ≡ some o)
      × (o.validated ≡ true))
    ↔ ((i : ℕ) (kind : ResultKind)
        → Participates h02_hit i
        → Needs h02_hit kind
        → evidence_for (perform_all calls new_validated).architectural_results (i, kind)
          ≡ some true)
evaluate_architecture-promotes_example =
    evaluate_architecture-promotes h02_hit (perform_all calls new_validated)

-- The hit still waits for the results of the second instruction.
abbrev waiting : ValidatedCollector
waiting = perform_all (take 4 calls) new_validated

prune-keeps_example :
    ((9 ≤ 1 + 4) ⊎ IsNeeded 1 waiting
      → lookup 1 (prune (pos 9) waiting).1.architectural_results
        ≡ lookup 1 waiting.architectural_results)
    × ((1 + 4 < 9)
        → (IsNeeded 1 waiting → ⊥)
        → lookup 1 (prune (pos 9) waiting).1.architectural_results ≡ none)
    × ((prune (pos 9) waiting).1 ≡ record waiting {
      architectural_results = (prune (pos 9) waiting).1.architectural_results;
    })
prune-keeps_example = prune-keeps 9 1 waiting (omega arith) (omega arith)
