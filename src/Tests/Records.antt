-- ===== src/Tests/Records.antt =====
-- A hit that is seen, validated and promoted.
use riscv_pipeline_research.Base.{◌≡◌, refl, true, false, ◌||◌, none, some, List, [], ◌∷◌, pos, ok}
use riscv_pipeline_research.Validated.{outcome_of}
use riscv_pipeline_research.Attribution.Validation.{
  ValidationStatus, ValidatedAttributionRecord, EvidenceSet, attributed, attribute_l1_hit,
  validate_identity, validate_validation_consistency, status_of,
}
use riscv_pipeline_research.Promotion.{CoverageCollector, coverage_collector, new_bin}
use riscv_pipeline_research.Promotion.Records.{promote_l1_attribution}
use riscv_pipeline_research.Promotion.Verdict.{state_of, outcome_of-IsJudged, promote-attributed}
use riscv_pipeline_research.Promotion.Invariant.{IsCollector, Grows}
use riscv_pipeline_research.Promotion.Changes.{Bin, IsBin, bin_state, firsts_of, firsts}
use riscv_pipeline_research.Promotion.Firsts.{no_firsts, call_all-IsCollector}
use riscv_pipeline_research.Promotion.Calls.{Call, l1_intent, l1_validated, instruction, call_all}
use riscv_pipeline_research.Base.{replicate, set}
use riscv_pipeline_research.Tests.Coverage.{h02_hit}

abbrev started : CoverageCollector
started = record {
  checkpoint_interval = 2;
  retain_checkpoints = true;
  has_sink = false;
  l1_state = replicate 20 new_bin;
  l2_state = replicate 62 new_bin;
  checkpoints = [];
  sunk = [];
  executed_instructions = 0;
  last_instruction_id = 0;
}

started_from : coverage_collector (pos 2) true false ≡ ok started
unfolding coverage_collector
started_from = refl

abbrev seen : List Call
seen =
    instruction (pos 1) (pos 1)
    ∷ instruction (pos 2) (pos 2)
    ∷ l1_intent 2 (pos 2) (pos 2) (pos 100)
    ∷ []

abbrev later : List Call
later = l1_intent 2 (pos 3) (pos 3) (pos 200) ∷ l1_validated 2 (pos 2) (pos 4) (pos 300) ∷ []

call_all-IsCollector_example :
    IsCollector (call_all seen started)
    × ((bin : Bin)
        → IsBin bin
        → firsts_of (bin_state bin (call_all seen started)) ≡ firsts bin seen no_firsts)
    × Grows (call_all seen started) (call_all later (call_all seen started))
call_all-IsCollector_example =
    call_all-IsCollector (pos 2) true false started seen later started_from

-- The collector with the bin H02 seen.
abbrev with_intent : CoverageCollector
with_intent = record started {
  l1_state = set started.l1_state 1 (record new_bin {
    intent_seen = true;
    intent_first = some (record { instruction_id = 2; cycle = 2; wall_ns = 100 });
  });
}

abbrev evidence : EvidenceSet
evidence = record { validation = some (outcome_of h02_hit []); hazard = none; performance = none }

abbrev attribution : ValidatedAttributionRecord
attribution = attributed 2 2 evidence ValidationStatus.unresolved

attribution_made : attribute_l1_hit 2 2 evidence ≡ ok attribution
unfolding attribute_l1_hit validate_identity validate_validation_consistency status_of
attribution_made = refl

promote-attributed_example :
    ((promote_l1_attribution attribution (pos 4) (pos 300) with_intent).0 ≡ ok true)
    × ((state_of
          (promote_l1_attribution attribution (pos 4) (pos 300) with_intent).1
          2).validated_seen
        ≡ (false || true))
promote-attributed_example =
    promote-attributed 2 2 4 300 evidence attribution with_intent (outcome_of-IsJudged h02_hit [])
      attribution_made refl refl
