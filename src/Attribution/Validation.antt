-- ===== src/Attribution/Validation.antt =====
-- The evidence on an L1 hit together, research/week9/validated_attribution.py.
use riscv_pipeline_research.Base.{
  ℕ, Bool, true, false, not, ◌&&◌, ◌||◌, Option, none, some, List, [], ◌∷◌, map, ℤ, Outcome, ok,
  err, value_error, raise_if, require, ◌>>=◌, ◌>>◌, ◌==◌, if◌then◌else◌,
}
use riscv_pipeline_research.Realization.{is_bin}
use riscv_pipeline_research.Validated.{L1ValidationOutcome, ResultKind}
use riscv_pipeline_research.Attribution
use riscv_pipeline_research.Attribution.{
  HazardAttribution, AttributionCheck, AttributionName, Value, number, same_value, failed_checks,
}
use riscv_pipeline_research.Retire.Performance
use riscv_pipeline_research.Retire.Performance.{PerformanceResult}

pub data ValidationStatus : Type 0 where
  intended realized_correctly timing_mismatch functional_mismatch timing_and_functional_mismatch
        unresolved :
      ValidationStatus

pub record ValidatedAttributionRecord : Type 0 where
  pub instruction_id : ℕ
  pub intent_bin : ℕ
  pub validated_bin : Option ℕ
  pub validated : Bool
  pub status : ValidationStatus
  pub control_pass : Option Bool
  pub functional_pass : Option Bool
  pub performance_pass : Option Bool
  pub failed_control_checks : List AttributionName
  pub failed_functional_checks : List (ℕ × ResultKind)
  pub timing_delta_cycles : Option ℤ

abbrev pub is_true : Option Bool → Bool
is_true none = false
is_true (some v) = v

abbrev pub is_false : Option Bool → Bool
is_false none = false
is_false (some v) = not v

-- `_validate_validation_consistency`
unfoldable pub validate_validation_consistency : L1ValidationOutcome → Outcome (Unit {0})
validate_validation_consistency v = do
  raise_if (v.validated && not v.control_passed) value_error
  raise_if (v.validated && not (is_true v.architectural_passed)) value_error
  raise_if (not v.control_passed && v.validated) value_error
  raise_if (is_false v.architectural_passed && v.validated) value_error

-- The three sources of evidence, of which each may be missing.
pub record EvidenceSet : Type 0 where
  pub validation : Option L1ValidationOutcome
  pub hazard : Option HazardAttribution
  pub performance : Option PerformanceResult

abbrev pub same_ids : List ℕ → List ℕ → Bool
same_ids [] [] = true
same_ids [] (y ∷ ys) = false
same_ids (x ∷ xs) [] = false
same_ids (x ∷ xs) (y ∷ ys) = x == y && same_ids xs ys

abbrev pub validate_outcome : ℕ → ℕ → Option L1ValidationOutcome → Outcome (Unit {0})
unfolding validate_validation_consistency
validate_outcome bin_id instruction_id none = ok tt
validate_outcome bin_id instruction_id (some v) = do
  validate_validation_consistency v
  require (v.bin_id == bin_id) value_error
  require (v.consumer_instruction_index == instruction_id) value_error

abbrev pub validate_hazard : ℕ → ℕ → Option HazardAttribution → Outcome (Unit {0})
validate_hazard bin_id instruction_id none = ok tt
validate_hazard bin_id instruction_id (some h) = do
  require (h.bin_id == bin_id) value_error
  require (h.consumer_instruction_id == instruction_id) value_error

abbrev pub validate_performance : ℕ → Option PerformanceResult → Outcome (Unit {0})
validate_performance instruction_id none = ok tt
validate_performance instruction_id (some p) =
    require (p.instruction_id == instruction_id) value_error

abbrev pub validate_producers :
    Option L1ValidationOutcome → Option HazardAttribution → Outcome (Unit {0})
validate_producers (some v) (some h) =
    require (same_ids v.producer_instruction_indices h.producer_instruction_ids) value_error
validate_producers _ _ = ok tt

-- `_validate_identity`, for an instruction number that is positive.
unfoldable pub validate_identity : ℕ → ℕ → EvidenceSet → Outcome (Unit {0})
unfolding validate_outcome
validate_identity bin_id instruction_id e = do
  require (is_bin bin_id) value_error
  require (not (instruction_id == 0)) value_error
  validate_outcome bin_id instruction_id e.validation
  validate_hazard bin_id instruction_id e.hazard
  validate_performance instruction_id e.performance
  validate_producers e.validation e.hazard

abbrev pub retire_checks : List AttributionCheck → List AttributionCheck
retire_checks [] = []
retire_checks (check ∷ checks) = elim check.name [
  | AttributionName.retire_cycle ↦ check ∷ retire_checks checks
  | _ ↦ retire_checks checks
]

-- `_validate_retire_timing_consistency`
unfoldable pub validate_retire_timing : HazardAttribution → PerformanceResult → Outcome (Unit {0})
validate_retire_timing h p = elim (retire_checks h.checks) [
  | [] ↦ err value_error
  | check ∷ [] ↦ (do
    require (same_value check.expected (number p.expected_retire_cycle)) value_error
    require (same_value check.observed (number p.observed_retire_cycle)) value_error)
  | check ∷ _ ∷ _ ↦ err value_error
]

abbrev pub failed_architectural_checks : Option L1ValidationOutcome → List (ℕ × ResultKind)
failed_architectural_checks none = []
failed_architectural_checks (some v) = v.failed_architectural_checks

abbrev pub failed_hazard_checks : Option HazardAttribution → List AttributionName
unfolding failed_checks
failed_hazard_checks none = []
failed_hazard_checks (some h) = map (λ (check : AttributionCheck). check.name) (failed_checks h)

abbrev pub validated_of : Option L1ValidationOutcome → Bool
validated_of none = false
validated_of (some v) = v.validated

abbrev pub control_of : Option L1ValidationOutcome → Option Bool
control_of none = none
control_of (some v) = some v.control_passed

abbrev pub architectural_of : Option L1ValidationOutcome → Option Bool
architectural_of none = none
architectural_of (some v) = v.architectural_passed

abbrev pub performance_of : Option PerformanceResult → Option Bool
performance_of none = none
performance_of (some p) = some (Performance.passed p)

abbrev pub delta_of : Option PerformanceResult → Option ℤ
delta_of none = none
delta_of (some p) = some p.delta_cycles

-- The status where all evidence is there.
abbrev pub classify : Bool → Bool → ValidationStatus
classify bad_timing bad_function =
    if bad_timing && bad_function
    then ValidationStatus.timing_and_functional_mismatch
    else if bad_timing
    then ValidationStatus.timing_mismatch
    else if bad_function
    then ValidationStatus.functional_mismatch
    else ValidationStatus.realized_correctly

-- The record with its status; without evidence, its other fields are empty.
unfoldable pub attributed : ℕ → ℕ → EvidenceSet → ValidationStatus → ValidatedAttributionRecord
unfolding failed_hazard_checks
attributed bin_id instruction_id e status = record {
  instruction_id = instruction_id;
  intent_bin = bin_id;
  validated_bin = if validated_of e.validation then some bin_id else none;
  validated = validated_of e.validation;
  status = status;
  control_pass = control_of e.validation;
  functional_pass = architectural_of e.validation;
  performance_pass = performance_of e.performance;
  failed_control_checks = failed_hazard_checks e.hazard;
  failed_functional_checks = failed_architectural_checks e.validation;
  timing_delta_cycles = delta_of e.performance;
}

-- The status of the evidence, which raises where the timing of both layers differs.
unfoldable pub status_of : EvidenceSet → Outcome ValidationStatus
unfolding validate_retire_timing
status_of e = elim e.validation [
  | none ↦ elim e.hazard [
    | none ↦ elim e.performance [
      | none ↦ ok ValidationStatus.intended
      | some p ↦ ok ValidationStatus.unresolved
    ]
    | some h ↦ ok ValidationStatus.unresolved
  ]
  | some v ↦ elim e.hazard [
    | none ↦ ok ValidationStatus.unresolved
    | some h ↦ elim e.performance [
      | none ↦ ok ValidationStatus.unresolved
      | some p ↦ (do
        validate_retire_timing h p
        ok (
            classify
              (not v.control_passed || not (Attribution.passed h) || not (Performance.passed p))
              (is_false v.architectural_passed)))
    ]
  ]
]

unfoldable pub attribute_l1_hit : ℕ → ℕ → EvidenceSet → Outcome ValidatedAttributionRecord
unfolding validate_identity status_of attributed
attribute_l1_hit bin_id instruction_id e = do
  validate_identity bin_id instruction_id e
  status ← status_of e
  ok (attributed bin_id instruction_id e status)
