-- ===== src/Attribution.antt =====
-- What an L1 hit looks like in the timing of the pipeline, research/week7/hazard_attribution.py.
pub mod Validation
use riscv_pipeline_research.Base.{
  ℕ, ◌+◌, Bool, true, false, not, ◌&&◌, ◌||◌, Option, none, some, List, [], ◌∷◌, ◌++◌, Outcome, ok,
  err, value_error, raise_if, ◌>>=◌, ◌>>◌, ◌==◌, ltb, leb, if◌then◌else◌,
}
use riscv_pipeline_research.Event.{ExecutionEvent, contains}
use riscv_pipeline_research.HazardBins.History.{L1Hit, Role}
use riscv_pipeline_research.Timing.{Forward, TimingExpectation}
use riscv_pipeline_research.Retire.{RetireEvent}
use riscv_pipeline_research.Realization.{is_bin}

pub record TimingObservation : Type 0 where
  pub instruction_id : ℕ
  pub pc : ℕ
  pub instruction : ℕ
  pub accept_cycle : ℕ
  pub stall_cycles_before_accept : ℕ
  pub forward_a : ℕ
  pub forward_b : ℕ

-- `TimingObservation.from_execution_event`
unfoldable pub from_execution_event : ExecutionEvent → TimingObservation
from_execution_event event = record {
  instruction_id = event.instruction_index;
  pc = event.pc;
  instruction = event.instruction;
  accept_cycle = event.cycle;
  stall_cycles_before_accept = event.stall_cycles_before_accept;
  forward_a = event.forward_a;
  forward_b = event.forward_b;
}

-- The values that the checks compare: numbers, `None` or a number, truth values, and sets.
pub data Value : Type 0 where
  number : ℕ → Value
  identity : Option ℕ → Value
  truth : Bool → Value
  identities : List ℕ → Value

pub data AttributionName : Type 0 where
  pc instruction accept_cycle stall_cycles_before_accept forward_a forward_b retire_cycle :
      AttributionName
  unused_raw_rs2_excluded dual_producer_identity : AttributionName
  producer_excluded newest_producer producer_identity : Role → AttributionName

pub record AttributionCheck : Type 0 where
  pub name : AttributionName
  pub expected : Value
  pub observed : Value

abbrev pub same_identity : Option ℕ → Option ℕ → Bool
same_identity none none = true
same_identity none (some b) = false
same_identity (some a) none = false
same_identity (some a) (some b) = a == b

abbrev pub subset : List ℕ → List ℕ → Bool
subset [] ys = true
subset (x ∷ xs) ys = contains ys x && subset xs ys

abbrev pub same_value : Value → Value → Bool
same_value (number a) (number b) = a == b
same_value (identity a) (identity b) = same_identity a b
same_value (truth true) (truth b) = b
same_value (truth false) (truth b) = not b
same_value (identities a) (identities b) = subset a b && subset b a
same_value _ _ = false

-- `AttributionCheck.passed`
unfoldable pub check_passed : AttributionCheck → Bool
check_passed check = same_value check.expected check.observed

pub record HazardAttribution : Type 0 where
  pub bin_id : ℕ
  pub consumer_instruction_id : ℕ
  pub producer_instruction_ids : List ℕ
  pub matched_sources : List Role
  pub checks : List AttributionCheck

abbrev pub all_passed : List AttributionCheck → Bool
all_passed [] = true
all_passed (check ∷ checks) = check_passed check && all_passed checks

-- `HazardAttribution.passed`
unfoldable pub passed : HazardAttribution → Bool
passed h = all_passed h.checks

abbrev pub failing : List AttributionCheck → List AttributionCheck
failing [] = []
failing (check ∷ checks) = if check_passed check then failing checks else check ∷ failing checks

unfoldable pub failed_checks : HazardAttribution → List AttributionCheck
failed_checks h = failing h.checks

-- `_source_producer_id`
unfoldable pub source_producer_id : TimingExpectation → Role → Option ℕ
source_producer_id expectation Role.rs1 = expectation.source_a_producer_id
source_producer_id expectation Role.rs2 = expectation.source_b_producer_id
source_producer_id expectation Role.raw_rs2_unused = none

-- The tests on the producers' numbers.
abbrev pub check_producers : ℕ → List ℕ → Outcome (Unit {0})
check_producers consumer_id [] = ok tt
check_producers consumer_id (p ∷ ps) = do
  raise_if (p == 0) value_error
  raise_if (leb consumer_id p) value_error
  check_producers consumer_id ps

abbrev pub forward_code : Forward → ℕ
forward_code Forward.register_file = 0b00
forward_code Forward.mem_wb = 0b01
forward_code Forward.ex_mem = 0b10

abbrev pub compare_numbers : AttributionName → ℕ → ℕ → AttributionCheck
compare_numbers name expected observed = record {
  name = name;
  expected = number expected;
  observed = number observed;
}

-- The seven checks that every hit has.
abbrev pub timing_checks :
    TimingExpectation → TimingObservation → RetireEvent → List AttributionCheck
timing_checks expectation observation retire =
    compare_numbers AttributionName.pc expectation.pc observation.pc
    ∷ compare_numbers AttributionName.instruction expectation.instruction observation.instruction
    ∷ compare_numbers AttributionName.accept_cycle expectation.accept_cycle observation.accept_cycle
    ∷ compare_numbers AttributionName.stall_cycles_before_accept
        expectation.stall_cycles_before_accept observation.stall_cycles_before_accept
    ∷ compare_numbers AttributionName.forward_a (forward_code expectation.forward_a)
        observation.forward_a
    ∷ compare_numbers AttributionName.forward_b (forward_code expectation.forward_b)
        observation.forward_b
    ∷ compare_numbers AttributionName.retire_cycle expectation.retire_cycle retire.cycle
    ∷ []

-- One check for each matched role.
abbrev pub for_roles : (Role → AttributionCheck) → List Role → List AttributionCheck
for_roles f [] = []
for_roles f (role ∷ roles) = f role ∷ for_roles f roles

abbrev pub known_ids : Option ℕ → Option ℕ → List ℕ
known_ids none none = []
known_ids none (some b) = b ∷ []
known_ids (some a) none = a ∷ []
known_ids (some a) (some b) = a ∷ b ∷ []

-- `max(…)`, which raises on no producers.
abbrev pub newest : List ℕ → Outcome ℕ
newest [] = err value_error
newest (p ∷ []) = ok p
newest (p ∷ ps) = do q ← newest ps; ok (if ltb q p then p else q)

abbrev pub is_known : Option ℕ → List ℕ → Bool
is_known none allowed = false
is_known (some p) allowed = contains allowed p

-- The checks of the producers, by the bin.
unfoldable pub producer_checks : L1Hit → TimingExpectation → Outcome (List AttributionCheck)
unfolding source_producer_id
producer_checks hit expectation =
    let latest = newest hit.producer_instruction_indices in
    if (hit.bin_id == 18) || (hit.bin_id == 19)
    then ok (
        for_roles
          (λ role. record {
            name = AttributionName.producer_excluded role;
            expected = identity none;
            observed = identity (source_producer_id expectation role);
          })
          hit.matched_sources)
    else if hit.bin_id == 20
    then ok (
        record {
          name = AttributionName.unused_raw_rs2_excluded;
          expected = identity none;
          observed = identity expectation.source_b_producer_id;
        }
        ∷ [])
    else if hit.bin_id == 10
    then ok (
        record {
          name = AttributionName.dual_producer_identity;
          expected = identities hit.producer_instruction_indices;
          observed =
              identities
                (known_ids expectation.source_a_producer_id expectation.source_b_producer_id);
        }
        ∷ [])
    else if hit.bin_id == 17
    then latest >>= (λ n. ok (
        for_roles
          (λ role. record {
            name = AttributionName.newest_producer role;
            expected = identity (some n);
            observed = identity (source_producer_id expectation role);
          })
          hit.matched_sources))
    else ok (
        for_roles
          (λ role. record {
            name = AttributionName.producer_identity role;
            expected = truth true;
            observed =
                truth
                  (is_known (source_producer_id expectation role) hit.producer_instruction_indices);
          })
          hit.matched_sources)

unfoldable pub correlate_hazard :
    L1Hit → TimingExpectation → TimingObservation → RetireEvent → Outcome HazardAttribution
unfolding producer_checks
correlate_hazard hit expectation observation retire = do
  raise_if (not (is_bin hit.bin_id)) value_error
  raise_if (not (expectation.instruction_id == hit.consumer_instruction_index)) value_error
  raise_if (not (observation.instruction_id == hit.consumer_instruction_index)) value_error
  raise_if (not (retire.instruction_id == hit.consumer_instruction_index)) value_error
  check_producers hit.consumer_instruction_index hit.producer_instruction_indices
  checks ← producer_checks hit expectation
  ok (record {
    bin_id = hit.bin_id;
    consumer_instruction_id = hit.consumer_instruction_index;
    producer_instruction_ids = hit.producer_instruction_indices;
    matched_sources = hit.matched_sources;
    checks = timing_checks expectation observation retire ++ checks;
  })
