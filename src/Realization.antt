-- ===== src/Realization.antt =====
-- The control and timing checks of an L1 hit, `L1ControlRealizationChecker` of
-- research/week5/impl/realization_checker.py.
pub mod Rows
pub mod Agreement
use riscv_pipeline_research.Base.{
  ℕ, ◌+◌, Bool, true, false, not, ◌&&◌, ◌||◌, Option, none, some, List, [], ◌∷◌, ◌++◌, Outcome, ok,
  err, value_error, raise_if, ◌>>=◌, ◌>>◌, ◌==◌, ltb, if◌then◌else◌, lookup, length,
}
use riscv_pipeline_research.Event.{ExecutionEvent}
use riscv_pipeline_research.HazardBins.History.{L1Hit, Role}

pub data ControlName : Type 0 where
  stall_cycles_before_accept forward_rs1 forward_rs2 : ControlName

pub record ControlCheck : Type 0 where
  pub name : ControlName
  pub expected : ℕ
  pub observed : ℕ

-- `ControlCheck.passed`
unfoldable pub check_passed : ControlCheck → Bool
check_passed check = check.expected == check.observed

pub record ControlRealizationResult : Type 0 where
  pub bin_id : ℕ
  pub consumer_instruction_index : ℕ
  pub checks : List ControlCheck

abbrev pub all_passed : List ControlCheck → Bool
all_passed [] = true
all_passed (check ∷ checks) = check_passed check && all_passed checks

-- `ControlRealizationResult.passed`
unfoldable pub passed : ControlRealizationResult → Bool
passed result = all_passed result.checks

abbrev pub failing : List ControlCheck → List ControlCheck
failing [] = []
failing (check ∷ checks) = if check_passed check then failing checks else check ∷ failing checks

unfoldable pub failed_checks : ControlRealizationResult → List ControlCheck
failed_checks result = failing result.checks

-- `bin_id in L1_BIN_IDS`
abbrev pub is_bin : ℕ → Bool
is_bin bin_id = ltb 0 bin_id && ltb bin_id 21

-- `_STALL_EXPECTED`
abbrev pub stall_expected : ℕ → ℕ
stall_expected bin_id = if (bin_id == 6) || (bin_id == 7) then 1 else 0

-- `_FIXED_FORWARD.get(bin_id, ())`
abbrev pub fixed_forward : ℕ → List (Role × ℕ)
fixed_forward bin_id =
    if (bin_id == 1) || (bin_id == 11) || (bin_id == 13)
    then (Role.rs1, 0b10) ∷ []
    else if (bin_id == 2) || (bin_id == 16)
    then (Role.rs2, 0b10) ∷ []
    else if (bin_id == 3) || (bin_id == 6) || (bin_id == 8) || (bin_id == 12) || (bin_id == 14)
    then (Role.rs1, 0b01) ∷ []
    else if (bin_id == 4) || (bin_id == 7) || (bin_id == 9)
    then (Role.rs2, 0b01) ∷ []
    else []

-- `_add_forward_check`, which returns the check that it appends.
unfoldable pub add_forward_check : ExecutionEvent → Role → ℕ → Outcome ControlCheck
add_forward_check event Role.rs1 expected =
    ok (record { name = ControlName.forward_rs1; expected = expected; observed = event.forward_a })
add_forward_check event Role.rs2 expected =
    ok (record { name = ControlName.forward_rs2; expected = expected; observed = event.forward_b })
add_forward_check event Role.raw_rs2_unused expected = err value_error

-- The loops over the roles.
abbrev pub forward_checks : ExecutionEvent → List (Role × ℕ) → Outcome (List ControlCheck)
forward_checks event [] = ok []
forward_checks event ((role, expected) ∷ roles) = do
  check ← add_forward_check event role expected
  checks ← forward_checks event roles
  ok (check ∷ checks)

abbrev pub with_selection : ℕ → List Role → List (Role × ℕ)
with_selection expected [] = []
with_selection expected (role ∷ roles) = (role, expected) ∷ with_selection expected roles

-- `_lookup_producer`
unfoldable pub lookup_producer : List (ℕ × ExecutionEvent) → ℕ → Outcome ExecutionEvent
lookup_producer events_by_index instruction_index =
    elim (lookup instruction_index events_by_index) [
      | none ↦ err value_error
      | some event ↦ ok event
    ]

-- The selection that H10 expects of an operand, by the newer and the older producer.
abbrev pub operand_selection : Role → Bool → ℕ → ExecutionEvent → ExecutionEvent → List (Role × ℕ)
operand_selection role uses register newer older =
    if uses && (register == newer.rd)
    then (role, 0b10) ∷ []
    else if uses && (register == older.rd)
    then (role, 0b01) ∷ []
    else []

-- The checks of H10.
unfoldable pub pair_checks :
    List ℕ → ExecutionEvent → List (ℕ × ExecutionEvent) → Outcome (List ControlCheck)
pair_checks (older_index ∷ newer_index ∷ []) consumer events_by_index = do
  older ← lookup_producer events_by_index older_index
  newer ← lookup_producer events_by_index newer_index
  let selections =
      operand_selection Role.rs1 consumer.uses_rs1 consumer.rs1 newer older
      ++ operand_selection Role.rs2 consumer.uses_rs2 consumer.rs2 newer older
  checks ← forward_checks consumer selections
  raise_if (not (length selections == 2)) value_error
  ok checks
pair_checks _ consumer events_by_index = err value_error

-- The chain of tests after the fixed rows.
abbrev pub special_checks :
    L1Hit → ExecutionEvent → List (ℕ × ExecutionEvent) → Outcome (List ControlCheck)
special_checks hit consumer events_by_index =
    if hit.bin_id == 5
    then forward_checks consumer (with_selection 0b00 hit.matched_sources)
    else if hit.bin_id == 10
    then pair_checks hit.producer_instruction_indices consumer events_by_index
    else if hit.bin_id == 15
    then forward_checks consumer (with_selection 0b00 hit.matched_sources)
    else if hit.bin_id == 17
    then forward_checks consumer (with_selection 0b10 hit.matched_sources)
    else if hit.bin_id == 18
    then forward_checks consumer (with_selection 0b00 hit.matched_sources)
    else ok []

abbrev pub stall_check : L1Hit → ExecutionEvent → ControlCheck
stall_check hit consumer = record {
  name = ControlName.stall_cycles_before_accept;
  expected = stall_expected hit.bin_id;
  observed = consumer.stall_cycles_before_accept;
}

unfoldable pub check :
    L1Hit → ExecutionEvent → List (ℕ × ExecutionEvent) → Outcome ControlRealizationResult
check hit consumer events_by_index = do
  raise_if (not (is_bin hit.bin_id)) value_error
  raise_if (not (hit.consumer_instruction_index == consumer.instruction_index)) value_error
  fixed ← forward_checks consumer (fixed_forward hit.bin_id)
  special ← special_checks hit consumer events_by_index
  ok (record {
    bin_id = hit.bin_id;
    consumer_instruction_index = consumer.instruction_index;
    checks = stall_check hit consumer ∷ fixed ++ special;
  })
