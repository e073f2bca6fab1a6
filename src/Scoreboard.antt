-- ===== src/Scoreboard.antt =====
-- The comparison of the oracle's steps with what the device does, `CommitScoreboard` of
-- research/week5/impl/commit_scoreboard.py. The strings that name checks are enumerations.
pub mod Verdicts
pub mod Replay
use riscv_pipeline_research.Base.{
  ℕ, Bool, true, false, not, ◌&&◌, Option, none, some, List, [], ◌∷◌, ◌++◌, ℤ, pos, Outcome, ok,
  err, value_error, raise_if, ◌>>=◌, ◌>>◌, bit_and, ltb, int_of_bool, ◌==◌, if◌then◌else◌,
}
use riscv_pipeline_research.Word.{mask32}
use riscv_pipeline_research.Event.{natural, bounded, positive}
use riscv_pipeline_research.Machine.{ArchitecturalStep, ExpectedRegisterWrite}
use riscv_pipeline_research.Machine.Execute.{ExpectedStore}

pub data CheckName : Type 0 where
  executed_pc wb_instruction unexpected_architectural_write write_enable write_rd write_data
        store_instruction unexpected_store store_enable store_address_in_dut_range store_address
        store_data architectural_x0 :
      CheckName

pub record ArchitecturalCheck : Type 0 where
  pub name : CheckName
  pub expected : ℕ
  pub observed : ℕ

-- `ArchitecturalCheck.passed`
unfoldable pub check_passed : ArchitecturalCheck → Bool
check_passed check = check.expected == check.observed

pub data Kind : Type 0 where
  pc writeback store x0 : Kind

pub record ArchitecturalCheckResult : Type 0 where
  pub kind : Kind
  pub instruction_index : ℕ
  pub checks : List ArchitecturalCheck

abbrev pub all_passed : List ArchitecturalCheck → Bool
all_passed [] = true
all_passed (check ∷ checks) = check_passed check && all_passed checks

-- `ArchitecturalCheckResult.passed`
unfoldable pub passed : ArchitecturalCheckResult → Bool
passed result = all_passed result.checks

abbrev pub failing : List ArchitecturalCheck → List ArchitecturalCheck
failing [] = []
failing (check ∷ checks) = if check_passed check then failing checks else check ∷ failing checks

unfoldable pub failed_checks : ArchitecturalCheckResult → List ArchitecturalCheck
failed_checks result = failing result.checks

pub record WritebackObservation : Type 0 where
  pub instruction_index : ℕ
  pub write_enable : Bool
  pub rd : ℕ
  pub word : ℕ
  pub instruction : Option ℕ

pub record StoreObservation : Type 0 where
  pub instruction_index : ℕ
  pub write_enable : Bool
  pub address : ℕ
  pub word : ℕ
  pub instruction : Option ℕ

-- The check of an instruction that may be absent.
abbrev pub optional_word : Option ℤ → Outcome (Option ℕ)
optional_word none = ok none
optional_word (some z) = do instruction ← bounded 0 mask32 z; ok (some instruction)

-- `WritebackObservation(…)` with its `__post_init__`.
unfoldable pub writeback_observation : ℤ → Bool → ℤ → ℤ → Option ℤ → Outcome WritebackObservation
writeback_observation instruction_index enable rd word instruction = do
  instruction_index ← positive instruction_index
  rd ← bounded 0 31 rd
  word ← bounded 0 mask32 word
  instruction ← optional_word instruction
  ok (record {
    instruction_index = instruction_index;
    write_enable = enable;
    rd = rd;
    word = word;
    instruction = instruction;
  })

-- `StoreObservation(…)` with its `__post_init__`.
unfoldable pub store_observation : ℤ → Bool → ℤ → ℤ → Option ℤ → Outcome StoreObservation
store_observation instruction_index enable address word instruction = do
  instruction_index ← positive instruction_index
  address ← bounded 0 0x1ff address
  word ← bounded 0 mask32 word
  instruction ← optional_word instruction
  ok (record {
    instruction_index = instruction_index;
    write_enable = enable;
    address = address;
    word = word;
    instruction = instruction;
  })

abbrev pub check : CheckName → ℕ → ℕ → ArchitecturalCheck
check name expected observed = record { name = name; expected = expected; observed = observed }

-- The check of the stage's instruction, where the observation has one.
abbrev pub instruction_check : CheckName → ℕ → Option ℕ → List ArchitecturalCheck
instruction_check name instruction none = []
instruction_check name instruction (some observed) =
    check name (bit_and instruction mask32) (bit_and observed mask32) ∷ []

unfoldable pub check_instruction_index : ArchitecturalStep → ℕ → Outcome (Unit {0})
check_instruction_index step instruction_index =
    raise_if (not (step.instruction_index == instruction_index)) value_error

unfoldable pub check_pc : ArchitecturalStep → ArchitecturalCheckResult
check_pc step = record {
  kind = Kind.pc;
  instruction_index = step.instruction_index;
  checks =
      check CheckName.executed_pc (bit_and step.expected_pc mask32) (bit_and step.pc mask32) ∷ [];
}

-- The checks of a writeback after that of its instruction.
abbrev pub write_checks :
    Option ExpectedRegisterWrite → WritebackObservation → List ArchitecturalCheck
write_checks none observation =
    check CheckName.unexpected_architectural_write 0
      (int_of_bool (observation.write_enable && not (observation.rd == 0)))
    ∷ []
write_checks (some write) observation =
    check CheckName.write_enable 1 (int_of_bool observation.write_enable)
    ∷ (if observation.write_enable
        then check CheckName.write_rd write.rd observation.rd
          ∷ check CheckName.write_data (bit_and write.value mask32)
              (bit_and observation.word mask32)
          ∷ []
        else [])

unfoldable pub check_writeback :
    ArchitecturalStep → WritebackObservation → Outcome ArchitecturalCheckResult
unfolding check_instruction_index
check_writeback step observation = do
  check_instruction_index step observation.instruction_index
  ok (record {
    kind = Kind.writeback;
    instruction_index = step.instruction_index;
    checks =
        instruction_check CheckName.wb_instruction step.instruction observation.instruction
        ++ write_checks step.register_write observation;
  })

-- The checks of a store after that of its instruction.
abbrev pub store_checks : Option ExpectedStore → StoreObservation → List ArchitecturalCheck
store_checks none observation =
    check CheckName.unexpected_store 0 (int_of_bool observation.write_enable) ∷ []
store_checks (some expected) observation =
    check CheckName.store_enable 1 (int_of_bool observation.write_enable)
    ∷ (if observation.write_enable
        then (if ltb 0x1ff expected.address
            then check CheckName.store_address_in_dut_range 1 0
            else check CheckName.store_address expected.address observation.address)
          ∷ check CheckName.store_data (bit_and expected.word mask32)
              (bit_and observation.word mask32)
          ∷ []
        else [])

unfoldable pub check_store : ArchitecturalStep → StoreObservation → Outcome ArchitecturalCheckResult
unfolding check_instruction_index
check_store step observation = do
  check_instruction_index step observation.instruction_index
  ok (record {
    kind = Kind.store;
    instruction_index = step.instruction_index;
    checks =
        instruction_check CheckName.store_instruction step.instruction observation.instruction
        ++ store_checks step.store observation;
  })

unfoldable pub check_x0 : ℤ → ℤ → Outcome ArchitecturalCheckResult
check_x0 instruction_index observed_value = do
  instruction_index ← positive instruction_index
  observed_value ← bounded 0 mask32 observed_value
  ok (record {
    kind = Kind.x0;
    instruction_index = instruction_index;
    checks = check CheckName.architectural_x0 0 observed_value ∷ [];
  })
