-- ===== src/Machine.antt =====
-- The sequential oracle, `RV32ArchitecturalModel` of research/week5/impl/architectural_model.py. Its
-- immediate decoders are those of isa_decode.py, word for word.
pub mod Memory
pub mod Registers
pub mod Execute
pub mod Invariant
use riscv_pipeline_research.Base.{
  ℕ, ◌+◌, ◌≤◌, Bool, true, false, not, Option, none, some, Outcome, ok, err, value_error, bit_and,
  ◌==◌, if◌then◌else◌, set,
}
use riscv_pipeline_research.Word.{mask32, ◌>>>◌}
use riscv_pipeline_research.Event.{ExecutionEvent}
use Memory.{ByteMemory}
use Registers.{RegisterFile, new_registers, write_register}
use Execute.{ExpectedStore, Executed, execute}

pub record Machine : Type 0 where
  pub registers : RegisterFile
  pub memory : ByteMemory
  pub expected_pc : ℕ
  pub last_instruction_index : ℕ

-- `__init__`, and `reset`, which leaves the same values.
abbrev pub new_machine : Machine
new_machine = record {
  registers = new_registers;
  memory = λ _. none;
  expected_pc = 0;
  last_instruction_index = 0;
}

pub record ExpectedRegisterWrite : Type 0 where
  pub instruction_index : ℕ
  pub rd : ℕ
  pub value : ℕ

pub record ArchitecturalStep : Type 0 where
  pub instruction_index : ℕ
  pub pc : ℕ
  pub instruction : ℕ
  pub expected_pc : ℕ
  pub pc_match : Bool
  pub next_pc : ℕ
  pub register_write : Option ExpectedRegisterWrite
  pub store : Option ExpectedStore

-- The register write that a step reports: none without a result, and none for x0.
abbrev pub reported_write : ℕ → ℕ → Option ℕ → Option ExpectedRegisterWrite
reported_write index rd none = none
reported_write index rd (some v) =
    if rd == 0
    then none
    else some (record { instruction_index = index; rd = rd; value = bit_and v mask32 })

-- The end of `step`: the register write, and the counters.
unfoldable pub commit : ExecutionEvent → ℕ → Executed → Machine → ArchitecturalStep × Machine
commit event rd done m =
    let after = record m {
      registers = elim done.result_value [
        | none ↦ set m.registers 0 0
        | some v ↦ set (write_register m.registers rd (bit_and v mask32)) 0 0
      ];
      memory = done.memory;
      expected_pc = done.next_pc;
      last_instruction_index = event.instruction_index;
    } in
    (
      record {
        instruction_index = event.instruction_index;
        pc = event.pc;
        instruction = event.instruction;
        expected_pc = m.expected_pc;
        pc_match = event.pc == m.expected_pc;
        next_pc = done.next_pc;
        register_write = reported_write event.instruction_index rd done.result_value;
        store = done.store;
      },
      after,
    )

-- Each exception is raised before anything is written.
unfoldable pub step : ExecutionEvent → Machine → Outcome ArchitecturalStep × Machine
step event m =
    if not (event.instruction_index == m.last_instruction_index + 1)
    then (err value_error, m)
    else elim (execute event m.registers m.memory) [
      | err e ↦ (err e, m)
      | ok done ↦
          let (report, m') = commit event (bit_and (event.instruction >>> 7) 0x1f) done m in
          (ok report, m')
    ]
