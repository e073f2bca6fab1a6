-- ===== src/Tests/Device.antt =====
-- The scoreboard and the wrapped fetch PC on concrete runs.
use riscv_pipeline_research.Base.{◌+ℤ◌, ◌≡◌, ◌↔◌, refl, arith, true, false, none, some, [], ◌∷◌, ok}
use riscv_pipeline_research.Word.{sign_extend}
use riscv_pipeline_research.Isa.Decode.{decode_i_imm}
use riscv_pipeline_research.Machine
use riscv_pipeline_research.Machine.{Machine, ArchitecturalStep, new_machine, commit}
use riscv_pipeline_research.Machine.Execute.{execute, execute_fields}
use riscv_pipeline_research.Machine.Registers.{read_register}
use riscv_pipeline_research.Machine.Invariant.{new_machine-IsMachine}
use riscv_pipeline_research.Scoreboard.{
  WritebackObservation, StoreObservation, check_writeback, check_store, check_pc, passed,
}
use riscv_pipeline_research.Scoreboard.Verdicts.{
  Accepts, SameInstruction, SameWrite, SameStore, check_writeback-Accepts, check_store-Accepts,
}
use riscv_pipeline_research.Scoreboard.Replay.{Retired, check_pc-pc_match}
use riscv_pipeline_research.FetchPc
use riscv_pipeline_research.FetchPc.{WrapAwareMachine}
use riscv_pipeline_research.FetchPc.Runs.{
  IsWrapAware, step-IsWrapAware, Agrees, run, base_run, run-Agrees,
}
use riscv_pipeline_research.Tests.{producer, consumer, producer-IsEvent}

-- The report of `addi x1, x0, 5`.
abbrev pub report : ArchitecturalStep
report = record {
  instruction_index = 1;
  pc = 0;
  instruction = 0x0050_0093;
  expected_pc = 0;
  pc_match = true;
  next_pc = 4;
  register_write = some (record { instruction_index = 1; rd = 1; value = 5 });
  store = none;
}

abbrev writeback : WritebackObservation
writeback = record {
  instruction_index = 1;
  write_enable = true;
  rd = 1;
  word = 5;
  instruction = some 0x0050_0093;
}

abbrev pub no_store : StoreObservation
no_store = record {
  instruction_index = 1;
  write_enable = false;
  address = 0;
  word = 0;
  instruction = none;
}

step-producer : (Machine.step producer new_machine).0 ≡ ok report
unfolding Machine.step commit execute execute_fields read_register ◌+ℤ◌ decode_i_imm sign_extend
step-producer = refl

abbrev retired : Retired
retired = record { event = producer; writeback = writeback; store = no_store }

check_writeback-Accepts_example : Accepts (check_writeback report writeback) ↔ (
    (report.instruction_index ≡ report.instruction_index)
    × SameInstruction 0x0050_0093 (some 0x0050_0093)
    × SameWrite report.register_write writeback)
check_writeback-Accepts_example = check_writeback-Accepts report writeback

check_store-Accepts_example : Accepts (check_store report no_store) ↔ (
    (report.instruction_index ≡ report.instruction_index)
    × SameInstruction 0x0050_0093 none
    × SameStore report.store no_store)
check_store-Accepts_example = check_store-Accepts report no_store

check_pc-pc_match_example : passed (check_pc report) ≡ true
check_pc-pc_match_example =
    check_pc-pc_match producer new_machine report producer-IsEvent new_machine-IsMachine
      step-producer

abbrev nine_bits : WrapAwareMachine
nine_bits = record { machine = new_machine; physical_pc_width = 9 }

nine_bits-IsWrapAware : IsWrapAware nine_bits
nine_bits-IsWrapAware = record {
  machine = new_machine-IsMachine;
  wide = (omega arith, omega arith);
  pc = omega arith;
}

step-IsWrapAware_example : IsWrapAware (FetchPc.step producer nine_bits).1
step-IsWrapAware_example = step-IsWrapAware producer nine_bits nine_bits-IsWrapAware

run-Agrees_example :
    Agrees
      (run (producer ∷ consumer ∷ []) nine_bits).machine
      (base_run (producer ∷ consumer ∷ []) new_machine)
run-Agrees_example =
    run-Agrees (producer ∷ consumer ∷ []) nine_bits new_machine (omega arith, (omega arith, tt))
      (record { registers = refl; memory = refl; counter = refl })
