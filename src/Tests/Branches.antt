-- ===== src/Tests/Branches.antt =====
-- The timing oracle on `beq x0, x0, 8`, which is taken.
use riscv_pipeline_research.Base.{
  pos, ◌≡◌, refl, arith, true, false, none, some, Outcome, ok, err, ◌+ℤ◌, bit_and,
}
use riscv_pipeline_research.Word.{sign_extend, low_bits}
use riscv_pipeline_research.Isa.{
  DecodedInstruction, Mnemonic, ProducerType, ConsumerType, op_branch,
}
use riscv_pipeline_research.Isa.Decode.{
  field, branch_mnemonic, decode_fields, decode_b_imm, decode_i_imm, decode_instruction,
}
use riscv_pipeline_research.Event.{execution_event, check_reg}
use riscv_pipeline_research.Machine
use riscv_pipeline_research.Machine.{commit}
use riscv_pipeline_research.Machine.Execute
use riscv_pipeline_research.Machine.Execute.{execute, execute_fields}
use riscv_pipeline_research.Machine.Registers.{read_register, new_registers}
use riscv_pipeline_research.Timing
use riscv_pipeline_research.Timing.{
  Forward, TimingExpectation, Scheduler, new_scheduler, decode_checked, round_decoded,
  forward_for_age,
}
use riscv_pipeline_research.Timing.Redirects.{round_decoded-redirects}

abbrev beq_decoded : DecodedInstruction
beq_decoded = record {
  opcode = 99;
  rs1 = 0;
  rs2 = 0;
  rd = 8;
  uses_rs1 = true;
  uses_rs2 = true;
  writes_rd = false;
  producer_type = ProducerType.no_producer;
  consumer_type = ConsumerType.rs1_rs2;
  mnemonic = Mnemonic.beq;
  funct3 = 0;
  funct7 = 0;
  imm = some (pos 8);
}

decode_beq : decode_checked 0x463 ≡ ok beq_decoded
unfolding decode_checked decode_instruction decode_fields branch_mnemonic decode_b_imm sign_extend
decode_beq = refl

abbrev expectation : TimingExpectation
expectation = record {
  instruction_id = 1;
  pc = 0;
  instruction = 0x463;
  mnemonic = Mnemonic.beq;
  accept_cycle = 1;
  stall_cycles_before_accept = 0;
  retire_cycle = 4;
  forward_a = Forward.register_file;
  forward_b = Forward.register_file;
  source_a_producer_id = none;
  source_b_producer_id = none;
  source_a_cycle_age = none;
  source_b_cycle_age = none;
  redirect = true;
  redirect_bubbles = 2;
}

abbrev scheduler_of : Outcome (TimingExpectation × Scheduler) → Scheduler
scheduler_of (ok (e, s)) = s
scheduler_of (err x) = new_scheduler

abbrev scheduler : Scheduler
scheduler = scheduler_of (round_decoded 0x463 beq_decoded new_scheduler)

round_beq : round_decoded 0x463 beq_decoded new_scheduler ≡ ok (expectation, scheduler)
unfolding round_decoded Timing.branch_taken execution_event check_reg Machine.step commit execute
    execute_fields Execute.branch_taken read_register ◌+ℤ◌ decode_b_imm decode_i_imm sign_extend
    forward_for_age
round_beq = refl

round_decoded-redirects_example :
    (true ≡ false → scheduler.pc ≡ 4)
    × (bit_and 0x463 0x7f ≡ op_branch
        → (Execute.branch_taken
              (field 0x463 12 0x7)
              (read_register new_registers (field 0x463 15 0x1f))
              (read_register new_registers (field 0x463 20 0x1f))
            ≡ some true)
          × (true ≡ true → scheduler.pc ≡ low_bits (pos 0 +ℤ decode_b_imm 0x463) 32))
round_decoded-redirects_example =
    round_decoded-redirects 0x463 beq_decoded new_scheduler scheduler expectation decode_beq
      round_beq (omega arith)
