-- ===== src/Tests/Timing.antt =====
-- The timing oracle on a program of two instructions, of which the second reads the first's result.
use riscv_pipeline_research.Base.{
  ℕ, ◌+◌, ◌≤◌, ◌⊎◌, ◌≢◌, pos, err, ◌≡◌, refl, ap, ◌∙◌, arith, true, false, none, some, [], ◌∷◌,
  Outcome, ok, inl, inr, ◌+ℤ◌,
}
use riscv_pipeline_research.Word.{sign_extend}
use riscv_pipeline_research.Isa.{DecodedInstruction, Mnemonic, ProducerType, ConsumerType, mem_data}
use riscv_pipeline_research.Isa.Decode.{decode_fields, decode_i_imm, decode_instruction}
use riscv_pipeline_research.Event.{execution_event, check_reg}
use riscv_pipeline_research.Machine
use riscv_pipeline_research.Machine.{commit}
use riscv_pipeline_research.Machine.Execute.{execute, execute_fields}
use riscv_pipeline_research.Machine.Registers.{read_register}
use riscv_pipeline_research.Timing.{
  branch_taken, Forward, Producer, TimingExpectation, Scheduler, new_scheduler, Program, word_at,
  decode_checked, round, round_decoded, run, schedule_from, forward_for_age, producer_of,
}
use riscv_pipeline_research.Timing.Schedule.{
  InOrder, IsSupported, Ends, schedule_from-Ends, schedule_from-InOrder,
}
use riscv_pipeline_research.Timing.Redirects.{round_decoded-no_early_load}

abbrev program : Program
program = (0, 0x0050_0093) ∷ (4, 0x0010_8133) ∷ []

abbrev pub expectation1 : TimingExpectation
expectation1 = record {
  instruction_id = 1;
  pc = 0;
  instruction = 0x0050_0093;
  mnemonic = Mnemonic.addi;
  accept_cycle = 1;
  stall_cycles_before_accept = 0;
  retire_cycle = 4;
  forward_a = Forward.register_file;
  forward_b = Forward.register_file;
  source_a_producer_id = none;
  source_b_producer_id = none;
  source_a_cycle_age = none;
  source_b_cycle_age = none;
  redirect = false;
  redirect_bubbles = 0;
}

abbrev expectation2 : TimingExpectation
expectation2 = record {
  instruction_id = 2;
  pc = 4;
  instruction = 0x0010_8133;
  mnemonic = Mnemonic.add;
  accept_cycle = 2;
  stall_cycles_before_accept = 0;
  retire_cycle = 5;
  forward_a = Forward.ex_mem;
  forward_b = Forward.ex_mem;
  source_a_producer_id = some 1;
  source_b_producer_id = some 1;
  source_a_cycle_age = some (pos 1);
  source_b_cycle_age = some (pos 1);
  redirect = false;
  redirect_bubbles = 0;
}

schedule_of_program : schedule_from 10 program ≡ ok (expectation1 ∷ expectation2 ∷ [])
unfolding schedule_from run round round_decoded decode_checked decode_instruction decode_fields
    branch_taken execution_event check_reg Machine.step commit execute execute_fields read_register
    ◌+ℤ◌ decode_i_imm sign_extend forward_for_age
schedule_of_program = refl

schedule_from-InOrder_example :
    InOrder 1 1 (expectation1 ∷ expectation2 ∷ [])
    × (2 ≤ 10)
    × ((d : ℕ) → some 5 ≡ some d → d + 0 ≡ 2 + 0 + 0 + 3)
schedule_from-InOrder_example =
    schedule_from-InOrder program 10 (expectation1 ∷ expectation2 ∷ []) schedule_of_program

abbrev addi_decoded : DecodedInstruction
addi_decoded = record {
  opcode = 19;
  rs1 = 0;
  rs2 = 5;
  rd = 1;
  uses_rs1 = true;
  uses_rs2 = false;
  writes_rd = true;
  producer_type = ProducerType.alu_result;
  consumer_type = ConsumerType.rs1_only;
  mnemonic = Mnemonic.addi;
  funct3 = 0;
  funct7 = 0;
  imm = some (pos 5);
}

abbrev add_decoded : DecodedInstruction
add_decoded = record {
  opcode = 51;
  rs1 = 1;
  rs2 = 1;
  rd = 2;
  uses_rs1 = true;
  uses_rs2 = true;
  writes_rd = true;
  producer_type = ProducerType.alu_result;
  consumer_type = ConsumerType.rs1_rs2;
  mnemonic = Mnemonic.add;
  funct3 = 0;
  funct7 = 0;
  imm = none;
}

decode_addi : decode_checked 0x0050_0093 ≡ ok addi_decoded
unfolding decode_checked decode_instruction decode_fields decode_i_imm sign_extend
decode_addi = refl

decode_add : decode_checked 0x0010_8133 ≡ ok add_decoded
unfolding decode_checked decode_instruction decode_fields decode_i_imm sign_extend
decode_add = refl

word_at-cases :
    (pc w : ℕ)
    → word_at program pc ≡ some w
    → ((pc ≡ 0) × (w ≡ 0x0050_0093)) ⊎ ((pc ≡ 4) × (w ≡ 0x0010_8133))
word_at-cases pc w h = ground arith

program-IsSupported : IsSupported program
program-IsSupported pc w h = elim (word_at-cases pc w h) [
  | inl (at, is) ↦ (omega (arith, at), (addi_decoded, ap decode_checked is ∙ decode_addi))
  | inr (at, is) ↦ (omega (arith, at), (add_decoded, ap decode_checked is ∙ decode_add))
]

schedule_from-Ends_example : Ends program 10 new_scheduler (schedule_from 10 program)
schedule_from-Ends_example = schedule_from-Ends program 10 0x0050_0093 refl program-IsSupported

abbrev scheduler_of : Outcome (TimingExpectation × Scheduler) → Scheduler
scheduler_of (ok (e, s)) = s
scheduler_of (err x) = new_scheduler

-- The scheduler after the first instruction, and after the second.
abbrev scheduler1 : Scheduler
scheduler1 = scheduler_of (round_decoded 0x0050_0093 addi_decoded new_scheduler)

abbrev scheduler2 : Scheduler
scheduler2 = scheduler_of (round_decoded 0x0010_8133 add_decoded scheduler1)

round_addi : round_decoded 0x0050_0093 addi_decoded new_scheduler ≡ ok (expectation1, scheduler1)
unfolding round_decoded branch_taken execution_event check_reg Machine.step commit execute
    execute_fields read_register ◌+ℤ◌ decode_i_imm sign_extend forward_for_age
round_addi = refl

round_add : round_decoded 0x0010_8133 add_decoded scheduler1 ≡ ok (expectation2, scheduler2)
unfolding round_decoded branch_taken execution_event check_reg Machine.step commit execute
    execute_fields read_register ◌+ℤ◌ decode_i_imm sign_extend forward_for_age
round_add = refl

-- The first instruction, which `add` reads from the stage after the one that executed it.
abbrev addi_producer : Producer
addi_producer = record { instruction_id = 1; accept_cycle = 1; decoded = addi_decoded }

round_decoded-no_early_load_example :
    ((producer_of scheduler1 true 1 ≡ some addi_producer) × (Forward.ex_mem ≡ Forward.ex_mem)
      → ProducerType.alu_result ≢ mem_data)
    × ((producer_of scheduler1 true 1 ≡ some addi_producer) × (Forward.ex_mem ≡ Forward.ex_mem)
        → ProducerType.alu_result ≢ mem_data)
round_decoded-no_early_load_example =
    round_decoded-no_early_load 0x0010_8133 add_decoded scheduler1 scheduler2 expectation2
      addi_producer round_add
