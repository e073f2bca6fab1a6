-- ===== src/Machine/Execute.antt =====
-- The dispatch of `step` on the opcode, research/week5/impl/architectural_model.py: next PC, result,
-- memory and store of one instruction, or the exception for what the oracle does not support.
use riscv_pipeline_research.Base.{
  ℕ, ◌+◌, Bool, not, ◌||◌, Option, none, some, pos, ◌+ℤ◌, ltb_ℤ, Outcome, ok, err,
  unsupported_instruction, bit_and, ltb, leb, ◌==◌, if◌then◌else◌,
}
use riscv_pipeline_research.Word.{mask32, low_bits, signed32}
use riscv_pipeline_research.Isa.{
  op_r, op_load, op_store, op_imm, op_branch, op_jal, op_jalr, op_lui, op_auipc,
}
use riscv_pipeline_research.Isa.Decode.{
  field, decode_i_imm, decode_s_imm, decode_b_imm, decode_j_imm, decode_u_imm,
}
use riscv_pipeline_research.Event.{ExecutionEvent}
use riscv_pipeline_research.Machine.Memory.{ByteMemory, read_word, write_word}
use riscv_pipeline_research.Machine.Registers.{RegisterFile, read_register}

pub record ExpectedStore : Type 0 where
  pub instruction_index : ℕ
  pub address : ℕ
  pub word : ℕ
  pub width_bytes : ℕ

-- The local variables of `step` when the chain of tests has been left.
pub record Executed : Type 0 where
  pub next_pc : ℕ
  pub result_value : Option ℕ
  pub memory : ByteMemory
  pub store : Option ExpectedStore

-- The condition of a branch, or `none` for the two unused `funct3`.
unfoldable pub branch_taken : ℕ → ℕ → ℕ → Option Bool
branch_taken funct3 lhs rhs =
    if funct3 == 0b000
    then some (lhs == rhs)
    else if funct3 == 0b001
    then some (not (lhs == rhs))
    else if funct3 == 0b100
    then some (ltb_ℤ (signed32 lhs) (signed32 rhs))
    else if funct3 == 0b101
    then some (not (ltb_ℤ (signed32 lhs) (signed32 rhs)))
    else if funct3 == 0b110
    then some (ltb lhs rhs)
    else if funct3 == 0b111
    then some (leb rhs lhs)
    else none

module _ (event : ExecutionEvent) (registers : RegisterFile) (memory : ByteMemory) where
  -- `(event.pc + 4) & MASK32`
  abbrev sequential_pc : ℕ
  sequential_pc = bit_and (event.pc + 4) mask32

  -- Nothing but a result.
  abbrev returns : ℕ → Outcome Executed
  returns v =
      ok (record { next_pc = sequential_pc; result_value = some v; memory = memory; store = none })

  abbrev links : ℕ → Outcome Executed
  links target = ok (record {
    next_pc = target;
    result_value = some sequential_pc;
    memory = memory;
    store = none;
  })

  -- The chain of tests, over the fields that are cut out before it.
  unfoldable pub execute_fields : ℕ → ℕ → ℕ → ℕ → ℕ → Outcome Executed
  execute_fields opcode funct3 rs1 rs2 funct7 =
      let x1 = read_register registers rs1 in
      let x2 = read_register registers rs2 in
      let i_target = low_bits (pos x1 +ℤ decode_i_imm event.instruction) 32 in
      let s_target = low_bits (pos x1 +ℤ decode_s_imm event.instruction) 32 in
      if opcode == op_r
      then if not (funct3 == 0b000) || not (funct7 == 0b0000000)
        then err unsupported_instruction
        else returns (bit_and (x1 + x2) mask32)
      else if opcode == op_imm
      then if not (funct3 == 0b000) then err unsupported_instruction else returns i_target
      else if opcode == op_load
      then if not (funct3 == 0b010)
        then err unsupported_instruction
        else returns (read_word memory i_target)
      else if opcode == op_store
      then if not (funct3 == 0b010)
        then err unsupported_instruction
        else ok (record {
          next_pc = sequential_pc;
          result_value = none;
          memory = write_word memory s_target x2;
          store = some (record {
            instruction_index = event.instruction_index;
            address = s_target;
            word = x2;
            width_bytes = 4;
          });
        })
      else if opcode == op_branch
      then elim (branch_taken funct3 x1 x2) [
        | none ↦ err unsupported_instruction
        | some taken ↦ ok (record {
          next_pc =
              if taken
              then low_bits (pos event.pc +ℤ decode_b_imm event.instruction) 32
              else sequential_pc;
          result_value = none;
          memory = memory;
          store = none;
        })
      ]
      else if opcode == op_lui
      then returns (decode_u_imm event.instruction)
      else if opcode == op_auipc
      then returns (bit_and (event.pc + decode_u_imm event.instruction) mask32)
      else if opcode == op_jal
      then links (low_bits (pos event.pc +ℤ decode_j_imm event.instruction) 32)
      else if opcode == op_jalr
      then if not (funct3 == 0b000)
        then err unsupported_instruction
        -- `target & ~1`, on a target of 32 bits
        else links (bit_and i_target 0xffff_fffe)
      else err unsupported_instruction

  unfoldable pub execute : Outcome Executed
  execute =
      let instruction = event.instruction in
      execute_fields (bit_and instruction 0x7f) (field instruction 12 0x7)
        (field instruction 15 0x1f) (field instruction 20 0x1f) (field instruction 25 0x7f)
