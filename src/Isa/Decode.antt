-- ===== src/Isa/Decode.antt =====
-- The decoder, research/week5/impl/isa_decode.py: immediates and `decode_instruction`.
use riscv_pipeline_research.Base.{
  ℕ, bit_and, bit_or, true, false, ◌&&◌, Option, none, some, ℤ, pos, Outcome, ok, raise_if,
  value_error, ◌>>◌, ltb, ◌==◌, if◌then◌else◌,
}
use riscv_pipeline_research.Word.{mask32, ◌<<<◌, ◌>>>◌, sign_extend}
use riscv_pipeline_research.Isa.{
  op_r, op_load, op_store, op_imm, op_branch, op_jal, op_jalr, op_lui, op_auipc, alu_result,
  mem_data, no_producer, pc_plus_4, imm_value, pc_plus_imm, rs1_rs2, rs1_only, no_gpr_source,
  Mnemonic, DecodedInstruction,
}

-- `(instruction >> shift) & mask`
abbrev pub field : ℕ → ℕ → ℕ → ℕ
field instruction shift mask = bit_and (instruction >>> shift) mask

unfoldable pub decode_i_imm : ℕ → ℤ
decode_i_imm instruction = sign_extend (instruction >>> 20) 12

unfoldable pub decode_b_imm : ℕ → ℤ
decode_b_imm instruction =
    let raw =
      bit_or
        (bit_or (bit_or (field instruction 31 0x1 <<< 12) (field instruction 7 0x1 <<< 11))
          (field instruction 25 0x3f <<< 5))
        (field instruction 8 0xf <<< 1) in
    sign_extend raw 13

unfoldable pub decode_s_imm : ℕ → ℤ
decode_s_imm instruction =
    let raw = bit_or (field instruction 25 0x7f <<< 5) (field instruction 7 0x1f) in
    sign_extend raw 12

unfoldable pub decode_u_imm : ℕ → ℕ
decode_u_imm instruction = bit_and instruction 0xffff_f000

unfoldable pub decode_j_imm : ℕ → ℤ
decode_j_imm instruction =
    let raw =
      bit_or
        (bit_or (bit_or (field instruction 31 0x1 <<< 20) (field instruction 12 0xff <<< 12))
          (field instruction 20 0x1 <<< 11))
        (field instruction 21 0x3ff <<< 1) in
    sign_extend raw 21

-- The dictionary `branch_mnemonics`.
unfoldable pub branch_mnemonic : ℕ → Option Mnemonic
branch_mnemonic funct3 =
    if funct3 == 0b000
    then some Mnemonic.beq
    else if funct3 == 0b001
    then some Mnemonic.bne
    else if funct3 == 0b100
    then some Mnemonic.blt
    else if funct3 == 0b101
    then some Mnemonic.bge
    else if funct3 == 0b110
    then some Mnemonic.bltu
    else if funct3 == 0b111
    then some Mnemonic.bgeu
    else none

-- The chain of tests on the opcode, over the fields that are cut out before it.
unfoldable pub decode_fields : ℕ → ℕ → ℕ → ℕ → ℕ → ℕ → ℕ → Option DecodedInstruction
unfolding branch_mnemonic
decode_fields instruction opcode rd rs1 rs2 funct3 funct7 =
    if opcode == op_r
    then if (funct3 == 0b000) && (funct7 == 0b0000000)
      then some (record {
        opcode = opcode;
        rs1 = rs1;
        rs2 = rs2;
        rd = rd;
        uses_rs1 = true;
        uses_rs2 = true;
        writes_rd = true;
        producer_type = alu_result;
        consumer_type = rs1_rs2;
        mnemonic = Mnemonic.add;
        funct3 = funct3;
        funct7 = funct7;
        imm = none;
      })
      else none
    else if opcode == op_load
    then some (record {
      opcode = opcode;
      rs1 = rs1;
      rs2 = rs2;
      rd = rd;
      uses_rs1 = true;
      uses_rs2 = false;
      writes_rd = true;
      producer_type = mem_data;
      consumer_type = rs1_only;
      mnemonic = if funct3 == 0b010 then Mnemonic.lw else Mnemonic.load;
      funct3 = funct3;
      funct7 = funct7;
      imm = some (decode_i_imm instruction);
    })
    else if opcode == op_store
    then some (record {
      opcode = opcode;
      rs1 = rs1;
      rs2 = rs2;
      rd = rd;
      uses_rs1 = true;
      uses_rs2 = true;
      writes_rd = false;
      producer_type = no_producer;
      consumer_type = rs1_rs2;
      mnemonic = if funct3 == 0b010 then Mnemonic.sw else Mnemonic.store;
      funct3 = funct3;
      funct7 = funct7;
      imm = some (decode_s_imm instruction);
    })
    else if opcode == op_imm
    then if funct3 == 0b000
      then some (record {
        opcode = opcode;
        rs1 = rs1;
        rs2 = rs2;
        rd = rd;
        uses_rs1 = true;
        uses_rs2 = false;
        writes_rd = true;
        producer_type = alu_result;
        consumer_type = rs1_only;
        mnemonic = Mnemonic.addi;
        funct3 = funct3;
        funct7 = funct7;
        imm = some (decode_i_imm instruction);
      })
      else none
    else if opcode == op_branch
    then elim (branch_mnemonic funct3) [
      | none ↦ none
      | some mnemonic ↦ some (record {
        opcode = opcode;
        rs1 = rs1;
        rs2 = rs2;
        rd = rd;
        uses_rs1 = true;
        uses_rs2 = true;
        writes_rd = false;
        producer_type = no_producer;
        consumer_type = rs1_rs2;
        mnemonic = mnemonic;
        funct3 = funct3;
        funct7 = funct7;
        imm = some (decode_b_imm instruction);
      })
    ]
    else if opcode == op_jal
    then some (record {
      opcode = opcode;
      rs1 = rs1;
      rs2 = rs2;
      rd = rd;
      uses_rs1 = false;
      uses_rs2 = false;
      writes_rd = true;
      producer_type = pc_plus_4;
      consumer_type = no_gpr_source;
      mnemonic = Mnemonic.jal;
      funct3 = funct3;
      funct7 = funct7;
      imm = some (decode_j_imm instruction);
    })
    else if opcode == op_jalr
    then if funct3 == 0b000
      then some (record {
        opcode = opcode;
        rs1 = rs1;
        rs2 = rs2;
        rd = rd;
        uses_rs1 = true;
        uses_rs2 = false;
        writes_rd = true;
        producer_type = pc_plus_4;
        consumer_type = rs1_only;
        mnemonic = Mnemonic.jalr;
        funct3 = funct3;
        funct7 = funct7;
        imm = some (decode_i_imm instruction);
      })
      else none
    else if opcode == op_lui
    then some (record {
      opcode = opcode;
      rs1 = rs1;
      rs2 = rs2;
      rd = rd;
      uses_rs1 = false;
      uses_rs2 = false;
      writes_rd = true;
      producer_type = imm_value;
      consumer_type = no_gpr_source;
      mnemonic = Mnemonic.lui;
      funct3 = funct3;
      funct7 = funct7;
      imm = some (pos (decode_u_imm instruction));
    })
    else if opcode == op_auipc
    then some (record {
      opcode = opcode;
      rs1 = rs1;
      rs2 = rs2;
      rd = rd;
      uses_rs1 = false;
      uses_rs2 = false;
      writes_rd = true;
      producer_type = pc_plus_imm;
      consumer_type = no_gpr_source;
      mnemonic = Mnemonic.auipc;
      funct3 = funct3;
      funct7 = funct7;
      imm = some (pos (decode_u_imm instruction));
    })
    else none

unfoldable pub decode_instruction : ℕ → Outcome (Option DecodedInstruction)
decode_instruction instruction = do
  raise_if (ltb mask32 instruction) value_error
  let opcode = bit_and instruction 0x7f
  let rd = field instruction 7 0x1f
  let rs1 = field instruction 15 0x1f
  let rs2 = field instruction 20 0x1f
  let funct3 = field instruction 12 0x7
  let funct7 = field instruction 25 0x7f
  ok (decode_fields instruction opcode rd rs1 rs2 funct3 funct7)
