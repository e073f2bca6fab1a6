-- ===== src/Isa.antt =====
-- The instruction words of the RV32 subset: opcodes and the decoded form that
-- research/week5/impl/isa_decode.py and rv32_encode.py share.
pub mod Decode
pub mod Encode
pub mod Fields
pub mod Immediates
pub mod Assembly
pub mod Words
pub mod RoundTrip
use riscv_pipeline_research.Base.{ℕ, Bool, Option, ℤ}

abbrev pub op_r : ℕ
op_r = 0b0110011

abbrev pub op_load : ℕ
op_load = 0b0000011

abbrev pub op_store : ℕ
op_store = 0b0100011

abbrev pub op_imm : ℕ
op_imm = 0b0010011

abbrev pub op_branch : ℕ
op_branch = 0b1100011

abbrev pub op_jal : ℕ
op_jal = 0b1101111

abbrev pub op_jalr : ℕ
op_jalr = 0b1100111

abbrev pub op_lui : ℕ
op_lui = 0b0110111

abbrev pub op_auipc : ℕ
op_auipc = 0b0010111

-- The strings of `producer_type`; `no_producer` is "NONE".
pub data ProducerType : Type 0 where
  alu_result mem_data no_producer pc_plus_4 imm_value pc_plus_imm : ProducerType

-- The strings of `consumer_type` that the code compares; `other` is any other string.
pub data ConsumerType : Type 0 where
  rs1_rs2 rs1_only no_gpr_source other : ConsumerType

pub data Mnemonic : Type 0 where
  add lw load sw store addi beq bne blt bge bltu bgeu jal jalr lui auipc : Mnemonic

pub record DecodedInstruction : Type 0 where
  pub opcode : ℕ
  pub rs1 : ℕ
  pub rs2 : ℕ
  pub rd : ℕ
  pub uses_rs1 : Bool
  pub uses_rs2 : Bool
  pub writes_rd : Bool
  pub producer_type : ProducerType
  pub consumer_type : ConsumerType
  pub mnemonic : Mnemonic
  pub funct3 : ℕ
  pub funct7 : ℕ
  pub imm : Option ℤ
