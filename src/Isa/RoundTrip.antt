-- ===== src/Isa/RoundTrip.antt =====
-- The decoder of isa_decode.py against the encoder of rv32_encode.py, over every kind of line.
pub mod Data
pub mod Control
use riscv_pipeline_research.Base.{ℕ, ℤ, ◌≡◌, arith, err, value_error}
use riscv_pipeline_research.Word.Laws.{mod_ℤ-one}
use riscv_pipeline_research.Isa.Encode
use riscv_pipeline_research.Isa.Assembly.{Assembly, BranchKind, encode, IsEncodable, RoundTrips}
use riscv_pipeline_research.Isa.Words.{checked-cases, reg-cases, signed_imm-cases}
use Data.{
  add_round_trip, addi_round_trip, lw_round_trip, jalr_round_trip, sw_round_trip, lui_round_trip,
  auipc_round_trip,
}
use Control.{jal_round_trip, branch_round_trip}

-- A line whose operands are in range is encoded, its word fits 32 bits, and the decoder reads the
-- same mnemonic, registers and immediate from it, with the flags of the operands that it has.
pub decode-encode : (a : Assembly) → IsEncodable a → RoundTrips a
decode-encode (Assembly.add rd rs1 rs2) h = add_round_trip rd rs1 rs2 h.0 h.1 h.2
decode-encode (Assembly.addi rd rs1 imm) h = addi_round_trip rd rs1 imm h.0 h.1 h.2
decode-encode (Assembly.lw rd rs1 imm) h = lw_round_trip rd rs1 imm h.0 h.1 h.2
decode-encode (Assembly.jalr rd rs1 imm) h = jalr_round_trip rd rs1 imm h.0 h.1 h.2
decode-encode (Assembly.sw rs2 rs1 imm) h = sw_round_trip rs2 rs1 imm h.0 h.1 h.2
decode-encode (Assembly.lui rd imm20) h = lui_round_trip rd imm20 h.0 h.1
decode-encode (Assembly.auipc rd imm20) h = auipc_round_trip rd imm20 h.0 h.1
decode-encode (Assembly.jal rd offset) h = jal_round_trip rd offset h.0 h.1.0 h.1.1
decode-encode (Assembly.branch kind rs1 rs2 offset) h =
    branch_round_trip rs1 rs2 offset h.0 h.1 h.2.0 h.2.1 kind

branch_refuses :
    (rs1 rs2 offset : ℤ) (funct3 : ℕ)
    → ¬ (IsEncodable (Assembly.branch BranchKind.beq rs1 rs2 offset))
    → Encode.branch rs1 rs2 offset funct3 ≡ err value_error
unfolding Encode.branch
branch_refuses rs1 rs2 offset f h =
    ground (arith, reg-cases rs1, reg-cases rs2, signed_imm-cases 12 offset 2)

-- A line with an operand out of range, or with an odd offset, raises `ValueError`.
pub encode-refuses : (a : Assembly) → ¬ IsEncodable a → encode a ≡ err value_error
unfolding encode Encode.add Encode.addi Encode.lw Encode.jalr Encode.sw Encode.lui Encode.auipc
    Encode.jal Encode.beq Encode.bne Encode.blt Encode.bge Encode.bltu Encode.bgeu
encode-refuses (Assembly.add rd rs1 rs2) h =
    ground (arith, reg-cases rd, reg-cases rs1, reg-cases rs2)
encode-refuses (Assembly.addi rd rs1 imm) h =
    ground (arith, reg-cases rd, reg-cases rs1, signed_imm-cases 11 imm 1, mod_ℤ-one imm)
encode-refuses (Assembly.lw rd rs1 imm) h =
    ground (arith, reg-cases rd, reg-cases rs1, signed_imm-cases 11 imm 1, mod_ℤ-one imm)
encode-refuses (Assembly.jalr rd rs1 imm) h =
    ground (arith, reg-cases rd, reg-cases rs1, signed_imm-cases 11 imm 1, mod_ℤ-one imm)
encode-refuses (Assembly.sw rs2 rs1 imm) h =
    ground (arith, reg-cases rs1, reg-cases rs2, signed_imm-cases 11 imm 1, mod_ℤ-one imm)
encode-refuses (Assembly.lui rd imm20) h = ground (arith, reg-cases rd, checked-cases 0xfffff imm20)
encode-refuses (Assembly.auipc rd imm20) h =
    ground (arith, reg-cases rd, checked-cases 0xfffff imm20)
encode-refuses (Assembly.jal rd offset) h =
    ground (arith, reg-cases rd, signed_imm-cases 20 offset 2)
encode-refuses (Assembly.branch BranchKind.beq rs1 rs2 offset) h = branch_refuses rs1 rs2 offset _ h
encode-refuses (Assembly.branch BranchKind.bne rs1 rs2 offset) h = branch_refuses rs1 rs2 offset _ h
encode-refuses (Assembly.branch BranchKind.blt rs1 rs2 offset) h = branch_refuses rs1 rs2 offset _ h
encode-refuses (Assembly.branch BranchKind.bge rs1 rs2 offset) h = branch_refuses rs1 rs2 offset _ h
encode-refuses (Assembly.branch BranchKind.bltu rs1 rs2 offset) h =
    branch_refuses rs1 rs2 offset _ h
encode-refuses (Assembly.branch BranchKind.bgeu rs1 rs2 offset) h =
    branch_refuses rs1 rs2 offset _ h
