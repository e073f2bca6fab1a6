-- ===== src/Isa/Assembly.antt =====
-- One line of assembly, as a call of an encoder of research/week5/impl/rv32_encode.py: when its
-- operands are in range, and what a decoder should read from its word.
use riscv_pipeline_research.Base.{
  ℕ, ◌-◌, ◌*◌, ◌^◌, ◌<◌, pos_part, ◌≡◌, Bool, true, false, Option, none, some, ℤ, pos, negsuc, ◌≤ℤ◌,
  Outcome, ok, err,
}
use riscv_pipeline_research.Word.{mod_ℤ}
use riscv_pipeline_research.Isa.{DecodedInstruction, Mnemonic}
use riscv_pipeline_research.Isa.Encode
use riscv_pipeline_research.Isa.Decode.{decode_instruction}

pub data BranchKind : Type 0 where
  beq bne blt bge bltu bgeu : BranchKind

pub data Assembly : Type 0 where
  add : (rd rs1 rs2 : ℤ) → Assembly
  addi lw jalr : (rd rs1 imm : ℤ) → Assembly
  sw : (rs2 rs1 imm : ℤ) → Assembly
  lui auipc : (rd imm20 : ℤ) → Assembly
  jal : (rd offset : ℤ) → Assembly
  branch : BranchKind → (rs1 rs2 offset : ℤ) → Assembly

unfoldable pub encode : Assembly → Outcome ℕ
encode (Assembly.add rd rs1 rs2) = Encode.add rd rs1 rs2
encode (Assembly.addi rd rs1 imm) = Encode.addi rd rs1 imm
encode (Assembly.lw rd rs1 imm) = Encode.lw rd rs1 imm
encode (Assembly.jalr rd rs1 imm) = Encode.jalr rd rs1 imm
encode (Assembly.sw rs2 rs1 imm) = Encode.sw rs2 rs1 imm
encode (Assembly.lui rd imm20) = Encode.lui rd imm20
encode (Assembly.auipc rd imm20) = Encode.auipc rd imm20
encode (Assembly.jal rd offset) = Encode.jal rd offset
encode (Assembly.branch BranchKind.beq rs1 rs2 offset) = Encode.beq rs1 rs2 offset
encode (Assembly.branch BranchKind.bne rs1 rs2 offset) = Encode.bne rs1 rs2 offset
encode (Assembly.branch BranchKind.blt rs1 rs2 offset) = Encode.blt rs1 rs2 offset
encode (Assembly.branch BranchKind.bge rs1 rs2 offset) = Encode.bge rs1 rs2 offset
encode (Assembly.branch BranchKind.bltu rs1 rs2 offset) = Encode.bltu rs1 rs2 offset
encode (Assembly.branch BranchKind.bgeu rs1 rs2 offset) = Encode.bgeu rs1 rs2 offset

abbrev pub InRange : ℤ → ℕ → Type 0
InRange z high = (pos 0 ≤ℤ z) × (z ≤ℤ pos high)

-- A signed value of `k + 1` bits.
abbrev pub IsSigned : ℕ → ℤ → Type 0
IsSigned k z = (negsuc (2 ^ k - 1) ≤ℤ z) × (z ≤ℤ pos (2 ^ k - 1))

abbrev pub IsEncodable : Assembly → Type 0
IsEncodable (Assembly.add rd rs1 rs2) = InRange rd 31 × InRange rs1 31 × InRange rs2 31
IsEncodable (Assembly.addi rd rs1 imm) = InRange rd 31 × InRange rs1 31 × IsSigned 11 imm
IsEncodable (Assembly.lw rd rs1 imm) = InRange rd 31 × InRange rs1 31 × IsSigned 11 imm
IsEncodable (Assembly.jalr rd rs1 imm) = InRange rd 31 × InRange rs1 31 × IsSigned 11 imm
IsEncodable (Assembly.sw rs2 rs1 imm) = InRange rs1 31 × InRange rs2 31 × IsSigned 11 imm
IsEncodable (Assembly.lui rd imm20) = InRange rd 31 × InRange imm20 0xfffff
IsEncodable (Assembly.auipc rd imm20) = InRange rd 31 × InRange imm20 0xfffff
IsEncodable (Assembly.jal rd offset) = InRange rd 31 × (IsSigned 20 offset × (mod_ℤ offset 2 ≡ 0))
IsEncodable (Assembly.branch _ rs1 rs2 offset) =
    InRange rs1 31 × InRange rs2 31 × (IsSigned 12 offset × (mod_ℤ offset 2 ≡ 0))

abbrev pub branch_name : BranchKind → Mnemonic
branch_name BranchKind.beq = Mnemonic.beq
branch_name BranchKind.bne = Mnemonic.bne
branch_name BranchKind.blt = Mnemonic.blt
branch_name BranchKind.bge = Mnemonic.bge
branch_name BranchKind.bltu = Mnemonic.bltu
branch_name BranchKind.bgeu = Mnemonic.bgeu

-- The register operands that an instruction has.
abbrev pub Sources : DecodedInstruction → Bool → Bool → Bool → Type 0
Sources d rd rs1 rs2 = (d.writes_rd ≡ rd) × (d.uses_rs1 ≡ rs1) × (d.uses_rs2 ≡ rs2)

-- An upper immediate is the value with twelve zero bits below.
abbrev pub shifted : ℤ → ℤ
shifted z = pos (pos_part z * 2 ^ 12)

abbrev pub Denotes : Assembly → DecodedInstruction → Type 0
Denotes (Assembly.add rd rs1 rs2) d =
    (d.mnemonic ≡ Mnemonic.add)
    × (pos d.rd ≡ rd)
    × (pos d.rs1 ≡ rs1)
    × (pos d.rs2 ≡ rs2)
    × (d.imm ≡ none)
    × Sources d true true true
Denotes (Assembly.addi rd rs1 imm) d =
    (d.mnemonic ≡ Mnemonic.addi)
    × (pos d.rd ≡ rd)
    × (pos d.rs1 ≡ rs1)
    × (d.imm ≡ some imm)
    × Sources d true true false
Denotes (Assembly.lw rd rs1 imm) d =
    (d.mnemonic ≡ Mnemonic.lw)
    × (pos d.rd ≡ rd)
    × (pos d.rs1 ≡ rs1)
    × (d.imm ≡ some imm)
    × Sources d true true false
Denotes (Assembly.jalr rd rs1 imm) d =
    (d.mnemonic ≡ Mnemonic.jalr)
    × (pos d.rd ≡ rd)
    × (pos d.rs1 ≡ rs1)
    × (d.imm ≡ some imm)
    × Sources d true true false
Denotes (Assembly.sw rs2 rs1 imm) d =
    (d.mnemonic ≡ Mnemonic.sw)
    × (pos d.rs2 ≡ rs2)
    × (pos d.rs1 ≡ rs1)
    × (d.imm ≡ some imm)
    × Sources d false true true
Denotes (Assembly.lui rd imm20) d =
    (d.mnemonic ≡ Mnemonic.lui)
    × (pos d.rd ≡ rd)
    × (d.imm ≡ some (shifted imm20))
    × Sources d true false false
Denotes (Assembly.auipc rd imm20) d =
    (d.mnemonic ≡ Mnemonic.auipc)
    × (pos d.rd ≡ rd)
    × (d.imm ≡ some (shifted imm20))
    × Sources d true false false
Denotes (Assembly.jal rd offset) d =
    (d.mnemonic ≡ Mnemonic.jal)
    × (pos d.rd ≡ rd)
    × (d.imm ≡ some offset)
    × Sources d true false false
Denotes (Assembly.branch kind rs1 rs2 offset) d =
    (d.mnemonic ≡ branch_name kind)
    × (pos d.rs1 ≡ rs1)
    × (pos d.rs2 ≡ rs2)
    × (d.imm ≡ some offset)
    × Sources d false true true

-- What a decoder returns for the word of a line.
abbrev pub Reads : Assembly → Outcome (Option DecodedInstruction) → Type 0
Reads a (ok (some d)) = Denotes a d
Reads a (ok none) = ⊥
Reads a (err _) = ⊥

-- An encoder's result that is a word which the decoder reads as the line.
abbrev pub RoundTrips : Assembly → Type 0
RoundTrips a = (w : ℕ) × (encode a ≡ ok w) × (w < 2 ^ 32) × Reads a (decode_instruction w)
