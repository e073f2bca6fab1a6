-- ===== src/Isa/Encode.antt =====
-- The encoder, research/week5/impl/rv32_encode.py. Registers and immediates are Python integers.
use riscv_pipeline_research.Base.{
  ℕ, ◌-◌, ◌^◌, bit_and, bit_or, ◌&&◌, List, [], ◌∷◌, ◌++◌, ℤ, pos, negsuc, leb_ℤ, ltb, Outcome, ok,
  err, value_error, require, raise_if, ◌>>=◌, ◌>>◌, ◌==◌,
}
use riscv_pipeline_research.Word.{mask32, ◌<<<◌, ◌>>>◌, low_bits, mod_ℤ}
use riscv_pipeline_research.Isa.{
  op_r, op_load, op_store, op_imm, op_branch, op_jal, op_jalr, op_lui, op_auipc,
}

-- `0 <= value <= high`, and the value as a natural number.
unfoldable pub checked : ℕ → ℤ → Outcome ℕ
checked high (pos n) = do raise_if (ltb high n) value_error; ok n
checked high (negsuc n) = err value_error

unfoldable pub reg : ℤ → Outcome ℕ
reg value = checked 31 value

unfoldable pub signed_imm : ℤ → ℕ → ℕ → Outcome ℕ
signed_imm value bits alignment = do
  let minimum = negsuc (2 ^ (bits - 1) - 1)
  let maximum = pos (2 ^ (bits - 1) - 1)
  require (leb_ℤ minimum value && leb_ℤ value maximum) value_error
  require (mod_ℤ value alignment == 0) value_error
  ok (low_bits value bits)

-- The layout that `_branch` writes out.
abbrev pub b_word : ℕ → ℕ → ℕ → ℕ → ℕ → ℕ → ℕ → ℕ
b_word bit12 bits10_5 rs2 rs1 funct3 bits4_1 bit11 =
    bit_or
      (bit_or
        (bit_or
          (bit_or
            (bit_or (bit_or (bit_or (bit12 <<< 31) (bits10_5 <<< 25)) (rs2 <<< 20)) (rs1 <<< 15))
            (funct3 <<< 12))
          (bits4_1 <<< 8))
        (bit11 <<< 7))
      op_branch

unfoldable pub branch : ℤ → ℤ → ℤ → ℕ → Outcome ℕ
branch rs1 rs2 offset funct3 = do
  rs1 ← reg rs1
  rs2 ← reg rs2
  imm13 ← signed_imm offset 13 2
  let bit12 = bit_and (imm13 >>> 12) 0x1
  let bit11 = bit_and (imm13 >>> 11) 0x1
  let bits10_5 = bit_and (imm13 >>> 5) 0x3f
  let bits4_1 = bit_and (imm13 >>> 1) 0xf
  ok (b_word bit12 bits10_5 rs2 rs1 funct3 bits4_1 bit11)

-- `(upper << 20) | (rs1 << 15) | (funct3 << 12) | (rd << 7) | opcode`, the layout that `addi`,
-- `lw` and `jalr` write out.
abbrev pub i_word : ℕ → ℕ → ℕ → ℕ → ℕ → ℕ
i_word upper rs1 funct3 rd opcode =
    bit_or (bit_or (bit_or (bit_or (upper <<< 20) (rs1 <<< 15)) (funct3 <<< 12)) (rd <<< 7)) opcode

-- `(upper << 25) | (rs2 << 20) | (rs1 << 15) | (funct3 << 12) | (lower << 7) | opcode`, the layout
-- that `add` and `sw` write out.
abbrev pub r_word : ℕ → ℕ → ℕ → ℕ → ℕ → ℕ → ℕ
r_word upper rs2 rs1 funct3 lower opcode =
    bit_or
      (bit_or (bit_or (bit_or (bit_or (upper <<< 25) (rs2 <<< 20)) (rs1 <<< 15)) (funct3 <<< 12))
        (lower <<< 7))
      opcode

unfoldable pub add : ℤ → ℤ → ℤ → Outcome ℕ
add rd rs1 rs2 = do
  rd ← reg rd
  rs1 ← reg rs1
  rs2 ← reg rs2
  ok (r_word 0b0000000 rs2 rs1 0b000 rd op_r)

unfoldable pub addi : ℤ → ℤ → ℤ → Outcome ℕ
addi rd rs1 imm = do
  rd ← reg rd
  rs1 ← reg rs1
  imm12 ← signed_imm imm 12 1
  ok (i_word imm12 rs1 0b000 rd op_imm)

unfoldable pub lw : ℤ → ℤ → ℤ → Outcome ℕ
lw rd rs1 imm = do
  rd ← reg rd
  rs1 ← reg rs1
  imm12 ← signed_imm imm 12 1
  ok (i_word imm12 rs1 0b010 rd op_load)

unfoldable pub sw : ℤ → ℤ → ℤ → Outcome ℕ
sw rs2 rs1 imm = do
  rs1 ← reg rs1
  rs2 ← reg rs2
  imm12 ← signed_imm imm 12 1
  let imm_hi = bit_and (imm12 >>> 5) 0x7f
  let imm_lo = bit_and imm12 0x1f
  ok (r_word imm_hi rs2 rs1 0b010 imm_lo op_store)

unfoldable pub lui : ℤ → ℤ → Outcome ℕ
lui rd imm20 = do
  rd ← reg rd
  imm20 ← checked 0xfffff imm20
  ok (bit_or (bit_or (imm20 <<< 12) (rd <<< 7)) op_lui)

unfoldable pub auipc : ℤ → ℤ → Outcome ℕ
auipc rd imm20 = do
  rd ← reg rd
  imm20 ← checked 0xfffff imm20
  ok (bit_or (bit_or (imm20 <<< 12) (rd <<< 7)) op_auipc)

unfoldable pub jalr : ℤ → ℤ → ℤ → Outcome ℕ
jalr rd rs1 imm = do
  rd ← reg rd
  rs1 ← reg rs1
  imm12 ← signed_imm imm 12 1
  ok (i_word imm12 rs1 0b000 rd op_jalr)

-- The layout that `jal` writes out.
abbrev pub j_word : ℕ → ℕ → ℕ → ℕ → ℕ → ℕ
j_word bit20 bits10_1 bit11 bits19_12 rd =
    bit_or
      (bit_or
        (bit_or (bit_or (bit_or (bit20 <<< 31) (bits10_1 <<< 21)) (bit11 <<< 20))
          (bits19_12 <<< 12))
        (rd <<< 7))
      op_jal

unfoldable pub jal : ℤ → ℤ → Outcome ℕ
jal rd offset = do
  rd ← reg rd
  imm21 ← signed_imm offset 21 2
  let bit20 = bit_and (imm21 >>> 20) 0x1
  let bits10_1 = bit_and (imm21 >>> 1) 0x3ff
  let bit11 = bit_and (imm21 >>> 11) 0x1
  let bits19_12 = bit_and (imm21 >>> 12) 0xff
  ok (j_word bit20 bits10_1 bit11 bits19_12 rd)

unfoldable pub beq : ℤ → ℤ → ℤ → Outcome ℕ
beq rs1 rs2 offset = branch rs1 rs2 offset 0b000

unfoldable pub bne : ℤ → ℤ → ℤ → Outcome ℕ
bne rs1 rs2 offset = branch rs1 rs2 offset 0b001

unfoldable pub blt : ℤ → ℤ → ℤ → Outcome ℕ
blt rs1 rs2 offset = branch rs1 rs2 offset 0b100

unfoldable pub bge : ℤ → ℤ → ℤ → Outcome ℕ
bge rs1 rs2 offset = branch rs1 rs2 offset 0b101

unfoldable pub bltu : ℤ → ℤ → ℤ → Outcome ℕ
bltu rs1 rs2 offset = branch rs1 rs2 offset 0b110

unfoldable pub bgeu : ℤ → ℤ → ℤ → Outcome ℕ
bgeu rs1 rs2 offset = branch rs1 rs2 offset 0b111

unfoldable pub nop : Outcome ℕ
nop = addi (pos 0) (pos 0) (pos 0)

unfoldable pub word_to_le_bytes : ℤ → Outcome (List ℕ)
word_to_le_bytes word = do
  word ← checked mask32 word
  ok (
      bit_and (word >>> 0) 0xff
      ∷ bit_and (word >>> 8) 0xff
      ∷ bit_and (word >>> 16) 0xff
      ∷ bit_and (word >>> 24) 0xff
      ∷ [])

-- The bytes that `words_to_hex_text` prints, one to a line.
unfoldable pub words_to_bytes : List ℤ → Outcome (List ℕ)
words_to_bytes [] = ok []
words_to_bytes (word ∷ words) = do
  bytes ← word_to_le_bytes word
  rest ← words_to_bytes words
  ok (bytes ++ rest)
