-- ===== src/Isa/Fields.antt =====
-- The layouts of an instruction word as sums, and the fields that the decoder cuts out of them.
use riscv_pipeline_research.Base.{
  ℕ, ◌+◌, ◌*◌, ◌/◌, ◌^◌, ◌<◌, ◌≡◌, arith, bit_and, bit_or, bit_and-low_mask, bit_or-below,
}
use riscv_pipeline_research.Isa.Decode.{field}
use riscv_pipeline_research.Isa.Encode.{i_word, r_word, b_word, j_word}
use riscv_pipeline_research.Isa.{op_branch, op_jal}

pub i_word_sum :
    (upper rs1 funct3 rd opcode : ℕ)
    → rs1 < 32
    → funct3 < 8
    → rd < 32
    → opcode < 128
    → i_word upper rs1 funct3 rd opcode
      ≡ upper * 2 ^ 20 + rs1 * 2 ^ 15 + funct3 * 2 ^ 12 + rd * 2 ^ 7 + opcode
i_word_sum u s f d o hs hf hd ho = rw (
  bit_or-below 20 (u * 2 ^ 20) (s * 2 ^ 15) (omega arith) (omega arith),
  bit_or-below 15 (u * 2 ^ 20 + s * 2 ^ 15) (f * 2 ^ 12) (omega arith) (omega arith),
  bit_or-below 12 (u * 2 ^ 20 + s * 2 ^ 15 + f * 2 ^ 12) (d * 2 ^ 7) (omega arith) (omega arith),
  bit_or-below 7 (u * 2 ^ 20 + s * 2 ^ 15 + f * 2 ^ 12 + d * 2 ^ 7) o (omega arith) (omega arith),
)

pub r_word_sum :
    (upper rs2 rs1 funct3 lower opcode : ℕ)
    → rs2 < 32
    → rs1 < 32
    → funct3 < 8
    → lower < 32
    → opcode < 128
    → r_word upper rs2 rs1 funct3 lower opcode
      ≡ upper * 2 ^ 25 + rs2 * 2 ^ 20 + rs1 * 2 ^ 15 + funct3 * 2 ^ 12 + lower * 2 ^ 7 + opcode
r_word_sum u t s f d o ht hs hf hd ho = rw (
  bit_or-below 25 (u * 2 ^ 25) (t * 2 ^ 20) (omega arith) (omega arith),
  bit_or-below 20 (u * 2 ^ 25 + t * 2 ^ 20) (s * 2 ^ 15) (omega arith) (omega arith),
  bit_or-below 15 (u * 2 ^ 25 + t * 2 ^ 20 + s * 2 ^ 15) (f * 2 ^ 12) (omega arith) (omega arith),
  bit_or-below 12 (u * 2 ^ 25 + t * 2 ^ 20 + s * 2 ^ 15 + f * 2 ^ 12) (d * 2 ^ 7) (omega arith)
      (omega arith),
  bit_or-below 7 (u * 2 ^ 25 + t * 2 ^ 20 + s * 2 ^ 15 + f * 2 ^ 12 + d * 2 ^ 7) o (omega arith)
      (omega arith),
)

-- The six fields of a word that is given as a sum.
pub fields_of_sum :
    (upper rs2 rs1 funct3 lower opcode : ℕ)
    → rs2 < 32
    → rs1 < 32
    → funct3 < 8
    → lower < 32
    → opcode < 128
    → upper < 128
    → let word =
        upper * 2 ^ 25 + rs2 * 2 ^ 20 + rs1 * 2 ^ 15 + funct3 * 2 ^ 12 + lower * 2 ^ 7 + opcode in
      (bit_and word 0x7f ≡ opcode)
      × (field word 7 0x1f ≡ lower)
      × (field word 15 0x1f ≡ rs1)
      × (field word 20 0x1f ≡ rs2)
      × (field word 12 0x7 ≡ funct3)
      × (field word 25 0x7f ≡ upper)
fields_of_sum u t s f d o ht hs hf hd ho hu =
    let w : ℕ = u * 2 ^ 25 + t * 2 ^ 20 + s * 2 ^ 15 + f * 2 ^ 12 + d * 2 ^ 7 + o in
    (
      omega (arith, bit_and-low_mask 7 w),
      omega (arith, bit_and-low_mask 5 (w / 2 ^ 7)),
      omega (arith, bit_and-low_mask 5 (w / 2 ^ 15)),
      omega (arith, bit_and-low_mask 5 (w / 2 ^ 20)),
      omega (arith, bit_and-low_mask 3 (w / 2 ^ 12)),
      omega (arith, bit_and-low_mask 7 (w / 2 ^ 25)),
    )

-- `branch` scatters its 13-bit immediate over the upper and the lower field.
pub b_word_sum :
    (bit12 bits10_5 rs2 rs1 funct3 bits4_1 bit11 : ℕ)
    → bit12 < 2
    → bits10_5 < 64
    → rs2 < 32
    → rs1 < 32
    → funct3 < 8
    → bits4_1 < 16
    → bit11 < 2
    → b_word bit12 bits10_5 rs2 rs1 funct3 bits4_1 bit11
      ≡ (bit12 * 64 + bits10_5) * 2 ^ 25
        + rs2 * 2 ^ 20
        + rs1 * 2 ^ 15
        + funct3 * 2 ^ 12
        + (bits4_1 * 2 + bit11) * 2 ^ 7
        + op_branch
b_word_sum a b t s f c e ha hb ht hs hf hc he =
    rw
      (
        bit_or-below 31 (a * 2 ^ 31) (b * 2 ^ 25) (omega arith) (omega arith),
        bit_or-below 25 (a * 2 ^ 31 + b * 2 ^ 25) (t * 2 ^ 20) (omega arith) (omega arith),
        bit_or-below 20 (a * 2 ^ 31 + b * 2 ^ 25 + t * 2 ^ 20) (s * 2 ^ 15) (omega arith)
            (omega arith),
        bit_or-below 15 (a * 2 ^ 31 + b * 2 ^ 25 + t * 2 ^ 20 + s * 2 ^ 15) (f * 2 ^ 12)
            (omega arith) (omega arith),
        bit_or-below 12 (a * 2 ^ 31 + b * 2 ^ 25 + t * 2 ^ 20 + s * 2 ^ 15 + f * 2 ^ 12) (c * 2 ^ 8)
            (omega arith) (omega arith),
        bit_or-below 8 (a * 2 ^ 31 + b * 2 ^ 25 + t * 2 ^ 20 + s * 2 ^ 15 + f * 2 ^ 12 + c * 2 ^ 8)
            (e * 2 ^ 7) (omega arith) (omega arith),
        bit_or-below 7
            (a * 2 ^ 31 + b * 2 ^ 25 + t * 2 ^ 20 + s * 2 ^ 15 + f * 2 ^ 12 + c * 2 ^ 8 + e * 2 ^ 7)
            op_branch (omega arith) (omega arith),
      )
      (omega arith)

-- `jal` scatters its 21-bit immediate over all fields above `rd`.
pub j_word_sum :
    (bit20 bits10_1 bit11 bits19_12 rd : ℕ)
    → bit20 < 2
    → bits10_1 < 1024
    → bit11 < 2
    → bits19_12 < 256
    → rd < 32
    → j_word bit20 bits10_1 bit11 bits19_12 rd
      ≡ (bit20 * 2 ^ 19 + bits10_1 * 2 ^ 9 + bit11 * 2 ^ 8 + bits19_12) * 2 ^ 12
        + rd * 2 ^ 7
        + op_jal
j_word_sum a b c e d ha hb hc he hd =
    rw
      (
        bit_or-below 31 (a * 2 ^ 31) (b * 2 ^ 21) (omega arith) (omega arith),
        bit_or-below 21 (a * 2 ^ 31 + b * 2 ^ 21) (c * 2 ^ 20) (omega arith) (omega arith),
        bit_or-below 20 (a * 2 ^ 31 + b * 2 ^ 21 + c * 2 ^ 20) (e * 2 ^ 12) (omega arith)
            (omega arith),
        bit_or-below 12 (a * 2 ^ 31 + b * 2 ^ 21 + c * 2 ^ 20 + e * 2 ^ 12) (d * 2 ^ 7)
            (omega arith) (omega arith),
        bit_or-below 7 (a * 2 ^ 31 + b * 2 ^ 21 + c * 2 ^ 20 + e * 2 ^ 12 + d * 2 ^ 7) op_jal
            (omega arith) (omega arith),
      )
      (omega arith)

-- `lui` and `auipc` keep their immediate in the top 20 bits.
pub u_word_sum :
    (imm20 rd opcode : ℕ)
    → rd < 32
    → opcode < 128
    → bit_or (bit_or (imm20 * 2 ^ 12) (rd * 2 ^ 7)) opcode ≡ imm20 * 2 ^ 12 + rd * 2 ^ 7 + opcode
u_word_sum u d o hd ho = rw (
  bit_or-below 12 (u * 2 ^ 12) (d * 2 ^ 7) (omega arith) (omega arith),
  bit_or-below 7 (u * 2 ^ 12 + d * 2 ^ 7) o (omega arith) (omega arith),
)
