-- ===== src/Isa/Words.antt =====
-- The word that each encoder builds from operands in range, as a sum of its fields, and what the
-- decoder reads from a sum of fields.
use riscv_pipeline_research.Base.{
  ℕ, suc, ◌+◌, ◌-◌, ◌*◌, ◌/◌, ◌%◌, ◌^◌, ◌<◌, ◌≡◌, arith, bit_and, bit_or, bit_and-low_mask, ok, err,
  value_error, ℤ, pos, negsuc, pos_part, ltb, false, ◌⊎◌, inl, inr,
}
use riscv_pipeline_research.Word.{mask32, low_bits, mod_ℤ}
use riscv_pipeline_research.Isa.{op_store, op_branch, op_jal}
use riscv_pipeline_research.Isa.Decode.{decode_instruction, decode_fields}
use riscv_pipeline_research.Isa.Encode.{checked, reg, signed_imm, i_word, r_word, b_word, j_word}
use riscv_pipeline_research.Isa.Assembly.{InRange, IsSigned}
use riscv_pipeline_research.Isa.Fields.{
  i_word_sum, r_word_sum, b_word_sum, j_word_sum, u_word_sum, fields_of_sum,
}

-- A word from its six fields.
abbrev pub assemble : ℕ → ℕ → ℕ → ℕ → ℕ → ℕ → ℕ
assemble upper rs2 rs1 funct3 lower opcode =
    upper * 2 ^ 25 + rs2 * 2 ^ 20 + rs1 * 2 ^ 15 + funct3 * 2 ^ 12 + lower * 2 ^ 7 + opcode

pub decode_of_sum :
    (upper rs2 rs1 funct3 lower opcode : ℕ)
    → rs2 < 32
    → rs1 < 32
    → funct3 < 8
    → lower < 32
    → opcode < 128
    → upper < 128
    → let word =
        upper * 2 ^ 25 + rs2 * 2 ^ 20 + rs1 * 2 ^ 15 + funct3 * 2 ^ 12 + lower * 2 ^ 7 + opcode in
      decode_instruction word ≡ ok (decode_fields word opcode lower rs1 rs2 funct3 upper)
unfolding decode_instruction
decode_of_sum u t s f d o ht hs hf hd ho hu =
    let w : ℕ = u * 2 ^ 25 + t * 2 ^ 20 + s * 2 ^ 15 + f * 2 ^ 12 + d * 2 ^ 7 + o in
    let (e_op, e_rd, e_rs1, e_rs2, e_f3, e_f7) = fields_of_sum u t s f d o ht hs hf hd ho hu in
    rw (fits, e_op, e_rd, e_rs1, e_rs2, e_f3, e_f7)
  where
    fits : ltb mask32 (u * 2 ^ 25 + t * 2 ^ 20 + s * 2 ^ 15 + f * 2 ^ 12 + d * 2 ^ 7 + o) ≡ false
    fits = ground arith

-- The three ways in which an operand is checked: it passes, and gives its value, or it raises.
pub checked-cases :
    (high : ℕ) (z : ℤ)
    → (InRange z high × (checked high z ≡ ok (pos_part z)))
      ⊎ (¬ (InRange z high) × (checked high z ≡ err value_error))
unfolding checked
checked-cases high (pos n) = ground arith
checked-cases high (negsuc n) = ground arith

pub reg-cases :
    (z : ℤ)
    → (InRange z 31 × (reg z ≡ ok (pos_part z))) ⊎ (¬ (InRange z 31) × (reg z ≡ err value_error))
unfolding reg
reg-cases z = checked-cases 31 z

pub signed_imm-cases :
    (k : ℕ) (z : ℤ) (alignment : ℕ)
    → ((IsSigned k z × (mod_ℤ z alignment ≡ 0))
        × (signed_imm z (suc k) alignment ≡ ok (low_bits z (suc k))))
      ⊎ (¬ (IsSigned k z × (mod_ℤ z alignment ≡ 0))
          × (signed_imm z (suc k) alignment ≡ err value_error))
unfolding signed_imm
signed_imm-cases k z al = rw index (ground arith)
  where
    index : suc k - 1 ≡ k
    index = omega arith

pub pos_part-pos : (z : ℤ) (high : ℕ) → InRange z high → pos (pos_part z) ≡ z
pos_part-pos z high h = ground arith

pub checked-ok : (high : ℕ) (z : ℤ) → InRange z high → checked high z ≡ ok (pos_part z)
checked-ok high z h = ground (arith, checked-cases high z)

pub reg-ok : (z : ℤ) → InRange z 31 → reg z ≡ ok (pos_part z)
reg-ok z h = ground (arith, reg-cases z)

pub signed_imm-ok :
    (k : ℕ) (z : ℤ) (alignment : ℕ)
    → IsSigned k z
    → mod_ℤ z alignment ≡ 0
    → signed_imm z (suc k) alignment ≡ ok (low_bits z (suc k))
signed_imm-ok k z al h e = elim (signed_imm-cases k z al) [
  | inl good ↦ good.1
  | inr bad ↦ absurd (bad.0 (h, e))
]

pub i_word-assemble :
    (imm rs1 funct3 rd opcode : ℕ)
    → rs1 < 32
    → funct3 < 8
    → rd < 32
    → opcode < 128
    → i_word imm rs1 funct3 rd opcode ≡ assemble (imm / 32) (imm % 32) rs1 funct3 rd opcode
i_word-assemble u s f d o hs hf hd ho = omega (arith, i_word_sum u s f d o hs hf hd ho)

-- `sw` splits its 12-bit immediate over the upper and the lower field.
pub s_word-assemble :
    (imm rs2 rs1 : ℕ)
    → imm < 2 ^ 12
    → rs2 < 32
    → rs1 < 32
    → r_word (bit_and (imm / 2 ^ 5) 0x7f) rs2 rs1 0b010 (bit_and imm 0x1f) op_store
      ≡ assemble (imm / 32) rs2 rs1 0b010 (imm % 32) op_store
s_word-assemble i t s hi ht hs =
    rw (bit_and-low_mask 7 (i / 2 ^ 5), bit_and-low_mask 5 i)
      (omega (
        arith,
        r_word_sum (i / 2 ^ 5 % 2 ^ 7) t s 2 (i % 2 ^ 5) op_store ht hs (omega arith) (omega arith)
            (omega arith),
      ))

pub b_word-assemble :
    (imm rs2 rs1 funct3 : ℕ)
    → imm < 2 ^ 13
    → rs2 < 32
    → rs1 < 32
    → funct3 < 8
    → b_word
        (bit_and (imm / 2 ^ 12) 0x1)
        (bit_and (imm / 2 ^ 5) 0x3f)
        rs2
        rs1
        funct3
        (bit_and (imm / 2 ^ 1) 0xf)
        (bit_and (imm / 2 ^ 11) 0x1)
      ≡ assemble
          (imm / 2 ^ 12 * 64 + imm / 2 ^ 5 % 64)
          rs2
          rs1
          funct3
          (imm / 2 % 16 * 2 + imm / 2 ^ 11 % 2)
          op_branch
b_word-assemble i t s f hi ht hs hf =
    rw
      (
        bit_and-low_mask 1 (i / 2 ^ 12),
        bit_and-low_mask 6 (i / 2 ^ 5),
        bit_and-low_mask 4 (i / 2 ^ 1),
        bit_and-low_mask 1 (i / 2 ^ 11),
      )
      (omega (
        arith,
        b_word_sum (i / 2 ^ 12 % 2 ^ 1) (i / 2 ^ 5 % 2 ^ 6) t s f (i / 2 ^ 1 % 2 ^ 4)
            (i / 2 ^ 11 % 2 ^ 1) (omega arith) (omega arith) ht hs hf (omega arith) (omega arith),
      ))

-- The fields of a word whose top twenty bits are given together.
abbrev pub assemble_upper : ℕ → ℕ → ℕ → ℕ
assemble_upper top rd opcode =
    assemble (top / 2 ^ 13) (top / 2 ^ 8 % 32) (top / 2 ^ 3 % 32) (top % 8) rd opcode

pub u_word-assemble :
    (imm20 rd opcode : ℕ)
    → rd < 32
    → opcode < 128
    → bit_or (bit_or (imm20 * 2 ^ 12) (rd * 2 ^ 7)) opcode ≡ assemble_upper imm20 rd opcode
u_word-assemble u d o hd ho = omega (arith, u_word_sum u d o hd ho)

pub j_word-assemble :
    (imm rd : ℕ)
    → imm < 2 ^ 21
    → rd < 32
    → j_word
        (bit_and (imm / 2 ^ 20) 0x1)
        (bit_and (imm / 2 ^ 1) 0x3ff)
        (bit_and (imm / 2 ^ 11) 0x1)
        (bit_and (imm / 2 ^ 12) 0xff)
        rd
      ≡ assemble_upper
          (imm / 2 ^ 20 * 2 ^ 19
            + imm / 2 % 1024 * 2 ^ 9
            + imm / 2 ^ 11 % 2 * 2 ^ 8
            + imm / 2 ^ 12 % 256)
          rd
          op_jal
j_word-assemble i d hi hd =
    rw
      (
        bit_and-low_mask 1 (i / 2 ^ 20),
        bit_and-low_mask 10 (i / 2 ^ 1),
        bit_and-low_mask 1 (i / 2 ^ 11),
        bit_and-low_mask 8 (i / 2 ^ 12),
      )
      (omega (
        arith,
        j_word_sum (i / 2 ^ 20 % 2 ^ 1) (i / 2 ^ 1 % 2 ^ 10) (i / 2 ^ 11 % 2 ^ 1)
            (i / 2 ^ 12 % 2 ^ 8) d (omega arith) (omega arith) (omega arith) (omega arith) hd,
      ))

pub reg-lt : (z : ℤ) → InRange z 31 → pos_part z < 32
reg-lt z h = ground arith
