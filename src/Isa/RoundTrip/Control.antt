-- ===== src/Isa/RoundTrip/Control.antt =====
-- Encode, then decode: branches and jumps of rv32_encode.py, whose offsets are scattered.
use riscv_pipeline_research.Base.{
  ℕ, ◌+◌, ◌*◌, ◌/◌, ◌%◌, ◌^◌, ◌<◌, ◌≡◌, refl, ap, ◌∙◌, arith, ok, some, ℤ, pos_part,
}
use riscv_pipeline_research.Word.{low_bits, mod_ℤ, sign_extend}
use riscv_pipeline_research.Word.Laws.{
  low_bits-lt, sign_extend-low_bits, low_bits-even_13, low_bits-even_21,
}
use riscv_pipeline_research.Isa.{op_branch, op_jal}
use riscv_pipeline_research.Isa.Decode.{decode_instruction, decode_fields, decode_b_imm}
use riscv_pipeline_research.Isa.Encode
use riscv_pipeline_research.Isa.Encode.{r_word, i_word}
use riscv_pipeline_research.Isa.Immediates.{decode_b_imm_lem, decode_j_imm_lem}
use riscv_pipeline_research.Isa.Assembly.{
  Assembly, BranchKind, encode, InRange, IsSigned, RoundTrips,
}
use riscv_pipeline_research.Isa.Words.{
  reg-lt, assemble, decode_of_sum, reg-ok, signed_imm-ok, pos_part-pos, b_word-assemble,
  j_word-assemble,
}
use riscv_pipeline_research.Isa.RoundTrip.Data.{u_assembled, u_decoded}

-- The number that `jal` puts in the top twenty bits.
abbrev scattered : ℕ → ℕ
scattered i = i / 2 ^ 20 * 2 ^ 19 + i / 2 % 1024 * 2 ^ 9 + i / 2 ^ 11 % 2 * 2 ^ 8 + i / 2 ^ 12 % 256

pub jal_round_trip :
    (rd offset : ℤ)
    → InRange rd 31
    → IsSigned 20 offset
    → mod_ℤ offset 2 ≡ 0
    → RoundTrips (Assembly.jal rd offset)
unfolding encode Encode.jal decode_fields u_assembled
jal_round_trip rd offset hd hi even =
    let i : ℕ = low_bits offset 21 in
    let small = low_bits-lt offset 21 in
    let halved = low_bits-even_21 offset even in
    let top : scattered i < 2 ^ 20 = omega arith in
    let (fits, decoded, back) = u_decoded rd hd (scattered i) op_jal top (omega arith) in
    let w : ℕ = u_assembled rd hd (scattered i) op_jal top (omega arith) in
    let gathered : w / 2 ^ 31 % 2 * 2 ^ 20
          + w / 2 ^ 12 % 256 * 2 ^ 12
          + w / 2 ^ 20 % 2 * 2 ^ 11
          + w / 2 ^ 21 % 1024 * 2
        ≡ i =
      omega arith in
    (
      w,
      rw (reg-ok rd hd, signed_imm-ok 20 offset 2 hi even)
          (ap ok (j_word-assemble i (pos_part rd) small (reg-lt rd hd))),
      fits,
      rw decoded (
        refl,
        pos_part-pos rd 31 hd,
        ap some (
            decode_j_imm_lem w
            ∙ ap (λ (v : ℕ). sign_extend v 21) gathered
            ∙ sign_extend-low_bits 20 offset hi.0 hi.1),
        (refl, refl, refl),
      ),
    )

module _ (rs1 rs2 offset : ℤ) (hs : InRange rs1 31) (ht : InRange rs2 31) (hi : IsSigned 12 offset)
    (even : mod_ℤ offset 2 ≡ 0) where
  b_assembled : ℕ → ℕ
  b_assembled funct3 =
      let i : ℕ = low_bits offset 13 in
      assemble (i / 2 ^ 12 * 64 + i / 2 ^ 5 % 64) (pos_part rs2) (pos_part rs1) funct3
        (i / 2 % 16 * 2 + i / 2 ^ 11 % 2) op_branch

  b_encoded :
      (funct3 : ℕ) → funct3 < 8 → Encode.branch rs1 rs2 offset funct3 ≡ ok (b_assembled funct3)
  unfolding Encode.branch b_assembled
  b_encoded f hf =
      rw (reg-ok rs1 hs, reg-ok rs2 ht, signed_imm-ok 12 offset 2 hi even)
        (ap ok (
          b_word-assemble (low_bits offset 13) (pos_part rs2) (pos_part rs1) f
            (low_bits-lt offset 13) (reg-lt rs2 ht) (reg-lt rs1 hs) hf))

  b_decoded :
      (funct3 : ℕ)
      → funct3 < 8
      → let i : ℕ = low_bits offset 13 in
        let w = b_assembled funct3 in
        (w < 2 ^ 32)
        × (decode_instruction w
            ≡ ok (
                decode_fields w op_branch
                  (i / 2 % 16 * 2 + i / 2 ^ 11 % 2)
                  (pos_part rs1)
                  (pos_part rs2)
                  funct3
                  (i / 2 ^ 12 * 64 + i / 2 ^ 5 % 64)))
        × (decode_b_imm w ≡ offset)
  unfolding b_assembled
  b_decoded f hf =
      let i : ℕ = low_bits offset 13 in
      let w : ℕ = b_assembled f in
      let small = low_bits-lt offset 13 in
      let halved = low_bits-even_13 offset even in
      let s = reg-lt rs1 hs in
      let t = reg-lt rs2 ht in
      let gathered : w / 2 ^ 31 % 2 * 2 ^ 12
            + w / 2 ^ 7 % 2 * 2 ^ 11
            + w / 2 ^ 25 % 64 * 32
            + w / 2 ^ 8 % 16 * 2
          ≡ i =
        omega arith in
      (
        omega arith,
        decode_of_sum (i / 2 ^ 12 * 64 + i / 2 ^ 5 % 64) (pos_part rs2) (pos_part rs1) f
            (i / 2 % 16 * 2 + i / 2 ^ 11 % 2) op_branch t s hf (omega arith) (omega arith)
            (omega arith),
        decode_b_imm_lem w
            ∙ ap (λ (v : ℕ). sign_extend v 13) gathered
            ∙ sign_extend-low_bits 12 offset hi.0 hi.1,
      )

  pub branch_round_trip : (kind : BranchKind) → RoundTrips (Assembly.branch kind rs1 rs2 offset)
  unfolding encode decode_fields
  branch_round_trip BranchKind.beq =
      let (fits, decoded, back) = b_decoded 0 (omega arith) in
      (
        b_assembled 0,
        unfold Encode.beq in b_encoded 0 (omega arith),
        fits,
        rw decoded (
          refl,
          pos_part-pos rs1 31 hs,
          pos_part-pos rs2 31 ht,
          ap some back,
          (refl, refl, refl),
        ),
      )
  branch_round_trip BranchKind.bne =
      let (fits, decoded, back) = b_decoded 1 (omega arith) in
      (
        b_assembled 1,
        unfold Encode.bne in b_encoded 1 (omega arith),
        fits,
        rw decoded (
          refl,
          pos_part-pos rs1 31 hs,
          pos_part-pos rs2 31 ht,
          ap some back,
          (refl, refl, refl),
        ),
      )
  branch_round_trip BranchKind.blt =
      let (fits, decoded, back) = b_decoded 4 (omega arith) in
      (
        b_assembled 4,
        unfold Encode.blt in b_encoded 4 (omega arith),
        fits,
        rw decoded (
          refl,
          pos_part-pos rs1 31 hs,
          pos_part-pos rs2 31 ht,
          ap some back,
          (refl, refl, refl),
        ),
      )
  branch_round_trip BranchKind.bge =
      let (fits, decoded, back) = b_decoded 5 (omega arith) in
      (
        b_assembled 5,
        unfold Encode.bge in b_encoded 5 (omega arith),
        fits,
        rw decoded (
          refl,
          pos_part-pos rs1 31 hs,
          pos_part-pos rs2 31 ht,
          ap some back,
          (refl, refl, refl),
        ),
      )
  branch_round_trip BranchKind.bltu =
      let (fits, decoded, back) = b_decoded 6 (omega arith) in
      (
        b_assembled 6,
        unfold Encode.bltu in b_encoded 6 (omega arith),
        fits,
        rw decoded (
          refl,
          pos_part-pos rs1 31 hs,
          pos_part-pos rs2 31 ht,
          ap some back,
          (refl, refl, refl),
        ),
      )
  branch_round_trip BranchKind.bgeu =
      let (fits, decoded, back) = b_decoded 7 (omega arith) in
      (
        b_assembled 7,
        unfold Encode.bgeu in b_encoded 7 (omega arith),
        fits,
        rw decoded (
          refl,
          pos_part-pos rs1 31 hs,
          pos_part-pos rs2 31 ht,
          ap some back,
          (refl, refl, refl),
        ),
      )
