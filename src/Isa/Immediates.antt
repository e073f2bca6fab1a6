-- ===== src/Isa/Immediates.antt =====
-- The immediate decoders on words whose immediates are scattered as the encoder does it.
use riscv_pipeline_research.Base.{
  ℕ, ◌+◌, ◌*◌, ◌/◌, ◌%◌, ◌^◌, ◌<◌, ◌≡◌, ap, ◌∙◌, arith, bit_and-low_mask, bit_or-below,
  bit_and-shifted,
}
use riscv_pipeline_research.Word.{sign_extend}
use riscv_pipeline_research.Isa.Decode.{
  decode_i_imm, decode_s_imm, decode_b_imm, decode_j_imm, decode_u_imm,
}

module _ (w : ℕ) where
  pub decode_i_imm_lem : (imm : ℕ) → w / 2 ^ 20 ≡ imm → decode_i_imm w ≡ sign_extend imm 12
  unfolding decode_i_imm
  decode_i_imm_lem imm e = ap (λ (t : ℕ). sign_extend t 12) e

  pub decode_s_imm_lem : decode_s_imm w ≡ sign_extend (w / 2 ^ 25 % 128 * 32 + w / 2 ^ 7 % 32) 12
  unfolding decode_s_imm
  decode_s_imm_lem = rw (
    bit_and-low_mask 7 (w / 2 ^ 25),
    bit_and-low_mask 5 (w / 2 ^ 7),
    bit_or-below 5 (w / 2 ^ 25 % 128 * 2 ^ 5) (w / 2 ^ 7 % 32) (omega arith) (omega arith),
  )

  pub decode_b_imm_lem :
      decode_b_imm w
      ≡ sign_extend
          (w / 2 ^ 31 % 2 * 2 ^ 12
            + w / 2 ^ 7 % 2 * 2 ^ 11
            + w / 2 ^ 25 % 64 * 32
            + w / 2 ^ 8 % 16 * 2)
          13
  unfolding decode_b_imm
  decode_b_imm_lem = rw (
    bit_and-low_mask 1 (w / 2 ^ 31),
    bit_and-low_mask 1 (w / 2 ^ 7),
    bit_and-low_mask 6 (w / 2 ^ 25),
    bit_and-low_mask 4 (w / 2 ^ 8),
    bit_or-below 12 (w / 2 ^ 31 % 2 * 2 ^ 12) (w / 2 ^ 7 % 2 * 2 ^ 11) (omega arith) (omega arith),
    bit_or-below 11 (w / 2 ^ 31 % 2 * 2 ^ 12 + w / 2 ^ 7 % 2 * 2 ^ 11) (w / 2 ^ 25 % 64 * 2 ^ 5)
        (omega arith) (omega arith),
    bit_or-below 5 (w / 2 ^ 31 % 2 * 2 ^ 12 + w / 2 ^ 7 % 2 * 2 ^ 11 + w / 2 ^ 25 % 64 * 2 ^ 5)
        (w / 2 ^ 8 % 16 * 2 ^ 1) (omega arith) (omega arith),
  )

  pub decode_j_imm_lem :
      decode_j_imm w
      ≡ sign_extend
          (w / 2 ^ 31 % 2 * 2 ^ 20
            + w / 2 ^ 12 % 256 * 2 ^ 12
            + w / 2 ^ 20 % 2 * 2 ^ 11
            + w / 2 ^ 21 % 1024 * 2)
          21
  unfolding decode_j_imm
  decode_j_imm_lem = rw (
    bit_and-low_mask 1 (w / 2 ^ 31),
    bit_and-low_mask 8 (w / 2 ^ 12),
    bit_and-low_mask 1 (w / 2 ^ 20),
    bit_and-low_mask 10 (w / 2 ^ 21),
    bit_or-below 20 (w / 2 ^ 31 % 2 * 2 ^ 20) (w / 2 ^ 12 % 256 * 2 ^ 12) (omega arith)
        (omega arith),
    bit_or-below 12 (w / 2 ^ 31 % 2 * 2 ^ 20 + w / 2 ^ 12 % 256 * 2 ^ 12) (w / 2 ^ 20 % 2 * 2 ^ 11)
        (omega arith) (omega arith),
    bit_or-below 11 (w / 2 ^ 31 % 2 * 2 ^ 20 + w / 2 ^ 12 % 256 * 2 ^ 12 + w / 2 ^ 20 % 2 * 2 ^ 11)
        (w / 2 ^ 21 % 1024 * 2 ^ 1) (omega arith) (omega arith),
  )

  pub decode_u_imm_lem : w < 2 ^ 32 → decode_u_imm w ≡ w / 2 ^ 12 * 2 ^ 12
  unfolding decode_u_imm
  decode_u_imm_lem h =
      bit_and-shifted 12 w 0xfffff ∙ omega (arith, bit_and-low_mask 20 (w / 2 ^ 12))
