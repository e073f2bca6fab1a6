-- ===== src/Isa/RoundTrip/Data.antt =====
-- Encode, then decode: arithmetic, loads, stores and upper immediates of rv32_encode.py.
use riscv_pipeline_research.Base.{
  ℕ, ◌+◌, ◌*◌, ◌/◌, ◌%◌, ◌^◌, ◌<◌, ◌≡◌, refl, ap, ◌∙◌, arith, ok, some, ℤ, pos, pos_part,
}
use riscv_pipeline_research.Word.{low_bits, sign_extend}
use riscv_pipeline_research.Word.Laws.{low_bits-lt, sign_extend-low_bits, mod_ℤ-one}
use riscv_pipeline_research.Isa.{op_r, op_load, op_store, op_imm, op_jalr, op_lui, op_auipc}
use riscv_pipeline_research.Isa.Decode.{decode_instruction, decode_fields, decode_i_imm}
use riscv_pipeline_research.Isa.Encode
use riscv_pipeline_research.Isa.Encode.{r_word, i_word}
use riscv_pipeline_research.Isa.Fields.{r_word_sum}
use riscv_pipeline_research.Isa.Immediates.{decode_i_imm_lem, decode_s_imm_lem, decode_u_imm_lem}
use riscv_pipeline_research.Isa.Assembly.{Assembly, encode, InRange, IsSigned, RoundTrips}
use riscv_pipeline_research.Isa.Words.{
  reg-lt, assemble, assemble_upper, decode_of_sum, checked-ok, reg-ok, signed_imm-ok, pos_part-pos,
  i_word-assemble, s_word-assemble, u_word-assemble,
}

pub add_round_trip :
    (rd rs1 rs2 : ℤ)
    → InRange rd 31
    → InRange rs1 31
    → InRange rs2 31
    → RoundTrips (Assembly.add rd rs1 rs2)
unfolding encode Encode.add decode_fields
add_round_trip rd rs1 rs2 hd hs ht =
    let d = reg-lt rd hd in
    let s = reg-lt rs1 hs in
    let t = reg-lt rs2 ht in
    (
      assemble 0 (pos_part rs2) (pos_part rs1) 0 (pos_part rd) op_r,
      rw (reg-ok rd hd, reg-ok rs1 hs, reg-ok rs2 ht)
          (ap ok (
            r_word_sum 0 (pos_part rs2) (pos_part rs1) 0 (pos_part rd) op_r t s (omega arith) d
              (omega arith))),
      omega arith,
      rw
          (decode_of_sum 0 (pos_part rs2) (pos_part rs1) 0 (pos_part rd) op_r t s (omega arith) d
            (omega arith) (omega arith))
          (
            refl,
            pos_part-pos rd 31 hd,
            pos_part-pos rs1 31 hs,
            pos_part-pos rs2 31 ht,
            refl,
            (refl, refl, refl),
          ),
    )

-- The fields and the immediate of an I-type word.
module _ (rd rs1 imm : ℤ) (hd : InRange rd 31) (hs : InRange rs1 31) (hi : IsSigned 11 imm) where
  i_assembled : ℕ → ℕ → ℕ
  i_assembled funct3 opcode =
      assemble (low_bits imm 12 / 32) (low_bits imm 12 % 32) (pos_part rs1) funct3 (pos_part rd)
        opcode

  i_decoded :
      (funct3 opcode : ℕ)
      → funct3 < 8
      → opcode < 128
      → let w = i_assembled funct3 opcode in
        (i_word (low_bits imm 12) (pos_part rs1) funct3 (pos_part rd) opcode ≡ w)
        × (w < 2 ^ 32)
        × (decode_instruction w
            ≡ ok (
                decode_fields w opcode
                  (pos_part rd)
                  (pos_part rs1)
                  (low_bits imm 12 % 32)
                  funct3
                  (low_bits imm 12 / 32)))
        × (decode_i_imm w ≡ imm)
  unfolding i_assembled
  i_decoded f o hf ho =
      let d = reg-lt rd hd in
      let s = reg-lt rs1 hs in
      let small = low_bits-lt imm 12 in
      (
        i_word-assemble (low_bits imm 12) (pos_part rs1) f (pos_part rd) o s hf d ho,
        omega arith,
        decode_of_sum (low_bits imm 12 / 32) (low_bits imm 12 % 32) (pos_part rs1) f (pos_part rd) o
            (omega arith) s hf d ho (omega arith),
        decode_i_imm_lem _ (low_bits imm 12) (omega arith) ∙ sign_extend-low_bits 11 imm hi.0 hi.1,
      )

  pub addi_round_trip : RoundTrips (Assembly.addi rd rs1 imm)
  unfolding encode Encode.addi decode_fields i_assembled
  addi_round_trip =
      let (word, fits, decoded, imm_back) = i_decoded 0b000 op_imm (omega arith) (omega arith) in
      (
        i_assembled 0b000 op_imm,
        rw (reg-ok rd hd, reg-ok rs1 hs, signed_imm-ok 11 imm 1 hi (mod_ℤ-one imm)) (ap ok word),
        fits,
        rw decoded (
          refl,
          pos_part-pos rd 31 hd,
          pos_part-pos rs1 31 hs,
          ap some imm_back,
          (refl, refl, refl),
        ),
      )

  pub lw_round_trip : RoundTrips (Assembly.lw rd rs1 imm)
  unfolding encode Encode.lw decode_fields i_assembled
  lw_round_trip =
      let (word, fits, decoded, imm_back) = i_decoded 0b010 op_load (omega arith) (omega arith) in
      (
        i_assembled 0b010 op_load,
        rw (reg-ok rd hd, reg-ok rs1 hs, signed_imm-ok 11 imm 1 hi (mod_ℤ-one imm)) (ap ok word),
        fits,
        rw decoded (
          refl,
          pos_part-pos rd 31 hd,
          pos_part-pos rs1 31 hs,
          ap some imm_back,
          (refl, refl, refl),
        ),
      )

  pub jalr_round_trip : RoundTrips (Assembly.jalr rd rs1 imm)
  unfolding encode Encode.jalr decode_fields i_assembled
  jalr_round_trip =
      let (word, fits, decoded, imm_back) = i_decoded 0b000 op_jalr (omega arith) (omega arith) in
      (
        i_assembled 0b000 op_jalr,
        rw (reg-ok rd hd, reg-ok rs1 hs, signed_imm-ok 11 imm 1 hi (mod_ℤ-one imm)) (ap ok word),
        fits,
        rw decoded (
          refl,
          pos_part-pos rd 31 hd,
          pos_part-pos rs1 31 hs,
          ap some imm_back,
          (refl, refl, refl),
        ),
      )

pub sw_round_trip :
    (rs2 rs1 imm : ℤ)
    → InRange rs1 31
    → InRange rs2 31
    → IsSigned 11 imm
    → RoundTrips (Assembly.sw rs2 rs1 imm)
unfolding encode Encode.sw decode_fields
sw_round_trip rs2 rs1 imm hs ht hi =
    let s = reg-lt rs1 hs in
    let t = reg-lt rs2 ht in
    let i : ℕ = low_bits imm 12 in
    let small = low_bits-lt imm 12 in
    let w : ℕ = assemble (i / 32) (pos_part rs2) (pos_part rs1) 0b010 (i % 32) op_store in
    let imm_back : sign_extend (w / 2 ^ 25 % 128 * 32 + w / 2 ^ 7 % 32) 12 ≡ imm =
      ap (λ (v : ℕ). sign_extend v 12) (omega arith) ∙ sign_extend-low_bits 11 imm hi.0 hi.1 in
    (
      w,
      rw (reg-ok rs1 hs, reg-ok rs2 ht, signed_imm-ok 11 imm 1 hi (mod_ℤ-one imm))
          (ap ok (s_word-assemble i (pos_part rs2) (pos_part rs1) small t s)),
      omega arith,
      rw
          (decode_of_sum (i / 32) (pos_part rs2) (pos_part rs1) 0b010 (i % 32) op_store t s
            (omega arith) (omega arith) (omega arith) (omega arith))
          (
            refl,
            pos_part-pos rs2 31 ht,
            pos_part-pos rs1 31 hs,
            ap some (decode_s_imm_lem w ∙ imm_back),
            (refl, refl, refl),
          ),
    )

-- The fields and the immediate of a word whose top twenty bits are one field.
module _ (rd : ℤ) (hd : InRange rd 31) (top opcode : ℕ) (ht : top < 2 ^ 20)
    (ho : opcode < 128) where
  unfoldable pub u_assembled : ℕ
  u_assembled = assemble_upper top (pos_part rd) opcode

  pub u_decoded :
      (u_assembled < 2 ^ 32)
      × (decode_instruction u_assembled
          ≡ ok (
              decode_fields u_assembled opcode
                (pos_part rd)
                (top / 2 ^ 3 % 32)
                (top / 2 ^ 8 % 32)
                (top % 8)
                (top / 2 ^ 13)))
      × (u_assembled / 2 ^ 12 ≡ top)
  unfolding u_assembled
  u_decoded =
      let d = reg-lt rd hd in
      (
        omega arith,
        decode_of_sum (top / 2 ^ 13) (top / 2 ^ 8 % 32) (top / 2 ^ 3 % 32) (top % 8) (pos_part rd)
            opcode (omega arith) (omega arith) (omega arith) d ho (omega arith),
        omega arith,
      )

InRange-lt : (z : ℤ) → InRange z 0xfffff → pos_part z < 2 ^ 20
InRange-lt z h = ground arith

module _ (rd imm20 : ℤ) (hd : InRange rd 31) (hi : InRange imm20 0xfffff) where
  pub lui_round_trip : RoundTrips (Assembly.lui rd imm20)
  unfolding encode Encode.lui decode_fields u_assembled
  lui_round_trip =
      let small = InRange-lt imm20 hi in
      let (fits, decoded, back) = u_decoded rd hd (pos_part imm20) op_lui small (omega arith) in
      (
        u_assembled rd hd (pos_part imm20) op_lui small (omega arith),
        rw (reg-ok rd hd, checked-ok 0xfffff imm20 hi)
            (ap ok
              (u_word-assemble (pos_part imm20) (pos_part rd) op_lui (reg-lt rd hd) (omega arith))),
        fits,
        rw decoded (
          refl,
          pos_part-pos rd 31 hd,
          ap (λ (v : ℕ). some (pos v)) (decode_u_imm_lem _ fits ∙ ap (λ (v : ℕ). v * 2 ^ 12) back),
          (refl, refl, refl),
        ),
      )

  pub auipc_round_trip : RoundTrips (Assembly.auipc rd imm20)
  unfolding encode Encode.auipc decode_fields u_assembled
  auipc_round_trip =
      let small = InRange-lt imm20 hi in
      let (fits, decoded, back) = u_decoded rd hd (pos_part imm20) op_auipc small (omega arith) in
      (
        u_assembled rd hd (pos_part imm20) op_auipc small (omega arith),
        rw (reg-ok rd hd, checked-ok 0xfffff imm20 hi)
            (ap ok (
              u_word-assemble (pos_part imm20) (pos_part rd) op_auipc (reg-lt rd hd)
                (omega arith))),
        fits,
        rw decoded (
          refl,
          pos_part-pos rd 31 hd,
          ap (λ (v : ℕ). some (pos v)) (decode_u_imm_lem _ fits ∙ ap (λ (v : ℕ). v * 2 ^ 12) back),
          (refl, refl, refl),
        ),
      )
