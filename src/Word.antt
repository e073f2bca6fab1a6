-- ===== src/Word.antt =====
-- 32-bit words as Python computes with them: shifts, masks, and `_sign_extend` and `_signed32` of
-- research/week5/impl/isa_decode.py and architectural_model.py.
pub mod Laws
use riscv_pipeline_research.Base.{
  ℕ, ◌+◌, ◌-◌, ◌*◌, ◌/◌, ◌%◌, ◌^◌, bit_and, ℤ, pos, negsuc, sub_ℕ, ◌==◌, if◌then◌else◌,
}

-- MASK32
abbrev pub mask32 : ℕ
mask32 = 0xffff_ffff

infixl 75 ◌<<<◌ ◌>>>◌
abbrev pub ◌<<<◌ : ℕ → ℕ → ℕ
x <<< k = x * 2 ^ k

abbrev pub ◌>>>◌ : ℕ → ℕ → ℕ
x >>> k = x / 2 ^ k

-- `v & ((1 << bits) - 1)` of a signed integer, in two's complement.
abbrev pub low_bits : ℤ → ℕ → ℕ
low_bits (pos n) bits = bit_and n (2 ^ bits - 1)
low_bits (negsuc n) bits = 2 ^ bits - 1 - bit_and n (2 ^ bits - 1)

-- `v % m` of a signed integer, which Python takes from below.
abbrev pub mod_ℤ : ℤ → ℕ → ℕ
mod_ℤ (pos n) m = n % m
mod_ℤ (negsuc n) m = m - 1 - n % m

unfoldable pub sign_extend : ℕ → ℕ → ℤ
sign_extend value bits =
    let low = bit_and value (2 ^ bits - 1) in
    if bit_and low (2 ^ (bits - 1)) == 0 then pos low else sub_ℕ low (2 ^ bits)

unfoldable pub signed32 : ℕ → ℤ
unfolding sign_extend
signed32 value = sign_extend (bit_and value mask32) 32
