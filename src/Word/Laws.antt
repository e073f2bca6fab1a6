-- ===== src/Word/Laws.antt =====
-- The mask of a signed integer and the sign extension undo one another at every width.
use native.Mathlib.Nat.{pow-suc, one-le-pow, mod-eq_of_lt, div-eq_of_lt, div-eq_of_lt-le}
use riscv_pipeline_research.Base.{
  ℕ, suc, ◌+◌, ◌-◌, ◌*◌, ◌/◌, ◌%◌, ◌^◌, ◌<◌, ◌≡◌, arith, ℤ, pos, negsuc, ◌≤ℤ◌, ltb, if◌then◌else◌,
  bit_and-low_mask, bit_and-bit,
}
use riscv_pipeline_research.Word.{low_bits, mod_ℤ, sign_extend}

pub low_bits-lt : (v : ℤ) (k : ℕ) → low_bits v k < 2 ^ k
low_bits-lt (pos n) k = omega (arith, bit_and-low_mask k n, one-le-pow k 2 (omega arith))
low_bits-lt (negsuc n) k = omega (arith, bit_and-low_mask k n, one-le-pow k 2 (omega arith))

-- The sign bit of a word, as a comparison.
sign_bit : (p v : ℕ) → 0 < p → v < p + p → v / p % 2 * p ≡ (if ltb v p then 0 else p)
sign_bit p v a b = grind (arith, div-eq_of_lt, div-eq_of_lt-le)

pub sign_extend_lem :
    (k v : ℕ)
    → v < 2 ^ suc k
    → sign_extend v (suc k) ≡ (if ltb v (2 ^ k) then pos v else negsuc (2 ^ suc k - 1 - v))
unfolding sign_extend
sign_extend_lem k v h =
    rw (bit_and-low_mask (suc k) v, mod-eq_of_lt h, index, bit_and-bit k v)
      (ground (
        arith,
        sign_bit (2 ^ k) v (one-le-pow k 2 (omega arith)) (omega (arith, pow-suc 2 k)),
        pow-suc 2 k,
        one-le-pow k 2 (omega arith),
      ))
  where
    index : suc k - 1 ≡ k
    index = omega arith

-- A signed integer that fits `k + 1` bits comes back from its two's complement.
pub sign_extend-low_bits :
    (k : ℕ) (v : ℤ)
    → negsuc (2 ^ k - 1) ≤ℤ v
    → v ≤ℤ pos (2 ^ k - 1)
    → sign_extend (low_bits v (suc k)) (suc k) ≡ v
sign_extend-low_bits k (pos n) lo hi =
    rw (bit_and-low_mask (suc k) n, mod-eq_of_lt small)
      (rw (sign_extend_lem k n small) (ground (arith, pow-suc 2 k, one-le-pow k 2 (omega arith))))
  where
    small : n < 2 ^ suc k
    small = omega (arith, pow-suc 2 k, one-le-pow k 2 (omega arith))
sign_extend-low_bits k (negsuc n) lo hi =
    rw (bit_and-low_mask (suc k) n, mod-eq_of_lt small)
      (rw
        (sign_extend_lem k (2 ^ suc k - 1 - n) (omega (arith, one-le-pow (suc k) 2 (omega arith))))
        (ground (arith, pow-suc 2 k, one-le-pow k 2 (omega arith))))
  where
    small : n < 2 ^ suc k
    small = omega (arith, pow-suc 2 k, one-le-pow k 2 (omega arith))

pub mod_ℤ-one : (v : ℤ) → mod_ℤ v 1 ≡ 0
mod_ℤ-one v = ground arith

-- An even offset has an even two's complement, at the widths of branches and jumps.
pub low_bits-even_13 : (v : ℤ) → mod_ℤ v 2 ≡ 0 → low_bits v 13 % 2 ≡ 0
low_bits-even_13 (pos n) e = omega (arith, bit_and-low_mask 13 n)
low_bits-even_13 (negsuc n) e = omega (arith, bit_and-low_mask 13 n)

pub low_bits-even_21 : (v : ℤ) → mod_ℤ v 2 ≡ 0 → low_bits v 21 % 2 ≡ 0
low_bits-even_21 (pos n) e = omega (arith, bit_and-low_mask 21 n)
low_bits-even_21 (negsuc n) e = omega (arith, bit_and-low_mask 21 n)
