-- ===== src/Base/Bits.antt =====
-- Laws of `&` and `|` at variables: a low mask is a remainder, a one-bit mask reads that bit, and
-- `|` of two words that share no bit is their sum.
use Prim.Native.Nat.{
  ℕ, zero, suc, ◌+◌, ◌-◌, ◌*◌, ◌/◌, ◌%◌, ◌^◌, ◌≤◌, ◌<◌, min, max, digits, bit_and, bit_or,
  bit_and-bitwise, bit_or-bitwise,
}
use mathlib.Core.Path.{◌≡◌, refl, sym, ap, ◌∙◌}
use native.Mathlib.Nat.{pow-suc, one-le-pow, div-add-mod', div-div-eq-div-mul, div-one, mul-one}
use native.Mathlib.Omega.{arith}

-- The recursion on digits does not read fuel that it does not need.
module _ (z : ℕ → ℕ) (f : ℕ → ℕ → ℕ) where
  enough_digits : (n m a b : ℕ) → a ≤ n → a ≤ m → digits z f n a b ≡ digits z f m a b
  enough_digits zero zero zero b p q = refl
  enough_digits zero (suc m) zero b p q = refl
  enough_digits (suc n) zero zero b p q = refl
  enough_digits (suc n) (suc m) zero b p q = refl
  enough_digits (suc n) (suc m) (suc a) b p q =
      ap (λ (t : ℕ). t * 2 + f (suc a % 2) (b % 2))
        (enough_digits n m (suc a / 2) (b / 2) (omega arith) (omega arith))
  enough_digits _ _ (suc a) b p q = absurd (omega arith)

and_digit : (a b : ℕ) → bit_and a b ≡ bit_and (a / 2) (b / 2) * 2 + min (a % 2) (b % 2)
and_digit zero b = omega (arith, bit_and-bitwise 0 b, bit_and-bitwise 0 (b / 2))
and_digit (suc a) b = omega (
  arith,
  bit_and-bitwise (suc a) b,
  bit_and-bitwise (suc a / 2) (b / 2),
  enough_digits (λ _. 0) min a (suc a / 2) (suc a / 2) (b / 2) (omega arith) (omega arith),
)

or_digit : (a b : ℕ) → bit_or a b ≡ bit_or (a / 2) (b / 2) * 2 + max (a % 2) (b % 2)
or_digit zero b = omega (arith, bit_or-bitwise 0 b, bit_or-bitwise 0 (b / 2))
or_digit (suc a) b = omega (
  arith,
  bit_or-bitwise (suc a) b,
  bit_or-bitwise (suc a / 2) (b / 2),
  enough_digits (λ t. t) max a (suc a / 2) (suc a / 2) (b / 2) (omega arith) (omega arith),
)

-- Both for every number below a bound, since the step goes from half of a number to it.
and_zero_below : (n a : ℕ) → a ≤ n → bit_and a 0 ≡ 0
and_zero_below n zero h = refl
and_zero_below (suc n) (suc a) h =
    omega (arith, and_digit (suc a) 0, and_zero_below n (suc a / 2) (omega arith))
and_zero_below zero (suc a) h = absurd (omega arith)

or_zero_below : (n a : ℕ) → a ≤ n → bit_or a 0 ≡ a
or_zero_below n zero h = refl
or_zero_below (suc n) (suc a) h =
    omega (arith, or_digit (suc a) 0, or_zero_below n (suc a / 2) (omega arith))
or_zero_below zero (suc a) h = absurd (omega arith)

pub bit_and-zero : (a : ℕ) → bit_and a 0 ≡ 0
bit_and-zero a = and_zero_below a a (omega arith)

pub bit_or-zero : (a : ℕ) → bit_or a 0 ≡ a
bit_or-zero a = or_zero_below a a (omega arith)

-- One more bit doubles the multiple of a power of two.
double-mul-pow : (q k : ℕ) → q * 2 ^ suc k ≡ q * 2 ^ k + q * 2 ^ k
double-mul-pow q k = omega (arith, ap (λ (t : ℕ). q * t) (pow-suc 2 k))

-- `a | r` is `a + r` where `r` fits the low `k` bits and `a` has none of those.
pub bit_or-disjoint : (k q r : ℕ) → r < 2 ^ k → bit_or (q * 2 ^ k) r ≡ q * 2 ^ k + r
bit_or-disjoint zero q r h = ground (arith, bit_or-zero q)
bit_or-disjoint (suc k) q r h = ground (
  arith,
  double-mul-pow q k,
  pow-suc 2 k,
  or_digit (q * 2 ^ suc k) r,
  bit_or-disjoint k q (r / 2) (omega (arith, pow-suc 2 k)),
)

pub bit_or-below : (k a r : ℕ) → a % 2 ^ k ≡ 0 → r < 2 ^ k → bit_or a r ≡ a + r
bit_or-below k a r e h =
    ap (λ (t : ℕ). bit_or t r) (sym multiple)
    ∙ bit_or-disjoint k (a / 2 ^ k) r h
    ∙ ap (λ (t : ℕ). t + r) multiple
  where
    multiple : a / 2 ^ k * 2 ^ k ≡ a
    multiple = omega (arith, div-add-mod' a (2 ^ k))

low_mask_of_sum : (k q r : ℕ) → r < 2 ^ k → bit_and (q * 2 ^ k + r) (2 ^ k - 1) ≡ r
low_mask_of_sum zero q r h = ground (arith, bit_and-zero (q * 1 + r))
low_mask_of_sum (suc k) q r h = ground (
  arith,
  double-mul-pow q k,
  pow-suc 2 k,
  one-le-pow k 2 (omega arith),
  and_digit (q * 2 ^ suc k + r) (2 ^ suc k - 1),
  low_mask_of_sum k q (r / 2) (omega (arith, pow-suc 2 k)),
)

bit_of_sum :
    (k q b r : ℕ) → b < 2 → r < 2 ^ k → bit_and ((q * 2 + b) * 2 ^ k + r) (2 ^ k) ≡ b * 2 ^ k
bit_of_sum zero q b r hb h =
    ground (arith, and_digit ((q * 2 + b) * 1 + r) 1, bit_and-zero (((q * 2 + b) * 1 + r) / 2))
bit_of_sum (suc k) q b r hb h = ground (
  arith,
  double-mul-pow (q * 2 + b) k,
  double-mul-pow b k,
  pow-suc 2 k,
  and_digit ((q * 2 + b) * 2 ^ suc k + r) (2 ^ suc k),
  bit_of_sum k q b (r / 2) hb (omega (arith, pow-suc 2 k)),
)

-- `a & ((1 << k) - 1)` keeps the low `k` bits.
pub bit_and-low_mask : (k a : ℕ) → bit_and a (2 ^ k - 1) ≡ a % 2 ^ k
bit_and-low_mask k a = ground (arith, one-le-pow k 2, low_mask_of_sum k (a / 2 ^ k) (a % 2 ^ k))

-- `a & (1 << k)` is bit `k` in its place.
pub bit_and-bit : (k a : ℕ) → bit_and a (2 ^ k) ≡ a / 2 ^ k % 2 * 2 ^ k
bit_and-bit k a =
    ap (λ (t : ℕ). bit_and t (2 ^ k)) (sym parts)
    ∙ bit_of_sum k (a / 2 ^ k / 2) (a / 2 ^ k % 2) (a % 2 ^ k) (omega arith)
        (omega (arith, one-le-pow k 2 (omega arith)))
  where
    parts : (a / 2 ^ k / 2 * 2 + a / 2 ^ k % 2) * 2 ^ k + a % 2 ^ k ≡ a
    parts = rw (div-add-mod' (a / 2 ^ k) 2) (div-add-mod' a (2 ^ k))

-- `a & (m << k)` reads the bits of `m` from bit `k` on.
pub bit_and-shifted : (k a m : ℕ) → bit_and a (m * 2 ^ k) ≡ bit_and (a / 2 ^ k) m * 2 ^ k
bit_and-shifted zero a m = omega (
  arith,
  mul-one m,
  div-one a,
  ap (λ (t : ℕ). bit_and t (m * 1)) (div-one a),
  ap (bit_and (a / 1)) (mul-one m),
)
bit_and-shifted (suc k) a m = ground (
  arith,
  double-mul-pow m k,
  double-mul-pow (bit_and (a / 2 / 2 ^ k) m) k,
  and_digit a (m * 2 ^ suc k),
  bit_and-shifted k (a / 2) m,
  pow-suc 2 k,
  div-div-eq-div-mul a 2 (2 ^ k),
)

or_comm_below : (n a b : ℕ) → a ≤ n → b ≤ n → bit_or a b ≡ bit_or b a
or_comm_below zero zero zero p q = refl
or_comm_below (suc n) a b p q =
    omega (
      arith,
      or_digit a b,
      or_digit b a,
      or_comm_below n (a / 2) (b / 2) (omega arith) (omega arith),
    )
or_comm_below zero (suc a) _ p q = absurd (omega arith)
or_comm_below zero zero (suc b) p q = absurd (omega arith)

pub bit_or_comm : (a b : ℕ) → bit_or a b ≡ bit_or b a
bit_or_comm a b = or_comm_below (a + b) a b (omega arith) (omega arith)
