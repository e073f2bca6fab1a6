-- ===== src/Machine/Memory.antt =====
-- The byte-addressed memory of the oracle: `_read_byte`, `_write_byte`, `read_word`, `_write_word` of
-- research/week5/impl/architectural_model.py.
use riscv_pipeline_research.Base.{
  ℕ, ◌+◌, ◌-◌, ◌*◌, ◌/◌, ◌%◌, ◌^◌, ◌<◌, ◌≤◌, ◌≡◌, Option, none, some, arith, bit_and, bit_or, ◌==◌,
  if◌then◌else◌, bit_and-low_mask, bit_or-below, bit_or_comm,
}
use riscv_pipeline_research.Word.{mask32, ◌<<<◌, ◌>>>◌}

-- The dictionary from addresses to bytes.
abbrev pub ByteMemory : Type 0
ByteMemory = ℕ → Option ℕ

abbrev pub value_or : Option ℕ → ℕ → ℕ
value_or none d = d
value_or (some v) d = v

unfoldable pub read_byte : ByteMemory → ℕ → ℕ
read_byte memory address = value_or (memory (bit_and address mask32)) 0

unfoldable pub write_byte : ByteMemory → ℕ → ℕ → ByteMemory
write_byte memory address value =
    λ other. if bit_and address mask32 == other then some (bit_and value 0xff) else memory other

unfoldable pub read_word : ByteMemory → ℕ → ℕ
read_word memory address =
    let a = bit_and address mask32 in
    bit_and
      (bit_or
        (bit_or (bit_or (read_byte memory a) (read_byte memory (a + 1) <<< 8))
          (read_byte memory (a + 2) <<< 16))
        (read_byte memory (a + 3) <<< 24))
      mask32

unfoldable pub write_word : ByteMemory → ℕ → ℕ → ByteMemory
write_word memory address value =
    let a = bit_and address mask32 in
    let v = bit_and value mask32 in
    write_byte
      (write_byte (write_byte (write_byte memory (a + 0) (v >>> 0)) (a + 1) (v >>> 8)) (a + 2)
        (v >>> 16))
      (a + 3) (v >>> 24)

-- Every stored value is a byte.
abbrev pub IsBytes : ByteMemory → Type 0
IsBytes memory = (address : ℕ) → value_or (memory address) 0 < 256

read_byte-lt : (memory : ByteMemory) (address : ℕ) → IsBytes memory → read_byte memory address < 256
unfolding read_byte
read_byte-lt memory address h = h (bit_and address mask32)

-- A byte that is read after a write, by its address as a 32-bit number.
pub read_byte-write_byte :
    (memory : ByteMemory) (a b v : ℕ)
    → read_byte (write_byte memory a v) b
      ≡ (if a % 2 ^ 32 == b % 2 ^ 32 then v % 256 else read_byte memory b)
unfolding read_byte write_byte
read_byte-write_byte memory a b v =
    rw (bit_and-low_mask 32 a, bit_and-low_mask 32 b, bit_and-low_mask 8 v) (ground arith)

write_byte-IsBytes :
    (memory : ByteMemory) (a v : ℕ) → IsBytes memory → IsBytes (write_byte memory a v)
unfolding write_byte
write_byte-IsBytes memory a v h other = ground (arith, bit_and-low_mask 8 v, h other)

pub write_word-IsBytes :
    (memory : ByteMemory) (a v : ℕ) → IsBytes memory → IsBytes (write_word memory a v)
unfolding write_word
write_word-IsBytes memory a v h =
    write_byte-IsBytes _ _ _
      (write_byte-IsBytes _ _ _ (write_byte-IsBytes _ _ _ (write_byte-IsBytes memory _ _ h)))

-- Four bytes side by side.
joined :
    (b0 b1 b2 b3 : ℕ)
    → b0 < 256
    → b1 < 256
    → b2 < 256
    → b3 < 256
    → bit_and (bit_or (bit_or (bit_or b0 (b1 * 2 ^ 8)) (b2 * 2 ^ 16)) (b3 * 2 ^ 24)) mask32
      ≡ b0 + b1 * 2 ^ 8 + b2 * 2 ^ 16 + b3 * 2 ^ 24
joined b0 b1 b2 b3 h0 h1 h2 h3 =
    rw
      (
        bit_or_comm b0 (b1 * 2 ^ 8),
        bit_or-below 8 (b1 * 2 ^ 8) b0 (omega arith) (omega arith),
        bit_or_comm (b1 * 2 ^ 8 + b0) (b2 * 2 ^ 16),
        bit_or-below 16 (b2 * 2 ^ 16) (b1 * 2 ^ 8 + b0) (omega arith) (omega arith),
        bit_or_comm (b2 * 2 ^ 16 + (b1 * 2 ^ 8 + b0)) (b3 * 2 ^ 24),
        bit_or-below 24 (b3 * 2 ^ 24) (b2 * 2 ^ 16 + (b1 * 2 ^ 8 + b0)) (omega arith) (omega arith),
        bit_and-low_mask 32 (b3 * 2 ^ 24 + (b2 * 2 ^ 16 + (b1 * 2 ^ 8 + b0))),
      )
      (omega arith)

-- A word is the sum of its four bytes.
pub read_word_sum :
    (memory : ByteMemory) (address : ℕ)
    → IsBytes memory
    → let a = address % 2 ^ 32 in
      read_word memory address
      ≡ read_byte memory a
        + read_byte memory (a + 1) * 2 ^ 8
        + read_byte memory (a + 2) * 2 ^ 16
        + read_byte memory (a + 3) * 2 ^ 24
unfolding read_word
read_word_sum memory address h =
    let a = address % 2 ^ 32 in
    rw (bit_and-low_mask 32 address) (
      joined (read_byte memory a) (read_byte memory (a + 1)) (read_byte memory (a + 2))
        (read_byte memory (a + 3)) (read_byte-lt memory a h) (read_byte-lt memory (a + 1) h)
        (read_byte-lt memory (a + 2) h) (read_byte-lt memory (a + 3) h))

pub read_word-lt :
    (memory : ByteMemory) (address : ℕ) → IsBytes memory → read_word memory address < 2 ^ 32
unfolding read_word
read_word-lt memory address h = omega (arith, bit_and-low_mask 32 _)

-- The byte at an address after a word has been written.
write_word_byte :
    (memory : ByteMemory) (address value b : ℕ)
    → let a = address % 2 ^ 32 in
      let v = value % 2 ^ 32 in
      read_byte (write_word memory address value) b ≡ (
        if (a + 3) % 2 ^ 32 == b % 2 ^ 32
        then v / 2 ^ 24 % 256
        else if (a + 2) % 2 ^ 32 == b % 2 ^ 32
        then v / 2 ^ 16 % 256
        else if (a + 1) % 2 ^ 32 == b % 2 ^ 32
        then v / 2 ^ 8 % 256
        else if (a + 0) % 2 ^ 32 == b % 2 ^ 32
        then v / 2 ^ 0 % 256
        else read_byte memory b)
unfolding write_word
write_word_byte memory address value b =
    rw (bit_and-low_mask 32 address, bit_and-low_mask 32 value) (simp read_byte-write_byte)

-- A word that has been written is read back at the same address, modulo 2 ^ 32, also where its bytes
-- wrap round the end of the address space.
pub read_word-write_word :
    (memory : ByteMemory) (address value : ℕ)
    → IsBytes memory
    → read_word (write_word memory address value) address ≡ value % 2 ^ 32
read_word-write_word memory address value h = omega (
  arith,
  read_word_sum written address (write_word-IsBytes memory address value h),
  byte_0,
  byte_1,
  byte_2,
  byte_3,
)
  where
    written : ByteMemory
    written = write_word memory address value

    byte_0 : read_byte written (address % 2 ^ 32) ≡ value % 256
    byte_0 = ground (arith, write_word_byte memory address value (address % 2 ^ 32))

    byte_1 : read_byte written (address % 2 ^ 32 + 1) ≡ value / 2 ^ 8 % 256
    byte_1 = ground (arith, write_word_byte memory address value (address % 2 ^ 32 + 1))

    byte_2 : read_byte written (address % 2 ^ 32 + 2) ≡ value / 2 ^ 16 % 256
    byte_2 = ground (arith, write_word_byte memory address value (address % 2 ^ 32 + 2))

    byte_3 : read_byte written (address % 2 ^ 32 + 3) ≡ value / 2 ^ 24 % 256
    byte_3 = ground (arith, write_word_byte memory address value (address % 2 ^ 32 + 3))

-- How far `b` stands above `a` in the address space, which is a circle.
abbrev pub gap : ℕ → ℕ → ℕ
gap a b = (b % 2 ^ 32 + 2 ^ 32 - a % 2 ^ 32) % 2 ^ 32

-- Words whose bytes do not overlap are independent: a write leaves the other word as it was.
pub read_word-write_word_disjoint :
    (memory : ByteMemory) (address other value : ℕ)
    → IsBytes memory
    → 4 ≤ gap address other
    → gap address other ≤ 2 ^ 32 - 4
    → read_word (write_word memory address value) other ≡ read_word memory other
read_word-write_word_disjoint memory address other value h above below = omega (
  arith,
  read_word_sum (write_word memory address value) other (write_word-IsBytes memory address value h),
  read_word_sum memory other h,
  kept (other % 2 ^ 32) (omega arith) (omega arith),
  kept (other % 2 ^ 32 + 1) (omega arith) (omega arith),
  kept (other % 2 ^ 32 + 2) (omega arith) (omega arith),
  kept (other % 2 ^ 32 + 3) (omega arith) (omega arith),
)
  where
    kept :
        (b : ℕ)
        → other % 2 ^ 32 ≤ b
        → b < other % 2 ^ 32 + 4
        → read_byte (write_word memory address value) b ≡ read_byte memory b
    kept b low high = ground (arith, write_word_byte memory address value b)
