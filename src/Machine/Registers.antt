-- ===== src/Machine/Registers.antt =====
-- The registers of the oracle: `read_register` and `_write_register` of
-- research/week5/impl/architectural_model.py.
use riscv_pipeline_research.Base.{
  ℕ, ◌<◌, ◌%◌, ◌^◌, ◌≡◌, refl, sym, ap, ◌∙◌, inl, inr, List, [], ◌∷◌, arith, bit_and,
  bit_and-low_mask, All, All-get_or, All-set, length, length-set, get_or, set, get_or-set,
  replicate, Bool-cases, ◌==◌, if◌then◌else◌,
}
use riscv_pipeline_research.Word.{mask32}

abbrev pub RegisterFile : Type 0
RegisterFile = List ℕ

abbrev pub new_registers : RegisterFile
new_registers = replicate 32 0

-- Registers are numbered by five-bit fields, so the range check of the source never fails here.
unfoldable pub read_register : RegisterFile → ℕ → ℕ
read_register registers register =
    if register == 0 then 0 else bit_and (get_or registers register 0) mask32

unfoldable pub write_register : RegisterFile → ℕ → ℕ → RegisterFile
write_register registers register value =
    if register == 0 then registers else set registers register (bit_and value mask32)

-- Thirty-two registers of 32 bits, the first of which is zero.
pub record IsRegisters (registers : RegisterFile) : Type 0 where
  pub counted : length registers ≡ 32
  pub words : All (λ v. v < 2 ^ 32) registers
  pub zero_register : get_or registers 0 0 ≡ 0

pub read_register-eq :
    (registers : RegisterFile) (r : ℕ)
    → IsRegisters registers
    → read_register registers r ≡ get_or registers r 0
unfolding read_register
read_register-eq registers r h = ground (
  arith,
  h.zero_register,
  bit_and-low_mask 32 (get_or registers r 0),
  All-get_or (λ v. v < 2 ^ 32) registers r 0 h.words (omega arith),
)

pub read_register-lt : (registers : RegisterFile) (r : ℕ) → read_register registers r < 2 ^ 32
unfolding read_register
read_register-lt registers r = ground (arith, bit_and-low_mask 32 (get_or registers r 0))

-- What is read after a write: the low 32 bits of the value, unless the register is x0.
pub read_register-write_register :
    (registers : RegisterFile) (rd value r : ℕ)
    → rd < 32
    → IsRegisters registers
    → read_register (write_register registers rd value) r
      ≡ (if rd == r then (if r == 0 then 0 else value % 2 ^ 32) else read_register registers r)
unfolding read_register write_register
read_register-write_register registers rd value r fits h = ground (
  arith,
  h.counted,
  get_or-set registers rd r (bit_and value mask32) 0,
  bit_and-low_mask 32 value,
  bit_and-low_mask 32 (bit_and value mask32),
)

pub write_register-IsRegisters :
    (registers : RegisterFile) (rd value : ℕ)
    → rd < 32
    → IsRegisters registers
    → IsRegisters (write_register registers rd value)
unfolding write_register
write_register-IsRegisters registers rd value fits h = elim (Bool-cases (rd == 0)) [
  | inl x0 ↦ rw x0 h
  | inr other ↦ rw other (record {
    counted = length-set registers rd (bit_and value mask32) ∙ h.counted;
    words =
        All-set (λ v. v < 2 ^ 32) registers rd (bit_and value mask32) h.words
          (omega (arith, bit_and-low_mask 32 value));
    zero_register =
        ground
          (arith, h.counted, h.zero_register, get_or-set registers rd 0 (bit_and value mask32) 0);
  })
]

-- `self._registers[0] = 0`, which changes nothing.
pub set_zero : (registers : RegisterFile) → IsRegisters registers → set registers 0 0 ≡ registers
set_zero [] h = refl
set_zero (x ∷ registers) h = ap (λ (v : ℕ). v ∷ registers) (sym h.zero_register)
