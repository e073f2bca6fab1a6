-- ===== src/Scoreboard/Verdicts.antt =====
-- What it means that a check of commit_scoreboard.py passes.
use riscv_pipeline_research.Base.{
  ℕ, ◌≤◌, ◌%◌, ◌^◌, ◌≡◌, ◌↔◌, refl, arith, true, false, Option, none, some, List, [], ◌∷◌, ◌++◌,
  Outcome, ok, err, bit_and-low_mask, ◌&&◌,
}
use riscv_pipeline_research.Machine.{ArchitecturalStep, ExpectedRegisterWrite}
use riscv_pipeline_research.Machine.Execute.{ExpectedStore}
use riscv_pipeline_research.Scoreboard.{
  WritebackObservation, StoreObservation, ArchitecturalCheckResult, passed, check_passed,
  check_writeback, check_store, check_instruction_index, ArchitecturalCheck, CheckName, all_passed,
  instruction_check, write_checks, store_checks,
}

-- The observed instruction, where there is one, is the step's, as words.
abbrev pub SameInstruction : ℕ → Option ℕ → Type 0
SameInstruction instruction none = Unit {0}
SameInstruction instruction (some observed) = instruction % 2 ^ 32 ≡ observed % 2 ^ 32

-- The observed write is the expected one, or changes no register but x0 where none is expected.
abbrev pub SameWrite : Option ExpectedRegisterWrite → WritebackObservation → Type 0
SameWrite none o = o.write_enable ≡ true → o.rd ≡ 0
SameWrite (some w) o =
    (o.write_enable ≡ true) × (w.rd ≡ o.rd) × (w.value % 2 ^ 32 ≡ o.word % 2 ^ 32)

abbrev pub SameStore : Option ExpectedStore → StoreObservation → Type 0
SameStore none o = o.write_enable ≡ false
SameStore (some s) o =
    (o.write_enable ≡ true)
    × (s.address ≤ 0x1ff)
    × (s.address ≡ o.address)
    × (s.word % 2 ^ 32 ≡ o.word % 2 ^ 32)

-- The verdict of a check that may raise.
abbrev pub Accepts : Outcome ArchitecturalCheckResult → Type 0
Accepts (ok result) = passed result ≡ true
Accepts (err _) = ⊥

all_passed-append :
    (xs ys : List ArchitecturalCheck) → all_passed (xs ++ ys) ≡ (all_passed xs && all_passed ys)
all_passed-append [] ys = refl
all_passed-append (x ∷ xs) ys = ground (arith, all_passed-append xs ys)

instruction_check-passed :
    (name : CheckName) (instruction : ℕ) (o : Option ℕ)
    → (all_passed (instruction_check name instruction o) ≡ true) ↔ SameInstruction instruction o
unfolding check_passed
instruction_check-passed name instruction none = (λ _. tt, λ _. refl)
instruction_check-passed name instruction (some observed) =
    ground (arith, bit_and-low_mask 32 instruction, bit_and-low_mask 32 observed)

write_checks-passed :
    (w : Option ExpectedRegisterWrite) (o : WritebackObservation)
    → (all_passed (write_checks w o) ≡ true) ↔ SameWrite w o
unfolding check_passed
write_checks-passed none o = ground arith
write_checks-passed (some w) o =
    ground (arith, bit_and-low_mask 32 w.value, bit_and-low_mask 32 o.word)

store_checks-passed :
    (s : Option ExpectedStore) (o : StoreObservation)
    → (all_passed (store_checks s o) ≡ true) ↔ SameStore s o
unfolding check_passed
store_checks-passed none o = ground arith
store_checks-passed (some s) o =
    ground (arith, bit_and-low_mask 32 s.word, bit_and-low_mask 32 o.word)

-- A writeback check passes exactly if the observation has the step's number and its instruction,
-- and shows the register write that the step expects; where none is expected, it shows no write or
-- one to x0.
pub check_writeback-Accepts :
    (step : ArchitecturalStep) (o : WritebackObservation)
    → Accepts (check_writeback step o) ↔ (
        (step.instruction_index ≡ o.instruction_index)
        × SameInstruction step.instruction o.instruction
        × SameWrite step.register_write o)
unfolding check_writeback passed check_instruction_index
check_writeback-Accepts step o = ground (
  arith,
  all_passed-append (instruction_check CheckName.wb_instruction step.instruction o.instruction)
      (write_checks step.register_write o),
  instruction_check-passed CheckName.wb_instruction step.instruction o.instruction,
  write_checks-passed step.register_write o,
)

-- A store check passes exactly if the observation has the step's number and its instruction, and
-- shows a store just where the step expects one, at an address of nine bits that is the step's and
-- with the same 32-bit word.
pub check_store-Accepts :
    (step : ArchitecturalStep) (o : StoreObservation)
    → Accepts (check_store step o) ↔ (
        (step.instruction_index ≡ o.instruction_index)
        × SameInstruction step.instruction o.instruction
        × SameStore step.store o)
unfolding check_store passed check_instruction_index
check_store-Accepts step o = ground (
  arith,
  all_passed-append (instruction_check CheckName.store_instruction step.instruction o.instruction)
      (store_checks step.store o),
  instruction_check-passed CheckName.store_instruction step.instruction o.instruction,
  store_checks-passed step.store o,
)
