-- ===== src/Retire/Expected/Log.antt =====
-- The expected log of a run: one entry for each event, numbered from 1, each at the PC that the one
-- before it leads to.
use riscv_pipeline_research.Base.{
  ℕ, ◌+◌, ◌≡◌, true, not, List, [], ◌∷◌, Outcome, ok, err, value_error, if◌then◌else◌,
}
use riscv_pipeline_research.Event.{ExecutionEvent}
use riscv_pipeline_research.Machine.{Machine, ArchitecturalStep, step}
use riscv_pipeline_research.Retire.Expected.{ExpectedRetire, from_architectural_step}

-- An entry for the event `e` at the machine `m`: taken from the step that the oracle makes of `e` at
-- `m`, for the same instruction, with the identifier `n`, at the given PC.
pub record IsEntry (m : Machine) (pc n : ℕ) (e : ExecutionEvent) (x : ExpectedRetire) : Type 0 where
  pub report : ArchitecturalStep
  pub ran : (step e m).0 ≡ ok report
  pub taken : x ≡ from_architectural_step report
  pub instruction : x.instruction ≡ e.instruction
  pub numbered : x.instruction_id ≡ n
  pub placed : x.pc ≡ pc
  pub observed : e.pc ≡ pc

-- Each event has its entry, and the next one is taken at the machine that the step leaves.
abbrev pub IsChain : Machine → ℕ → ℕ → List ExecutionEvent → List ExpectedRetire → Type 0
IsChain m pc n [] [] = Unit {0}
IsChain m pc n [] (x ∷ xs) = ⊥
IsChain m pc n (e ∷ es) [] = ⊥
IsChain m pc n (e ∷ es) (x ∷ xs) = IsEntry m pc n e x × IsChain (step e m).1 x.next_pc (n + 1) es xs

-- What an accepted event leaves: a step with its numbers, and a machine that has moved on.
record Stepped (e : ExecutionEvent) (m : Machine) (s : ArchitecturalStep) : Type 0 where
  instruction : s.instruction ≡ e.instruction
  numbered : s.instruction_index ≡ m.last_instruction_index + 1
  placed : s.pc ≡ e.pc
  matched : s.pc_match ≡ true → e.pc ≡ m.expected_pc
  moved : (step e m).1.expected_pc ≡ s.next_pc
  counted : (step e m).1.last_instruction_index ≡ m.last_instruction_index + 1

-- The body of the loop, from the step and the rest of the log.
abbrev entry :
    Outcome ArchitecturalStep → Outcome (List ExpectedRetire) → Outcome (List ExpectedRetire)
entry o rest = elim o [
  | err e ↦ err e
  | ok s ↦
      if not s.pc_match
      then err value_error
      else elim rest [ err e ↦ err e | ok log ↦ ok (from_architectural_step s ∷ log) ]
]

abbrev IsSplit :
    Outcome ArchitecturalStep → Outcome (List ExpectedRetire) → List ExpectedRetire → Type 0
IsSplit o rest log =
    (s : ArchitecturalStep) × (xs : List ExpectedRetire) × (o ≡ ok s)
    × (s.pc_match ≡ true)
    × (rest ≡ ok xs)
    × (from_architectural_step s ∷ xs ≡ log)
