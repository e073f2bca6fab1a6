-- ===== src/Machine/Invariant.antt =====
-- The well-formedness of the oracle of architectural_model.py over its steps, and how a step ends.
use riscv_pipeline_research.Base.{
  ℕ, ◌+◌, ◌^◌, ◌<◌, ◌≡◌, refl, true, Option, none, some, Outcome, ok, err, Error, arith, bit_and,
  bit_and-low_mask, bit_and-shifted, ◌/◌, ◌*◌, ◌∙◌, All-replicate, pos, ◌+ℤ◌, set, ◌==◌, Bool-cases,
  Option-cases, sym, subst, ap, inl, inr, value_error, ==_iff,
}
use riscv_pipeline_research.Word.{mask32, ◌>>>◌, low_bits}
use riscv_pipeline_research.Isa.Decode.{decode_i_imm, decode_b_imm, decode_j_imm}
use riscv_pipeline_research.Word.Laws.{low_bits-lt}
use riscv_pipeline_research.Event.{ExecutionEvent}
use riscv_pipeline_research.Machine.{Machine, new_machine, ArchitecturalStep, commit, step}
use riscv_pipeline_research.Machine.Memory.{ByteMemory, IsBytes, write_word, write_word-IsBytes}
use riscv_pipeline_research.Machine.Registers.{
  RegisterFile, IsRegisters, read_register, write_register, write_register-IsRegisters, set_zero,
}
use riscv_pipeline_research.Machine.Execute.{Executed, ExpectedStore, execute_fields, execute}

pub record IsMachine (m : Machine) : Type 0 where
  pub registers : IsRegisters m.registers
  pub memory : IsBytes m.memory
  pub pc : m.expected_pc < 2 ^ 32

pub new_machine-IsMachine : IsMachine new_machine
new_machine-IsMachine = record {
  registers = record {
    counted = refl;
    words = All-replicate (λ v. v < 2 ^ 32) 32 0 (omega arith);
    zero_register = refl;
  };
  memory = λ _. omega arith;
  pc = omega arith;
}

-- What the dispatch leaves: a next PC of 32 bits, and a memory that changes only with a store.
pub record IsExecuted (registers : RegisterFile) (memory : ByteMemory) (done : Executed)
    : Type 0 where
  pub pc : done.next_pc < 2 ^ 32
  pub stored :
      (s : ExpectedStore) → done.store ≡ some s → done.memory ≡ write_word memory s.address s.word
  pub untouched : done.store ≡ none → done.memory ≡ memory

-- `target & ~1` clears the lowest bit.
pub jalr_target : (target : ℕ) → target < 2 ^ 32 → bit_and target 0xffff_fffe ≡ target / 2 * 2
jalr_target target h =
    bit_and-shifted 1 target 0x7fff_ffff ∙ omega (arith, bit_and-low_mask 31 (target / 2))

execute_fields-IsExecuted :
    (event : ExecutionEvent) (registers : RegisterFile) (memory : ByteMemory)
    (opcode funct3 rs1 rs2 funct7 : ℕ) (done : Executed)
    → execute_fields event registers memory opcode funct3 rs1 rs2 funct7 ≡ ok done
    → IsExecuted registers memory done
unfolding execute_fields
execute_fields-IsExecuted event registers memory opcode funct3 rs1 rs2 funct7 done h = record {
  pc = ground (
    arith,
    bit_and-low_mask 32 (event.pc + 4),
    low_bits-lt (pos event.pc +ℤ decode_b_imm event.instruction) 32,
    low_bits-lt (pos event.pc +ℤ decode_j_imm event.instruction) 32,
    jalr_target (low_bits (pos (read_register registers rs1) +ℤ decode_i_imm event.instruction) 32),
    low_bits-lt (pos (read_register registers rs1) +ℤ decode_i_imm event.instruction) 32,
  );
  stored = λ s e. ground arith;
  untouched = λ e. ground arith;
}

pub execute-IsExecuted :
    (event : ExecutionEvent) (registers : RegisterFile) (memory : ByteMemory) (done : Executed)
    → execute event registers memory ≡ ok done
    → IsExecuted registers memory done
unfolding execute
execute-IsExecuted event registers memory done h =
    execute_fields-IsExecuted event registers memory _ _ _ _ _ done h

-- How a step ends: it raises and leaves the machine alone, or it commits what the dispatch computed.
pub data Ends (event : ExecutionEvent) (m : Machine) : Type 0 where
  raised : (e : Error) → step event m ≡ (err e, m) → Ends event m
  finished :
      (done : Executed)
      → event.instruction_index ≡ m.last_instruction_index + 1
      → execute event m.registers m.memory ≡ ok done
      → step event m ≡ (
        ok (commit event (bit_and (event.instruction >>> 7) 0x1f) done m).0,
        (commit event (bit_and (event.instruction >>> 7) 0x1f) done m).1,
      )
      → Ends event m

pub step-Ends : (event : ExecutionEvent) (m : Machine) → Ends event m
unfolding step
step-Ends event m = elim (Bool-cases (event.instruction_index == m.last_instruction_index + 1)) [
  | inl next ↦ accepted next (execute event m.registers m.memory) refl
  | inr gap ↦ raised value_error (rw gap)
]
  where
    accepted :
        (event.instruction_index == m.last_instruction_index + 1) ≡ true
        → (o : Outcome Executed) → execute event m.registers m.memory ≡ o
        → Ends event m
    accepted next (err e) h = raised e (rw (next, h))
    accepted next (ok done) h = finished done ((==_iff _ _).0 next) h (rw (next, h))

pub rd-lt : (instruction : ℕ) → bit_and (instruction >>> 7) 0x1f < 32
rd-lt instruction = omega (arith, bit_and-low_mask 5 (instruction / 2 ^ 7))

-- The registers after a result, if there is one.
abbrev pub with_result : RegisterFile → ℕ → Option ℕ → RegisterFile
with_result registers rd none = registers
with_result registers rd (some v) = write_register registers rd (bit_and v mask32)

with_result-IsRegisters :
    (registers : RegisterFile) (rd : ℕ) (o : Option ℕ)
    → rd < 32
    → IsRegisters registers
    → IsRegisters (with_result registers rd o)
with_result-IsRegisters registers rd none fits h = h
with_result-IsRegisters registers rd (some v) fits h =
    write_register-IsRegisters registers rd (bit_and v mask32) fits h

-- `commit` writes the result to `rd` and keeps x0 as it was.
pub commit-registers :
    (event : ExecutionEvent) (rd : ℕ) (done : Executed) (m : Machine)
    → rd < 32
    → IsMachine m
    → (commit event rd done m).1.registers ≡ with_result m.registers rd done.result_value
unfolding commit
commit-registers event rd done m fits h = by_result done.result_value
  where
    by_result :
        (o : Option ℕ)
        → (elim o as (λ _. RegisterFile) [
          | none ↦ set m.registers 0 0
          | some v ↦ set (write_register m.registers rd (bit_and v mask32)) 0 0
        ])
          ≡ with_result m.registers rd o
    by_result none = set_zero m.registers h.registers
    by_result (some v) =
        set_zero _ (write_register-IsRegisters m.registers rd (bit_and v mask32) fits h.registers)

commit-memory :
    (memory : ByteMemory) (done : Executed) (registers : RegisterFile)
    → IsExecuted registers memory done
    → IsBytes memory
    → IsBytes done.memory
commit-memory memory done registers ran h = elim (Option-cases done.store) [
  | inl none_made ↦ subst IsBytes (sym (ran.untouched none_made)) h
  | inr (s, made) ↦
      subst IsBytes (sym (ran.stored s made)) (write_word-IsBytes memory s.address s.word h)
]

commit-IsMachine :
    (event : ExecutionEvent) (rd : ℕ) (done : Executed) (m : Machine)
    → rd < 32
    → IsExecuted m.registers m.memory done
    → IsMachine m
    → IsMachine (commit event rd done m).1
commit-IsMachine event rd done m fits ran h = record {
  registers =
      subst IsRegisters (sym (commit-registers event rd done m fits h))
        (with_result-IsRegisters m.registers rd done.result_value fits h.registers);
  memory = unfold commit in commit-memory m.memory done m.registers ran h.memory;
  pc = unfold commit in ran.pc;
}

-- Every step, also one that raises, keeps the machine well formed: 32 registers of 32 bits with x0
-- at zero, a memory of bytes, and an expected PC of 32 bits.
pub step-IsMachine :
    (event : ExecutionEvent) (m : Machine) → IsMachine m → IsMachine (step event m).1
step-IsMachine event m h = elim (step-Ends event m) [
  | raised e same ↦ rw same h
  | finished done next ran ends ↦ rw ends (
      commit-IsMachine event (bit_and (event.instruction >>> 7) 0x1f) done m
        (rd-lt event.instruction) (execute-IsExecuted event m.registers m.memory done ran) h)
]

-- An exception leaves the machine as it was.
pub step_atomic :
    (event : ExecutionEvent) (m : Machine) {e : Error}
    → (step event m).0 ≡ err e
    → (step event m).1 ≡ m
step_atomic event m raises = elim (step-Ends event m) [
  | raised e same ↦ ap (λ (r : Outcome ArchitecturalStep × Machine). r.1) same
  | finished done next ran ends ↦ cc
]
