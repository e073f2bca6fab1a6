-- ===== src/Retire/Expected.antt =====
-- What each instruction must do when it retires, research/week6/expected_retire.py: the sequential
-- oracle run over the events of a program.
pub mod Log
use riscv_pipeline_research.Base.{
  ℕ, ◌+◌, ◌≡◌, refl, Bool, true, false, not, Option, none, some, List, [], ◌∷◌, Outcome, ok, err,
  Outcome-cases, inl, inr, Bool-cases, value_error, ◌==◌, ==_iff, if◌then◌else◌, arith, length,
  is_some, ap, sym,
}
use riscv_pipeline_research.Event.{ExecutionEvent}
use riscv_pipeline_research.Machine.{
  Machine, ArchitecturalStep, ExpectedRegisterWrite, new_machine, step, commit,
}
use riscv_pipeline_research.Machine.Execute.{ExpectedStore, execute}

pub record ExpectedRetire : Type 0 where
  pub instruction_id : ℕ
  pub pc : ℕ
  pub instruction : ℕ
  pub next_pc : ℕ
  pub regwrite : Bool
  pub rd : Option ℕ
  pub wdata : Option ℕ
  pub store_address : Option ℕ
  pub store_data : Option ℕ
  pub store_width_bytes : Option ℕ

abbrev written_register : Option ExpectedRegisterWrite → Option ℕ
written_register none = none
written_register (some reg) = some reg.rd

abbrev written_value : Option ExpectedRegisterWrite → Option ℕ
written_value none = none
written_value (some reg) = some reg.value

abbrev address_of : Option ExpectedStore → Option ℕ
address_of none = none
address_of (some s) = some s.address

abbrev data_of : Option ExpectedStore → Option ℕ
data_of none = none
data_of (some s) = some s.word

abbrev width_of : Option ExpectedStore → Option ℕ
width_of none = none
width_of (some s) = some s.width_bytes

-- `ExpectedRetire.from_architectural_step`
unfoldable pub from_architectural_step : ArchitecturalStep → ExpectedRetire
from_architectural_step s = record {
  instruction_id = s.instruction_index;
  pc = s.pc;
  instruction = s.instruction;
  next_pc = s.next_pc;
  regwrite = is_some s.register_write;
  rd = written_register s.register_write;
  wdata = written_value s.register_write;
  store_address = address_of s.store;
  store_data = data_of s.store;
  store_width_bytes = width_of s.store;
}

-- The loop of `build_expected_retire_log`, from a machine.
abbrev pub retire_log : List ExecutionEvent → Machine → Outcome (List ExpectedRetire)
retire_log [] m = ok []
retire_log (event ∷ events) m =
    let rest = retire_log events (step event m).1 in
    elim (step event m).0 [
      | err e ↦ err e
      | ok s ↦
          if not s.pc_match
          then err value_error
          else elim rest [ err e ↦ err e | ok log ↦ ok (from_architectural_step s ∷ log) ]
    ]

unfoldable pub build_expected_retire_log : List ExecutionEvent → Outcome (List ExpectedRetire)
build_expected_retire_log events = retire_log events new_machine
