-- ===== src/Retire.antt =====
-- What happens to an instruction when it retires: the monitor that follows the pipeline,
-- research/week7/retire_monitor.py, and below it the judges of research/week6 and research/week8.
pub mod Pipeline
pub mod Contiguous
mod Tally
pub mod Expected
pub mod Functional
pub mod Performance
pub mod Verdict
use riscv_pipeline_research.Base.{
  ℕ, ◌+◌, Bool, true, false, not, Option, none, some, List, [], ◌∷◌, ℤ, pos, Outcome, ok, err,
  value_error, protocol_error, raise_if, ◌>>=◌, ◌>>◌, ◌==◌, if◌then◌else◌,
}
use riscv_pipeline_research.Word.{mask32}
use riscv_pipeline_research.Event.{ExecutionEvent, natural, bounded, positive}

pub record RetireTag : Type 0 where
  pub instruction_id : ℕ
  pub pc : ℕ
  pub instruction : ℕ

-- `RetireTag(…)` with its `__post_init__`.
unfoldable pub retire_tag : ℤ → ℤ → ℤ → Outcome RetireTag
retire_tag instruction_id pc instruction = do
  instruction_id ← positive instruction_id
  pc ← natural pc
  instruction ← bounded 0 mask32 instruction
  ok (record { instruction_id = instruction_id; pc = pc; instruction = instruction })

unfoldable pub from_execution_event : ExecutionEvent → Outcome RetireTag
from_execution_event event =
    retire_tag (pos event.instruction_index) (pos event.pc) (pos event.instruction)

pub record RetireEvent : Type 0 where
  pub cycle : ℕ
  pub valid : Bool
  pub regwrite : Bool
  pub rd : ℕ
  pub wdata : ℕ
  pub instruction_id : ℕ

-- `RetireEvent(…)` with its `__post_init__`.
unfoldable pub retire_event : ℤ → Bool → Bool → ℤ → ℤ → ℤ → Outcome RetireEvent
retire_event cycle is_valid writes rd wdata instruction_id = do
  cycle ← natural cycle
  raise_if (not is_valid) value_error
  rd ← bounded 0 31 rd
  wdata ← bounded 0 mask32 wdata
  instruction_id ← positive instruction_id
  ok (record {
    cycle = cycle;
    valid = is_valid;
    regwrite = writes;
    rd = rd;
    wdata = wdata;
    instruction_id = instruction_id;
  })

pub record RetireMonitor : Type 0 where
  pub b_tag : Option RetireTag
  pub c_tag : Option RetireTag
  pub d_tag : Option RetireTag
  pub last_retired_instruction_id : ℕ
  pub retired_count : ℕ

-- `__init__`, and `reset`, which assigns the same values.
abbrev pub new_monitor : RetireMonitor
new_monitor = record {
  b_tag = none;
  c_tag = none;
  d_tag = none;
  last_retired_instruction_id = 0;
  retired_count = 0;
}

abbrev pub tag_id : Option RetireTag → Option ℕ
tag_id none = none
tag_id (some tag) = some tag.instruction_id

unfoldable pub stage_instruction_ids : RetireMonitor → Option ℕ × Option ℕ × Option ℕ
stage_instruction_ids m = (tag_id m.b_tag, tag_id m.c_tag, tag_id m.d_tag)

unfoldable pub advance_pipeline : Option RetireTag → RetireMonitor → RetireMonitor
advance_pipeline accepted m = record m { d_tag = m.c_tag; c_tag = m.b_tag; b_tag = accepted }

-- The three values that `observe_falling_edge` checks first.
abbrev pub signals : ℤ → ℤ → ℤ → Outcome (ℕ × ℕ × ℕ)
signals cycle rd wdata = do
  cycle ← natural cycle
  rd ← bounded 0 31 rd
  wdata ← bounded 0 mask32 wdata
  ok (cycle, rd, wdata)

-- The rest of `observe_falling_edge`, by the tag in D.
abbrev pub retire :
    Option RetireTag
    → ℕ × ℕ × ℕ
    → Bool
    → RetireMonitor
    → Outcome (Option RetireEvent) × RetireMonitor
retire none (cycle, rd, wdata) writes m = if writes then (err protocol_error, m) else (ok none, m)
retire (some tag) (cycle, rd, wdata) writes m =
    if not (tag.instruction_id == m.last_retired_instruction_id + 1)
    then (err protocol_error, m)
    else elim (retire_event (pos cycle) true writes (pos rd) (pos wdata) (pos tag.instruction_id)) [
      | err e ↦ (err e, m)
      | ok event ↦ (
        ok (some event),
        record m {
          last_retired_instruction_id = tag.instruction_id;
          retired_count = m.retired_count + 1;
          d_tag = none;
        },
      )
    ]

unfoldable pub observe_falling_edge :
    ℤ → Bool → ℤ → ℤ → RetireMonitor → Outcome (Option RetireEvent) × RetireMonitor
observe_falling_edge cycle writes rd wdata m = elim (signals cycle rd wdata) [
  | err e ↦ (err e, m)
  | ok s ↦ retire m.d_tag s writes m
]
