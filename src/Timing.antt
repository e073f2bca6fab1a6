-- ===== src/Timing.antt =====
-- The timing oracle of the five-stage pipeline, research/week7/timing_oracle_v1.py. A dictionary is a
-- function, the program is the list of its items.
pub mod Decoded
pub mod Rounds
pub mod Schedule
pub mod Redirects
use riscv_pipeline_research.Base.{
  ℕ, zero, suc, ◌+◌, ◌-◌, Bool, true, false, not, ◌&&◌, ◌||◌, Option, none, some, List, [], ◌∷◌, ℤ,
  pos, negsuc, ltb_ℤ, Outcome, ok, err, sub_ℕ, value_error, unsupported_instruction, program_error,
  runtime_error, raise_if, require, ◌>>=◌, ◌>>◌, bit_and, ltb, leb, length, ◌==◌, if◌then◌else◌,
}
use riscv_pipeline_research.Word.{mask32, signed32}
use riscv_pipeline_research.Isa.{DecodedInstruction, Mnemonic, ProducerType, mem_data}
use riscv_pipeline_research.Isa.Decode.{decode_instruction}
use riscv_pipeline_research.Event.{
  ExecutionEvent, EventArguments, execution_event, natural, bounded, positive,
}
use riscv_pipeline_research.Machine
use riscv_pipeline_research.Machine.{Machine, new_machine}
use riscv_pipeline_research.Machine.Registers.{RegisterFile, read_register}
use riscv_pipeline_research.HazardBins.History.{◌=p=◌}

-- FORWARD_RF, FORWARD_MEM_WB, FORWARD_EX_MEM
pub data Forward : Type 0 where
  register_file mem_wb ex_mem : Forward

-- REDIRECT_BUBBLES
abbrev pub bubbles_of_redirect : ℕ
bubbles_of_redirect = 2

-- RETIRE_LATENCY
abbrev pub retire_latency : ℕ
retire_latency = 3

-- `_T6_MNEMONICS`, all but the loads and stores that are not of words.
abbrev pub is_t6 : Mnemonic → Bool
is_t6 Mnemonic.load = false
is_t6 Mnemonic.store = false
is_t6 _ = true

pub record Producer : Type 0 where
  pub instruction_id : ℕ
  pub accept_cycle : ℕ
  pub decoded : DecodedInstruction

pub record TimingExpectation : Type 0 where
  pub instruction_id : ℕ
  pub pc : ℕ
  pub instruction : ℕ
  pub mnemonic : Mnemonic
  pub accept_cycle : ℕ
  pub stall_cycles_before_accept : ℕ
  pub retire_cycle : ℕ
  pub forward_a : Forward
  pub forward_b : Forward
  pub source_a_producer_id : Option ℕ
  pub source_b_producer_id : Option ℕ
  pub source_a_cycle_age : Option ℤ
  pub source_b_cycle_age : Option ℤ
  pub redirect : Bool
  pub redirect_bubbles : ℕ

-- The properties of `TimingScheduleV1`, over its expectations.
abbrev pub total_stall_cycles : List TimingExpectation → ℕ
total_stall_cycles [] = 0
total_stall_cycles (e ∷ es) = e.stall_cycles_before_accept + total_stall_cycles es

abbrev pub total_redirect_bubbles : List TimingExpectation → ℕ
total_redirect_bubbles [] = 0
total_redirect_bubbles (e ∷ es) = e.redirect_bubbles + total_redirect_bubbles es

abbrev pub drain_cycle : List TimingExpectation → Option ℕ
drain_cycle [] = none
drain_cycle (e ∷ []) = some e.retire_cycle
drain_cycle (e ∷ e' ∷ es) = drain_cycle (e' ∷ es)

unfoldable pub decode_checked : ℕ → Outcome DecodedInstruction
decode_checked instruction = do
  decoded ← decode_instruction instruction
  elim decoded [
    | none ↦ err unsupported_instruction
    | some d ↦ if is_t6 d.mnemonic then ok d else err unsupported_instruction
  ]

-- The tests of `_branch_taken` after the first, over the two operands.
abbrev pub compare_operands : Mnemonic → ℕ → ℕ → Bool
compare_operands Mnemonic.beq lhs rhs = lhs == rhs
compare_operands Mnemonic.bne lhs rhs = not (lhs == rhs)
compare_operands Mnemonic.blt lhs rhs = ltb_ℤ (signed32 lhs) (signed32 rhs)
compare_operands Mnemonic.bge lhs rhs = not (ltb_ℤ (signed32 lhs) (signed32 rhs))
compare_operands Mnemonic.bltu lhs rhs = ltb lhs rhs
compare_operands Mnemonic.bgeu lhs rhs = leb rhs lhs
compare_operands _ lhs rhs = false

unfoldable pub branch_taken : DecodedInstruction → RegisterFile → Bool
branch_taken decoded registers =
    compare_operands decoded.mnemonic (bit_and (read_register registers decoded.rs1) mask32)
      (bit_and (read_register registers decoded.rs2) mask32)

-- The choice of `redirect` in the loop.
abbrev pub redirects : DecodedInstruction → RegisterFile → Bool
redirects decoded registers = elim decoded.mnemonic [
  | Mnemonic.jal ↦ true
  | Mnemonic.jalr ↦ true
  | _ ↦ branch_taken decoded registers
]

-- Cycles are natural numbers here; an age is the difference of two of them.
unfoldable pub forward_for_age : Option ℤ → Outcome Forward
forward_for_age none = ok Forward.register_file
forward_for_age (some (negsuc n)) = err program_error
forward_for_age (some (pos age)) =
    if age == 0
    then err program_error
    else if age == 1
    then ok Forward.ex_mem
    else if age == 2
    then ok Forward.mem_wb
    else ok Forward.register_file

-- The local variables of `build_timing_schedule_v1` between two rounds of its loop.
pub record Scheduler : Type 0 where
  pub model : Machine
  pub last_writer : ℕ → Option Producer
  pub pc : ℕ
  pub instruction_id : ℕ
  pub next_accept_cycle : ℕ

abbrev pub new_scheduler : Scheduler
new_scheduler = record {
  model = new_machine;
  last_writer = λ _. none;
  pc = 0;
  instruction_id = 1;
  next_accept_cycle = 1;
}

-- `last_writer.get(register)`, for a source that is used and is not x0.
abbrev pub producer_of : Scheduler → Bool → ℕ → Option Producer
producer_of s uses register = if uses && not (register == 0) then s.last_writer register else none

abbrev pub cycle_age : ℕ → Option Producer → Option ℤ
cycle_age cycle none = none
cycle_age cycle (some p) = some (sub_ℕ cycle p.accept_cycle)

abbrev pub is_one : ℤ → Bool
is_one (pos n) = n == 1
is_one (negsuc n) = false

-- A load is read one cycle after it was accepted.
abbrev pub is_load_use : ℕ → Option Producer → Bool
is_load_use cycle none = false
is_load_use cycle (some p) =
    (p.decoded.producer_type =p= mem_data) && is_one (sub_ℕ cycle p.accept_cycle)

abbrev pub producer_id : Option Producer → Option ℕ
producer_id none = none
producer_id (some p) = some p.instruction_id

-- The arguments that `_execution_event` passes; the others have their defaults.
abbrev pub event_arguments : ℕ → ℕ → ℕ → ℕ → DecodedInstruction → EventArguments
event_arguments instruction_id cycle pc instruction decoded = record {
  instruction_index = pos instruction_id;
  cycle = pos cycle;
  pc = pos pc;
  instruction = pos instruction;
  rs1 = pos decoded.rs1;
  rs2 = pos decoded.rs2;
  rd = pos decoded.rd;
  uses_rs1 = decoded.uses_rs1;
  uses_rs2 = decoded.uses_rs2;
  writes_rd = decoded.writes_rd;
  producer_type = decoded.producer_type;
  consumer_type = decoded.consumer_type;
  stall_cycles_before_accept = pos 0;
  forward_a = pos 0;
  forward_b = pos 0;
}

abbrev pub stall_for : ℕ → Option Producer → Option Producer → ℕ
stall_for cycle a b = if is_load_use cycle a || is_load_use cycle b then 1 else 0

abbrev pub bubbles_for : Bool → ℕ
bubbles_for redirect = if redirect then bubbles_of_redirect else 0

-- `last_writer[decoded.rd] = …`
abbrev pub note_writer : ℕ → ℕ → DecodedInstruction → (ℕ → Option Producer) → ℕ → Option Producer
note_writer instruction_id cycle decoded last_writer register =
    if (decoded.writes_rd && not (decoded.rd == 0)) && decoded.rd == register
    then some (record { instruction_id = instruction_id; accept_cycle = cycle; decoded = decoded })
    else last_writer register

-- One round of the loop, once the instruction is decoded.
unfoldable pub round_decoded :
    ℕ → DecodedInstruction → Scheduler → Outcome (TimingExpectation × Scheduler)
round_decoded instruction decoded s = do
  let a = producer_of s decoded.uses_rs1 decoded.rs1
  let b = producer_of s decoded.uses_rs2 decoded.rs2
  let stall = stall_for s.next_accept_cycle a b
  let accept = s.next_accept_cycle + stall
  forward_a ← forward_for_age (cycle_age accept a)
  forward_b ← forward_for_age (cycle_age accept b)
  raise_if (is_load_use accept a) program_error
  raise_if (is_load_use accept b) program_error
  let redirect = redirects decoded s.model.registers
  event ← execution_event (event_arguments s.instruction_id accept s.pc instruction decoded)
  let stepped = Machine.step event s.model
  report ← stepped.0
  ok (
    record {
      instruction_id = s.instruction_id;
      pc = s.pc;
      instruction = instruction;
      mnemonic = decoded.mnemonic;
      accept_cycle = accept;
      stall_cycles_before_accept = stall;
      retire_cycle = accept + retire_latency;
      forward_a = forward_a;
      forward_b = forward_b;
      source_a_producer_id = producer_id a;
      source_b_producer_id = producer_id b;
      source_a_cycle_age = cycle_age accept a;
      source_b_cycle_age = cycle_age accept b;
      redirect = redirect;
      redirect_bubbles = bubbles_for redirect;
    },
    record {
      model = stepped.1;
      last_writer = note_writer s.instruction_id accept decoded s.last_writer;
      pc = stepped.1.expected_pc;
      instruction_id = s.instruction_id + 1;
      next_accept_cycle = accept + 1 + bubbles_for redirect;
    },
  )

unfoldable pub round : ℕ → Scheduler → Outcome (TimingExpectation × Scheduler)
round instruction s = do decoded ← decode_checked instruction; round_decoded instruction decoded s

abbrev pub Program : Type 0
Program = List (ℕ × ℕ)

abbrev pub word_at : Program → ℕ → Option ℕ
word_at [] pc = none
word_at ((key, word) ∷ program) pc = if key == pc then some word else word_at program pc

-- The loop. The first argument bounds its rounds.
unfoldable pub run : ℕ → ℕ → Program → Scheduler → Outcome (List TimingExpectation)
run zero max_instructions program s = err runtime_error
run (suc rounds) max_instructions program s = elim (word_at program s.pc) [
  | none ↦ ok []
  | some instruction ↦ elim (ltb max_instructions s.instruction_id) [
    | true ↦ err program_error
    | false ↦ elim (round instruction s) [
      | err e ↦ err e
      | ok (e, s') ↦ elim (run rounds max_instructions program s') [
        | err x ↦ err x
        | ok es ↦ ok (e ∷ es)
      ]
    ]
  ]
]

-- The checks on the items of the program.
unfoldable pub normalize : List (ℤ × ℤ) → Outcome Program
normalize [] = ok []
normalize ((pc, instruction) ∷ items) = do
  key ← natural pc
  raise_if (not (bit_and key 0x3 == 0)) value_error
  word ← bounded 0 mask32 instruction
  rest ← normalize items
  ok ((key, word) ∷ rest)

-- The tests on the entry PC, and the loop. `max_instructions + 1` rounds are enough, since the
-- identifiers start at 1.
unfoldable pub schedule_from : ℕ → Program → Outcome (List TimingExpectation)
schedule_from max_instructions [] = ok []
schedule_from max_instructions (item ∷ program) = elim (word_at (item ∷ program) 0) [
  | none ↦ err program_error
  | some _ ↦ run (max_instructions + 1) max_instructions (item ∷ program) new_scheduler
]

unfoldable pub build_timing_schedule_v1 : List (ℤ × ℤ) → ℤ → Outcome (List TimingExpectation)
build_timing_schedule_v1 items max_instructions = do
  limit ← positive max_instructions
  program ← normalize items
  schedule_from limit program
