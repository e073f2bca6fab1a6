-- ===== src/HazardBins/History.antt =====
-- The static methods of `L1CoverageCollector`, research/week5/impl/l1_coverage.py, over its history
-- of executed events, the latest first.
use riscv_pipeline_research.Base.{
  ℕ, zero, suc, bit_and, Bool, true, false, not, ◌&&◌, Option, none, some, List, [], ◌∷◌, ◌++◌,
  ◌==◌, if◌then◌else◌,
}
use riscv_pipeline_research.Word.{◌>>>◌}
use riscv_pipeline_research.Isa.{
  ProducerType, ConsumerType, alu_result, mem_data, no_producer, pc_plus_4, imm_value, pc_plus_imm,
  rs1_rs2, rs1_only, no_gpr_source, other,
}
use riscv_pipeline_research.Event.{ExecutionEvent}

-- Comparison of the strings.
abbrev pub producer_code : ProducerType → ℕ
producer_code alu_result = 0
producer_code mem_data = 1
producer_code no_producer = 2
producer_code pc_plus_4 = 3
producer_code imm_value = 4
producer_code pc_plus_imm = 5

abbrev pub consumer_code : ConsumerType → ℕ
consumer_code rs1_rs2 = 0
consumer_code rs1_only = 1
consumer_code no_gpr_source = 2
consumer_code other = 3

infix 50 ◌=p=◌ ◌=c=◌
abbrev pub ◌=p=◌ : ProducerType → ProducerType → Bool
p =p= q = producer_code p == producer_code q

abbrev pub ◌=c=◌ : ConsumerType → ConsumerType → Bool
c =c= d = consumer_code c == consumer_code d

pub data Role : Type 0 where
  rs1 rs2 raw_rs2_unused : Role

-- `bin_id` is the number of the bin, 1 for "H01".
pub record L1Hit : Type 0 where
  pub bin_id : ℕ
  pub consumer_instruction_index : ℕ
  pub producer_instruction_indices : List ℕ
  pub matched_sources : List Role

unfoldable pub is_positive_producer : ExecutionEvent → Bool
is_positive_producer event =
    event.writes_rd && not (event.rd == 0) && not (event.producer_type =p= no_producer)

-- `list(self._history)[-distance]`, or `None` where the history is shorter.
abbrev pub producer_at_distance : List ExecutionEvent → ℕ → Option ExecutionEvent
producer_at_distance [] distance = none
producer_at_distance (e ∷ history) zero = none
producer_at_distance (e ∷ history) (suc zero) = some e
producer_at_distance (e ∷ history) (suc (suc distance)) =
    producer_at_distance history (suc distance)

-- The loop of `_nearest_writer`, for a register other than x0.
unfoldable pub latest_writer : List ExecutionEvent → ℕ → Option ExecutionEvent
unfolding is_positive_producer
latest_writer [] register = none
latest_writer (e ∷ history) register =
    if is_positive_producer e && (e.rd == register) then some e else latest_writer history register

unfoldable pub nearest_writer : List ExecutionEvent → ℕ → Option ExecutionEvent
unfolding latest_writer
nearest_writer history register = if register == 0 then none else latest_writer history register

-- `_is_nearest_writer`. The `is` of the events is told by their numbers, which differ in a history.
unfoldable pub is_nearest_writer : List ExecutionEvent → Option ExecutionEvent → ℕ → Bool
unfolding nearest_writer
is_nearest_writer history none register = false
is_nearest_writer history (some p) register = elim (nearest_writer history register) [
  | none ↦ false
  | some w ↦ w.instruction_index == p.instruction_index
]

abbrev pub uses_rs1 : ExecutionEvent → ℕ → Bool
uses_rs1 event register = event.uses_rs1 && event.rs1 == register

abbrev pub uses_rs2 : ExecutionEvent → ℕ → Bool
uses_rs2 event register = event.uses_rs2 && event.rs2 == register

unfoldable pub used_source_roles : ExecutionEvent → ℕ → List Role
used_source_roles event register =
    (if uses_rs1 event register then rs1 ∷ [] else [])
    ++ (if uses_rs2 event register then rs2 ∷ [] else [])

abbrev pub opcode : ExecutionEvent → ℕ
opcode event = bit_and event.instruction 0x7f

abbrev pub raw_rs2 : ExecutionEvent → ℕ
raw_rs2 event = bit_and (event.instruction >>> 20) 0x1f

abbrev pub is_empty : List Role → Bool
is_empty [] = true
is_empty (_ ∷ _) = false

abbrev pub indices_of : List ExecutionEvent → List ℕ
indices_of [] = []
indices_of (p ∷ producers) = p.instruction_index ∷ indices_of producers

-- The `L1Hit` that `add_hit` builds.
abbrev pub make_hit : ℕ → ExecutionEvent → List ExecutionEvent → List Role → L1Hit
make_hit bin_id event producers matched_sources = record {
  bin_id = bin_id;
  consumer_instruction_index = event.instruction_index;
  producer_instruction_indices = indices_of producers;
  matched_sources = matched_sources;
}

-- What follows the guard `self._is_positive_producer(p)`.
abbrev pub when_positive : Option ExecutionEvent → (ExecutionEvent → Option L1Hit) → Option L1Hit
when_positive none k = none
when_positive (some p) k = if is_positive_producer p then k p else none
