-- ===== src/HazardBins/RawBins.antt =====
-- The bins of l1_coverage.py that stand for one dependency of the executed trace, and the dependency
-- that the name of each states.
use riscv_pipeline_research.Base.{
  ℕ, ◌≡◌, ◌≢◌, ◌⊎◌, true, Option, some, List, [], ◌∷◌, take, bit_and,
}
use riscv_pipeline_research.Isa.{
  ProducerType, alu_result, mem_data, no_producer, pc_plus_4, imm_value, pc_plus_imm, rs1_rs2,
  rs1_only, op_store,
}
use riscv_pipeline_research.Event.{ExecutionEvent}
use riscv_pipeline_research.CoverageModel.{L2Hit}
use riscv_pipeline_research.CoverageModel.Trace.{dependency}
use riscv_pipeline_research.HazardBins.History.{L1Hit}
use riscv_pipeline_research.HazardBins.Predicates.{
  h01, h02, h03, h04, h06, h07, h08, h09, h11, h12, h13, h14, h15, h16,
}

-- The bins that stand for one dependency at distance 1 or 2.
pub data RawBin : Type 0 where
  alu_d1_rs1 alu_d1_rs2 alu_d2_rs1 alu_d2_rs2 load_d1_rs1 load_d1_rs2 load_d2_rs1 load_d2_rs2 :
      RawBin
  lui_d1 lui_d2 auipc_d1 auipc_d2 link_d1 store_data_d1 : RawBin

abbrev pub test_of : RawBin → List ExecutionEvent → ExecutionEvent → Option L1Hit
test_of RawBin.alu_d1_rs1 = h01
test_of RawBin.alu_d1_rs2 = h02
test_of RawBin.alu_d2_rs1 = h03
test_of RawBin.alu_d2_rs2 = h04
test_of RawBin.load_d1_rs1 = h06
test_of RawBin.load_d1_rs2 = h07
test_of RawBin.load_d2_rs1 = h08
test_of RawBin.load_d2_rs2 = h09
test_of RawBin.lui_d1 = h11
test_of RawBin.lui_d2 = h12
test_of RawBin.auipc_d1 = h13
test_of RawBin.auipc_d2 = h14
test_of RawBin.link_d1 = h15
test_of RawBin.store_data_d1 = h16

abbrev pub distance_of : RawBin → ℕ
distance_of RawBin.alu_d2_rs1 = 2
distance_of RawBin.alu_d2_rs2 = 2
distance_of RawBin.load_d2_rs1 = 2
distance_of RawBin.load_d2_rs2 = 2
distance_of RawBin.lui_d2 = 2
distance_of RawBin.auipc_d2 = 2
distance_of _ = 1

-- The three latest events.
abbrev pub recent : List ExecutionEvent → List ExecutionEvent
recent trace = take 3 trace

-- The decoder gives every writer a producer type.
abbrev pub IsClassified : ExecutionEvent → Type 0
IsClassified e = e.writes_rd ≡ true → e.producer_type ≢ no_producer

-- The kind of the producer that the bin's name states.
abbrev pub kind_of : RawBin → ProducerType
kind_of RawBin.load_d1_rs1 = mem_data
kind_of RawBin.load_d1_rs2 = mem_data
kind_of RawBin.load_d2_rs1 = mem_data
kind_of RawBin.load_d2_rs2 = mem_data
kind_of RawBin.lui_d1 = imm_value
kind_of RawBin.lui_d2 = imm_value
kind_of RawBin.auipc_d1 = pc_plus_imm
kind_of RawBin.auipc_d2 = pc_plus_imm
kind_of RawBin.link_d1 = pc_plus_4
kind_of _ = alu_result

abbrev pub ReadsRs1 : ExecutionEvent → ℕ → Type 0
ReadsRs1 event r = (event.uses_rs1 ≡ true) × (event.rs1 ≡ r)

abbrev pub ReadsRs2 : ExecutionEvent → ℕ → Type 0
ReadsRs2 event r = (event.uses_rs2 ≡ true) × (event.rs2 ≡ r)

-- The reader that the bin's name states: what it is, and the operand through which it reads `r`.
abbrev pub IsReader : RawBin → ExecutionEvent → ℕ → Type 0
IsReader RawBin.alu_d1_rs1 event r = (event.consumer_type ≡ rs1_only) × ReadsRs1 event r
IsReader RawBin.alu_d1_rs2 event r = (event.consumer_type ≡ rs1_rs2) × ReadsRs2 event r
IsReader RawBin.alu_d2_rs1 event r = (event.consumer_type ≡ rs1_only) × ReadsRs1 event r
IsReader RawBin.alu_d2_rs2 event r = (event.consumer_type ≡ rs1_rs2) × ReadsRs2 event r
IsReader RawBin.load_d1_rs1 event r = (event.consumer_type ≡ rs1_only) × ReadsRs1 event r
IsReader RawBin.load_d1_rs2 event r = (event.consumer_type ≡ rs1_rs2) × ReadsRs2 event r
IsReader RawBin.load_d2_rs1 event r = (event.consumer_type ≡ rs1_only) × ReadsRs1 event r
IsReader RawBin.load_d2_rs2 event r = (event.consumer_type ≡ rs1_rs2) × ReadsRs2 event r
IsReader RawBin.link_d1 event r = ReadsRs1 event r ⊎ ReadsRs2 event r
IsReader RawBin.store_data_d1 event r =
    (bit_and event.instruction 0x7f ≡ op_store) × ReadsRs2 event r
IsReader _ event r = ReadsRs1 event r

-- A dependency of the trace that the bin's name states.
pub record IsNamed (b : RawBin) (trace : List ExecutionEvent) (event : ExecutionEvent) (l2 : L2Hit)
    : Type 0 where
  pub on_trace : dependency trace event l2.register ≡ some l2
  pub at_distance : l2.distance ≡ distance_of b
  pub of_kind : l2.producer_type ≡ kind_of b
  pub reader : IsReader b event l2.register

-- What the hit of a bin names.
pub record NamesHit (event : ExecutionEvent) (l2 : L2Hit) (hit : L1Hit) : Type 0 where
  pub producer : hit.producer_instruction_indices ≡ l2.producer_instruction_index ∷ []
  pub consumer : hit.consumer_instruction_index ≡ event.instruction_index
