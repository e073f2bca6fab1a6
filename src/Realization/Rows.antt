-- ===== src/Realization/Rows.antt =====
-- The rows of the realization checker's table, for the bins of one dependency, and what the
-- classifier puts into a hit for such a bin.
use riscv_pipeline_research.Base.{ℕ, ◌≡◌, arith, Bool, true, false, some, List, [], ◌∷◌, all}
use riscv_pipeline_research.Event.{ExecutionEvent}
use riscv_pipeline_research.Timing.{Forward, bubbles_of_redirect}
use riscv_pipeline_research.HazardBins.History.{L1Hit, Role, used_source_roles}
use riscv_pipeline_research.HazardBins.Predicates.{
  h01, h02, h03, h04, h06, h07, h08, h09, h11, h12, h13, h14, h15, h16,
}
use riscv_pipeline_research.HazardBins.RawBins.{RawBin, test_of}

abbrev pub id_of : RawBin → ℕ
id_of RawBin.alu_d1_rs1 = 1
id_of RawBin.alu_d1_rs2 = 2
id_of RawBin.alu_d2_rs1 = 3
id_of RawBin.alu_d2_rs2 = 4
id_of RawBin.load_d1_rs1 = 6
id_of RawBin.load_d1_rs2 = 7
id_of RawBin.load_d2_rs1 = 8
id_of RawBin.load_d2_rs2 = 9
id_of RawBin.lui_d1 = 11
id_of RawBin.lui_d2 = 12
id_of RawBin.auipc_d1 = 13
id_of RawBin.auipc_d2 = 14
id_of RawBin.link_d1 = 15
id_of RawBin.store_data_d1 = 16

-- The cycles that the pipeline adds between the two instructions: a load stalls the one that reads
-- it next, and a jump has bubbles behind it.
abbrev pub stall_of : RawBin → ℕ
stall_of RawBin.load_d1_rs1 = 1
stall_of RawBin.load_d1_rs2 = 1
stall_of _ = 0

abbrev pub bubbles_of : RawBin → ℕ
bubbles_of RawBin.link_d1 = bubbles_of_redirect
bubbles_of _ = 0

abbrev pub code : Forward → ℕ
code Forward.register_file = 0b00
code Forward.mem_wb = 0b01
code Forward.ex_mem = 0b10

-- The selection that the pipeline made for an operand.
abbrev pub selected : ExecutionEvent → Role → ℕ
selected event Role.rs1 = event.forward_a
selected event Role.rs2 = event.forward_b
selected event Role.raw_rs2_unused = 0

abbrev pub real : Role → Bool
real Role.rs1 = true
real Role.rs2 = true
real Role.raw_rs2_unused = false

-- The role of a bin, if it has a fixed one.
abbrev pub RolesOf : RawBin → List Role → Type 0
RolesOf RawBin.alu_d1_rs1 roles = roles ≡ Role.rs1 ∷ []
RolesOf RawBin.alu_d1_rs2 roles = roles ≡ Role.rs2 ∷ []
RolesOf RawBin.alu_d2_rs1 roles = roles ≡ Role.rs1 ∷ []
RolesOf RawBin.alu_d2_rs2 roles = roles ≡ Role.rs2 ∷ []
RolesOf RawBin.load_d1_rs1 roles = roles ≡ Role.rs1 ∷ []
RolesOf RawBin.load_d1_rs2 roles = roles ≡ Role.rs2 ∷ []
RolesOf RawBin.load_d2_rs1 roles = roles ≡ Role.rs1 ∷ []
RolesOf RawBin.load_d2_rs2 roles = roles ≡ Role.rs2 ∷ []
RolesOf RawBin.lui_d1 roles = roles ≡ Role.rs1 ∷ []
RolesOf RawBin.lui_d2 roles = roles ≡ Role.rs1 ∷ []
RolesOf RawBin.auipc_d1 roles = roles ≡ Role.rs1 ∷ []
RolesOf RawBin.auipc_d2 roles = roles ≡ Role.rs1 ∷ []
RolesOf RawBin.link_d1 roles = all real roles ≡ true
RolesOf RawBin.store_data_d1 roles = roles ≡ Role.rs2 ∷ []

abbrev pub Made : RawBin → ExecutionEvent → L1Hit → Type 0
Made b event hit =
    (hit.bin_id ≡ id_of b)
    × (hit.consumer_instruction_index ≡ event.instruction_index)
    × RolesOf b hit.matched_sources

pub test_of-Made :
    (b : RawBin) (history : List ExecutionEvent) (event : ExecutionEvent) (hit : L1Hit)
    → test_of b history event ≡ some hit
    → Made b event hit
unfolding h01 h02 h03 h04 h06 h07 h08 h09 h11 h12 h13 h14 h15 h16 used_source_roles
test_of-Made RawBin.alu_d1_rs1 history event hit h = ground arith
test_of-Made RawBin.alu_d1_rs2 history event hit h = ground arith
test_of-Made RawBin.alu_d2_rs1 history event hit h = ground arith
test_of-Made RawBin.alu_d2_rs2 history event hit h = ground arith
test_of-Made RawBin.load_d1_rs1 history event hit h = ground arith
test_of-Made RawBin.load_d1_rs2 history event hit h = ground arith
test_of-Made RawBin.load_d2_rs1 history event hit h = ground arith
test_of-Made RawBin.load_d2_rs2 history event hit h = ground arith
test_of-Made RawBin.lui_d1 history event hit h = ground arith
test_of-Made RawBin.lui_d2 history event hit h = ground arith
test_of-Made RawBin.auipc_d1 history event hit h = ground arith
test_of-Made RawBin.auipc_d2 history event hit h = ground arith
test_of-Made RawBin.link_d1 history event hit h = ground arith
test_of-Made RawBin.store_data_d1 history event hit h = ground arith
