-- ===== src/HazardBins/Predicates.antt =====
-- The twenty tests of `L1CoverageCollector.observe`, research/week5/impl/l1_coverage.py, over the
-- last three executed events, the latest first.
use riscv_pipeline_research.Base.{
  not, ◌&&◌, ◌||◌, Option, none, some, List, [], ◌∷◌, ◌==◌, if◌then◌else◌,
}
use riscv_pipeline_research.Isa.{
  alu_result, mem_data, pc_plus_4, imm_value, pc_plus_imm, rs1_rs2, rs1_only, op_store,
}
use riscv_pipeline_research.Event.{ExecutionEvent, contains, architectural_sources}
use riscv_pipeline_research.HazardBins.History.{
  ◌=p=◌, ◌=c=◌, Role, L1Hit, producer_at_distance, is_nearest_writer, uses_rs1, uses_rs2,
  used_source_roles, opcode, raw_rs2, is_empty, make_hit, when_positive,
}

-- H01: ALU d1 to RS1 of an RS1_ONLY consumer.
unfoldable pub h01 : List ExecutionEvent → ExecutionEvent → Option L1Hit
h01 history event = when_positive (producer_at_distance history 1) λ p.
    if (p.producer_type =p= alu_result)
      && (event.consumer_type =c= rs1_only)
      && uses_rs1 event p.rd
      && is_nearest_writer history (some p) p.rd
    then some (make_hit 1 event (p ∷ []) (Role.rs1 ∷ []))
    else none

-- H02: ALU d1 to RS2 of an RS1_RS2 consumer.
unfoldable pub h02 : List ExecutionEvent → ExecutionEvent → Option L1Hit
h02 history event = when_positive (producer_at_distance history 1) λ p.
    if (p.producer_type =p= alu_result)
      && (event.consumer_type =c= rs1_rs2)
      && uses_rs2 event p.rd
      && is_nearest_writer history (some p) p.rd
    then some (make_hit 2 event (p ∷ []) (Role.rs2 ∷ []))
    else none

-- H03: ALU d2 to RS1 of an RS1_ONLY consumer.
unfoldable pub h03 : List ExecutionEvent → ExecutionEvent → Option L1Hit
h03 history event = when_positive (producer_at_distance history 2) λ p.
    if (p.producer_type =p= alu_result)
      && (event.consumer_type =c= rs1_only)
      && uses_rs1 event p.rd
      && is_nearest_writer history (some p) p.rd
    then some (make_hit 3 event (p ∷ []) (Role.rs1 ∷ []))
    else none

-- H04: ALU d2 to RS2 of an RS1_RS2 consumer.
unfoldable pub h04 : List ExecutionEvent → ExecutionEvent → Option L1Hit
h04 history event = when_positive (producer_at_distance history 2) λ p.
    if (p.producer_type =p= alu_result)
      && (event.consumer_type =c= rs1_rs2)
      && uses_rs2 event p.rd
      && is_nearest_writer history (some p) p.rd
    then some (make_hit 4 event (p ∷ []) (Role.rs2 ∷ []))
    else none

-- H05: any positive producer d3, through the register file.
unfoldable pub h05 : List ExecutionEvent → ExecutionEvent → Option L1Hit
h05 history event = when_positive (producer_at_distance history 3) λ p.
    let roles = used_source_roles event p.rd in
    if not (is_empty roles) && is_nearest_writer history (some p) p.rd
    then some (make_hit 5 event (p ∷ []) roles)
    else none

-- H06: load d1 to RS1 of an RS1_ONLY consumer.
unfoldable pub h06 : List ExecutionEvent → ExecutionEvent → Option L1Hit
h06 history event = when_positive (producer_at_distance history 1) λ p.
    if (p.producer_type =p= mem_data)
      && (event.consumer_type =c= rs1_only)
      && uses_rs1 event p.rd
      && is_nearest_writer history (some p) p.rd
    then some (make_hit 6 event (p ∷ []) (Role.rs1 ∷ []))
    else none

-- H07: load d1 to RS2 of an RS1_RS2 consumer.
unfoldable pub h07 : List ExecutionEvent → ExecutionEvent → Option L1Hit
h07 history event = when_positive (producer_at_distance history 1) λ p.
    if (p.producer_type =p= mem_data)
      && (event.consumer_type =c= rs1_rs2)
      && uses_rs2 event p.rd
      && is_nearest_writer history (some p) p.rd
    then some (make_hit 7 event (p ∷ []) (Role.rs2 ∷ []))
    else none

-- H08: load d2 to RS1 of an RS1_ONLY consumer.
unfoldable pub h08 : List ExecutionEvent → ExecutionEvent → Option L1Hit
h08 history event = when_positive (producer_at_distance history 2) λ p.
    if (p.producer_type =p= mem_data)
      && (event.consumer_type =c= rs1_only)
      && uses_rs1 event p.rd
      && is_nearest_writer history (some p) p.rd
    then some (make_hit 8 event (p ∷ []) (Role.rs1 ∷ []))
    else none

-- H09: load d2 to RS2 of an RS1_RS2 consumer.
unfoldable pub h09 : List ExecutionEvent → ExecutionEvent → Option L1Hit
h09 history event = when_positive (producer_at_distance history 2) λ p.
    if (p.producer_type =p= mem_data)
      && (event.consumer_type =c= rs1_rs2)
      && uses_rs2 event p.rd
      && is_nearest_writer history (some p) p.rd
    then some (make_hit 9 event (p ∷ []) (Role.rs2 ∷ []))
    else none

-- H10: two ALU producers, d1 and d2, of different registers, feed a dual-source consumer.
unfoldable pub h10 : List ExecutionEvent → ExecutionEvent → Option L1Hit
h10 history event = when_positive (producer_at_distance history 1) λ p1.
    when_positive (producer_at_distance history 2) λ p2.
      if (p1.producer_type =p= alu_result)
        && (p2.producer_type =p= alu_result)
        && not (p1.rd == p2.rd)
        && (event.consumer_type =c= rs1_rs2)
        && event.uses_rs1
        && event.uses_rs2
      then if (event.rs1 == p1.rd) && (event.rs2 == p2.rd)
          || (event.rs1 == p2.rd) && (event.rs2 == p1.rd)
        then some (make_hit 10 event (p2 ∷ p1 ∷ []) (Role.rs1 ∷ Role.rs2 ∷ []))
        else none
      else none

-- H11: LUI d1 to RS1.
unfoldable pub h11 : List ExecutionEvent → ExecutionEvent → Option L1Hit
h11 history event = when_positive (producer_at_distance history 1) λ p.
    if (p.producer_type =p= imm_value)
      && uses_rs1 event p.rd
      && is_nearest_writer history (some p) p.rd
    then some (make_hit 11 event (p ∷ []) (Role.rs1 ∷ []))
    else none

-- H12: LUI d2 to RS1.
unfoldable pub h12 : List ExecutionEvent → ExecutionEvent → Option L1Hit
h12 history event = when_positive (producer_at_distance history 2) λ p.
    if (p.producer_type =p= imm_value)
      && uses_rs1 event p.rd
      && is_nearest_writer history (some p) p.rd
    then some (make_hit 12 event (p ∷ []) (Role.rs1 ∷ []))
    else none

-- H13: AUIPC d1 to RS1.
unfoldable pub h13 : List ExecutionEvent → ExecutionEvent → Option L1Hit
h13 history event = when_positive (producer_at_distance history 1) λ p.
    if (p.producer_type =p= pc_plus_imm)
      && uses_rs1 event p.rd
      && is_nearest_writer history (some p) p.rd
    then some (make_hit 13 event (p ∷ []) (Role.rs1 ∷ []))
    else none

-- H14: AUIPC d2 to RS1.
unfoldable pub h14 : List ExecutionEvent → ExecutionEvent → Option L1Hit
h14 history event = when_positive (producer_at_distance history 2) λ p.
    if (p.producer_type =p= pc_plus_imm)
      && uses_rs1 event p.rd
      && is_nearest_writer history (some p) p.rd
    then some (make_hit 14 event (p ∷ []) (Role.rs1 ∷ []))
    else none

-- H15: a link producer d1, in executed order.
unfoldable pub h15 : List ExecutionEvent → ExecutionEvent → Option L1Hit
h15 history event = when_positive (producer_at_distance history 1) λ p.
    let roles = used_source_roles event p.rd in
    if (p.producer_type =p= pc_plus_4)
      && not (is_empty roles)
      && is_nearest_writer history (some p) p.rd
    then some (make_hit 15 event (p ∷ []) roles)
    else none

-- H16: ALU d1 to the data of a store.
unfoldable pub h16 : List ExecutionEvent → ExecutionEvent → Option L1Hit
h16 history event = when_positive (producer_at_distance history 1) λ p.
    if (p.producer_type =p= alu_result)
      && (opcode event == op_store)
      && uses_rs2 event p.rd
      && is_nearest_writer history (some p) p.rd
    then some (make_hit 16 event (p ∷ []) (Role.rs2 ∷ []))
    else none

-- H17: d1 and d2 producers of one register, of which the newest counts.
unfoldable pub h17 : List ExecutionEvent → ExecutionEvent → Option L1Hit
h17 history event = when_positive (producer_at_distance history 1) λ p1.
    when_positive (producer_at_distance history 2) λ p2.
      let roles = used_source_roles event p1.rd in
      if (p1.rd == p2.rd) && not (is_empty roles)
      then some (make_hit 17 event (p2 ∷ p1 ∷ []) roles)
      else none

-- H18: a destination x0, read by the next instruction.
unfoldable pub h18 : List ExecutionEvent → ExecutionEvent → Option L1Hit
h18 history event = elim (producer_at_distance history 1) [
  | none ↦ none
  | some p ↦
      let roles = used_source_roles event 0 in
      if p.writes_rd && (p.rd == 0) && not (is_empty roles)
      then some (make_hit 18 event (p ∷ []) roles)
      else none
]

-- H19: a load to x0, read by the next instruction.
unfoldable pub h19 : List ExecutionEvent → ExecutionEvent → Option L1Hit
h19 history event = elim (producer_at_distance history 1) [
  | none ↦ none
  | some p ↦
      let roles = used_source_roles event 0 in
      if p.writes_rd && (p.producer_type =p= mem_data) && (p.rd == 0) && not (is_empty roles)
      then some (make_hit 19 event (p ∷ []) roles)
      else none
]

-- H20: a load whose destination only the unused rs2 field of the next instruction names.
unfoldable pub h20 : List ExecutionEvent → ExecutionEvent → Option L1Hit
h20 history event = when_positive (producer_at_distance history 1) λ p.
    if (p.producer_type =p= mem_data)
      && not event.uses_rs2
      && (raw_rs2 event == p.rd)
      && not (contains (architectural_sources event) p.rd)
    then some (make_hit 20 event (p ∷ []) (Role.raw_rs2_unused ∷ []))
    else none
