-- ===== src/HazardBins/Guards.antt =====
-- What the tests of the single-dependency bins ask of the producer that they find.
use riscv_pipeline_research.Base.{
  ℕ, ◌≡◌, ◌↔◌, refl, ap, sym, ◌∙◌, Bool, true, not, ◌&&◌, Option, none, some, List, [], ◌∷◌, arith,
  ◌==◌, ==_iff, Bool-cases, inl, inr, if◌then◌else◌,
}
use riscv_pipeline_research.Isa.{
  ProducerType, ConsumerType, alu_result, mem_data, no_producer, pc_plus_4, imm_value, pc_plus_imm,
  rs1_rs2, rs1_only, no_gpr_source, op_store,
}
use riscv_pipeline_research.Event.{ExecutionEvent}
use riscv_pipeline_research.HazardBins.History.{
  L1Hit, Role, ◌=p=◌, ◌=c=◌, producer_code, consumer_code, is_positive_producer, is_nearest_writer,
  used_source_roles, uses_rs1, uses_rs2, opcode, is_empty, make_hit, when_positive,
  producer_at_distance,
}
use riscv_pipeline_research.HazardBins.Predicates.{
  h01, h02, h03, h04, h06, h07, h08, h09, h11, h12, h13, h14, h15, h16,
}
use riscv_pipeline_research.HazardBins.RawBins.{
  RawBin, test_of, distance_of, kind_of, IsReader, ReadsRs1, ReadsRs2,
}

producer_of_code : ℕ → ProducerType
producer_of_code n =
    if n == 0
    then alu_result
    else if n == 1
    then mem_data
    else if n == 2
    then no_producer
    else if n == 3
    then pc_plus_4
    else if n == 4
    then imm_value
    else pc_plus_imm

producer_of_code-producer_code : (p : ProducerType) → producer_of_code (producer_code p) ≡ p
unfolding producer_of_code
producer_of_code-producer_code alu_result = refl
producer_of_code-producer_code mem_data = refl
producer_of_code-producer_code no_producer = refl
producer_of_code-producer_code pc_plus_4 = refl
producer_of_code-producer_code imm_value = refl
producer_of_code-producer_code pc_plus_imm = refl

consumer_of_code : ℕ → ConsumerType
consumer_of_code n =
    if n == 0
    then rs1_rs2
    else if n == 1
    then rs1_only
    else if n == 2
    then no_gpr_source
    else ConsumerType.other

consumer_of_code-consumer_code : (c : ConsumerType) → consumer_of_code (consumer_code c) ≡ c
unfolding consumer_of_code
consumer_of_code-consumer_code rs1_rs2 = refl
consumer_of_code-consumer_code rs1_only = refl
consumer_of_code-consumer_code no_gpr_source = refl
consumer_of_code-consumer_code ConsumerType.other = refl

pub is_kind : (p q : ProducerType) → ((p =p= q) ≡ true) ↔ (p ≡ q)
is_kind p q = (
  λ h.
      sym (producer_of_code-producer_code p)
      ∙ ap producer_of_code ((==_iff _ _).0 h)
      ∙ producer_of_code-producer_code q,
  λ e. (==_iff _ _).1 (ap producer_code e),
)

is_consumer : (c d : ConsumerType) → ((c =c= d) ≡ true) ↔ (c ≡ d)
is_consumer c d = (
  λ h.
      sym (consumer_of_code-consumer_code c)
      ∙ ap consumer_of_code ((==_iff _ _).0 h)
      ∙ consumer_of_code-consumer_code d,
  λ e. (==_iff _ _).1 (ap consumer_code e),
)

reads_rs1 : (event : ExecutionEvent) (r : ℕ) → (uses_rs1 event r ≡ true) ↔ ReadsRs1 event r
reads_rs1 event r = (λ h. (ground arith, ground arith), λ h. ground (arith, h.0, h.1))

reads_rs2 : (event : ExecutionEvent) (r : ℕ) → (uses_rs2 event r ≡ true) ↔ ReadsRs2 event r
reads_rs2 event r = (λ h. (ground arith, ground arith), λ h. ground (arith, h.0, h.1))

-- The test of a bin, on the producer that it finds.
module _ (history : List ExecutionEvent) (event p : ExecutionEvent) where
  abbrev pub guard : RawBin → Bool
  guard RawBin.alu_d1_rs1 =
      (p.producer_type =p= alu_result)
      && (event.consumer_type =c= rs1_only)
      && uses_rs1 event p.rd
      && is_nearest_writer history (some p) p.rd
  guard RawBin.alu_d1_rs2 =
      (p.producer_type =p= alu_result)
      && (event.consumer_type =c= rs1_rs2)
      && uses_rs2 event p.rd
      && is_nearest_writer history (some p) p.rd
  guard RawBin.alu_d2_rs1 =
      (p.producer_type =p= alu_result)
      && (event.consumer_type =c= rs1_only)
      && uses_rs1 event p.rd
      && is_nearest_writer history (some p) p.rd
  guard RawBin.alu_d2_rs2 =
      (p.producer_type =p= alu_result)
      && (event.consumer_type =c= rs1_rs2)
      && uses_rs2 event p.rd
      && is_nearest_writer history (some p) p.rd
  guard RawBin.load_d1_rs1 =
      (p.producer_type =p= mem_data)
      && (event.consumer_type =c= rs1_only)
      && uses_rs1 event p.rd
      && is_nearest_writer history (some p) p.rd
  guard RawBin.load_d1_rs2 =
      (p.producer_type =p= mem_data)
      && (event.consumer_type =c= rs1_rs2)
      && uses_rs2 event p.rd
      && is_nearest_writer history (some p) p.rd
  guard RawBin.load_d2_rs1 =
      (p.producer_type =p= mem_data)
      && (event.consumer_type =c= rs1_only)
      && uses_rs1 event p.rd
      && is_nearest_writer history (some p) p.rd
  guard RawBin.load_d2_rs2 =
      (p.producer_type =p= mem_data)
      && (event.consumer_type =c= rs1_rs2)
      && uses_rs2 event p.rd
      && is_nearest_writer history (some p) p.rd
  guard RawBin.lui_d1 =
      (p.producer_type =p= imm_value)
      && uses_rs1 event p.rd
      && is_nearest_writer history (some p) p.rd
  guard RawBin.lui_d2 =
      (p.producer_type =p= imm_value)
      && uses_rs1 event p.rd
      && is_nearest_writer history (some p) p.rd
  guard RawBin.auipc_d1 =
      (p.producer_type =p= pc_plus_imm)
      && uses_rs1 event p.rd
      && is_nearest_writer history (some p) p.rd
  guard RawBin.auipc_d2 =
      (p.producer_type =p= pc_plus_imm)
      && uses_rs1 event p.rd
      && is_nearest_writer history (some p) p.rd
  guard RawBin.link_d1 =
      (p.producer_type =p= pc_plus_4)
      && not (is_empty (used_source_roles event p.rd))
      && is_nearest_writer history (some p) p.rd
  guard RawBin.store_data_d1 =
      (p.producer_type =p= alu_result)
      && (opcode event == op_store)
      && uses_rs2 event p.rd
      && is_nearest_writer history (some p) p.rd

  abbrev pub made : RawBin → L1Hit
  made RawBin.alu_d1_rs1 = make_hit 1 event (p ∷ []) (Role.rs1 ∷ [])
  made RawBin.alu_d1_rs2 = make_hit 2 event (p ∷ []) (Role.rs2 ∷ [])
  made RawBin.alu_d2_rs1 = make_hit 3 event (p ∷ []) (Role.rs1 ∷ [])
  made RawBin.alu_d2_rs2 = make_hit 4 event (p ∷ []) (Role.rs2 ∷ [])
  made RawBin.load_d1_rs1 = make_hit 6 event (p ∷ []) (Role.rs1 ∷ [])
  made RawBin.load_d1_rs2 = make_hit 7 event (p ∷ []) (Role.rs2 ∷ [])
  made RawBin.load_d2_rs1 = make_hit 8 event (p ∷ []) (Role.rs1 ∷ [])
  made RawBin.load_d2_rs2 = make_hit 9 event (p ∷ []) (Role.rs2 ∷ [])
  made RawBin.lui_d1 = make_hit 11 event (p ∷ []) (Role.rs1 ∷ [])
  made RawBin.lui_d2 = make_hit 12 event (p ∷ []) (Role.rs1 ∷ [])
  made RawBin.auipc_d1 = make_hit 13 event (p ∷ []) (Role.rs1 ∷ [])
  made RawBin.auipc_d2 = make_hit 14 event (p ∷ []) (Role.rs1 ∷ [])
  made RawBin.link_d1 = make_hit 15 event (p ∷ []) (used_source_roles event p.rd)
  made RawBin.store_data_d1 = make_hit 16 event (p ∷ []) (Role.rs2 ∷ [])

  pub made-NamesHit :
      (b : RawBin)
      → (hit : L1Hit) → made b ≡ hit
      → (hit.producer_instruction_indices ≡ p.instruction_index ∷ [])
        × (hit.consumer_instruction_index ≡ event.instruction_index)
  made-NamesHit RawBin.alu_d1_rs1 hit e = (rw (← e) refl, rw (← e) refl)
  made-NamesHit RawBin.alu_d1_rs2 hit e = (rw (← e) refl, rw (← e) refl)
  made-NamesHit RawBin.alu_d2_rs1 hit e = (rw (← e) refl, rw (← e) refl)
  made-NamesHit RawBin.alu_d2_rs2 hit e = (rw (← e) refl, rw (← e) refl)
  made-NamesHit RawBin.load_d1_rs1 hit e = (rw (← e) refl, rw (← e) refl)
  made-NamesHit RawBin.load_d1_rs2 hit e = (rw (← e) refl, rw (← e) refl)
  made-NamesHit RawBin.load_d2_rs1 hit e = (rw (← e) refl, rw (← e) refl)
  made-NamesHit RawBin.load_d2_rs2 hit e = (rw (← e) refl, rw (← e) refl)
  made-NamesHit RawBin.lui_d1 hit e = (rw (← e) refl, rw (← e) refl)
  made-NamesHit RawBin.lui_d2 hit e = (rw (← e) refl, rw (← e) refl)
  made-NamesHit RawBin.auipc_d1 hit e = (rw (← e) refl, rw (← e) refl)
  made-NamesHit RawBin.auipc_d2 hit e = (rw (← e) refl, rw (← e) refl)
  made-NamesHit RawBin.link_d1 hit e = (rw (← e) refl, rw (← e) refl)
  made-NamesHit RawBin.store_data_d1 hit e = (rw (← e) refl, rw (← e) refl)

  -- What the test asks.
  pub guard_iff :
      (b : RawBin)
      → (guard b ≡ true) ↔ (
          (p.producer_type ≡ kind_of b)
          × IsReader b event p.rd
          × (is_nearest_writer history (some p) p.rd ≡ true))
  unfolding used_source_roles
  guard_iff RawBin.alu_d1_rs1 = (
    λ h. (
      (is_kind _ _).0 (ground arith),
      ((is_consumer _ _).0 (ground arith), (reads_rs1 event p.rd).0 (ground arith)),
      ground arith,
    ),
    λ h. ground (
      arith,
      (is_kind _ _).1 h.0,
      (is_consumer _ _).1 h.1.0,
      (reads_rs1 event p.rd).1 h.1.1,
      h.2,
    ),
  )
  guard_iff RawBin.alu_d1_rs2 = (
    λ h. (
      (is_kind _ _).0 (ground arith),
      ((is_consumer _ _).0 (ground arith), (reads_rs2 event p.rd).0 (ground arith)),
      ground arith,
    ),
    λ h. ground (
      arith,
      (is_kind _ _).1 h.0,
      (is_consumer _ _).1 h.1.0,
      (reads_rs2 event p.rd).1 h.1.1,
      h.2,
    ),
  )
  guard_iff RawBin.alu_d2_rs1 = (
    λ h. (
      (is_kind _ _).0 (ground arith),
      ((is_consumer _ _).0 (ground arith), (reads_rs1 event p.rd).0 (ground arith)),
      ground arith,
    ),
    λ h. ground (
      arith,
      (is_kind _ _).1 h.0,
      (is_consumer _ _).1 h.1.0,
      (reads_rs1 event p.rd).1 h.1.1,
      h.2,
    ),
  )
  guard_iff RawBin.alu_d2_rs2 = (
    λ h. (
      (is_kind _ _).0 (ground arith),
      ((is_consumer _ _).0 (ground arith), (reads_rs2 event p.rd).0 (ground arith)),
      ground arith,
    ),
    λ h. ground (
      arith,
      (is_kind _ _).1 h.0,
      (is_consumer _ _).1 h.1.0,
      (reads_rs2 event p.rd).1 h.1.1,
      h.2,
    ),
  )
  guard_iff RawBin.load_d1_rs1 = (
    λ h. (
      (is_kind _ _).0 (ground arith),
      ((is_consumer _ _).0 (ground arith), (reads_rs1 event p.rd).0 (ground arith)),
      ground arith,
    ),
    λ h. ground (
      arith,
      (is_kind _ _).1 h.0,
      (is_consumer _ _).1 h.1.0,
      (reads_rs1 event p.rd).1 h.1.1,
      h.2,
    ),
  )
  guard_iff RawBin.load_d1_rs2 = (
    λ h. (
      (is_kind _ _).0 (ground arith),
      ((is_consumer _ _).0 (ground arith), (reads_rs2 event p.rd).0 (ground arith)),
      ground arith,
    ),
    λ h. ground (
      arith,
      (is_kind _ _).1 h.0,
      (is_consumer _ _).1 h.1.0,
      (reads_rs2 event p.rd).1 h.1.1,
      h.2,
    ),
  )
  guard_iff RawBin.load_d2_rs1 = (
    λ h. (
      (is_kind _ _).0 (ground arith),
      ((is_consumer _ _).0 (ground arith), (reads_rs1 event p.rd).0 (ground arith)),
      ground arith,
    ),
    λ h. ground (
      arith,
      (is_kind _ _).1 h.0,
      (is_consumer _ _).1 h.1.0,
      (reads_rs1 event p.rd).1 h.1.1,
      h.2,
    ),
  )
  guard_iff RawBin.load_d2_rs2 = (
    λ h. (
      (is_kind _ _).0 (ground arith),
      ((is_consumer _ _).0 (ground arith), (reads_rs2 event p.rd).0 (ground arith)),
      ground arith,
    ),
    λ h. ground (
      arith,
      (is_kind _ _).1 h.0,
      (is_consumer _ _).1 h.1.0,
      (reads_rs2 event p.rd).1 h.1.1,
      h.2,
    ),
  )
  guard_iff RawBin.lui_d1 = (
    λ h. ((is_kind _ _).0 (ground arith), (reads_rs1 event p.rd).0 (ground arith), ground arith),
    λ h. ground (arith, (is_kind _ _).1 h.0, (reads_rs1 event p.rd).1 h.1, h.2),
  )
  guard_iff RawBin.lui_d2 = (
    λ h. ((is_kind _ _).0 (ground arith), (reads_rs1 event p.rd).0 (ground arith), ground arith),
    λ h. ground (arith, (is_kind _ _).1 h.0, (reads_rs1 event p.rd).1 h.1, h.2),
  )
  guard_iff RawBin.auipc_d1 = (
    λ h. ((is_kind _ _).0 (ground arith), (reads_rs1 event p.rd).0 (ground arith), ground arith),
    λ h. ground (arith, (is_kind _ _).1 h.0, (reads_rs1 event p.rd).1 h.1, h.2),
  )
  guard_iff RawBin.auipc_d2 = (
    λ h. ((is_kind _ _).0 (ground arith), (reads_rs1 event p.rd).0 (ground arith), ground arith),
    λ h. ground (arith, (is_kind _ _).1 h.0, (reads_rs1 event p.rd).1 h.1, h.2),
  )
  guard_iff RawBin.link_d1 = (
    λ h. elim (Bool-cases (uses_rs1 event p.rd)) [
      | inl first ↦
          ((is_kind _ _).0 (ground arith), inl ((reads_rs1 event p.rd).0 first), ground arith)
      | inr not_first ↦ (
        (is_kind _ _).0 (ground arith),
        inr ((reads_rs2 event p.rd).0 (ground arith)),
        ground arith,
      )
    ],
    λ h. elim h.1 [
      | inl reads ↦ ground (arith, (is_kind _ _).1 h.0, (reads_rs1 event p.rd).1 reads, h.2)
      | inr reads ↦ ground (arith, (is_kind _ _).1 h.0, (reads_rs2 event p.rd).1 reads, h.2)
    ],
  )
  guard_iff RawBin.store_data_d1 = (
    λ h. (
      (is_kind _ _).0 (ground arith),
      (ground arith, (reads_rs2 event p.rd).0 (ground arith)),
      ground arith,
    ),
    λ h.
        ground
          (arith, (is_kind _ _).1 h.0, (==_iff _ _).1 h.1.0, (reads_rs2 event p.rd).1 h.1.1, h.2),
  )

pub test_of-form :
    (b : RawBin) (history : List ExecutionEvent) (event : ExecutionEvent)
    → test_of b history event
      ≡ when_positive
          (producer_at_distance history (distance_of b))
          (λ p. if guard history event p b then some (made history event p b) else none)
unfolding h01 h02 h03 h04 h06 h07 h08 h09 h11 h12 h13 h14 h15 h16
test_of-form RawBin.alu_d1_rs1 history event = refl
test_of-form RawBin.alu_d1_rs2 history event = refl
test_of-form RawBin.alu_d2_rs1 history event = refl
test_of-form RawBin.alu_d2_rs2 history event = refl
test_of-form RawBin.load_d1_rs1 history event = refl
test_of-form RawBin.load_d1_rs2 history event = refl
test_of-form RawBin.load_d2_rs1 history event = refl
test_of-form RawBin.load_d2_rs2 history event = refl
test_of-form RawBin.lui_d1 history event = refl
test_of-form RawBin.lui_d2 history event = refl
test_of-form RawBin.auipc_d1 history event = refl
test_of-form RawBin.auipc_d2 history event = refl
test_of-form RawBin.link_d1 history event = refl
test_of-form RawBin.store_data_d1 history event = refl

pub unpack :
    (o : Option ExecutionEvent) (g : ExecutionEvent → Bool) (mk : ExecutionEvent → L1Hit)
    (hit : L1Hit)
    → when_positive o (λ p. if g p then some (mk p) else none) ≡ some hit
    → (p : ExecutionEvent) × (o ≡ some p)
      × (is_positive_producer p ≡ true)
      × (g p ≡ true)
      × (mk p ≡ hit)
unpack none g mk hit h = cc
unpack (some p) g mk hit h = (p, refl, ground arith, ground arith, ground arith)

pub pack :
    (o : Option ExecutionEvent) (g : ExecutionEvent → Bool) (mk : ExecutionEvent → L1Hit)
    (p : ExecutionEvent)
    → o ≡ some p
    → is_positive_producer p ≡ true
    → g p ≡ true
    → when_positive o (λ p. if g p then some (mk p) else none) ≡ some (mk p)
pack o g mk p found positive passes = rw (found, positive, passes) refl
