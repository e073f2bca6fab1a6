-- ===== src/Event.antt =====
-- One executed instruction, research/week5/impl/execution_event.py.
use riscv_pipeline_research.Base.{
  ℕ, ◌≤◌, ◌<◌, Bool, false, not, ◌&&◌, List, [], ◌∷◌, ◌++◌, ℤ, pos, negsuc, ltb, Outcome, ok, err,
  value_error, ◌≡◌, ◌≢◌, ◌⊎◌, inl, inr, arith, Bool-cases, raise_if, ◌>>=◌, ◌>>◌, ◌==◌, ◌||◌,
  if◌then◌else◌,
}
use riscv_pipeline_research.Word.{mask32}
use riscv_pipeline_research.Isa.{ProducerType, ConsumerType}

pub record ExecutionEvent : Type 0 where
  pub instruction_index : ℕ
  pub cycle : ℕ
  pub pc : ℕ
  pub instruction : ℕ
  pub rs1 : ℕ
  pub rs2 : ℕ
  pub rd : ℕ
  pub uses_rs1 : Bool
  pub uses_rs2 : Bool
  pub writes_rd : Bool
  pub producer_type : ProducerType
  pub consumer_type : ConsumerType
  pub stall_cycles_before_accept : ℕ
  pub forward_a : ℕ
  pub forward_b : ℕ

-- The arguments of the constructor, before `__post_init__` has checked them.
pub record EventArguments : Type 0 where
  pub instruction_index : ℤ
  pub cycle : ℤ
  pub pc : ℤ
  pub instruction : ℤ
  pub rs1 : ℤ
  pub rs2 : ℤ
  pub rd : ℤ
  pub uses_rs1 : Bool
  pub uses_rs2 : Bool
  pub writes_rd : Bool
  pub producer_type : ProducerType
  pub consumer_type : ConsumerType
  pub stall_cycles_before_accept : ℤ
  pub forward_a : ℤ
  pub forward_b : ℤ

-- A value that is checked against a lower bound of 0 alone.
abbrev pub natural : ℤ → Outcome ℕ
natural (pos n) = ok n
natural (negsuc n) = err value_error

-- `low <= value <= high`, with the value as a natural number.
abbrev pub bounded : ℕ → ℕ → ℤ → Outcome ℕ
bounded low high (pos n) = do raise_if (ltb n low || ltb high n) value_error; ok n
bounded low high (negsuc n) = err value_error

abbrev pub positive : ℤ → Outcome ℕ
positive (pos n) = do raise_if (n == 0) value_error; ok n
positive (negsuc n) = err value_error

unfoldable pub check_reg : ℤ → Outcome ℕ
check_reg value = bounded 0 31 value

-- `ExecutionEvent(…)` with its `__post_init__`.
unfoldable pub execution_event : EventArguments → Outcome ExecutionEvent
unfolding check_reg
execution_event a = do
  instruction_index ← positive a.instruction_index
  cycle ← natural a.cycle
  pc ← bounded 0 0x1ff a.pc
  instruction ← bounded 0 mask32 a.instruction
  rs1 ← check_reg a.rs1
  rs2 ← check_reg a.rs2
  rd ← check_reg a.rd
  stall_cycles_before_accept ← natural a.stall_cycles_before_accept
  forward_a ← bounded 0 0b11 a.forward_a
  forward_b ← bounded 0 0b11 a.forward_b
  ok (record {
    instruction_index = instruction_index;
    cycle = cycle;
    pc = pc;
    instruction = instruction;
    rs1 = rs1;
    rs2 = rs2;
    rd = rd;
    uses_rs1 = a.uses_rs1;
    uses_rs2 = a.uses_rs2;
    writes_rd = a.writes_rd;
    producer_type = a.producer_type;
    consumer_type = a.consumer_type;
    stall_cycles_before_accept = stall_cycles_before_accept;
    forward_a = forward_a;
    forward_b = forward_b;
  })

-- What `__post_init__` guarantees of every event.
pub record IsEvent (e : ExecutionEvent) : Type 0 where
  pub numbered : 0 < e.instruction_index
  pub pc_fits : e.pc ≤ 0x1ff
  pub instruction_fits : e.instruction ≤ mask32
  pub rs1_fits : e.rs1 ≤ 31
  pub rs2_fits : e.rs2 ≤ 31
  pub rd_fits : e.rd ≤ 31
  pub forward_a_fits : e.forward_a ≤ 3
  pub forward_b_fits : e.forward_b ≤ 3

-- `register in sources`
abbrev pub contains : List ℕ → ℕ → Bool
contains [] r = false
contains (x ∷ xs) r = x == r || contains xs r

unfoldable pub architectural_sources : ExecutionEvent → List ℕ
architectural_sources e =
    let sources : List ℕ = if e.uses_rs1 then e.rs1 ∷ [] else [] in
    if e.uses_rs2 && not (contains sources e.rs2) then sources ++ e.rs2 ∷ [] else sources

-- An event has no source, one, or two that differ.
pub architectural_sources-cases :
    (e : ExecutionEvent)
    → IsEvent e
    → (architectural_sources e ≡ [])
      ⊎ ((r : ℕ) × (architectural_sources e ≡ r ∷ []) × (r ≤ 31))
      ⊎ ((r : ℕ) × (s : ℕ) × (architectural_sources e ≡ r ∷ s ∷ []) × (r ≤ 31) × (s ≤ 31) × (r ≢ s))
unfolding architectural_sources
architectural_sources-cases e v = elim (Bool-cases e.uses_rs1) [
  | inl first ↦ elim (Bool-cases e.uses_rs2) [
    | inl second ↦ elim (Bool-cases (e.rs1 == e.rs2)) [
      | inl same ↦ inr (inl (e.rs1, ground arith, v.rs1_fits))
      | inr differ ↦ inr (inr (e.rs1, e.rs2, ground arith, v.rs1_fits, v.rs2_fits, ground arith))
    ]
    | inr unused ↦ inr (inl (e.rs1, ground arith, v.rs1_fits))
  ]
  | inr unread ↦ elim (Bool-cases e.uses_rs2) [
    | inl second ↦ inr (inl (e.rs2, ground arith, v.rs2_fits))
    | inr unused ↦ inl (ground arith)
  ]
]

-- The event has each of the fifteen arguments, under its own name.
pub record HasArguments (a : EventArguments) (e : ExecutionEvent) : Type 0 where
  pub instruction_index : pos e.instruction_index ≡ a.instruction_index
  pub cycle : pos e.cycle ≡ a.cycle
  pub pc : pos e.pc ≡ a.pc
  pub instruction : pos e.instruction ≡ a.instruction
  pub rs1 : pos e.rs1 ≡ a.rs1
  pub rs2 : pos e.rs2 ≡ a.rs2
  pub rd : pos e.rd ≡ a.rd
  pub uses_rs1 : e.uses_rs1 ≡ a.uses_rs1
  pub uses_rs2 : e.uses_rs2 ≡ a.uses_rs2
  pub writes_rd : e.writes_rd ≡ a.writes_rd
  pub producer_type : e.producer_type ≡ a.producer_type
  pub consumer_type : e.consumer_type ≡ a.consumer_type
  pub stall_cycles_before_accept : pos e.stall_cycles_before_accept ≡ a.stall_cycles_before_accept
  pub forward_a : pos e.forward_a ≡ a.forward_a
  pub forward_b : pos e.forward_b ≡ a.forward_b

-- Every event that the constructor lets through is within the bounds, and has each of the fifteen
-- arguments in the field of its name.
pub execution_event-IsEvent :
    (a : EventArguments) (e : ExecutionEvent)
    → execution_event a ≡ ok e
    → IsEvent e × HasArguments a e
unfolding execution_event
execution_event-IsEvent a e h = ground arith
