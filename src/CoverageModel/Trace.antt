-- ===== src/CoverageModel/Trace.antt =====
-- The collector against the executed program itself: a trace of events, the latest first.
use riscv_pipeline_research.Base.{
  ℕ, ◌+◌, ◌-◌, ◌*◌, ◌<◌, ◌≡◌, refl, false, ◌&&◌, Option, none, some, List, [], ◌∷◌, get_or, length,
  get_or-replicate, leb, ◌==◌, if◌then◌else◌,
}
use riscv_pipeline_research.Event.{ExecutionEvent, contains}
use riscv_pipeline_research.CoverageModel.{
  L2Hit, WriterRecord, Collector, new_collector, count_intent,
}

-- The latest event that wrote a register, and how many events ago.
abbrev pub nearest_writer : List ExecutionEvent → ℕ → Option (ℕ × ExecutionEvent)
nearest_writer [] r = none
nearest_writer (e ∷ trace) r =
    if e.writes_rd && e.rd == r
    then some (1, e)
    else elim (nearest_writer trace r) [ none ↦ none | some (k, p) ↦ some (k + 1, p) ]

-- The dependency that a reader of `r` has on the trace before it, if it is one or two events away.
abbrev pub dependency : List ExecutionEvent → ExecutionEvent → ℕ → Option L2Hit
dependency trace event r = if r == 0 then none else elim (nearest_writer trace r) [
  | none ↦ none
  | some (k, p) ↦
      if leb k 2
      then some (record {
        bin_index = (k - 1) * 31 + (r - 1);
        distance = k;
        register = r;
        producer_instruction_index = p.instruction_index;
        consumer_instruction_index = event.instruction_index;
        producer_type = p.producer_type;
        consumer_type = event.consumer_type;
      })
      else none
]

abbrev pub dependencies : List ExecutionEvent → ExecutionEvent → List ℕ → List L2Hit
dependencies trace event [] = []
dependencies trace event (r ∷ sources) = elim (dependency trace event r) [
  | none ↦ dependencies trace event sources
  | some hit ↦ hit ∷ dependencies trace event sources
]

-- The events of a program are numbered from 1, without gaps.
abbrev pub IsNumbered : List ExecutionEvent → Type 0
IsNumbered [] = Unit {0}
IsNumbered (e ∷ trace) = (e.instruction_index ≡ length trace + 1) × IsNumbered trace

abbrev pub writer_record : ℕ → ExecutionEvent → WriterRecord
writer_record r p = record {
  instruction_index = p.instruction_index;
  register = r;
  producer_type = p.producer_type;
}

-- The writer that the collector should hold for a register.
abbrev pub expected_writer : List ExecutionEvent → ℕ → Option WriterRecord
expected_writer trace r = elim (nearest_writer trace r) [
  | none ↦ none
  | some (k, p) ↦ some (writer_record r p)
]

-- The collector has seen exactly this trace.
pub record Tracks (trace : List ExecutionEvent) (c : Collector) : Type 0 where
  pub numbered : IsNumbered trace
  pub in_step : c.last_instruction_index ≡ length trace
  pub registers : length c.last_writer ≡ 32
  pub writers : (r : ℕ) → 0 < r → r < 32 → get_or c.last_writer r none ≡ expected_writer trace r

pub new_collector-Tracks : Tracks [] new_collector
new_collector-Tracks = record {
  numbered = tt;
  in_step = refl;
  registers = refl;
  writers = λ r _ _. get_or-replicate 32 r none;
}

-- The collector after all the hits of an event have been counted.
unfoldable pub count_all : List L2Hit → Collector → Collector
count_all [] c = c
count_all (hit ∷ hits) c = count_all hits (count_intent hit.bin_index c)

-- One source register of an event that comes next.
module _ (trace : List ExecutionEvent) (c : Collector) (t : Tracks trace c) (event : ExecutionEvent)
    (next : event.instruction_index ≡ length trace + 1) where
  -- No bin of the sources is listed already, nor made twice.
  abbrev Fresh : List ℕ → List ℕ → Type 0
  Fresh indices [] = Unit {0}
  Fresh indices (r ∷ sources) = elim (dependency trace event r) [
    | none ↦ Fresh indices sources
    | some hit ↦ (contains indices hit.bin_index ≡ false) × Fresh (hit.bin_index ∷ indices) sources
  ]
