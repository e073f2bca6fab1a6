-- ===== src/CoverageModel.antt =====
-- The 62-bin dependency collector, `L2CoverageCollector` of research/week5/impl/coverage_model.py.
-- A method returns what it returns or raises, and the collector as it then stands.
pub mod Bins
pub mod Trace
pub mod Tally
use riscv_pipeline_research.Base.{
  ℕ, suc, ◌+◌, ◌-◌, ◌*◌, Bool, true, false, not, ◌&&◌, ◌||◌, Option, none, some, List, [], ◌∷◌,
  ◌++◌, Outcome, ok, err, value_error, require, ◌>>=◌, ◌>>◌, get_or, set, replicate, leb, ltb, ◌==◌,
  if◌then◌else◌,
}
use riscv_pipeline_research.Isa.{ProducerType, ConsumerType}
use riscv_pipeline_research.Event.{ExecutionEvent, contains, architectural_sources}

-- L2_BIN_COUNT
abbrev pub bin_count : ℕ
bin_count = 62

unfoldable pub l2_bin_index : ℕ → ℕ → Outcome ℕ
l2_bin_index distance register = do
  require (distance == 1 || distance == 2) value_error
  require (leb 1 register && leb register 31) value_error
  ok ((distance - 1) * 31 + (register - 1))

pub record WriterRecord : Type 0 where
  pub instruction_index : ℕ
  pub register : ℕ
  pub producer_type : ProducerType

pub record L2Hit : Type 0 where
  pub bin_index : ℕ
  pub distance : ℕ
  pub register : ℕ
  pub producer_instruction_index : ℕ
  pub consumer_instruction_index : ℕ
  pub producer_type : ProducerType
  pub consumer_type : ConsumerType

pub record Collector : Type 0 where
  pub intent_seen : List Bool
  pub validated_seen : List Bool
  pub intent_hit_count : List ℕ
  pub validated_hit_count : List ℕ
  pub last_writer : List (Option WriterRecord)
  pub last_instruction_index : ℕ

-- `__init__`, and `reset`, which assigns the same values.
abbrev pub new_collector : Collector
new_collector = record {
  intent_seen = replicate bin_count false;
  validated_seen = replicate bin_count false;
  intent_hit_count = replicate bin_count 0;
  validated_hit_count = replicate bin_count 0;
  last_writer = replicate 32 none;
  last_instruction_index = 0;
}

-- The guards of the loop body of `observe`: the hit of one source register, if it makes one.
unfoldable pub source_hit : ExecutionEvent → List (Option WriterRecord) → ℕ → Outcome (Option L2Hit)
source_hit event last_writer source_register =
    if source_register == 0 then ok none else elim (get_or last_writer source_register none) [
      | none ↦ ok none
      | some writer ↦
          let distance = event.instruction_index - writer.instruction_index in
          if distance == 1 || distance == 2
          then (do
            index ← l2_bin_index distance source_register
            ok (
                some (record {
                  bin_index = index;
                  distance = distance;
                  register = source_register;
                  producer_instruction_index = writer.instruction_index;
                  consumer_instruction_index = event.instruction_index;
                  producer_type = writer.producer_type;
                  consumer_type = event.consumer_type;
                })))
          else ok none
    ]

unfoldable pub count_intent : ℕ → Collector → Collector
count_intent index c = record c {
  intent_hit_count = set c.intent_hit_count index (get_or c.intent_hit_count index 0 + 1);
  intent_seen = set c.intent_seen index true;
}

-- The loop of `observe` over the sources; `indices` is `event_bin_indices`.
unfoldable pub observe_sources :
    ExecutionEvent → List ℕ → List ℕ → List L2Hit → Collector → Outcome (List L2Hit) × Collector
observe_sources event [] indices hits c = (ok hits, c)
observe_sources event (r ∷ sources) indices hits c = elim (source_hit event c.last_writer r) [
  | err e ↦ (err e, c)
  | ok none ↦ observe_sources event sources indices hits c
  | ok (some hit) ↦ elim (contains indices hit.bin_index) [
    | true ↦ observe_sources event sources indices hits c
    | false ↦
        observe_sources event sources (hit.bin_index ∷ indices) (hits ++ hit ∷ [])
          (count_intent hit.bin_index c)
  ]
]

-- The end of `observe`: the destination's writer, and the order counter.
unfoldable pub note_writer : ExecutionEvent → Collector → Collector
note_writer event c = record c {
  last_writer =
      if event.writes_rd && not (event.rd == 0)
      then set c.last_writer event.rd (
          some (record {
            instruction_index = event.instruction_index;
            register = event.rd;
            producer_type = event.producer_type;
          }))
      else c.last_writer;
  last_instruction_index = event.instruction_index;
}

unfoldable pub observe : ExecutionEvent → Collector → Outcome (List L2Hit) × Collector
observe event c =
    if not (event.instruction_index == c.last_instruction_index + 1)
    then (err value_error, c)
    else let (hits, c') = observe_sources event (architectural_sources event) [] [] c in
      elim hits [ err e ↦ (err e, c') | ok hits ↦ (ok hits, note_writer event c') ]

unfoldable pub count_validated : ℕ → Collector → Collector
count_validated index c = record c {
  validated_hit_count = set c.validated_hit_count index (get_or c.validated_hit_count index 0 + 1);
  validated_seen = set c.validated_seen index true;
}

-- The loop of `promote_validated`; `seen` is `seen_in_call`. What was counted before a raise stays.
unfoldable pub promote_hits : List L2Hit → List ℕ → Collector → Outcome (Unit {0}) × Collector
promote_hits [] seen c = (ok tt, c)
promote_hits (hit ∷ hits) seen c =
    let rest = promote_hits hits seen c in
    let counted = promote_hits hits (hit.bin_index ∷ seen) (count_validated hit.bin_index c) in
    if not (ltb hit.bin_index bin_count)
    then (err value_error, c)
    else if not (get_or c.intent_seen hit.bin_index false)
    then (err value_error, c)
    else if contains seen hit.bin_index
    then rest
    else counted

unfoldable pub promote_validated : List L2Hit → Collector → Outcome (Unit {0}) × Collector
promote_validated hits c = promote_hits hits [] c

-- `sum(self.intent_seen)`
abbrev pub count_true : List Bool → ℕ
count_true [] = 0
count_true (true ∷ xs) = suc (count_true xs)
count_true (false ∷ xs) = count_true xs

unfoldable pub intent_bins : Collector → ℕ
intent_bins c = count_true c.intent_seen

unfoldable pub validated_bins : Collector → ℕ
validated_bins c = count_true c.validated_seen
