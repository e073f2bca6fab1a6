-- ===== src/Promotion.antt =====
-- The coverage of a campaign, `CoverageCollector` of research/week9/coverage_collector.py.
pub mod Records
pub mod Verdict
pub mod Invariant
pub mod Calls
pub mod Changes
pub mod Firsts
use riscv_pipeline_research.Base.{
  ℕ, ◌+◌, ◌-◌, ◌*◌, ◌%◌, Bool, true, false, not, ◌&&◌, ◌||◌, Option, none, some, List, [], ◌∷◌,
  ◌++◌, ℤ, Outcome, ok, err, value_error, raise_if, require, ◌>>=◌, ◌>>◌, ◌==◌, ltb, leb,
  if◌then◌else◌, get_or, set, replicate, int_of_bool,
}
use riscv_pipeline_research.Event.{natural, positive}

pub record FirstHit : Type 0 where
  pub instruction_id : ℕ
  pub cycle : ℕ
  pub wall_ns : ℕ

pub record BinState : Type 0 where
  pub intent_seen : Bool
  pub validated_seen : Bool
  pub intent_first : Option FirstHit
  pub validated_first : Option FirstHit

abbrev pub new_bin : BinState
new_bin = record {
  intent_seen = false;
  validated_seen = false;
  intent_first = none;
  validated_first = none;
}

pub record CoverageCheckpoint : Type 0 where
  pub executed_instructions : ℕ
  pub cycle : ℕ
  pub l1_intent_count : ℕ
  pub l1_validated_count : ℕ
  pub l2_intent_count : ℕ
  pub l2_validated_count : ℕ

-- The states of the bins are lists in the order of the bins. `sunk` has what the sink was called
-- with, where there is one.
pub record CoverageCollector : Type 0 where
  pub checkpoint_interval : ℕ
  pub retain_checkpoints : Bool
  pub has_sink : Bool
  pub l1_state : List BinState
  pub l2_state : List BinState
  pub checkpoints : List CoverageCheckpoint
  pub sunk : List CoverageCheckpoint
  pub executed_instructions : ℕ
  pub last_instruction_id : ℕ

-- `CoverageCollector(…)`
unfoldable pub coverage_collector : ℤ → Bool → Bool → Outcome CoverageCollector
coverage_collector checkpoint_interval retain sink = do
  interval ← positive checkpoint_interval
  ok (record {
    checkpoint_interval = interval;
    retain_checkpoints = retain;
    has_sink = sink;
    l1_state = replicate 20 new_bin;
    l2_state = replicate 62 new_bin;
    checkpoints = [];
    sunk = [];
    executed_instructions = 0;
    last_instruction_id = 0;
  })

-- `_validate_hit_metadata`, with the hit that it lets through.
unfoldable pub validate_hit_metadata : ℤ → ℤ → ℤ → Outcome FirstHit
validate_hit_metadata instruction_id cycle wall_ns = do
  instruction_id ← positive instruction_id
  cycle ← natural cycle
  wall_ns ← natural wall_ns
  ok (record { instruction_id = instruction_id; cycle = cycle; wall_ns = wall_ns })

-- `_validate_l1_bin`: the position of "H01" to "H20", by their numbers.
unfoldable pub validate_l1_bin : ℕ → Outcome ℕ
validate_l1_bin bin_id = do require (leb 1 bin_id && leb bin_id 20) value_error; ok (bin_id - 1)

-- `_validate_l2_bin`, with the distances "d1" and "d2" as numbers.
unfoldable pub validate_l2_bin : ℕ → ℕ → Outcome ℕ
validate_l2_bin distance register = do
  require ((distance == 1) || (distance == 2)) value_error
  require (leb 1 register && leb register 31) value_error
  ok ((distance - 1) * 31 + (register - 1))

-- `_record_intent`
abbrev pub record_intent : FirstHit → BinState → Outcome BinState
record_intent hit state =
    if not state.intent_seen
    then ok (record state { intent_seen = true; intent_first = some hit })
    else ok state

-- `_record_validated`
abbrev pub record_validated : FirstHit → BinState → Outcome BinState
record_validated hit state =
    if not state.intent_seen
    then err value_error
    else if not state.validated_seen
    then ok (record state { validated_seen = true; validated_first = some hit })
    else ok state

-- A change of the bin at an index.
abbrev pub change_bin : ℕ → (BinState → Outcome BinState) → List BinState → Outcome (List BinState)
change_bin index change states = do
  state ← change (get_or states index new_bin)
  ok (set states index state)

-- The four methods that record a hit: the bin, then its metadata, then the change.
abbrev pub changed :
    Outcome ℕ
    → Outcome FirstHit
    → (FirstHit → BinState → Outcome BinState)
    → List BinState
    → Outcome (List BinState)
changed bin hit change states = do index ← bin; hit ← hit; change_bin index (change hit) states

abbrev pub with_l1 :
    Outcome (List BinState) → CoverageCollector → Outcome (Unit {0}) × CoverageCollector
with_l1 (err e) c = (err e, c)
with_l1 (ok states) c = (ok tt, record c { l1_state = states })

abbrev pub with_l2 :
    Outcome (List BinState) → CoverageCollector → Outcome (Unit {0}) × CoverageCollector
with_l2 (err e) c = (err e, c)
with_l2 (ok states) c = (ok tt, record c { l2_state = states })

unfoldable pub record_l1_intent :
    ℕ → ℤ → ℤ → ℤ → CoverageCollector → Outcome (Unit {0}) × CoverageCollector
record_l1_intent bin_id instruction_id cycle wall_ns c =
    with_l1
      (changed (validate_l1_bin bin_id) (validate_hit_metadata instruction_id cycle wall_ns)
        record_intent c.l1_state)
      c

unfoldable pub record_l1_validated :
    ℕ → ℤ → ℤ → ℤ → CoverageCollector → Outcome (Unit {0}) × CoverageCollector
record_l1_validated bin_id instruction_id cycle wall_ns c =
    with_l1
      (changed (validate_l1_bin bin_id) (validate_hit_metadata instruction_id cycle wall_ns)
        record_validated c.l1_state)
      c

unfoldable pub record_l2_intent :
    ℕ → ℕ → ℤ → ℤ → ℤ → CoverageCollector → Outcome (Unit {0}) × CoverageCollector
record_l2_intent distance register instruction_id cycle wall_ns c =
    with_l2
      (changed (validate_l2_bin distance register)
        (validate_hit_metadata instruction_id cycle wall_ns) record_intent c.l2_state)
      c

unfoldable pub record_l2_validated :
    ℕ → ℕ → ℤ → ℤ → ℤ → CoverageCollector → Outcome (Unit {0}) × CoverageCollector
record_l2_validated distance register instruction_id cycle wall_ns c =
    with_l2
      (changed (validate_l2_bin distance register)
        (validate_hit_metadata instruction_id cycle wall_ns) record_validated c.l2_state)
      c

abbrev pub count_seen : (BinState → Bool) → List BinState → ℕ
count_seen p [] = 0
count_seen p (state ∷ states) = int_of_bool (p state) + count_seen p states

abbrev pub checkpoint_of : ℕ → CoverageCollector → CoverageCheckpoint
checkpoint_of cycle c = record {
  executed_instructions = c.executed_instructions;
  cycle = cycle;
  l1_intent_count = count_seen (λ s. s.intent_seen) c.l1_state;
  l1_validated_count = count_seen (λ s. s.validated_seen) c.l1_state;
  l2_intent_count = count_seen (λ s. s.intent_seen) c.l2_state;
  l2_validated_count = count_seen (λ s. s.validated_seen) c.l2_state;
}

-- `_emit_checkpoint`
unfoldable pub emit_checkpoint : ℕ → CoverageCollector → CoverageCollector
emit_checkpoint cycle c = record c {
  checkpoints =
      if c.retain_checkpoints then c.checkpoints ++ checkpoint_of cycle c ∷ [] else c.checkpoints;
  sunk = if c.has_sink then c.sunk ++ checkpoint_of cycle c ∷ [] else c.sunk;
}

-- The end of `record_instruction`, once its identifier is the next one.
unfoldable pub count_instruction : ℕ → ℕ → CoverageCollector → CoverageCollector
unfolding emit_checkpoint
count_instruction instruction_id cycle c =
    let counted = record c {
      last_instruction_id = instruction_id;
      executed_instructions = c.executed_instructions + 1;
    } in
    if counted.executed_instructions % c.checkpoint_interval == 0
    then emit_checkpoint cycle counted
    else counted

-- The identifier and the cycle that `record_instruction` lets through.
abbrev pub next_instruction : ℤ → ℤ → CoverageCollector → Outcome (ℕ × ℕ)
next_instruction instruction_id cycle c = do
  instruction_id ← positive instruction_id
  cycle ← natural cycle
  raise_if (not (instruction_id == c.last_instruction_id + 1)) value_error
  ok (instruction_id, cycle)

unfoldable pub counted_at :
    Outcome (ℕ × ℕ) → CoverageCollector → Outcome (Unit {0}) × CoverageCollector
unfolding count_instruction
counted_at (err e) c = (err e, c)
counted_at (ok (instruction_id, cycle)) c = (ok tt, count_instruction instruction_id cycle c)

unfoldable pub record_instruction :
    ℤ → ℤ → CoverageCollector → Outcome (Unit {0}) × CoverageCollector
unfolding counted_at
record_instruction instruction_id cycle c = counted_at (next_instruction instruction_id cycle c) c
