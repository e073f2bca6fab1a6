-- ===== src/HazardBins.antt =====
-- The H01-H20 classifier, `L1CoverageCollector` of research/week5/impl/l1_coverage.py.
pub mod History
pub mod Predicates
pub mod RawBins
pub mod Guards
pub mod Agreement
pub mod Order
pub mod Bins
pub mod Trace
use riscv_pipeline_research.Base.{
  ℕ, ◌+◌, ◌-◌, Bool, true, false, not, Option, none, some, List, [], ◌∷◌, ◌++◌, Outcome, ok, err,
  value_error, get_or, set, replicate, ◌==◌, if◌then◌else◌,
}
use riscv_pipeline_research.Event.{ExecutionEvent, contains}
use History.{L1Hit}
use Predicates.{
  h01, h02, h03, h04, h05, h06, h07, h08, h09, h10, h11, h12, h13, h14, h15, h16, h17, h18, h19,
  h20,
}

-- `history` holds at most the last three events, the latest first; the dictionaries are lists in the
-- order of the bins.
pub record Classifier : Type 0 where
  pub intent_seen : List Bool
  pub intent_hit_count : List ℕ
  pub history : List ExecutionEvent
  pub last_instruction_index : ℕ

-- `__init__`, and `reset`, which assigns the same values.
abbrev pub new_classifier : Classifier
new_classifier = record {
  intent_seen = replicate 20 false;
  intent_hit_count = replicate 20 0;
  history = [];
  last_instruction_index = 0;
}

-- The tests of `observe`, in order.
unfoldable pub candidates : List ExecutionEvent → ExecutionEvent → List (Option L1Hit)
candidates history event =
    h01 history event
    ∷ h02 history event
    ∷ h03 history event
    ∷ h04 history event
    ∷ h05 history event
    ∷ h06 history event
    ∷ h07 history event
    ∷ h08 history event
    ∷ h09 history event
    ∷ h10 history event
    ∷ h11 history event
    ∷ h12 history event
    ∷ h13 history event
    ∷ h14 history event
    ∷ h15 history event
    ∷ h16 history event
    ∷ h17 history event
    ∷ h18 history event
    ∷ h19 history event
    ∷ h20 history event
    ∷ []

unfoldable pub count_hit : ℕ → Classifier → Classifier
count_hit bin_id c = record c {
  intent_hit_count =
      set c.intent_hit_count (bin_id - 1) (get_or c.intent_hit_count (bin_id - 1) 0 + 1);
  intent_seen = set c.intent_seen (bin_id - 1) true;
}

-- `add_hit` for each test that passes; `emitted` is the set of the same name.
unfoldable pub add_hits :
    List (Option L1Hit) → List ℕ → List L1Hit → Classifier → List L1Hit × Classifier
add_hits [] emitted hits c = (hits, c)
add_hits (none ∷ tests) emitted hits c = add_hits tests emitted hits c
add_hits (some hit ∷ tests) emitted hits c = elim (contains emitted hit.bin_id) [
  | true ↦ add_hits tests emitted hits c
  | false ↦ add_hits tests (hit.bin_id ∷ emitted) (hits ++ hit ∷ []) (count_hit hit.bin_id c)
]

-- `deque(maxlen=3).append`
abbrev pub remember : ExecutionEvent → List ExecutionEvent → List ExecutionEvent
remember event [] = event ∷ []
remember event (a ∷ []) = event ∷ a ∷ []
remember event (a ∷ b ∷ _) = event ∷ a ∷ b ∷ []

unfoldable pub observe : ExecutionEvent → Classifier → Outcome (List L1Hit) × Classifier
observe event c =
    if not (event.instruction_index == c.last_instruction_index + 1)
    then (err value_error, c)
    else let (hits, c') = add_hits (candidates c.history event) [] [] c in
      (
        ok hits,
        record c' {
          history = remember event c'.history;
          last_instruction_index = event.instruction_index;
        },
      )
