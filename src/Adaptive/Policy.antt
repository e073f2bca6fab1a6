-- ===== src/Adaptive/Policy.antt =====
-- The choice of target registers, research/week10/adaptive/register_policy.py. `Random.choice` is a
-- parameter: one call, on a sequence that is not empty.
pub mod Single
pub mod Dual
use riscv_pipeline_research.Base.{
  pos, ℕ, zero, suc, ◌+◌, ◌≡◌, Bool, true, false, not, ◌&&◌, ◌||◌, Option, none, some, List, [],
  ◌∷◌, ◌++◌, ℤ, Outcome, ok, err, value_error, runtime_error, require, raise_if, ◌>>=◌, ◌>>◌, All,
  ltb, leb, int_of_bool, ◌==◌, if◌then◌else◌,
}
use riscv_pipeline_research.Event.{bounded, contains}
use riscv_pipeline_research.Adaptive.Templates.{ArmId, Distance, get_template}
use riscv_pipeline_research.Adaptive.Reward.{TargetSelection, is_positive_register}

-- `range(start, start + n)`
abbrev pub registers_from : ℕ → ℕ → List ℕ
registers_from start zero = []
registers_from start (suc n) = start ∷ registers_from (suc start) n

abbrev pub positive_registers : List ℕ
positive_registers = registers_from 1 31

pub record CoverageState : Type 0 where
  pub d1_covered : List ℕ
  pub d2_covered : List ℕ

abbrev pub all_positive : List ℕ → Bool
all_positive [] = true
all_positive (r ∷ registers) = is_positive_register r && all_positive registers

-- `L2IntentCoverageState(…)` with its `__post_init__`.
unfoldable pub coverage_state : List ℕ → List ℕ → Outcome CoverageState
coverage_state d1_covered d2_covered = do
  require (all_positive d1_covered) value_error
  require (all_positive d2_covered) value_error
  ok (record { d1_covered = d1_covered; d2_covered = d2_covered })

unfoldable pub covered : CoverageState → Distance → Outcome (List ℕ)
covered state Distance.d1 = ok state.d1_covered
covered state Distance.d2 = ok state.d2_covered
covered state Distance.d1_d2 = err value_error

-- The registers of a sequence that are not in a set.
abbrev pub without : List ℕ → List ℕ → List ℕ
without [] registers = []
without (r ∷ rs) registers =
    if contains registers r then without rs registers else r ∷ without rs registers

unfoldable pub uncovered : CoverageState → Distance → Outcome (List ℕ)
uncovered state distance = do
  registers ← covered state distance
  ok (without positive_registers registers)

unfoldable pub is_covered : CoverageState → Distance → ℕ → Outcome Bool
is_covered state distance register = do
  require (is_positive_register register) value_error
  registers ← covered state distance
  ok (contains registers register)

abbrev pub optional_register : Option ℤ → Outcome (Option ℕ)
optional_register none = ok none
optional_register (some z) = do r ← bounded 1 31 z; ok (some r)

abbrev pub are_equal : Option ℕ → Option ℕ → Bool
are_equal (some r) (some s) = r == s
are_equal _ _ = false

-- `TargetSelection(…)` with its `__post_init__`.
unfoldable pub target_selection : Option ℤ → Option ℤ → Outcome TargetSelection
target_selection d1 d2 = do
  r ← optional_register d1
  s ← optional_register d2
  raise_if (are_equal r s) value_error
  ok (record { d1 = r; d2 = s })

-- The two variables of the loops of `_select_dual`; the score -1 before the first pair is `none`.
pub record Best : Type 0 where
  pub best_score : Option ℕ
  pub best_pairs : List (ℕ × ℕ)

-- The score of a pair, over the uncovered registers at the two distances.
abbrev pub score : List ℕ → List ℕ → ℕ → ℕ → ℕ
score uncovered_d1 uncovered_d2 d1_register d2_register =
    int_of_bool (contains uncovered_d1 d1_register)
    + int_of_bool (contains uncovered_d2 d2_register)

-- The comparisons with the best score.
abbrev pub improve : ℕ → ℕ × ℕ → Option ℕ → List (ℕ × ℕ) → Best
improve n pair none pairs = record { best_score = some n; best_pairs = pair ∷ [] }
improve n pair (some best) pairs =
    if ltb best n
    then record { best_score = some n; best_pairs = pair ∷ [] }
    else if n == best
    then record { best_score = some best; best_pairs = pairs ++ pair ∷ [] }
    else record { best_score = some best; best_pairs = pairs }

module _ (uncovered_d1 uncovered_d2 : List ℕ) where
  -- The body of the inner loop.
  abbrev pub consider : ℕ → ℕ → Best → Best
  consider r s best =
      if r == s
      then best
      else improve (score uncovered_d1 uncovered_d2 r s) (r, s) best.best_score best.best_pairs

  unfoldable pub inner : ℕ → List ℕ → Best → Best
  inner r [] best = best
  inner r (s ∷ registers) best = inner r registers (consider r s best)

  unfoldable pub outer : List ℕ → List ℕ → Best → Best
  outer [] seconds best = best
  outer (r ∷ registers) seconds best = outer registers seconds (inner r seconds best)

module _ (choice : (A : Type 0) → List A → Outcome A) where
  unfoldable pub select_single : Distance → CoverageState → Outcome ℕ
  select_single distance state = do
    free ← uncovered state distance
    elim free [ [] ↦ choice ℕ positive_registers | r ∷ rs ↦ choice ℕ (r ∷ rs) ]

  -- The end of `_select_dual`.
  abbrev pub pick : List (ℕ × ℕ) → Outcome TargetSelection
  pick [] = err runtime_error
  pick (p ∷ ps) = do
    pair ← choice (ℕ × ℕ) (p ∷ ps)
    target_selection (some (pos pair.0)) (some (pos pair.1))

  unfoldable pub select_dual : CoverageState → Outcome TargetSelection
  select_dual state = do
    free_d1 ← uncovered state Distance.d1
    free_d2 ← uncovered state Distance.d2
    pick
        (outer free_d1 free_d2 positive_registers positive_registers
          (record { best_score = none; best_pairs = [] })).best_pairs

  unfoldable pub select : ArmId → CoverageState → Outcome TargetSelection
  select arm_id state = elim (get_template arm_id).distance [
    | Distance.d1 ↦ (do r ← select_single Distance.d1 state; target_selection (some (pos r)) none)
    | Distance.d2 ↦ (do r ← select_single Distance.d2 state; target_selection none (some (pos r)))
    | Distance.d1_d2 ↦ select_dual state
  ]

-- What `Random.choice` does: on a sequence that is not empty, it returns one of its elements, so
-- that whatever holds of them all holds of the element.
abbrev pub Chooses : ((A : Type 0) → List A → Outcome A) → Type 1
Chooses choice =
    (A : Type 0) (x : A) (xs : List A)
    → (c : A) × (choice A (x ∷ xs) ≡ ok c) × ((P : A → Type 0) → All P (x ∷ xs) → P c)
