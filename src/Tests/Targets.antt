-- ===== src/Tests/Targets.antt =====
-- The target policy with a choice that takes the first element.
use riscv_pipeline_research.Base.{
  ℕ, ◌≤◌, ◌≡◌, refl, false, List, [], ◌∷◌, Outcome, ok, err, runtime_error,
}
use riscv_pipeline_research.Event.{contains}
use riscv_pipeline_research.Adaptive.Templates.{Distance}
use riscv_pipeline_research.Adaptive.Policy.{CoverageState, covered, select_single, Chooses}
use riscv_pipeline_research.Adaptive.Policy.Single.{select_single-uncovered}

abbrev first : (A : Type 0) → List A → Outcome A
first A [] = err runtime_error
first A (x ∷ xs) = ok x

first-Chooses : Chooses first
first-Chooses A x xs = (x, refl, λ P h. h.0)

-- x1 and x2 are covered at distance 1.
abbrev state : CoverageState
state = record { d1_covered = 1 ∷ 2 ∷ []; d2_covered = [] }

d1-covered : covered state Distance.d1 ≡ ok (1 ∷ 2 ∷ [])
unfolding covered
d1-covered = refl

select_single-uncovered_example :
    (r : ℕ) × (select_single first Distance.d1 state ≡ ok r)
    × (1 ≤ r)
    × (r ≤ 31)
    × ((s : ℕ) → 1 ≤ s → s ≤ 31 → contains (1 ∷ 2 ∷ []) s ≡ false → contains (1 ∷ 2 ∷ []) r ≡ false)
select_single-uncovered_example =
    select_single-uncovered first state Distance.d1 (1 ∷ 2 ∷ []) first-Chooses d1-covered
