-- ===== src/Adaptive/Policy/Dual.antt =====
-- The choice of two registers by register_policy.py.
use riscv_pipeline_research.Base.{ℕ, ◌<◌, ◌≤◌, ◌≡◌, ◌≢◌, Option, none, some, List, [], ◌∷◌, All}
use riscv_pipeline_research.Adaptive.Policy.{Best, score}

abbrev IsPositive : ℕ → Type 0
IsPositive r = (1 ≤ r) × (r < 32)

module _ (f g : List ℕ) where
  -- A pair of different registers with a score.
  abbrev Scores : ℕ → ℕ × ℕ → Type 0
  Scores n p =
      (score f g p.0 p.1 ≡ n) × (p.0 ≢ p.1) × (1 ≤ p.0) × (p.0 < 32) × (1 ≤ p.1) × (p.1 < 32)

  -- All the pairs have the score, and there is one if there is a score.
  abbrev IsBest : Option ℕ → List (ℕ × ℕ) → Type 0
  IsBest none pairs = pairs ≡ []
  IsBest (some n) [] = ⊥
  IsBest (some n) (p ∷ pairs) = All (Scores n) (p ∷ pairs)

  -- No lower score than that of the pair.
  abbrev Dominates : Option ℕ → ℕ → ℕ → Type 0
  Dominates none r s = r ≡ s
  Dominates (some n) r s = r ≢ s → score f g r s ≤ n

  -- A later state of the loops: as good, and not worse than before.
  record Later (o : Option ℕ) (best : Best) : Type 0 where
    valid : IsBest best.best_score best.best_pairs
    grows : (a b : ℕ) → Dominates o a b → Dominates best.best_score a b
