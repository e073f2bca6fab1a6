-- ===== src/Adaptive/Policy/Single.antt =====
-- The choice of one register by register_policy.py.
use riscv_pipeline_research.Base.{
  ℕ, zero, suc, ◌+◌, ◌<◌, ◌≤◌, ◌≡◌, refl, arith, true, false, List, [], ◌∷◌, Outcome, ok, All,
  Bool-cases, ==_iff, ◌==◌, subst, sym, inl, inr,
}
use riscv_pipeline_research.Event.{contains}
use riscv_pipeline_research.Adaptive.Templates.{Distance}
use riscv_pipeline_research.Adaptive.Policy.{
  registers_from, positive_registers, CoverageState, covered, without, uncovered, select_single,
  Chooses,
}

pub registers_from-All :
    (start n : ℕ) (P : ℕ → Type 0)
    → ((r : ℕ) → start ≤ r → r < start + n → P r)
    → All P (registers_from start n)
registers_from-All start zero P h = tt
registers_from-All start (suc n) P h = (
  h start (omega arith) (omega arith),
  registers_from-All (suc start) n P (λ r low high. h r (omega arith) (omega arith)),
)

pub registers_from-member :
    (start n : ℕ) (P : ℕ → Type 0) (r : ℕ)
    → All P (registers_from start n)
    → start ≤ r
    → r < start + n
    → P r
registers_from-member start zero P r h low high = absurd (omega arith)
registers_from-member start (suc n) P r h low high = elim (Bool-cases (r == start)) [
  | inl first ↦ subst P (sym ((==_iff r start).0 first)) h.0
  | inr later ↦
      registers_from-member (suc start) n P r h.1 (ground (arith, ==_iff r start)) (omega arith)
]

-- What is left of a sequence is not in the set, and nothing is left only if all is in it.
without-All :
    (P : ℕ → Type 0) (rs registers : List ℕ)
    → All P rs
    → All (λ r. P r × (contains registers r ≡ false)) (without rs registers)
without-All P [] registers h = tt
without-All P (r ∷ rs) registers h = elim (Bool-cases (contains registers r)) [
  | inl old ↦ rw old (without-All P rs registers h.1)
  | inr new ↦ rw new ((h.0, new), without-All P rs registers h.1)
]

without-empty :
    (rs registers : List ℕ) → without rs registers ≡ [] → All (λ r. contains registers r ≡ true) rs
without-empty [] registers h = tt
without-empty (r ∷ rs) registers h = elim (Bool-cases (contains registers r)) [
  | inl old ↦ (old, without-empty rs registers (rw old at h))
  | inr new ↦ cc (rw new at h)
]

-- The register that is chosen for a distance is x1 to x31, and it is one that is not covered yet
-- if there is any, for every choice that returns an element of the sequence it is given.
pub select_single-uncovered :
    (choice : (A : Type 0) → List A → Outcome A) (state : CoverageState) (distance : Distance)
    (registers : List ℕ)
    → Chooses choice
    → covered state distance ≡ ok registers
    → (r : ℕ) × (select_single choice distance state ≡ ok r)
      × (1 ≤ r)
      × (r ≤ 31)
      × ((s : ℕ) → 1 ≤ s → s ≤ 31 → contains registers s ≡ false → contains registers r ≡ false)
unfolding select_single uncovered
select_single-uncovered choice state distance registers chooses scalar =
    rw scalar (by_free (without positive_registers registers) refl)
  where
    InRange : ℕ → Type 0
    InRange r = (1 ≤ r) × (r < 32)

    all_in_range : All InRange positive_registers
    all_in_range = registers_from-All 1 31 InRange (λ r low high. (low, high))

    by_free :
        (free : List ℕ)
        → without positive_registers registers ≡ free
        → (r : ℕ) × ((elim free as (λ _. Outcome ℕ) [
          | [] ↦ choice ℕ positive_registers
          | r ∷ rs ↦ choice ℕ (r ∷ rs)
        ])
            ≡ ok r)
          × (1 ≤ r)
          × (r ≤ 31)
          × ((s : ℕ) → 1 ≤ s → s ≤ 31 → contains registers s ≡ false → contains registers r ≡ false)
    by_free [] none_free =
        let (r, chosen, holds) = chooses ℕ 1 (registers_from 2 30) in
        let in_range = holds InRange all_in_range in
        (
          r,
          chosen,
          in_range.0,
          omega (arith, in_range.1),
          λ s low high new. cc (
              registers_from-member 1 31 (λ r. contains registers r ≡ true) s
                (without-empty positive_registers registers none_free) low (omega arith)),
        )
    by_free (x ∷ xs) some_free =
        let (r, chosen, holds) = chooses ℕ x xs in
        let free =
          holds (λ r. InRange r × (contains registers r ≡ false))
            (subst (All _) some_free
              (without-All InRange positive_registers registers all_in_range)) in
        (r, chosen, free.0.0, omega (arith, free.0.1), λ s low high new. free.1)
