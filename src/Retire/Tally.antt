-- ===== src/Retire/Tally.antt =====
-- The step of a proof that counts verdicts: a count that is `n + 1` after one more verdict was `n`
-- before it, and the verdict was a pass.
use riscv_pipeline_research.Base.{
  ℕ, ◌+◌, ◌≤◌, ◌≡◌, ◌↔◌, refl, arith, Bool, true, false, int_of_bool,
}

pub one_more :
    (p n : ℕ) (v : Bool) {P Q R : Type 0}
    → p ≤ n
    → ((v ≡ true) ↔ P)
    → (R ↔ ((p + int_of_bool v ≡ n + 1) × Q))
    → R ↔ ((p ≡ n) × (P × Q))
one_more p n true le iff rest = (
  λ r. (omega (arith, (rest.0 r).0), (iff.0 refl, (rest.0 r).1)),
  λ h. rest.1 (omega (arith, h.0), h.1.1),
)
one_more p n false le iff rest =
    (λ r. absurd (omega (arith, (rest.0 r).0, le)), λ h. absurd (false_absurd (iff.1 h.1.0)))
  where
    false_absurd : false ≡ true → ⊥
    false_absurd h = cc
