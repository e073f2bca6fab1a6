-- ===== src/Retire/Performance/Order.antt =====
-- The order that the performance monitor enforces, and what one retirement adds.
use riscv_pipeline_research.Base.{
  ℕ, ◌+◌, ◌<◌, ◌≡◌, ◌≢◌, ◌⊎◌, refl, ap, ◌∙◌, arith, false, Option, none, some, List, [], ◌∷◌, ◌++◌,
  ok, err, protocol_error, ◌==◌, ==_iff, ==_ne, inl, inr, Bool-cases, length, lookup, has_key,
  insert-new, numbered, length-numbered, lookup-append_none, length-append,
}
use riscv_pipeline_research.Timing.{TimingExpectation}
use riscv_pipeline_research.Retire.{RetireEvent}
use riscv_pipeline_research.Retire.Performance.{
  PerformanceResult, PerformanceMonitor, observe_retire, compared, against,
}

-- The monitor after `n` retirements, with the expectations of those that are left.
pub record At (n : ℕ) (left : List TimingExpectation) (m : PerformanceMonitor) : Type 0 where
  pub expected : (k : ℕ) → n < k → lookup k m.expected_by_id ≡ lookup k (numbered (n + 1) left)
  pub fresh : (k : ℕ) → n < k → lookup k m.results_by_id ≡ none
  pub checked : length m.results_by_id ≡ n
  pub total : length m.expected_by_id ≡ n + length left
  pub last : m.last_observed_id ≡ n

pub start-At :
    (expectations : List TimingExpectation)
    → At 0 expectations (record {
      expected_by_id = numbered 1 expectations;
      results_by_id = [];
      last_observed_id = 0;
    })
start-At expectations = record {
  expected = λ k h. refl;
  fresh = λ k h. refl;
  checked = refl;
  total = length-numbered 1 expectations ∙ omega arith;
  last = refl;
}

pub observe_retire-next :
    (n : ℕ) (e : TimingExpectation) (left : List TimingExpectation) (m : PerformanceMonitor)
    (r : RetireEvent)
    → At n (e ∷ left) m
    → r.instruction_id ≡ n + 1
    → observe_retire r m ≡ (
      ok (compared r e),
      record m {
        results_by_id = m.results_by_id ++ (r.instruction_id, compared r e) ∷ [];
        last_observed_id = r.instruction_id;
      },
    )
unfolding observe_retire
observe_retire-next n e left m r at next =
    rw
      (
        found,
        fresh,
        (==_iff r.instruction_id (m.last_observed_id + 1)).1 (omega (arith, next, at.last)),
        insert-new r.instruction_id (compared r e) m.results_by_id fresh,
      )
      refl
  where
    found : lookup r.instruction_id m.expected_by_id ≡ some e
    found =
        at.expected r.instruction_id (omega (arith, next))
        ∙ rw (next, (==_iff (n + 1) (n + 1)).1 refl) refl

    fresh : lookup r.instruction_id m.results_by_id ≡ none
    fresh = at.fresh r.instruction_id (omega (arith, next))

pub next-At :
    (n : ℕ) (e : TimingExpectation) (left : List TimingExpectation) (m : PerformanceMonitor)
    (r : RetireEvent) (result : PerformanceResult)
    → At n (e ∷ left) m
    → r.instruction_id ≡ n + 1
    → At (n + 1) left (record m {
      results_by_id = m.results_by_id ++ (r.instruction_id, result) ∷ [];
      last_observed_id = r.instruction_id;
    })
next-At n e left m r result at next = record {
  expected =
      λ k h. at.expected k (omega (arith, h)) ∙ rw (==_ne k (n + 1) (inr (omega (arith, h)))) refl;
  fresh = λ k h.
      lookup-append_none k m.results_by_id _ (at.fresh k (omega (arith, h)))
      ∙ rw (==_ne k r.instruction_id (inr (omega (arith, h, next)))) refl;
  checked = length-append m.results_by_id _ ∙ omega (arith, at.checked);
  total = omega (arith, at.total);
  last = next;
}

same_differ : (a b : ℕ) → a ≡ b → (a == b) ≡ false → ⊥
same_differ a b h other = ground arith

refused :
    (found : Option TimingExpectation) (r : RetireEvent) (m : PerformanceMonitor)
    → (r.instruction_id ≢ m.last_observed_id + 1)
    → against found r m ≡ (err protocol_error, m)
refused none r m other = refl
refused (some e) r m other = elim (Bool-cases (has_key r.instruction_id m.results_by_id)) [
  | inl known ↦ rw known refl
  | inr new ↦ elim (Bool-cases (r.instruction_id == m.last_observed_id + 1)) [
    | inl same ↦ absurd (other ((==_iff _ _).0 same))
    | inr differ ↦ rw (new, differ) refl
  ]
]

-- After `n` retirements, the monitor answers any retirement but the next one with its protocol error
-- and stays as it was, and so does it with every retirement once none is expected.
pub observe_retire-order :
    (n : ℕ) (left : List TimingExpectation) (m : PerformanceMonitor) (r : RetireEvent)
    → At n left m
    → (r.instruction_id ≢ n + 1) ⊎ (left ≡ [])
    → observe_retire r m ≡ (err protocol_error, m)
unfolding observe_retire
observe_retire-order n left m r at (inl other) =
    refused (lookup r.instruction_id m.expected_by_id) r m (λ e. other (e ∙ omega (arith, at.last)))
observe_retire-order n left m r at (inr none_left) = elim (Bool-cases (r.instruction_id == n + 1)) [
  | inl next ↦ rw (missing ((==_iff _ _).0 next)) refl
  | inr other ↦
      refused (lookup r.instruction_id m.expected_by_id) r m
        (λ e. same_differ r.instruction_id (n + 1) (e ∙ omega (arith, at.last)) other)
]
  where
    missing : r.instruction_id ≡ n + 1 → lookup r.instruction_id m.expected_by_id ≡ none
    missing next =
        at.expected r.instruction_id (omega (arith, next))
        ∙ ap (λ (l : List TimingExpectation). lookup r.instruction_id (numbered (n + 1) l))
            none_left
