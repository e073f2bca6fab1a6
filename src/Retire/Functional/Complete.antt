-- ===== src/Retire/Functional/Complete.antt =====
-- An orderly run of the functional scoreboard raises nothing, judges every instruction and counts no
-- failure exactly if every retirement is right.
use riscv_pipeline_research.Base.{
  ℕ, ◌+◌, ◌≡◌, ◌↔◌, refl, ap, ◌∙◌, arith, true, List, [], ◌∷◌, ◌++◌, Outcome, ok, err, ==_iff,
  length, erase, insert-new, numbered, length-numbered,
}
use riscv_pipeline_research.Machine.{ArchitecturalStep}
use riscv_pipeline_research.Scoreboard.{StoreObservation}
use riscv_pipeline_research.Retire.{RetireEvent}
use riscv_pipeline_research.Retire.Expected.{ExpectedRetire}
use riscv_pipeline_research.Retire.Tally.{one_more}
use riscv_pipeline_research.Retire.Contiguous.{IsNumbered, indexed-numbered}
use riscv_pipeline_research.Retire.Functional.{
  FunctionalScoreboard, functional_scoreboard, passed, passes, complete, checked_count,
  expected_count, failed_count, passed_count,
}
use riscv_pipeline_research.Retire.Functional.Checks.{Judged}
use riscv_pipeline_research.Retire.Functional.Stream.{
  Observation, in_c, in_d, observe, observe_all, observe_all-cons, IsOrderly, IsRightRun, log_of,
  length-log_of, At, enter, enter-At, retired, retired-At, passes-append, passes-le,
}

-- How a run ends.
abbrev Ends :
    ℕ
    → List ArchitecturalStep
    → List StoreObservation
    → List Observation
    → FunctionalScoreboard
    → Type 0
Ends n steps waiting xs b =
    (b' : FunctionalScoreboard) × (observe_all xs b ≡ ok b')
    × (complete b' ≡ true)
    × ((passes b'.results_by_id ≡ length b'.results_by_id)
        ↔ ((passes b.results_by_id ≡ n) × IsRightRun steps waiting xs))

retire_runs :
    (n : ℕ) (s : ArchitecturalStep) (steps : List ArchitecturalStep) (o : StoreObservation)
    (waiting : List StoreObservation) (r : RetireEvent) (x0 : ℕ) (b : FunctionalScoreboard)
    → At n (s ∷ steps) (o ∷ waiting) b
    → r.instruction_id ≡ n + 1
    → (j : Judged s r o x0 b)
    → observe (in_d r x0) b ≡ (
      ok tt,
      record b {
        store_by_id = erase r.instruction_id b.store_by_id;
        results_by_id = b.results_by_id ++ (r.instruction_id, j.result) ∷ [];
      },
    )
retire_runs n s steps o waiting r x0 b at next j =
    ap (λ a. (elim a.0 as (λ _. Outcome (Unit {0})) [ err e ↦ err e | ok result ↦ ok tt ], a.1))
      j.runs
    ∙ rw
        (insert-new r.instruction_id j.result b.results_by_id
          (at.fresh r.instruction_id (omega (arith, next))))
        refl

observe_all-Ends :
    (n : ℕ) (steps : List ArchitecturalStep) (waiting : List StoreObservation)
    (xs : List Observation) (b : FunctionalScoreboard)
    → At n steps waiting b
    → IsOrderly n steps waiting xs
    → Ends n steps waiting xs b
unfolding complete checked_count expected_count
observe_all-Ends n steps waiting (in_c o ∷ xs) b at orderly =
    let (b', runs, done, right) =
      observe_all-Ends n steps (waiting ++ o ∷ []) xs _ (enter-At n steps waiting o b at)
        orderly.2 in
    (
      b',
      observe_all-cons (in_c o) xs b _ (enter n steps waiting o b at orderly.0 orderly.1) ∙ runs,
      done,
      right,
    )
observe_all-Ends n [] [] [] b at orderly =
    (b, refl, (==_iff _ _).1 (omega (arith, at.checked, at.total)), counted at)
  where
    counted :
        At n [] [] b
        → (passes b.results_by_id ≡ length b.results_by_id)
          ↔ ((passes b.results_by_id ≡ n) × Unit {0})
    counted at = (λ h. (omega (arith, h, at.checked), tt), λ h. omega (arith, h.0, at.checked))
observe_all-Ends n [] (o ∷ waiting) [] b at orderly = absurd orderly
observe_all-Ends n (s ∷ steps) waiting [] b at orderly = absurd orderly
observe_all-Ends n [] waiting (in_d r x0 ∷ xs) b at orderly = absurd orderly
observe_all-Ends n (s ∷ steps) [] (in_d r x0 ∷ xs) b at orderly = absurd orderly
observe_all-Ends n (s ∷ steps) (o ∷ waiting) (in_d r x0 ∷ xs) b at orderly =
    let j = retired n s steps o waiting r x0 b at orderly.0 orderly.1 in
    let (b', runs, done, right) =
      observe_all-Ends (n + 1) steps waiting xs _
        (retired-At n s steps o waiting r j.result b at orderly.0) orderly.2 in
    (
      b',
      observe_all-cons (in_d r x0) xs b _ (retire_runs n s steps o waiting r x0 b at orderly.0 j)
          ∙ runs,
      done,
      one_more (passes b.results_by_id) n (passed j.result)
          (omega (arith, passes-le b.results_by_id, at.checked)) j.verdict
          (rw (passes-append b.results_by_id r.instruction_id j.result) at right),
    )

-- A scoreboard that is built from the steps of a run, numbered from 1, and sees every instruction in
-- stage C and then at its retirement, both in program order and with any number of instructions
-- between the two, raises no exception; at the end it has judged all of them, and it has counted no
-- failure exactly if every retirement was right for its step: the register write, the store and x0.
pub functional_scoreboard-completes :
    (steps : List ArchitecturalStep) (xs : List Observation)
    → IsNumbered (λ (x : ExpectedRetire). x.instruction_id) 1 (log_of steps)
    → IsOrderly 0 steps [] xs
    → (b : FunctionalScoreboard) × (b' : FunctionalScoreboard) × (functional_scoreboard
          (log_of steps)
        ≡ ok b)
      × (observe_all xs b ≡ ok b')
      × (complete b' ≡ true)
      × ((failed_count b' ≡ 0) ↔ IsRightRun steps [] xs)
unfolding functional_scoreboard failed_count checked_count passed_count
functional_scoreboard-completes steps xs numbers orderly =
    let b : FunctionalScoreboard = record {
      expected_by_id = numbered 1 (log_of steps);
      store_by_id = [];
      results_by_id = [];
    } in
    let (b', runs, done, right) =
      observe_all-Ends 0 steps [] xs b
        (record {
          expected = λ k h. refl;
          stores = refl;
          fresh = λ k h. refl;
          checked = refl;
          total = length-numbered 1 (log_of steps) ∙ length-log_of steps ∙ omega arith;
        })
        orderly in
    (
      b,
      b',
      rw (indexed-numbered (λ (x : ExpectedRetire). x.instruction_id) (log_of steps) numbers) refl,
      runs,
      done,
      (
        λ none_failed. (right.0 (omega (arith, passes-le b'.results_by_id, none_failed))).1,
        λ all_right. omega (arith, right.1 (refl, all_right)),
      ),
    )
