-- ===== src/Retire/Functional/Stream.antt =====
-- The functional scoreboard over a whole run: every instruction is seen in stage C before it retires
-- from D, and several may be between the two.
use riscv_pipeline_research.Base.{
  ℕ, suc, ◌+◌, ◌≤◌, ◌<◌, ◌≡◌, refl, ap, ◌∙◌, arith, true, none, List, [], ◌∷◌, ◌++◌, map, pos,
  Outcome, ok, err, ==_iff, ==_ne, inr, length, lookup, erase, has_key, is_some, int_of_bool,
  insert-new, numbered, lookup-numbered_beyond, has_key-numbered, numbered-append,
  lookup-append_none, length-append,
}
use riscv_pipeline_research.Word.{mask32}
use riscv_pipeline_research.Machine.{ArchitecturalStep}
use riscv_pipeline_research.Scoreboard.{StoreObservation}
use riscv_pipeline_research.Retire.{RetireEvent}
use riscv_pipeline_research.Retire.Expected.{ExpectedRetire, from_architectural_step}
use riscv_pipeline_research.Retire.Functional.{
  FunctionalResult, FunctionalScoreboard, observe_store_stage, observe_retire, passed, passes,
}
use riscv_pipeline_research.Retire.Functional.Checks.{IsRight, Judged, observe_retire-Judged}

-- What a run shows the scoreboard.
pub data Observation : Type 0 where
  in_c : StoreObservation → Observation
  in_d : RetireEvent → ℕ → Observation

abbrev pub observe : Observation → FunctionalScoreboard → Outcome (Unit {0}) × FunctionalScoreboard
observe (in_c o) b = observe_store_stage o b
observe (in_d r x0) b =
    let (answer, b') = observe_retire r (pos x0) b in
    (elim answer [ err e ↦ err e | ok result ↦ ok tt ], b')

-- A run stops at the first exception.
abbrev pub observe_all : List Observation → FunctionalScoreboard → Outcome FunctionalScoreboard
observe_all [] b = ok b
observe_all (x ∷ xs) b = elim (observe x b).0 [
  | err e ↦ err e
  | ok _ ↦ observe_all xs (observe x b).1
]

pub observe_all-cons :
    (x : Observation) (xs : List Observation) (b b' : FunctionalScoreboard)
    → observe x b ≡ (ok tt, b')
    → observe_all (x ∷ xs) b ≡ observe_all xs b'
observe_all-cons x xs b b' h = ap (λ r. go r) h
  where
    go : Outcome (Unit {0}) × FunctionalScoreboard → Outcome FunctionalScoreboard
    go r = elim r.0 [ err e ↦ err e | ok _ ↦ observe_all xs r.1 ]

-- A run from the point where `n` instructions have retired and the observations `waiting` are of
-- those between C and D: each of the steps left enters C and then retires, both in order.
abbrev pub IsOrderly :
    ℕ → List ArchitecturalStep → List StoreObservation → List Observation → Type 0
IsOrderly n steps waiting (in_c o ∷ xs) =
    (o.instruction_index ≡ n + 1 + length waiting)
    × (length waiting < length steps)
    × IsOrderly n steps (waiting ++ o ∷ []) xs
IsOrderly n [] [] [] = Unit {0}
IsOrderly n [] (o ∷ waiting) [] = ⊥
IsOrderly n (s ∷ steps) waiting [] = ⊥
IsOrderly n [] waiting (in_d r x0 ∷ xs) = ⊥
IsOrderly n (s ∷ steps) [] (in_d r x0 ∷ xs) = ⊥
IsOrderly n (s ∷ steps) (o ∷ waiting) (in_d r x0 ∷ xs) =
    (r.instruction_id ≡ n + 1) × (x0 ≤ mask32) × IsOrderly (n + 1) steps waiting xs

-- The same run, with every retirement right for its step.
abbrev pub IsRightRun : List ArchitecturalStep → List StoreObservation → List Observation → Type 0
IsRightRun steps waiting [] = Unit {0}
IsRightRun steps waiting (in_c o ∷ xs) = IsRightRun steps (waiting ++ o ∷ []) xs
IsRightRun [] waiting (in_d r x0 ∷ xs) = ⊥
IsRightRun (s ∷ steps) [] (in_d r x0 ∷ xs) = ⊥
IsRightRun (s ∷ steps) (o ∷ waiting) (in_d r x0 ∷ xs) =
    IsRight s r o x0 × IsRightRun steps waiting xs

abbrev pub log_of : List ArchitecturalStep → List ExpectedRetire
log_of steps = map from_architectural_step steps

-- The state of the scoreboard in the middle of an orderly run.
pub record At (n : ℕ) (steps : List ArchitecturalStep) (waiting : List StoreObservation)
    (b : FunctionalScoreboard) : Type 0 where
  pub expected :
      (k : ℕ) → n < k → lookup k b.expected_by_id ≡ lookup k (numbered (n + 1) (log_of steps))
  pub stores : b.store_by_id ≡ numbered (n + 1) waiting
  pub fresh : (k : ℕ) → n < k → lookup k b.results_by_id ≡ none
  pub checked : length b.results_by_id ≡ n
  pub total : length b.expected_by_id ≡ n + length steps

pub length-log_of : (steps : List ArchitecturalStep) → length (log_of steps) ≡ length steps
length-log_of [] = refl
length-log_of (s ∷ steps) = ap suc (length-log_of steps)

observe_store_stage-new :
    (o : StoreObservation) (b : FunctionalScoreboard)
    → has_key o.instruction_index b.expected_by_id ≡ true
    → lookup o.instruction_index b.store_by_id ≡ none
    → observe_store_stage o b
      ≡ (ok tt, record b { store_by_id = b.store_by_id ++ (o.instruction_index, o) ∷ [] })
unfolding observe_store_stage
observe_store_stage-new o b known new =
    rw (known, new, insert-new o.instruction_index o b.store_by_id new) refl

pub enter :
    (n : ℕ) (steps : List ArchitecturalStep) (waiting : List StoreObservation)
    (o : StoreObservation) (b : FunctionalScoreboard)
    → At n steps waiting b
    → o.instruction_index ≡ n + 1 + length waiting
    → length waiting < length steps
    → observe (in_c o) b ≡ (ok tt, record b { store_by_id = numbered (n + 1) (waiting ++ o ∷ []) })
enter n steps waiting o b at next space =
    observe_store_stage-new o b
      (ap is_some (at.expected o.instruction_index (omega (arith, next)))
        ∙ has_key-numbered (n + 1) o.instruction_index (log_of steps) (omega (arith, next))
            (omega (arith, next, length-log_of steps, space)))
      (ap (lookup o.instruction_index) at.stores
        ∙ lookup-numbered_beyond (n + 1) o.instruction_index waiting (omega (arith, next)))
    ∙ ap (λ stores. (ok tt, record b { store_by_id = stores }))
        (ap (◌++ (o.instruction_index, o) ∷ []) at.stores
          ∙ ap (λ k. numbered (n + 1) waiting ++ (k, o) ∷ []) next
          ∙ numbered-append (n + 1) waiting o)

pub enter-At :
    (n : ℕ) (steps : List ArchitecturalStep) (waiting : List StoreObservation)
    (o : StoreObservation) (b : FunctionalScoreboard)
    → At n steps waiting b
    → At n steps
        (waiting ++ o ∷ [])
        (record b { store_by_id = numbered (n + 1) (waiting ++ o ∷ []) })
enter-At n steps waiting o b at = record {
  expected = at.expected;
  stores = refl;
  fresh = at.fresh;
  checked = at.checked;
  total = at.total;
}

pub retired :
    (n : ℕ) (s : ArchitecturalStep) (steps : List ArchitecturalStep) (o : StoreObservation)
    (waiting : List StoreObservation) (r : RetireEvent) (x0 : ℕ) (b : FunctionalScoreboard)
    → At n (s ∷ steps) (o ∷ waiting) b
    → r.instruction_id ≡ n + 1
    → x0 ≤ mask32
    → Judged s r o x0 b
retired n s steps o waiting r x0 b at next small =
    observe_retire-Judged s r o x0 b small
      (at.expected r.instruction_id (omega (arith, next))
        ∙ rw (next, (==_iff (n + 1) (n + 1)).1 refl) refl)
      (rw (at.stores, next, (==_iff (n + 1) (n + 1)).1 refl) refl)
      (rw (at.fresh r.instruction_id (omega (arith, next))) refl)

pub retired-At :
    (n : ℕ) (s : ArchitecturalStep) (steps : List ArchitecturalStep) (o : StoreObservation)
    (waiting : List StoreObservation) (r : RetireEvent) (result : FunctionalResult)
    (b : FunctionalScoreboard)
    → At n (s ∷ steps) (o ∷ waiting) b
    → r.instruction_id ≡ n + 1
    → At (n + 1) steps waiting (record b {
      store_by_id = erase r.instruction_id b.store_by_id;
      results_by_id = b.results_by_id ++ (r.instruction_id, result) ∷ [];
    })
retired-At n s steps o waiting r result b at next = record {
  expected =
      λ k h. at.expected k (omega (arith, h)) ∙ rw (==_ne k (n + 1) (inr (omega (arith, h)))) refl;
  stores = rw (at.stores, next, (==_iff (n + 1) (n + 1)).1 refl) refl;
  fresh = λ k h.
      lookup-append_none k b.results_by_id _ (at.fresh k (omega (arith, h)))
      ∙ rw (==_ne k r.instruction_id (inr (omega (arith, h, next)))) refl;
  checked = length-append b.results_by_id _ ∙ omega (arith, at.checked);
  total = omega (arith, at.total);
}

pub passes-append :
    (rs : List (ℕ × FunctionalResult)) (k : ℕ) (result : FunctionalResult)
    → passes (rs ++ (k, result) ∷ []) ≡ passes rs + int_of_bool (passed result)
passes-append [] k result = omega arith
passes-append (x ∷ rs) k result = omega (arith, passes-append rs k result)

pub passes-le : (rs : List (ℕ × FunctionalResult)) → passes rs ≤ length rs
passes-le [] = omega arith
passes-le (x ∷ rs) = ground (arith, passes-le rs)
