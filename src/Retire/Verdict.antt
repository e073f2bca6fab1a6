-- ===== src/Retire/Verdict.antt =====
-- The two verdicts on an instruction together, research/week8/cross_verdict.py.
use riscv_pipeline_research.Base.{
  ℕ, ◌≡◌, ◌≢◌, ◌↔◌, refl, arith, Bool, true, false, not, ◌&&◌, List, [], ◌∷◌, map, ℤ, pos, Outcome,
  ok, err, protocol_error, ◌==◌, ==_iff, if◌then◌else◌, inl, inr, Bool-cases,
}
use riscv_pipeline_research.Scoreboard.{CheckName}
use riscv_pipeline_research.Retire.Functional
use riscv_pipeline_research.Retire.Functional.{
  FunctionalCheck, FunctionalResult, failed_checks, failing, check_passed, all_passed,
}
use riscv_pipeline_research.Retire.Performance
use riscv_pipeline_research.Retire.Performance.{PerformanceResult}

pub data CrossVerdictClass : Type 0 where
  correct_on_time functional_only_fail performance_only_fail functional_and_performance_fail :
      CrossVerdictClass

pub record CrossVerdict : Type 0 where
  pub instruction_id : ℕ
  pub functional_pass : Bool
  pub performance_pass : Bool
  pub classification : CrossVerdictClass
  pub functional_failed_checks : List CheckName
  pub timing_delta_cycles : ℤ

-- `CrossVerdict.overall_pass`
unfoldable pub overall_pass : CrossVerdict → Bool
overall_pass v = v.functional_pass && v.performance_pass

abbrev pub classify : Bool → Bool → CrossVerdictClass
classify functional_pass performance_pass =
    if functional_pass && performance_pass
    then CrossVerdictClass.correct_on_time
    else if not functional_pass && performance_pass
    then CrossVerdictClass.functional_only_fail
    else if functional_pass && not performance_pass
    then CrossVerdictClass.performance_only_fail
    else CrossVerdictClass.functional_and_performance_fail

-- The verdict that is returned for two results of one instruction.
abbrev combined : FunctionalResult → PerformanceResult → CrossVerdict
combined functional performance = record {
  instruction_id = functional.instruction_id;
  functional_pass = Functional.passed functional;
  performance_pass = Performance.passed performance;
  classification = classify (Functional.passed functional) (Performance.passed performance);
  functional_failed_checks = map (λ check. check.name) (failed_checks functional);
  timing_delta_cycles = performance.delta_cycles;
}

unfoldable pub combine_verdicts : FunctionalResult → PerformanceResult → Outcome CrossVerdict
combine_verdicts functional performance =
    if not (functional.instruction_id == performance.instruction_id)
    then err protocol_error
    else ok (combined functional performance)

-- What a class says of the two verdicts.
abbrev pub Says : CrossVerdictClass → Bool → Bool → Type 0
Says CrossVerdictClass.correct_on_time f p = (f ≡ true) × (p ≡ true)
Says CrossVerdictClass.functional_only_fail f p = (f ≡ false) × (p ≡ true)
Says CrossVerdictClass.performance_only_fail f p = (f ≡ true) × (p ≡ false)
Says CrossVerdictClass.functional_and_performance_fail f p = (f ≡ false) × (p ≡ false)

classify-Says : (f p : Bool) → Says (classify f p) f p
classify-Says true true = (refl, refl)
classify-Says true false = (refl, refl)
classify-Says false true = (refl, refl)
classify-Says false false = (refl, refl)

failing-nil : (checks : List FunctionalCheck) → (all_passed checks ≡ true) ↔ (failing checks ≡ [])
failing-nil [] = (λ _. refl, λ _. refl)
failing-nil (check ∷ checks) = elim (Bool-cases (check_passed check)) [
  | inl good ↦ rw good (failing-nil checks)
  | inr bad ↦ rw bad (λ h. cc, λ h. cc)
]

names-nil :
    (checks : List FunctionalCheck)
    → (map (λ (check : FunctionalCheck). check.name) checks ≡ []) ↔ (checks ≡ [])
names-nil [] = (λ _. refl, λ _. refl)
names-nil (check ∷ checks) = (λ h. cc, λ h. cc)

is_zero_iff : (z : ℤ) → (z ≡ pos 0) ↔ (Performance.is_zero z ≡ true)
is_zero_iff z = ground arith

both_iff : (f p : Bool) → ((f && p) ≡ true) ↔ (classify f p ≡ CrossVerdictClass.correct_on_time)
both_iff true true = (λ _. refl, λ _. refl)
both_iff true false = (λ h. cc, λ h. cc)
both_iff false true = (λ h. cc, λ h. cc)
both_iff false false = (λ h. cc, λ h. cc)

pub record IsVerdict (f : FunctionalResult) (p : PerformanceResult) (v : CrossVerdict)
    : Type 0 where
  pub says : Says v.classification (Functional.passed f) (Performance.passed p)
  pub no_name : (v.functional_failed_checks ≡ []) ↔ (Functional.passed f ≡ true)
  pub zero_delta : (v.timing_delta_cycles ≡ pos 0) ↔ (Performance.passed p ≡ true)
  pub both : (overall_pass v ≡ true) ↔ (v.classification ≡ CrossVerdictClass.correct_on_time)

-- Two results for different instructions are a protocol error. Two results for the same instruction
-- make one verdict, whose class names which of the two failed; it lists a failed check exactly if the
-- functional one failed, its delta is zero exactly if the timing passed, and it passes overall
-- exactly in the class of correct and timely instructions.
pub combine_verdicts-IsVerdict :
    (f : FunctionalResult) (p : PerformanceResult)
    → ((f.instruction_id ≢ p.instruction_id) → combine_verdicts f p ≡ err protocol_error)
      × (f.instruction_id ≡ p.instruction_id
          → (v : CrossVerdict) × (combine_verdicts f p ≡ ok v) × IsVerdict f p v)
unfolding combine_verdicts failed_checks overall_pass Functional.passed Performance.passed
combine_verdicts-IsVerdict f p = (
  λ differ. elim (Bool-cases (f.instruction_id == p.instruction_id)) [
    | inl same ↦ absurd (differ ((==_iff _ _).0 same))
    | inr other ↦ rw other refl
  ],
  λ same. (
    combined f p,
    rw ((==_iff _ _).1 same) refl,
    record {
      says = classify-Says (Functional.passed f) (Performance.passed p);
      no_name = (
        λ h. (failing-nil f.checks).1 ((names-nil (failing f.checks)).0 h),
        λ h. (names-nil (failing f.checks)).1 ((failing-nil f.checks).0 h),
      );
      zero_delta = is_zero_iff p.delta_cycles;
      both = both_iff (Functional.passed f) (Performance.passed p);
    },
  ),
)
