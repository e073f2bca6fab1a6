-- ===== src/Retire/Functional/Checks.antt =====
-- What it means that the functional scoreboard passes an instruction, against the specification of
-- the scoreboard of research/week5.
use riscv_pipeline_research.Base.{
  ℕ, ◌≤◌, ◌≡◌, ◌↔◌, refl, arith, Bool, true, false, ◌&&◌, Option, none, some, List, [], ◌∷◌, ◌++◌,
  pos, Outcome, ok, bit_and, bit_and-low_mask, lookup, insert, erase, has_key,
}
use riscv_pipeline_research.Word.{mask32}
use riscv_pipeline_research.Event.{bounded}
use riscv_pipeline_research.Machine.{ArchitecturalStep, ExpectedRegisterWrite}
use riscv_pipeline_research.Machine.Execute.{ExpectedStore}
use riscv_pipeline_research.Scoreboard.{StoreObservation, WritebackObservation, CheckName}
use riscv_pipeline_research.Scoreboard.Verdicts.{SameWrite, SameStore}
use riscv_pipeline_research.Retire.{RetireEvent}
use riscv_pipeline_research.Retire.Expected.{from_architectural_step}
use riscv_pipeline_research.Retire.Functional.{
  FunctionalCheck, FunctionalResult, FunctionalScoreboard, check_passed, passed, all_passed,
  write_checks, store_checks, retire_checks, observe_retire, check,
}

-- The retirement as an observation of the write-back stage.
abbrev pub writeback_of : RetireEvent → WritebackObservation
writeback_of r = record {
  instruction_index = r.instruction_id;
  write_enable = r.regwrite;
  rd = r.rd;
  word = r.wdata;
  instruction = none;
}

-- What a retirement must show of a step.
abbrev pub IsRight : ArchitecturalStep → RetireEvent → StoreObservation → ℕ → Type 0
IsRight s r o x0 = SameWrite s.register_write (writeback_of r) × SameStore s.store o × (x0 ≡ 0)

-- The checks that an outcome holds, and what it means that they pass.
abbrev Judges : Outcome (List FunctionalCheck) → Type 0 → Type 0
Judges o P = (checks : List FunctionalCheck) × (o ≡ ok checks) × ((all_passed checks ≡ true) ↔ P)

write_checks-Judges :
    (s : ArchitecturalStep) (r : RetireEvent)
    → Judges
        (write_checks (from_architectural_step s) r)
        (SameWrite s.register_write (writeback_of r))
unfolding write_checks from_architectural_step check_passed
write_checks-Judges s r = by_write s.register_write
  where
    by_write :
        (w : Option ExpectedRegisterWrite)
        → Judges
            (write_checks (from_architectural_step (record s { register_write = w })) r)
            (SameWrite w (writeback_of r))
    by_write none = (_, refl, ground arith)
    by_write (some w) =
        (_, refl, ground (arith, bit_and-low_mask 32 w.value, bit_and-low_mask 32 r.wdata))

store_checks-Judges :
    (s : ArchitecturalStep) (o : StoreObservation)
    → Judges (store_checks (from_architectural_step s) o) (SameStore s.store o)
unfolding store_checks from_architectural_step check_passed
store_checks-Judges s o = by_store s.store
  where
    by_store :
        (x : Option ExpectedStore)
        → Judges (store_checks (from_architectural_step (record s { store = x })) o) (SameStore x o)
    by_store none = (_, refl, ground arith)
    by_store (some x) =
        (_, refl, ground (arith, bit_and-low_mask 32 x.word, bit_and-low_mask 32 o.word))

all_passed-append :
    (xs ys : List FunctionalCheck) → all_passed (xs ++ ys) ≡ (all_passed xs && all_passed ys)
all_passed-append [] ys = refl
all_passed-append (x ∷ xs) ys = ground (arith, all_passed-append xs ys)

three_iff :
    (a b c : Bool) {P Q R : Type 0}
    → ((a ≡ true) ↔ P)
    → ((b ≡ true) ↔ Q)
    → ((c ≡ true) ↔ R)
    → (((a && b) && c) ≡ true) ↔ (P × Q × R)
three_iff true true c p q r = (λ h. (p.0 refl, q.0 refl, r.0 h), λ h. r.1 h.2)
three_iff true false c p q r = (λ h. cc, λ h. q.1 h.1)
three_iff false b c p q r = (λ h. cc, λ h. p.1 h.0)

joined_iff :
    (a b c : List FunctionalCheck) {P Q R : Type 0}
    → ((all_passed a ≡ true) ↔ P)
    → ((all_passed b ≡ true) ↔ Q)
    → ((all_passed c ≡ true) ↔ R)
    → (all_passed (a ++ b ++ c) ≡ true) ↔ (P × Q × R)
joined_iff a b c p q r =
    rw (all_passed-append (a ++ b) c, all_passed-append a b)
      (three_iff (all_passed a) (all_passed b) (all_passed c) p q r)

x0_check-passed :
    (x0 : ℕ)
    → x0 ≤ mask32
    → (all_passed (check CheckName.architectural_x0 0 (bit_and x0 mask32) ∷ []) ≡ true) ↔ (x0 ≡ 0)
unfolding check_passed
x0_check-passed x0 h = ground (arith, bit_and-low_mask 32 x0)

pub retire_checks-Judges :
    (s : ArchitecturalStep) (r : RetireEvent) (o : StoreObservation) (x0 : ℕ)
    → x0 ≤ mask32
    → Judges (retire_checks (from_architectural_step s) r o x0) (IsRight s r o x0)
retire_checks-Judges s r o x0 h =
    let (writes, w, iff_w) = write_checks-Judges s r in
    let (stores, t, iff_t) = store_checks-Judges s o in
    let x0_check = check CheckName.architectural_x0 0 (bit_and x0 mask32) ∷ [] in
    (
      writes ++ stores ++ x0_check,
      rw (w, t) refl,
      joined_iff writes stores x0_check iff_w iff_t (x0_check-passed x0 h),
    )

bounded-ok : (high n : ℕ) → n ≤ high → bounded 0 high (pos n) ≡ ok n
bounded-ok high n h = ground arith

-- What `observe_retire` does for an instruction whose expectation and store observation are there.
pub record Judged (s : ArchitecturalStep) (r : RetireEvent) (o : StoreObservation) (x0 : ℕ)
    (b : FunctionalScoreboard) : Type 0 where
  pub result : FunctionalResult
  pub runs : observe_retire r (pos x0) b ≡ (
    ok result,
    record b {
      store_by_id = erase r.instruction_id b.store_by_id;
      results_by_id = insert r.instruction_id result b.results_by_id;
    },
  )
  pub named : result.instruction_id ≡ r.instruction_id
  pub verdict : (passed result ≡ true) ↔ IsRight s r o x0

-- A retirement whose expectation was taken from a step of the oracle, whose store observation is
-- there and which has no result yet raises nothing; it uses up the store observation and notes a
-- result, which passes exactly if the retirement shows the register write and the store of the step,
-- by the specification of the scoreboard of research/week5, and x0 is zero.
pub observe_retire-Judged :
    (s : ArchitecturalStep) (r : RetireEvent) (o : StoreObservation) (x0 : ℕ)
    (b : FunctionalScoreboard)
    → x0 ≤ mask32
    → lookup r.instruction_id b.expected_by_id ≡ some (from_architectural_step s)
    → lookup r.instruction_id b.store_by_id ≡ some o
    → has_key r.instruction_id b.results_by_id ≡ false
    → Judged s r o x0 b
unfolding observe_retire passed
observe_retire-Judged s r o x0 b h x q fresh =
    let (checks, runs, verdict) = retire_checks-Judges s r o x0 h in
    record {
      result = record { instruction_id = r.instruction_id; checks = checks };
      runs = rw (observe_retire, bounded-ok mask32 x0 h, x, q, fresh, runs) refl;
      named = refl;
      verdict = verdict;
    }
