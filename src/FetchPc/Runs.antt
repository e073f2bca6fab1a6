-- ===== src/FetchPc/Runs.antt =====
-- The wrapped oracle against the base class, over single steps and over
-- runs.
use native.Mathlib.Nat.{mod-eq_of_lt, mod-lt, one-le-pow, pow-le-pow_right}
use riscv_pipeline_research.Base.{
  ℕ, ◌+◌, ◌≤◌, ◌<◌, ◌%◌, ◌^◌, ◌≡◌, refl, ap, sym, ◌∙◌, arith, true, List, [], ◌∷◌, Outcome, ok, err,
  bit_and-low_mask, ◌==◌, Bool-cases, Error, inl, inr, All, ==_iff, Outcome-cases, subst,
}
use riscv_pipeline_research.Event.{ExecutionEvent}
use riscv_pipeline_research.Machine
use riscv_pipeline_research.Machine.{Machine, ArchitecturalStep, commit}
use riscv_pipeline_research.Machine.Execute.{execute}
use riscv_pipeline_research.Machine.Invariant.{IsMachine, step-IsMachine, step_atomic}
use riscv_pipeline_research.FetchPc.{WrapAwareMachine, normalize_fetch_pc, finish, step}

-- A width that the constructor accepts, a machine of the base class, and an expected PC of that width.
pub record IsWrapAware (w : WrapAwareMachine) : Type 0 where
  pub machine : IsMachine w.machine
  pub wide : (0 < w.physical_pc_width) × (w.physical_pc_width ≤ 32)
  pub pc : w.machine.expected_pc < 2 ^ w.physical_pc_width

normalize_fetch_pc_mod :
    (w : WrapAwareMachine) (pc : ℕ) → normalize_fetch_pc w pc ≡ pc % 2 ^ w.physical_pc_width
unfolding normalize_fetch_pc
normalize_fetch_pc_mod w pc = bit_and-low_mask w.physical_pc_width pc

normalize_fetch_pc-lt :
    (w : WrapAwareMachine) (pc : ℕ) → normalize_fetch_pc w pc < 2 ^ w.physical_pc_width
normalize_fetch_pc-lt w pc =
    rw (normalize_fetch_pc_mod w pc) (mod-lt pc (one-le-pow w.physical_pc_width 2 (omega arith)))

-- Two machines that differ in the expected PC alone.
pub record Agrees (m n : Machine) : Type 0 where
  pub registers : m.registers ≡ n.registers
  pub memory : m.memory ≡ n.memory
  pub counter : m.last_instruction_index ≡ n.last_instruction_index

Agrees-trans : {l m n : Machine} → Agrees l m → Agrees m n → Agrees l n
Agrees-trans a b = record {
  registers = a.registers ∙ b.registers;
  memory = a.memory ∙ b.memory;
  counter = a.counter ∙ b.counter;
}

-- Nothing that a step leaves but the expected PC depends on the expected PC.
expected_pc-Agrees :
    (event : ExecutionEvent) (n : Machine) (pc : ℕ)
    → Agrees (Machine.step event (record n { expected_pc = pc })).1 (Machine.step event n).1
unfolding Machine.step commit
expected_pc-Agrees event n pc =
    elim (Bool-cases (event.instruction_index == n.last_instruction_index + 1)) [
      | inl next ↦ elim (Outcome-cases (execute event n.registers n.memory)) [
        | inl (done, ran) ↦
            rw (next, ran) (record { registers = refl; memory = refl; counter = refl })
        | inr (e, raises) ↦
            rw (next, raises) (record { registers = refl; memory = refl; counter = refl })
      ]
      | inr gap ↦ rw gap (record { registers = refl; memory = refl; counter = refl })
    ]

step-Agrees :
    (event : ExecutionEvent) (m n : Machine)
    → Agrees m n
    → Agrees (Machine.step event m).1 (Machine.step event n).1
step-Agrees event m n a =
    subst (λ (x : Machine). Agrees (Machine.step event x).1 (Machine.step event n).1) (sym same)
      (expected_pc-Agrees event n m.expected_pc)
  where
    same : m ≡ record n { expected_pc = m.expected_pc }
    same = λ i. record {
      registers = a.registers i;
      memory = a.memory i;
      expected_pc = m.expected_pc;
      last_instruction_index = a.counter i;
    }

finish-Agrees :
    (w : WrapAwareMachine) (r : Outcome ArchitecturalStep × Machine)
    → Agrees (finish w r).1.machine r.1
unfolding finish
finish-Agrees w (err e, m) = record { registers = refl; memory = refl; counter = refl }
finish-Agrees w (ok report, m) = record { registers = refl; memory = refl; counter = refl }

step-normalized :
    (event : ExecutionEvent) (w : WrapAwareMachine)
    → event.pc < 2 ^ w.physical_pc_width
    → step event w ≡ finish w (Machine.step event w.machine)
unfolding step
step-normalized event w fits = rw in_range refl
  where
    in_range : (event.pc == normalize_fetch_pc w event.pc) ≡ true
    in_range = (==_iff _ _).1 (sym (normalize_fetch_pc_mod w event.pc ∙ mod-eq_of_lt fits))

finish-width :
    (w : WrapAwareMachine) (r : Outcome ArchitecturalStep × Machine)
    → (finish w r).1.physical_pc_width ≡ w.physical_pc_width
unfolding finish
finish-width w (err e, m) = refl
finish-width w (ok report, m) = refl

-- Both oracles over a list of events.
abbrev pub run : List ExecutionEvent → WrapAwareMachine → WrapAwareMachine
run [] w = w
run (event ∷ events) w = run events (step event w).1

abbrev pub base_run : List ExecutionEvent → Machine → Machine
base_run [] m = m
base_run (event ∷ events) m = base_run events (Machine.step event m).1

-- On events whose PCs fit the width, the wrapped oracle computes the registers, the memory and the
-- counter of the base class, also where its fetch PC has wrapped: only the expected PC may differ.
pub run-Agrees :
    (events : List ExecutionEvent) (w : WrapAwareMachine) (m : Machine)
    → All (λ (e : ExecutionEvent). e.pc < 2 ^ w.physical_pc_width) events
    → Agrees w.machine m
    → Agrees (run events w).machine (base_run events m)
run-Agrees [] w m fit a = a
run-Agrees (event ∷ events) w m fit a =
    run-Agrees events (step event w).1 (Machine.step event m).1
      (subst (λ (k : ℕ). All (λ (e : ExecutionEvent). e.pc < 2 ^ k) events)
        (sym (
          ap (λ (r : Outcome ArchitecturalStep × WrapAwareMachine). r.1.physical_pc_width) normal
          ∙ finish-width w (Machine.step event w.machine)))
        fit.1)
      (Agrees-trans
        (subst
          (λ (r : Outcome ArchitecturalStep × WrapAwareMachine).
            Agrees r.1.machine (Machine.step event w.machine).1)
          (sym normal) (finish-Agrees w (Machine.step event w.machine)))
        (step-Agrees event w.machine m a))
  where
    normal : step event w ≡ finish w (Machine.step event w.machine)
    normal = step-normalized event w fit.0

power_fits : (k : ℕ) → k ≤ 32 → 2 ^ k ≤ 2 ^ 32
power_fits k h = pow-le-pow_right (omega arith) h

finish-IsWrapAware :
    (w : WrapAwareMachine) (r : Outcome ArchitecturalStep × Machine)
    → IsWrapAware w
    → IsMachine r.1
    → ((e : Error) → r.0 ≡ err e → r.1 ≡ w.machine)
    → IsWrapAware (finish w r).1
unfolding finish
finish-IsWrapAware w (err e, m) h valid kept = record {
  machine = valid;
  wide = h.wide;
  pc = subst (λ (x : Machine). x.expected_pc < 2 ^ w.physical_pc_width) (sym (kept e refl)) h.pc;
}
finish-IsWrapAware w (ok report, m) h valid kept = record {
  machine = record {
    registers = valid.registers;
    memory = valid.memory;
    pc =
        omega
          (arith, normalize_fetch_pc-lt w report.next_pc, power_fits w.physical_pc_width h.wide.1);
  };
  wide = h.wide;
  pc = normalize_fetch_pc-lt w report.next_pc;
}

-- A step, also one that raises, keeps the machine well formed and the expected PC within the width.
pub step-IsWrapAware :
    (event : ExecutionEvent) (w : WrapAwareMachine) → IsWrapAware w → IsWrapAware (step event w).1
unfolding step
step-IsWrapAware event w h = elim (Bool-cases (event.pc == normalize_fetch_pc w event.pc)) [
  | inl fits ↦ rw fits (
      finish-IsWrapAware w (Machine.step event w.machine) h
        (step-IsMachine event w.machine h.machine) (λ e. step_atomic event w.machine))
  | inr outside ↦ rw outside h
]
