-- ===== src/Timing/Rounds.antt =====
-- One round of the timing oracle's loop: what it computes, and that it does not fail.
use riscv_pipeline_research.Base.{
  ℕ, ◌+◌, ◌≤◌, ◌<◌, ◌≡◌, ◌≢◌, refl, ap, ◌∙◌, arith, Bool, false, Option, none, some, Outcome-cases,
  ok, err, Error, inl, inr,
}
use riscv_pipeline_research.Word.{mask32}
use riscv_pipeline_research.Isa.{DecodedInstruction}
use riscv_pipeline_research.Event.{ExecutionEvent, execution_event, check_reg}
use riscv_pipeline_research.Machine
use riscv_pipeline_research.Machine.{Machine, ArchitecturalStep, commit}
use riscv_pipeline_research.Machine.Execute.{execute}
use riscv_pipeline_research.Timing.{
  Producer, Forward, TimingExpectation, Scheduler, new_scheduler, producer_of, cycle_age,
  is_load_use, stall_for, bubbles_for, note_writer, event_arguments, forward_for_age,
  decode_checked, round_decoded,
}
use riscv_pipeline_research.Timing.Decoded.{decode_checked-IsRunnable, decode_checked-operands}

-- The identifiers follow the model's counter, and every noted writer was accepted before the next
-- instruction can be.
pub record InStep (s : Scheduler) : Type 0 where
  pub counted : s.instruction_id ≡ s.model.last_instruction_index + 1
  pub earlier :
      (r : ℕ) (p : Producer) → s.last_writer r ≡ some p → p.accept_cycle < s.next_accept_cycle

pub new_scheduler-InStep : InStep new_scheduler
new_scheduler-InStep = record { counted = refl; earlier = λ r p h. cc }

-- The times that a round writes down.
pub record Timed (s : Scheduler) (e : TimingExpectation) (s' : Scheduler) : Type 0 where
  pub numbered : e.instruction_id ≡ s.instruction_id
  pub placed : e.pc ≡ s.pc
  pub accepted : e.accept_cycle ≡ s.next_accept_cycle + e.stall_cycles_before_accept
  pub short_stall : e.stall_cycles_before_accept ≤ 1
  pub retired : e.retire_cycle ≡ e.accept_cycle + 3
  pub bubbles : e.redirect_bubbles ≡ bubbles_for e.redirect
  pub next_cycle : s'.next_accept_cycle ≡ e.accept_cycle + 1 + e.redirect_bubbles
  pub next_id : s'.instruction_id ≡ s.instruction_id + 1

pub round_decoded-Timed :
    (w : ℕ) (decoded : DecodedInstruction) (s s' : Scheduler) (e : TimingExpectation)
    → round_decoded w decoded s ≡ ok (e, s')
    → Timed s e s'
unfolding round_decoded
round_decoded-Timed w decoded s s' e h = record {
  numbered = ground arith;
  placed = ground arith;
  accepted = ground arith;
  short_stall = ground arith;
  retired = ground arith;
  bubbles = ground arith;
  next_cycle = ground arith;
  next_id = ground arith;
}

IsEarlier : ℕ → Option Producer → Type 0
IsEarlier cycle o = (p : Producer) → o ≡ some p → p.accept_cycle < cycle

forward_for_age-total :
    (cycle : ℕ) (o : Option Producer)
    → IsEarlier cycle o
    → (f : Forward) × (forward_for_age (cycle_age cycle o) ≡ ok f)
unfolding forward_for_age IsEarlier
forward_for_age-total cycle none h = (Forward.register_file, refl)
forward_for_age-total cycle (some p) h =
    elim (Outcome-cases (forward_for_age (cycle_age cycle (some p)))) [
      | inl found ↦ found
      | inr (e, raises) ↦ ground (arith, h p refl)
    ]

load_waits :
    (cycle : ℕ) (a b : Option Producer)
    → IsEarlier cycle a
    → IsEarlier cycle b
    → (is_load_use (cycle + stall_for cycle a b) a ≡ false)
      × (is_load_use (cycle + stall_for cycle a b) b ≡ false)
unfolding IsEarlier
load_waits cycle none none ha hb = (refl, refl)
load_waits cycle none (some q) ha hb = ground (arith, hb q refl)
load_waits cycle (some p) none ha hb = ground (arith, ha p refl)
load_waits cycle (some p) (some q) ha hb = ground (arith, ha p refl, hb q refl)

round_decoded-last_writer :
    (w : ℕ) (decoded : DecodedInstruction) (s s' : Scheduler) (e : TimingExpectation)
    → round_decoded w decoded s ≡ ok (e, s')
    → (r : ℕ)
    → s'.last_writer r ≡ note_writer s.instruction_id e.accept_cycle decoded s.last_writer r
unfolding round_decoded
round_decoded-last_writer w decoded s s' e h r = ground arith

-- A model that reports a step has counted it.
step-counts :
    (event : ExecutionEvent) (m : Machine) (report : ArchitecturalStep)
    → (Machine.step event m).0 ≡ ok report
    → (Machine.step event m).1.last_instruction_index ≡ event.instruction_index
unfolding Machine.step commit
step-counts event m report h = ground arith

pub execution_event-keeps :
    (w : ℕ) (decoded : DecodedInstruction) (s : Scheduler) (accept : ℕ) (event : ExecutionEvent)
    → execution_event (event_arguments s.instruction_id accept s.pc w decoded) ≡ ok event
    → (event.instruction_index ≡ s.instruction_id) × (event.pc ≡ s.pc) × (event.instruction ≡ w)
unfolding execution_event
execution_event-keeps w decoded s accept event h = ground arith

-- The event and the report behind a round.
pub round_decoded-stepped :
    (w : ℕ) (decoded : DecodedInstruction) (s s' : Scheduler) (e : TimingExpectation)
    → round_decoded w decoded s ≡ ok (e, s')
    → (event : ExecutionEvent) × (report : ArchitecturalStep) × (execution_event
          (event_arguments s.instruction_id e.accept_cycle s.pc w decoded)
        ≡ ok event)
      × ((Machine.step event s.model).0 ≡ ok report)
      × (s'.model ≡ (Machine.step event s.model).1)
      × (s'.pc ≡ s'.model.expected_pc)
unfolding round_decoded
round_decoded-stepped w decoded s s' e h =
    elim (Outcome-cases
      (execution_event (event_arguments s.instruction_id accept s.pc w decoded))) [
        | inl (event, made) ↦ elim (Outcome-cases (Machine.step event s.model).0) [
          | inl (report, stepped) ↦
              (event, report, ground arith, stepped, ground arith, ground arith)
          | inr (x, raises) ↦ ground arith
        ]
        | inr (x, raises) ↦ ground arith
      ]
  where
    accept : ℕ
    accept =
        s.next_accept_cycle
        + stall_for s.next_accept_cycle (producer_of s decoded.uses_rs1 decoded.rs1)
            (producer_of s decoded.uses_rs2 decoded.rs2)

pub round_decoded-InStep :
    (w : ℕ) (decoded : DecodedInstruction) (s s' : Scheduler) (e : TimingExpectation)
    → InStep s
    → round_decoded w decoded s ≡ ok (e, s')
    → InStep s'
round_decoded-InStep w decoded s s' e i h =
    let t = round_decoded-Timed w decoded s s' e h in
    let (event, report, made, stepped, model, at) = round_decoded-stepped w decoded s s' e h in
    record {
      counted = omega (
        arith,
        t.next_id,
        ap (λ (m : Machine). m.last_instruction_index) model,
        step-counts event s.model report stepped,
        (execution_event-keeps w decoded s e.accept_cycle event made).0,
      );
      earlier = λ r p found. ground (
        arith,
        t.accepted,
        t.next_cycle,
        found,
        round_decoded-last_writer w decoded s s' e h r,
        i.earlier r p,
      );
    }

producer_of-IsEarlier :
    (s : Scheduler) (uses : Bool) (r : ℕ)
    → InStep s
    → IsEarlier s.next_accept_cycle (producer_of s uses r)
unfolding IsEarlier
producer_of-IsEarlier s uses r i p found = ground (arith, i.earlier r p)

later-IsEarlier : (c k : ℕ) (o : Option Producer) → IsEarlier c o → IsEarlier (c + k) o
unfolding IsEarlier
later-IsEarlier c k o h p found = omega (arith, h p found)

-- The constructor accepts the event of a decoded instruction inside the nine-bit window.
execution_event-total :
    (w : ℕ) (decoded : DecodedInstruction) (s : Scheduler) (accept : ℕ)
    → 0 < s.instruction_id
    → s.pc ≤ 0x1ff
    → w ≤ mask32
    → (decoded.rd ≤ 31) × (decoded.rs1 ≤ 31) × (decoded.rs2 ≤ 31)
    → (event : ExecutionEvent) × (execution_event
          (event_arguments s.instruction_id accept s.pc w decoded)
        ≡ ok event)
unfolding execution_event check_reg
execution_event-total w decoded s accept id_fits pc_fits w_fits regs =
    elim (Outcome-cases
      (execution_event (event_arguments s.instruction_id accept s.pc w decoded))) [
        | inl made ↦ made
        | inr (x, raises) ↦ ground (arith, regs.0, regs.1, regs.2)
      ]

step-total :
    (event : ExecutionEvent) (m : Machine)
    → event.instruction_index ≡ m.last_instruction_index + 1
    → ((e : Error) → execute event m.registers m.memory ≢ err e)
    → (report : ArchitecturalStep) × ((Machine.step event m).0 ≡ ok report)
unfolding Machine.step
step-total event m next runs = elim (Outcome-cases (Machine.step event m).0) [
  | inl found ↦ found
  | inr (x, raises) ↦ elim (Outcome-cases (execute event m.registers m.memory)) [
    | inl (done, ran) ↦ ground arith
    | inr (y, stops) ↦ absurd (runs y stops)
  ]
]

-- A round on an instruction that is decoded and in the window does not fail.
pub round_decoded-total :
    (w : ℕ) (decoded : DecodedInstruction) (s : Scheduler)
    → InStep s
    → s.pc ≤ 0x1ff
    → decode_checked w ≡ ok decoded
    → (e : TimingExpectation) × (s' : Scheduler) × (round_decoded w decoded s ≡ ok (e, s'))
unfolding round_decoded
round_decoded-total w decoded s i fits reads = elim (Outcome-cases (round_decoded w decoded s)) [
  | inl ((e, s'), made) ↦ (e, s', made)
  | inr (x, raises) ↦ ground (
    arith,
    forward_for_age-total accept a (later-IsEarlier _ _ a earlier_a),
    forward_for_age-total accept b (later-IsEarlier _ _ b earlier_b),
    load_waits s.next_accept_cycle a b earlier_a earlier_b,
    event.1,
    report.1,
  )
]
  where
    a : Option Producer
    a = producer_of s decoded.uses_rs1 decoded.rs1

    b : Option Producer
    b = producer_of s decoded.uses_rs2 decoded.rs2

    earlier_a : IsEarlier s.next_accept_cycle a
    earlier_a = producer_of-IsEarlier s decoded.uses_rs1 decoded.rs1 i

    earlier_b : IsEarlier s.next_accept_cycle b
    earlier_b = producer_of-IsEarlier s decoded.uses_rs2 decoded.rs2 i

    accept : ℕ
    accept = s.next_accept_cycle + stall_for s.next_accept_cycle a b

    event :
        (x : ExecutionEvent) × (execution_event
            (event_arguments s.instruction_id accept s.pc w decoded)
          ≡ ok x)
    event =
        execution_event-total w decoded s accept (omega (arith, i.counted)) fits
          (decode_checked-operands w decoded reads).0 (decode_checked-operands w decoded reads).1

    kept :
        (event.0.instruction_index ≡ s.instruction_id)
        × (event.0.pc ≡ s.pc)
        × (event.0.instruction ≡ w)
    kept = execution_event-keeps w decoded s accept event.0 event.1

    report : (x : ArchitecturalStep) × ((Machine.step event.0 s.model).0 ≡ ok x)
    report =
        step-total event.0 s.model (kept.0 ∙ i.counted)
          (decode_checked-IsRunnable event.0 s.model.registers s.model.memory decoded
            (ap decode_checked kept.2 ∙ reads)).executes
