-- ===== src/Timing/Schedule.antt =====
-- Whole schedules of timing_oracle_v1.py: their times, and how the loop ends.
use riscv_pipeline_research.Base.{
  ℕ, zero, suc, ◌+◌, ◌≤◌, ◌<◌, ◌≡◌, ◌≢◌, refl, subst, arith, none, some, List, [], ◌∷◌,
  Option-cases, Outcome, Outcome-cases, ok, err, program_error, ltb, length, inl, inr, Bool-cases,
}
use riscv_pipeline_research.Isa.{DecodedInstruction}
use riscv_pipeline_research.Timing.{
  TimingExpectation, Scheduler, new_scheduler, bubbles_for, decode_checked, round, round_decoded,
  run, Program, word_at, total_stall_cycles, total_redirect_bubbles, drain_cycle, schedule_from,
}
use riscv_pipeline_research.Timing.Rounds.{
  InStep, new_scheduler-InStep, Timed, round_decoded-Timed, round_decoded-InStep,
  round_decoded-total,
}

-- Rounds of the loop, one after the other.
pub data Rounds (program : Program) : Scheduler → List TimingExpectation → Scheduler → Type 0 where
  stop : (s : Scheduler) → Rounds program s [] s
  go :
      (s s' t : Scheduler) (w : ℕ) (e : TimingExpectation) (es : List TimingExpectation)
      → word_at program s.pc ≡ some w
      → round w s ≡ ok (e, s')
      → Rounds program s' es t
      → Rounds program s (e ∷ es) t

-- The instructions are numbered without gaps and accepted in order. Each is accepted one cycle after
-- the one before it, later by its own stall of at most a cycle and by two bubbles after a redirect,
-- and retires three cycles after that.
abbrev pub InOrder : ℕ → ℕ → List TimingExpectation → Type 0
InOrder n c [] = Unit {0}
InOrder n c (e ∷ es) =
    (e.instruction_id ≡ n)
    × (e.accept_cycle ≡ c + e.stall_cycles_before_accept)
    × (e.stall_cycles_before_accept ≤ 1)
    × (e.retire_cycle ≡ e.accept_cycle + 3)
    × (e.redirect_bubbles ≡ bubbles_for e.redirect)
    × InOrder (n + 1) (e.accept_cycle + 1 + e.redirect_bubbles) es

round-decoded :
    (w : ℕ) (s s' : Scheduler) (e : TimingExpectation)
    → round w s ≡ ok (e, s')
    → (decoded : DecodedInstruction) × (round_decoded w decoded s ≡ ok (e, s'))
unfolding round
round-decoded w s s' e h = elim (Outcome-cases (decode_checked w)) [
  | inl (decoded, reads) ↦ (decoded, ground arith)
  | inr (x, raises) ↦ ground arith
]

pub round-Timed :
    (w : ℕ) (s s' : Scheduler) (e : TimingExpectation) → round w s ≡ ok (e, s') → Timed s e s'
round-Timed w s s' e h =
    let (decoded, made) = round-decoded w s s' e h in round_decoded-Timed w decoded s s' e made

pub round-InStep :
    (w : ℕ) (s s' : Scheduler) (e : TimingExpectation)
    → InStep s
    → round w s ≡ ok (e, s')
    → InStep s'
round-InStep w s s' e i h =
    let (decoded, made) = round-decoded w s s' e h in round_decoded-InStep w decoded s s' e i made

Rounds-InOrder :
    {program : Program} {s t : Scheduler} {es : List TimingExpectation}
    → Rounds program s es t
    → InOrder s.instruction_id s.next_accept_cycle es
      × (t.instruction_id ≡ s.instruction_id + length es)
Rounds-InOrder (stop s) = (tt, omega arith)
Rounds-InOrder (go s s' t w e es found made rest) =
    let timed = round-Timed w s s' e made in
    let later = Rounds-InOrder rest in
    (
      (
        timed.numbered,
        timed.accepted,
        timed.short_stall,
        timed.retired,
        timed.bubbles,
        subst (λ (n : ℕ). InOrder n (e.accept_cycle + 1 + e.redirect_bubbles) es) timed.next_id
            (subst (λ (c : ℕ). InOrder s'.instruction_id c es) timed.next_cycle later.0),
      ),
      omega (arith, timed.next_id, later.1),
    )

-- Every instruction of the program is one that the oracle knows, at an address of nine bits.
abbrev pub IsSupported : Program → Type 0
IsSupported program =
    (pc w : ℕ)
    → word_at program pc ≡ some w
    → (pc ≤ 0x1ff) × ((decoded : DecodedInstruction) × (decode_checked w ≡ ok decoded))

round-total :
    (program : Program) (w : ℕ) (s : Scheduler)
    → IsSupported program
    → InStep s
    → word_at program s.pc ≡ some w
    → (e : TimingExpectation) × (s' : Scheduler) × (round w s ≡ ok (e, s'))
unfolding round
round-total program w s known i found =
    let (fits, (decoded, reads)) = known s.pc w found in
    let (e, s', made) = round_decoded-total w decoded s i fits reads in (e, s', rw reads made)

-- How the loop ends: outside the program, or at the bound on the instructions.
pub data Ends (program : Program) (max : ℕ) (s : Scheduler) (o : Outcome (List TimingExpectation))
    : Type 0 where
  finished :
      (es : List TimingExpectation) (t : Scheduler)
      → Rounds program s es t
      → o ≡ ok es
      → word_at program t.pc ≡ none
      → t.instruction_id ≤ max + 1
      → Ends program max s o
  capped :
      (es : List TimingExpectation) (t : Scheduler)
      → Rounds program s es t
      → o ≡ err program_error
      → word_at program t.pc ≢ none
      → t.instruction_id ≡ max + 1
      → Ends program max s o

pub run-Ends :
    (rounds max : ℕ) (program : Program) (s : Scheduler)
    → IsSupported program
    → InStep s
    → s.instruction_id + rounds ≡ max + 2
    → 0 < rounds
    → Ends program max s (run rounds max program s)
unfolding run
run-Ends zero max program s known i enough some_left = absurd (omega arith)
run-Ends (suc rounds) max program s known i enough some_left =
    elim (Option-cases (word_at program s.pc)) [
      | inl outside ↦ finished [] s (stop s) (rw (outside, run) refl) outside (omega arith)
      | inr (w, found) ↦ elim (Bool-cases (ltb max s.instruction_id)) [
        | inl over ↦
            capped [] s (stop s) (rw (found, over, run) refl) (λ none_there. cc)
              (ground (arith, over))
        | inr within ↦
            let (e, s', made) = round-total program w s known i found in
            let timed = round-Timed w s s' e made in
            elim (run-Ends rounds max program s' known (round-InStep w s s' e i made)
              (omega (arith, timed.next_id)) (ground (arith, within))) [
                | finished es t steps result outside small ↦
                    finished (e ∷ es) t (go s s' t w e es found made steps)
                      (rw (found, within, made, result, run) refl) outside small
                | capped es t steps result inside last ↦
                    capped (e ∷ es) t (go s s' t w e es found made steps)
                      (rw (found, within, made, result, run) refl) inside last
              ]
      ]
    ]

-- On a program with an entry at 0 whose instructions are supported and stand at addresses of nine
-- bits, at most 0x1ff, as `ExecutionEvent` requires of a PC, the oracle always ends: with the schedule
-- of rounds that leave the program, or with `TimingProgramError` after exactly `max_instructions`
-- rounds that are still inside it. On such a program no other exception is raised.
pub schedule_from-Ends :
    (program : Program) (max entry : ℕ)
    → word_at program 0 ≡ some entry
    → IsSupported program
    → Ends program max new_scheduler (schedule_from max program)
unfolding schedule_from
schedule_from-Ends [] max entry found known = cc
schedule_from-Ends (item ∷ program) max entry found known =
    rw (found, schedule_from)
      (run-Ends (max + 1) max (item ∷ program) new_scheduler known new_scheduler-InStep
        (omega arith) (omega arith))

run-Rounds :
    (rounds max : ℕ) (program : Program) (s : Scheduler) (es : List TimingExpectation)
    → s.instruction_id ≤ max + 1
    → run rounds max program s ≡ ok es
    → (t : Scheduler) × Rounds program s es t × (t.instruction_id ≤ max + 1)
unfolding run
run-Rounds zero max program s es small h = cc
run-Rounds (suc rounds) max program s es small h = elim (Option-cases (word_at program s.pc)) [
  | inl outside ↦ (
    s,
    subst (λ (l : List TimingExpectation). Rounds program s l s) (ground arith) (stop s),
    small,
  )
  | inr (w, found) ↦ elim (Outcome-cases (round w s)) [
    | inr (x, raises) ↦ ground arith
    | inl ((e, s'), made) ↦ elim (Outcome-cases (run rounds max program s')) [
      | inr (x, raises) ↦ ground arith
      | inl (later, rest) ↦
          let timed = round-Timed w s s' e made in
          let within : s.instruction_id ≤ max = ground arith in
          let (t, steps, bound) =
            run-Rounds rounds max program s' later (omega (arith, timed.next_id)) rest in
          (
            t,
            subst (λ (l : List TimingExpectation). Rounds program s l t) (ground arith)
                (go s s' t w e later found made steps),
            bound,
          )
    ]
  ]
]

schedule_from-Rounds :
    (program : Program) (max : ℕ) (es : List TimingExpectation)
    → schedule_from max program ≡ ok es
    → (t : Scheduler) × Rounds program new_scheduler es t × (t.instruction_id ≤ max + 1)
unfolding schedule_from
schedule_from-Rounds [] max es h = (
  new_scheduler,
  subst (λ (l : List TimingExpectation). Rounds [] new_scheduler l new_scheduler) (ground arith)
      (stop new_scheduler),
  omega arith,
)
schedule_from-Rounds (item ∷ program) max es h = elim (Option-cases (word_at (item ∷ program) 0)) [
  | inl outside ↦ ground arith
  | inr (w, found) ↦
      run-Rounds (max + 1) max (item ∷ program) new_scheduler es (omega arith) (ground arith)
]

-- The bubbles behind the last instruction of a schedule, which come after its end.
abbrev pub last_bubbles : List TimingExpectation → ℕ
last_bubbles [] = 0
last_bubbles (e ∷ []) = e.redirect_bubbles
last_bubbles (e ∷ e' ∷ es) = last_bubbles (e' ∷ es)

InOrder-drain_cycle :
    (n c d : ℕ) (es : List TimingExpectation)
    → InOrder n c es
    → drain_cycle es ≡ some d
    → d + last_bubbles es + 1
      ≡ c + length es + total_stall_cycles es + total_redirect_bubbles es + 3
InOrder-drain_cycle n c d [] h e = cc
InOrder-drain_cycle n c d (x ∷ []) h e = ground (arith, h.1, h.3)
InOrder-drain_cycle n c d (x ∷ y ∷ es) h e = omega (
  arith,
  h.1,
  InOrder-drain_cycle (n + 1) (x.accept_cycle + 1 + x.redirect_bubbles) d (y ∷ es) h.5 e,
)

-- A returned schedule has at most `max_instructions` instructions, is in order from cycle 1, and its
-- last instruction retires after as many cycles as it has instructions, stalls and bubbles, and three
-- more; the bubbles of a redirect at the very end do not count.
pub schedule_from-InOrder :
    (program : Program) (max : ℕ) (es : List TimingExpectation)
    → schedule_from max program ≡ ok es
    → InOrder 1 1 es
      × (length es ≤ max)
      × ((d : ℕ)
          → drain_cycle es ≡ some d
          → d + last_bubbles es ≡ length es + total_stall_cycles es + total_redirect_bubbles es + 3)
schedule_from-InOrder program max es h =
    let (t, steps, bound) = schedule_from-Rounds program max es h in
    let (ordered, count) = Rounds-InOrder steps in
    (
      ordered,
      omega (arith, count),
      λ d drained. omega (arith, InOrder-drain_cycle 1 1 d es ordered drained),
    )
