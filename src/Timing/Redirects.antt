-- ===== src/Timing/Redirects.antt =====
-- Where a round of timing_oracle_v1.py goes on, and what it forwards.
use riscv_pipeline_research.Base.{
  ℕ, ◌+◌, ◌≤◌, ◌≡◌, ◌≢◌, refl, ap, sym, subst, ◌∙◌, true, pos, ◌+ℤ◌, bit_and, arith, false, Option,
  none, some, Outcome, ok, bit_and-low_mask,
}
use riscv_pipeline_research.Isa.{DecodedInstruction, mem_data, op_branch}
use riscv_pipeline_research.Word.{low_bits}
use riscv_pipeline_research.Isa.Decode.{field, decode_b_imm}
use riscv_pipeline_research.Machine.Execute
use riscv_pipeline_research.Machine.Registers.{read_register}
use riscv_pipeline_research.Machine.{Machine, ArchitecturalStep, commit}
use riscv_pipeline_research.Machine.Invariant.{raised, finished, step-Ends}
use riscv_pipeline_research.Timing.{
  Forward, Producer, TimingExpectation, Scheduler, decode_checked, round_decoded, producer_of,
  redirects, forward_for_age, cycle_age, is_load_use, stall_for,
}
use riscv_pipeline_research.Timing.Decoded.{decode_checked-IsRunnable}
use riscv_pipeline_research.Timing.Rounds.{round_decoded-stepped, execution_event-keeps}

round_decoded-redirect :
    (w : ℕ) (decoded : DecodedInstruction) (s s' : Scheduler) (e : TimingExpectation)
    → round_decoded w decoded s ≡ ok (e, s')
    → e.redirect ≡ redirects decoded s.model.registers
unfolding round_decoded
round_decoded-redirect w decoded s s' e h = ground arith

-- The architectural model, which executes an instruction that the timing oracle has decoded, goes
-- where the oracle expects. Without a redirect the next round is at the next word. On a branch, the
-- oracle's own test, by mnemonic, is the model's, by `funct3`: the oracle expects a redirect exactly
-- if the model takes the branch, and then the next round is at the target of the branch.
pub round_decoded-redirects :
    (w : ℕ) (decoded : DecodedInstruction) (s s' : Scheduler) (e : TimingExpectation)
    → decode_checked w ≡ ok decoded
    → round_decoded w decoded s ≡ ok (e, s')
    → s.pc ≤ 0x1ff
    → (e.redirect ≡ false → s'.pc ≡ s.pc + 4)
      × (bit_and w 0x7f ≡ op_branch
          → (Execute.branch_taken
                (field w 12 0x7)
                (read_register s.model.registers (field w 15 0x1f))
                (read_register s.model.registers (field w 20 0x1f))
              ≡ some e.redirect)
            × (e.redirect ≡ true → s'.pc ≡ low_bits (pos s.pc +ℤ decode_b_imm w) 32))
unfolding commit
round_decoded-redirects w decoded s s' e reads made fits =
    let (event, report, built, stepped, model, at) = round_decoded-stepped w decoded s s' e made in
    let (index, pc, word) = execution_event-keeps w decoded s e.accept_cycle event built in
    let runs =
      decode_checked-IsRunnable event s.model.registers s.model.memory decoded
        (ap decode_checked word ∙ reads) in
    let redirect = round_decoded-redirect w decoded s s' e made in
    elim (step-Ends event s.model) [
      | raised x same ↦ cc
      | finished done next ran ends ↦
          let gone : s'.pc ≡ done.next_pc = omega (
            arith,
            at,
            ap (λ (m : Machine). m.expected_pc) model,
            ap (λ (r : Outcome ArchitecturalStep × Machine). r.1.expected_pc) ends,
          ) in
          (
            λ straight. omega (
              arith,
              gone,
              pc,
              runs.sequential done ran (sym redirect ∙ straight),
              bit_and-low_mask 32 (event.pc + 4),
            ),
            λ branch.
                let same_branch = ap (λ (n : ℕ). bit_and n 0x7f) word ∙ branch in
                (
                  subst
                      (λ (n : ℕ).
                        Execute.branch_taken (field n 12 0x7)
                          (read_register s.model.registers (field n 15 0x1f))
                          (read_register s.model.registers (field n 20 0x1f))
                        ≡ some e.redirect)
                      word (runs.branches same_branch ∙ ap some (sym redirect)),
                  λ taken.
                      gone
                      ∙ runs.to_target done same_branch ran (sym redirect ∙ taken)
                      ∙ rw (pc, word) refl,
                ),
          )
    ]

abbrev accept_of : DecodedInstruction → Scheduler → ℕ
accept_of decoded s =
    s.next_accept_cycle
    + stall_for s.next_accept_cycle (producer_of s decoded.uses_rs1 decoded.rs1)
        (producer_of s decoded.uses_rs2 decoded.rs2)

round_decoded-forward_a :
    (w : ℕ) (decoded : DecodedInstruction) (s s' : Scheduler) (e : TimingExpectation)
    → round_decoded w decoded s ≡ ok (e, s')
    → let a = producer_of s decoded.uses_rs1 decoded.rs1 in
      (forward_for_age (cycle_age (accept_of decoded s) a) ≡ ok e.forward_a)
      × (is_load_use (accept_of decoded s) a ≡ false)
unfolding round_decoded
round_decoded-forward_a w decoded s s' e h = (ground arith, ground arith)

round_decoded-forward_b :
    (w : ℕ) (decoded : DecodedInstruction) (s s' : Scheduler) (e : TimingExpectation)
    → round_decoded w decoded s ≡ ok (e, s')
    → let b = producer_of s decoded.uses_rs2 decoded.rs2 in
      (forward_for_age (cycle_age (accept_of decoded s) b) ≡ ok e.forward_b)
      × (is_load_use (accept_of decoded s) b ≡ false)
unfolding round_decoded
round_decoded-forward_b w decoded s s' e h = (ground arith, ground arith)

ex_mem-no_load :
    (cycle : ℕ) (o : Option Producer) (p : Producer) (f : Forward)
    → forward_for_age (cycle_age cycle o) ≡ ok f
    → is_load_use cycle o ≡ false
    → o ≡ some p
    → f ≡ Forward.ex_mem
    → p.decoded.producer_type ≢ mem_data
unfolding forward_for_age
ex_mem-no_load cycle none p f forwards waits found early load = cc
ex_mem-no_load cycle (some q) p f forwards waits found early load = ground arith

-- The pipeline never forwards the result of a load from the stage right after the one that executes
-- it: a source that is expected from EX/MEM has a producer that is no load.
pub round_decoded-no_early_load :
    (w : ℕ) (decoded : DecodedInstruction) (s s' : Scheduler) (e : TimingExpectation) (p : Producer)
    → round_decoded w decoded s ≡ ok (e, s')
    → ((producer_of s decoded.uses_rs1 decoded.rs1 ≡ some p) × (e.forward_a ≡ Forward.ex_mem)
        → p.decoded.producer_type ≢ mem_data)
      × ((producer_of s decoded.uses_rs2 decoded.rs2 ≡ some p) × (e.forward_b ≡ Forward.ex_mem)
          → p.decoded.producer_type ≢ mem_data)
round_decoded-no_early_load w decoded s s' e p made =
    let a = round_decoded-forward_a w decoded s s' e made in
    let b = round_decoded-forward_b w decoded s s' e made in
    (
      λ h. ex_mem-no_load (accept_of decoded s) _ p e.forward_a a.0 a.1 h.0 h.1,
      λ h. ex_mem-no_load (accept_of decoded s) _ p e.forward_b b.0 b.1 h.0 h.1,
    )
