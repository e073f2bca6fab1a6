-- ===== src/FetchPc.antt =====
-- The oracle with a fetch PC of few bits, `WrapAwareRV32ArchitecturalModel` of
-- research/week10/adaptive/wrap_aware_architectural_model.py, over the base class of Machine.
pub mod Runs
use riscv_pipeline_research.Base.{
  ℕ, ◌-◌, ◌^◌, Bool, not, Option, ℤ, pos, negsuc, Outcome, ok, err, value_error, raise_if, ◌>>=◌,
  ◌>>◌, bit_and, ltb, ◌==◌, if◌then◌else◌,
}
use riscv_pipeline_research.Event.{ExecutionEvent, positive}
use riscv_pipeline_research.Machine
use riscv_pipeline_research.Machine.{Machine, ArchitecturalStep, new_machine}

pub record WrapAwareMachine : Type 0 where
  pub machine : Machine
  pub physical_pc_width : ℕ

-- `self._physical_pc_mask`
abbrev pub physical_pc_mask : WrapAwareMachine → ℕ
physical_pc_mask w = 2 ^ w.physical_pc_width - 1

unfoldable pub new_wrap_aware : ℤ → Outcome WrapAwareMachine
new_wrap_aware pc_width = do
  width ← positive pc_width
  raise_if (ltb 32 width) value_error
  ok (record { machine = new_machine; physical_pc_width = width })

-- The PC is a natural number here, so the method's check for a negative one does not fail.
unfoldable pub normalize_fetch_pc : WrapAwareMachine → ℕ → ℕ
normalize_fetch_pc w pc = bit_and pc (physical_pc_mask w)

-- The end of `step`, on what the base class's `step` returned or raised.
unfoldable pub finish :
    WrapAwareMachine
    → Outcome ArchitecturalStep × Machine
    → Outcome ArchitecturalStep × WrapAwareMachine
finish w (err e, m) = (err e, record w { machine = m })
finish w (ok report, m) =
    let physical_next_pc = normalize_fetch_pc w report.next_pc in
    (
      ok (record report { next_pc = physical_next_pc }),
      record w { machine = record m { expected_pc = physical_next_pc } },
    )

unfoldable pub step :
    ExecutionEvent → WrapAwareMachine → Outcome ArchitecturalStep × WrapAwareMachine
step event w =
    if not (event.pc == normalize_fetch_pc w event.pc)
    then (err value_error, w)
    else finish w (Machine.step event w.machine)
