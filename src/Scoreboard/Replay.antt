-- ===== src/Scoreboard/Replay.antt =====
-- A device whose every check passes, against the oracle of architectural_model.py: the registers
-- and the memory that the device's own writes leave.
use riscv_pipeline_research.Base.{
  ◌≡◌, arith, true, List, [], ◌∷◌, Outcome, ok, err, bit_and, bit_and-low_mask, subst,
  if◌then◌else◌, pos, get_or, set,
}
use riscv_pipeline_research.Word.{mask32, ◌>>>◌}
use riscv_pipeline_research.Event.{ExecutionEvent, IsEvent}
use riscv_pipeline_research.Machine.{Machine, ArchitecturalStep, commit, step}
use riscv_pipeline_research.Machine.Memory.{ByteMemory, write_word}
use riscv_pipeline_research.Machine.Registers.{RegisterFile, write_register}
use riscv_pipeline_research.Machine.Execute.{Executed}
use riscv_pipeline_research.Machine.Invariant.{IsMachine, raised, finished, step-Ends}
use riscv_pipeline_research.Scoreboard.{
  WritebackObservation, StoreObservation, check_pc, check_writeback, check_store, check_x0, passed,
  check_passed,
}
use riscv_pipeline_research.Scoreboard.Verdicts.{Accepts}

-- What the register file of design/RegFile.sv holds after the device's write: unlike the oracle's, it
-- also writes register 0.
abbrev pub device_write : WritebackObservation → RegisterFile → RegisterFile
device_write o registers =
    if o.write_enable then set registers o.rd (bit_and o.word mask32) else registers

-- What the oracle's registers would hold after the write.
abbrev written_registers : WritebackObservation → RegisterFile → RegisterFile
written_registers o registers =
    if o.write_enable then write_register registers o.rd o.word else registers

abbrev pub written_memory : StoreObservation → ByteMemory → ByteMemory
written_memory o memory = if o.write_enable then write_word memory o.address o.word else memory

-- One instruction that the device retires: what was executed, and what the device wrote.
pub record Retired : Type 0 where
  pub event : ExecutionEvent
  pub writeback : WritebackObservation
  pub store : StoreObservation

-- The oracle executes the instruction, and all four checks of its report pass: the PC, the
-- writeback, the store, and the device's register 0 after the write.
abbrev pub Passes : Outcome ArchitecturalStep → Retired → RegisterFile → Type 0
Passes (err _) r after = ⊥
Passes (ok report) r after =
    (passed (check_pc report) ≡ true)
    × Accepts (check_writeback report r.writeback)
    × Accepts (check_store report r.store)
    × Accepts (check_x0 (pos report.instruction_index) (pos (get_or after 0 0)))

-- Every check of a run passes, of the oracle at `m` and a device with these registers.
abbrev pub AllPass : List Retired → Machine → RegisterFile → Type 0
AllPass [] m registers = Unit {0}
AllPass (r ∷ run) m registers =
    Passes (step r.event m).0 r (device_write r.writeback registers)
    × AllPass run (step r.event m).1 (device_write r.writeback registers)

-- The oracle after a run.
abbrev pub executed : List Retired → Machine → Machine
executed [] m = m
executed (r ∷ run) m = executed run (step r.event m).1

-- The registers and the memory that the device's writes leave, one after the other.
abbrev pub device_registers : List Retired → RegisterFile → RegisterFile
device_registers [] registers = registers
device_registers (r ∷ run) registers = device_registers run (device_write r.writeback registers)

abbrev pub device_memory : List Retired → ByteMemory → ByteMemory
device_memory [] memory = memory
device_memory (r ∷ run) memory = device_memory run (written_memory r.store memory)

-- The PC check of a step's report passes exactly if the report says that the PC matches, for an
-- event within its bounds on a well-formed machine.
pub check_pc-pc_match :
    (event : ExecutionEvent) (m : Machine) (report : ArchitecturalStep)
    → IsEvent event
    → IsMachine m
    → (step event m).0 ≡ ok report
    → passed (check_pc report) ≡ report.pc_match
unfolding check_pc passed check_passed commit
check_pc-pc_match event m report e h returns = elim (step-Ends event m) [
  | raised error kept ↦ cc
  | finished done next ran ends ↦
      subst (λ (r : ArchitecturalStep). passed (check_pc r) ≡ r.pc_match) (same done _ ends)
        (ground
          (arith, h.pc, e.pc_fits, bit_and-low_mask 32 event.pc, bit_and-low_mask 32 m.expected_pc))
]
  where
    same :
        (done : Executed) (m' : Machine)
        → step event m ≡ (ok (commit event (bit_and (event.instruction >>> 7) 0x1f) done m).0, m')
        → (commit event (bit_and (event.instruction >>> 7) 0x1f) done m).0 ≡ report
    same done m' ends = cc
