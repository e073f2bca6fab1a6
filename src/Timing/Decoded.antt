-- ===== src/Timing/Decoded.antt =====
-- The instructions that the timing oracle decodes, on the architectural model: each is executed, and
-- goes where the oracle's `redirect` says.
use riscv_pipeline_research.Base.{
  ℕ, Bool, pos, ◌+ℤ◌, ◌+◌, ◌≤◌, ◌^◌, ◌≡◌, arith, true, false, Bool-cases, ==_iff, inl, inr, subst,
  sym, ◌/◌, Error, ◌≢◌, some, ok, err, bit_and, bit_and-low_mask, ◌==◌,
}
use riscv_pipeline_research.Word.{mask32, low_bits}
use riscv_pipeline_research.Isa.{op_branch, DecodedInstruction}
use riscv_pipeline_research.Isa.Decode.{
  field, decode_b_imm, decode_fields, decode_instruction, branch_mnemonic,
}
use riscv_pipeline_research.Event.{ExecutionEvent}
use riscv_pipeline_research.Machine.Memory.{ByteMemory}
use riscv_pipeline_research.Machine.Registers.{RegisterFile, read_register, read_register-lt}
use riscv_pipeline_research.Machine.Execute
use riscv_pipeline_research.Machine.Execute.{Executed, execute_fields, execute}
use riscv_pipeline_research.Timing.{is_t6, redirects, branch_taken, decode_checked}

module _ (event : ExecutionEvent) (registers : RegisterFile) (memory : ByteMemory)
    (rd rs1 rs2 funct3 funct7 : ℕ) (decoded : DecodedInstruction) where
  -- The model executes the instruction, and redirects only where the oracle does.
  abbrev AlwaysRuns : ℕ → Type 0
  AlwaysRuns opcode =
      ((e : Error) → execute_fields event registers memory opcode funct3 rs1 rs2 funct7 ≢ err e)
      × ((done : Executed)
          → execute_fields event registers memory opcode funct3 rs1 rs2 funct7 ≡ ok done
          → redirects decoded registers ≡ false
          → done.next_pc ≡ bit_and (event.pc + 4) mask32)

  branch-runs :
      decode_fields event.instruction op_branch rd rs1 rs2 funct3 funct7 ≡ some decoded
      → AlwaysRuns op_branch
  unfolding decode_fields execute_fields branch_taken Execute.branch_taken branch_mnemonic
  branch-runs reads = ground (
    arith,
    bit_and-low_mask 32 (read_register registers rs1),
    bit_and-low_mask 32 (read_register registers rs2),
    read_register-lt registers rs1,
    read_register-lt registers rs2,
  )

  -- The two tests of a branch agree, by mnemonic and by `funct3`, and a branch that is taken goes to
  -- its target.
  branch-agrees :
      decode_fields event.instruction op_branch rd rs1 rs2 funct3 funct7 ≡ some decoded
      → Execute.branch_taken funct3 (read_register registers rs1) (read_register registers rs2)
        ≡ some (redirects decoded registers)
  unfolding decode_fields branch_taken Execute.branch_taken branch_mnemonic
  branch-agrees reads = ground (
    arith,
    bit_and-low_mask 32 (read_register registers rs1),
    bit_and-low_mask 32 (read_register registers rs2),
    read_register-lt registers rs1,
    read_register-lt registers rs2,
  )

  branch-taken :
      (taken : Bool) (done : Executed)
      → Execute.branch_taken funct3 (read_register registers rs1) (read_register registers rs2)
        ≡ some taken
      → execute_fields event registers memory op_branch funct3 rs1 rs2 funct7 ≡ ok done
      → taken ≡ true
      → done.next_pc ≡ low_bits (pos event.pc +ℤ decode_b_imm event.instruction) 32
  unfolding execute_fields
  branch-taken taken done tests runs goes = ground arith

  other-runs :
      (opcode : ℕ)
      → opcode ≢ op_branch
      → decode_fields event.instruction opcode rd rs1 rs2 funct3 funct7 ≡ some decoded
      → is_t6 decoded.mnemonic ≡ true
      → AlwaysRuns opcode
  unfolding decode_fields execute_fields
  other-runs opcode other reads t6 = ground arith

  decoded-runs :
      (opcode : ℕ)
      → decode_fields event.instruction opcode rd rs1 rs2 funct3 funct7 ≡ some decoded
      → is_t6 decoded.mnemonic ≡ true
      → AlwaysRuns opcode
  decoded-runs opcode reads t6 = elim (Bool-cases (opcode == op_branch)) [
    | inl same ↦ subst AlwaysRuns (sym ((==_iff _ _).0 same)) (
        branch-runs (
          subst
            (λ (o : ℕ). decode_fields event.instruction o rd rs1 rs2 funct3 funct7 ≡ some decoded)
            ((==_iff _ _).0 same) reads))
    | inr other ↦ other-runs opcode (ground (arith, other)) reads t6
  ]

operands :
    (rd rs1 rs2 funct3 funct7 : ℕ) (decoded : DecodedInstruction) (instruction opcode : ℕ)
    → decode_fields instruction opcode rd rs1 rs2 funct3 funct7 ≡ some decoded
    → (decoded.rd ≡ rd) × (decoded.rs1 ≡ rs1) × (decoded.rs2 ≡ rs2)
unfolding decode_fields branch_mnemonic
operands rd rs1 rs2 funct3 funct7 decoded instruction opcode reads = ground arith

-- What the timing oracle relies on for an instruction that it has decoded: the architectural
-- model executes it without an exception, and goes on to the next word unless the oracle says that
-- it redirects. It takes a branch exactly where the oracle does, and then goes to its target.
pub record IsRunnable (event : ExecutionEvent) (registers : RegisterFile) (memory : ByteMemory)
    (decoded : DecodedInstruction) : Type 0 where
  pub executes : (e : Error) → execute event registers memory ≢ err e
  pub sequential :
      (done : Executed)
      → execute event registers memory ≡ ok done
      → redirects decoded registers ≡ false
      → done.next_pc ≡ bit_and (event.pc + 4) mask32
  pub branches :
      bit_and event.instruction 0x7f ≡ op_branch
      → Execute.branch_taken
          (field event.instruction 12 0x7)
          (read_register registers (field event.instruction 15 0x1f))
          (read_register registers (field event.instruction 20 0x1f))
        ≡ some (redirects decoded registers)
  pub to_target :
      (done : Executed)
      → bit_and event.instruction 0x7f ≡ op_branch
      → execute event registers memory ≡ ok done
      → redirects decoded registers ≡ true
      → done.next_pc ≡ low_bits (pos event.pc +ℤ decode_b_imm event.instruction) 32

field_fits : (r instruction shift : ℕ) → r ≡ field instruction shift 0x1f → r ≤ 31
field_fits r instruction shift h = omega (arith, h, bit_and-low_mask 5 (instruction / 2 ^ shift))

decode_checked-cases :
    (w : ℕ) (decoded : DecodedInstruction)
    → decode_checked w ≡ ok decoded
    → (w ≤ mask32)
      × (decode_fields w
            (bit_and w 0x7f)
            (field w 7 0x1f)
            (field w 15 0x1f)
            (field w 20 0x1f)
            (field w 12 0x7)
            (field w 25 0x7f)
          ≡ some decoded)
      × (is_t6 decoded.mnemonic ≡ true)
unfolding decode_checked decode_instruction
decode_checked-cases w decoded h = ground arith

pub decode_checked-operands :
    (w : ℕ) (decoded : DecodedInstruction)
    → decode_checked w ≡ ok decoded
    → (w ≤ mask32) × ((decoded.rd ≤ 31) × (decoded.rs1 ≤ 31) × (decoded.rs2 ≤ 31))
decode_checked-operands w decoded h =
    let (fits, reads, t6) = decode_checked-cases w decoded h in
    let (rd, rs1, rs2) =
      operands (field w 7 0x1f) (field w 15 0x1f) (field w 20 0x1f) (field w 12 0x7)
        (field w 25 0x7f) decoded w (bit_and w 0x7f) reads in
    (
      fits,
      (
        field_fits decoded.rd w 7 rd,
        field_fits decoded.rs1 w 15 rs1,
        field_fits decoded.rs2 w 20 rs2,
      ),
    )

pub decode_checked-IsRunnable :
    (event : ExecutionEvent) (registers : RegisterFile) (memory : ByteMemory)
    (decoded : DecodedInstruction)
    → decode_checked event.instruction ≡ ok decoded
    → IsRunnable event registers memory decoded
unfolding execute
decode_checked-IsRunnable event registers memory decoded h =
    let w = event.instruction in
    let (fits, reads, t6) = decode_checked-cases w decoded h in
    let runs =
      decoded-runs event registers memory (field w 7 0x1f) (field w 15 0x1f) (field w 20 0x1f)
        (field w 12 0x7) (field w 25 0x7f) decoded (bit_and w 0x7f) reads t6 in
    let agrees = λ (branch : bit_and w 0x7f ≡ op_branch).
      branch-agrees event registers memory (field w 7 0x1f) (field w 15 0x1f) (field w 20 0x1f)
        (field w 12 0x7) (field w 25 0x7f) decoded (rw branch at reads) in
    record {
      executes = runs.0;
      sequential = runs.1;
      branches = agrees;
      to_target = λ done branch ran taken.
          branch-taken event registers memory (field w 7 0x1f) (field w 15 0x1f) (field w 20 0x1f)
            (field w 12 0x7) (field w 25 0x7f) decoded (redirects decoded registers) done
            (agrees branch) (rw branch at ran) taken;
    }
