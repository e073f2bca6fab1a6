-- ===== src/Tests/Oracle.antt =====
-- The oracle on concrete machines.
use riscv_pipeline_research.Base.{◌≡◌, refl, arith, err, value_error}
use riscv_pipeline_research.Machine.{new_machine, step}
use riscv_pipeline_research.Machine.Memory.{
  write_word, read_word, read_word-write_word, read_word-write_word_disjoint,
}
use riscv_pipeline_research.Machine.Invariant.{IsMachine, new_machine-IsMachine, step-IsMachine}
use riscv_pipeline_research.Tests.{producer, consumer}

step-IsMachine_example : IsMachine (step producer new_machine).1
step-IsMachine_example = step-IsMachine producer new_machine new_machine-IsMachine

out_of_order : (step consumer new_machine).0 ≡ err value_error
unfolding step
out_of_order = refl

-- A word that wraps round the end of the address space.
read_word-write_word_example :
    read_word (write_word new_machine.memory 0xffff_fffe 0xdead_beef) 0xffff_fffe ≡ 0xdead_beef
read_word-write_word_example =
    read_word-write_word new_machine.memory 0xffff_fffe 0xdead_beef new_machine-IsMachine.memory

read_word-write_word_disjoint_example :
    read_word (write_word new_machine.memory 8 7) 12 ≡ read_word new_machine.memory 12
read_word-write_word_disjoint_example =
    read_word-write_word_disjoint new_machine.memory 8 12 7 new_machine-IsMachine.memory
      (omega arith) (omega arith)
