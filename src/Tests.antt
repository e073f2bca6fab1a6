-- ===== src/Tests.antt =====
-- Two instructions that the tests execute, the second with both sources on the first.
mod Instructions
mod Coverage
mod Oracle
mod Device
mod Campaign
mod Targets
mod Timing
mod Branches
mod Retire
mod Promotion
mod Records
use riscv_pipeline_research.Base.{ℕ, true, false, ◌≤◌, ◌<◌, pos, arith}
use riscv_pipeline_research.Isa.{ProducerType, ConsumerType}
use riscv_pipeline_research.Event.{ExecutionEvent, EventArguments, IsEvent}

-- `addi x1, x0, 5`
abbrev pub producer : ExecutionEvent
producer = record {
  instruction_index = 1;
  cycle = 4;
  pc = 0;
  instruction = 0x0050_0093;
  rs1 = 0;
  rs2 = 5;
  rd = 1;
  uses_rs1 = true;
  uses_rs2 = false;
  writes_rd = true;
  producer_type = ProducerType.alu_result;
  consumer_type = ConsumerType.rs1_only;
  stall_cycles_before_accept = 0;
  forward_a = 0;
  forward_b = 0;
}

-- `add x2, x1, x1`
abbrev pub consumer : ExecutionEvent
consumer = record {
  instruction_index = 2;
  cycle = 5;
  pc = 4;
  instruction = 0x0010_8133;
  rs1 = 1;
  rs2 = 1;
  rd = 2;
  uses_rs1 = true;
  uses_rs2 = true;
  writes_rd = true;
  producer_type = ProducerType.alu_result;
  consumer_type = ConsumerType.rs1_rs2;
  stall_cycles_before_accept = 0;
  forward_a = 1;
  forward_b = 1;
}

abbrev pub arguments : EventArguments
arguments = record {
  instruction_index = pos 1;
  cycle = pos 4;
  pc = pos 0;
  instruction = pos 0x0050_0093;
  rs1 = pos 0;
  rs2 = pos 5;
  rd = pos 1;
  uses_rs1 = true;
  uses_rs2 = false;
  writes_rd = true;
  producer_type = ProducerType.alu_result;
  consumer_type = ConsumerType.rs1_only;
  stall_cycles_before_accept = pos 0;
  forward_a = pos 0;
  forward_b = pos 0;
}

pub producer-IsEvent : IsEvent producer
producer-IsEvent = record {
  numbered = omega arith;
  pc_fits = omega arith;
  instruction_fits = omega arith;
  rs1_fits = omega arith;
  rs2_fits = omega arith;
  rd_fits = omega arith;
  forward_a_fits = omega arith;
  forward_b_fits = omega arith;
}

pub consumer-IsEvent : IsEvent consumer
consumer-IsEvent = record {
  numbered = omega arith;
  pc_fits = omega arith;
  instruction_fits = omega arith;
  rs1_fits = omega arith;
  rs2_fits = omega arith;
  rd_fits = omega arith;
  forward_a_fits = omega arith;
  forward_b_fits = omega arith;
}
