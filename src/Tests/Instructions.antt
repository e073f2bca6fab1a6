-- ===== src/Tests/Instructions.antt =====
-- Lines of assembly and events at concrete operands.
use riscv_pipeline_research.Base.{◌≡◌, refl, arith, ok, err, value_error, pos, negsuc}
use riscv_pipeline_research.Isa.Assembly.{Assembly, BranchKind, encode, RoundTrips}
use riscv_pipeline_research.Isa.RoundTrip.{decode-encode, encode-refuses}
use riscv_pipeline_research.Event.{IsEvent, HasArguments, execution_event, execution_event-IsEvent}
use riscv_pipeline_research.Tests.{producer, arguments}

-- `blt x3, x4, -8`
decode-encode_example : RoundTrips (Assembly.branch BranchKind.blt (pos 3) (pos 4) (negsuc 7))
decode-encode_example =
    decode-encode (Assembly.branch BranchKind.blt (pos 3) (pos 4) (negsuc 7))
      ((omega arith, omega arith), (omega arith, omega arith), ((omega arith, omega arith), refl))

-- `addi x1, x2, 2048`
encode-refuses_example : encode (Assembly.addi (pos 1) (pos 2) (pos 2048)) ≡ err value_error
encode-refuses_example =
    encode-refuses (Assembly.addi (pos 1) (pos 2) (pos 2048)) (λ h. omega (arith, h.2.1))

producer-runs : execution_event arguments ≡ ok producer
unfolding execution_event
producer-runs = refl

execution_event-IsEvent_example : IsEvent producer × HasArguments arguments producer
execution_event-IsEvent_example = execution_event-IsEvent arguments producer producer-runs
