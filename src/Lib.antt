-- ===== src/Lib.antt =====
-- Verification of the research code around a five-stage RISC-V pipeline: the Python models that
-- watch the pipeline in simulation and judge what it executed.
--
-- The program's parts, and how they interact. The encoder makes the instruction words of the test
-- programs and the decoder reads the words that the device accepts. Each accepted instruction is an
-- execution event. Events go, in program order, to two coverage collectors and to a sequential
-- oracle of the architecture. The scoreboard compares the oracle's reports with the writes that are
-- seen on the device. The timing oracle runs a program on the oracle of the architecture and says in
-- which cycle each instruction is to be accepted and to retire; the retire monitor carries tags down
-- the stages of the device, and what it reports goes to a functional scoreboard, which has the
-- oracle's steps, and to a performance monitor, which has the cycles; the two verdicts are combined.
-- A hit of the L1 classifier is first checked for the stall and the forwarding that its bin asks for,
-- and is then validated once the results for the instructions that take part in it have arrived; it
-- is attributed with the evidence of its timing, and its validation is what promotes its bin in the
-- coverage of the campaign. The adaptive campaign wraps the fetch PC of the oracle to the device's
-- nine bits, and rewards an epoch by the new bins that its template provably reached.
--
-- Isa: research/week5/impl/rv32_encode.py (Isa/Encode, a function of the same name for each
--     encoder) and research/week5/impl/isa_decode.py (Isa/Decode). Isa/Assembly says what a line of
--     assembly denotes.
-- Event: research/week5/impl/execution_event.py, `execution_event` is the checked constructor.
-- CoverageModel: `L2CoverageCollector` of research/week5/impl/coverage_model.py, with the 62 bins
--     (distance, register). CoverageModel/Trace compares it with the executed program.
-- HazardBins: `L1CoverageCollector` of research/week5/impl/l1_coverage.py. HazardBins/Predicates
--     has the twenty tests H01 to H20, HazardBins/History what they look up. HazardBins/RawBins says
--     which dependency the name of a bin states (HazardBins/Guards, HazardBins/Agreement), and
--     HazardBins/Order and HazardBins/Bins follow the hits and the counts (HazardBins/Trace).
-- Machine: `RV32ArchitecturalModel` of research/week5/impl/architectural_model.py. `step` is the
--     method, cut at the dispatch on the opcode (Machine/Execute) and at its end (`commit`).
-- Scoreboard: `CommitScoreboard` of research/week5/impl/commit_scoreboard.py. Scoreboard/Replay sets
--     it against a device whose register file writes as design/RegFile.sv does, register 0 included.
-- FetchPc: `WrapAwareRV32ArchitecturalModel` of
--     research/week10/adaptive/wrap_aware_architectural_model.py, over Machine.
-- Adaptive: Adaptive/Templates is research/week10/adaptive/template_library.py, and Adaptive/Reward
--     is `EpochRewardTracker` of research/week10/adaptive/reward_engine.py with `TargetSelection` of
--     research/week10/adaptive/register_policy.py. Sets are lists without repetition. Adaptive/Policy
--     is the rest of register_policy.py.
-- Timing: `build_timing_schedule_v1` of research/week7/timing_oracle_v1.py over Machine. A round of its
--     loop is `round_decoded` (Timing/Rounds, Timing/Redirects), the loop is `run` (Timing/Schedule).
-- Retire: `RetireMonitor` of research/week7/retire_monitor.py (Retire/Pipeline follows a run);
--     Retire/Expected is research/week6/expected_retire.py, Retire/Functional is
--     research/week8/functional_scoreboard.py, Retire/Performance is
--     research/week8/performance_monitor.py and Retire/Verdict is research/week8/cross_verdict.py.
--     Retire/Contiguous is the loop with which the constructors of both index their expectations.
-- Realization: `L1ControlRealizationChecker` of research/week5/impl/realization_checker.py;
--     Realization/Rows is about its table.
-- Validated: `L1ValidatedCoverageCollector` of research/week5/impl/validated_coverage.py, its methods
--     in Validated/Steps.
-- Attribution: research/week7/hazard_attribution.py; Attribution/Validation is
--     research/week9/validated_attribution.py.
-- Promotion: `CoverageCollector` of research/week9/coverage_collector.py; Promotion/Records is
--     research/week9/coverage_promotion.py. Promotion/Calls makes a campaign of calls, whose first
--     hits Promotion/Changes and Promotion/Firsts follow.
-- Base and Word: shared lists, integers, exceptions, and the arithmetic of 32-bit words.
--
-- How state and operations correspond. An object is a record of its attributes, and a method takes
-- the record and returns the new one; a method that may raise returns an outcome beside the record
-- as it then stands. A Python int that may be negative is an integer of Base/Int, one that the code
-- has checked is a natural number. Strings that the code only compares are enumerations: any other
-- consumer type is `other`. Histories are kept with the latest event first, and two events are the
-- same object if they have the same number. Dictionaries are association lists in the order
-- of insertion, but for the oracle's bytes and the timing oracle's last writers, which are
-- functions. The oracle's immediate decoders are those of the decoder, and shared. Fields named
-- `data` are called `word`. Instruction fields have five bits, so the range checks on registers inside
-- the oracle do not fail.
--
-- Bounds. Words have 32 bits and the wrap-around is written out; the loops of the code run over
-- lists, but for that of the timing oracle: it recurses on `max_instructions + 1`
-- rounds, which is enough since the identifiers start at 1 and the code raises beyond the limit.
--
-- Not modelled: the coverage ratios (floating point), file and simulator I/O, the RTL itself but
-- for the write of its register file, and the parts of the campaign that choose arms and feed the
-- device, and keep its telemetry. Python's division of two integers and `Random.choice` are parameters.
mod Base
pub mod Word
pub mod Isa
pub mod Event
pub mod CoverageModel
pub mod HazardBins
pub mod Machine
pub mod Scoreboard
pub mod FetchPc
pub mod Adaptive
pub mod Timing
pub mod Retire
pub mod Realization
pub mod Validated
pub mod Attribution
pub mod Promotion
mod Tests
