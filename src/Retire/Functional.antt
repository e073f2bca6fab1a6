-- ===== src/Retire/Functional.antt =====
-- The functional scoreboard, research/week8/functional_scoreboard.py: what a retiring instruction
-- does against what it must do, whenever it does it. The names of the checks are those of the
-- scoreboard of research/week5.
pub mod Checks
pub mod Stream
pub mod Complete
use riscv_pipeline_research.Base.{
  ℕ, ◌+◌, ◌-◌, ◌≡◌, Bool, true, false, not, ◌&&◌, Option, none, some, List, [], ◌∷◌, ◌++◌, ℤ, pos,
  Outcome, ok, err, Error, value_error, protocol_error, raise_if, ◌>>=◌, ◌>>◌, ◌==◌, if◌then◌else◌,
  ltb, bit_and, int_of_bool, length, lookup, insert, erase, sorted, has_key, is_some,
}
use riscv_pipeline_research.Word.{mask32}
use riscv_pipeline_research.Event.{bounded}
use riscv_pipeline_research.Scoreboard.{StoreObservation, CheckName}
use riscv_pipeline_research.Retire.{RetireEvent}
use riscv_pipeline_research.Retire.Contiguous.{indexed}
use riscv_pipeline_research.Retire.Expected.{ExpectedRetire}

pub record FunctionalCheck : Type 0 where
  pub name : CheckName
  pub expected : ℕ
  pub observed : ℕ

-- `FunctionalCheck.passed`
unfoldable pub check_passed : FunctionalCheck → Bool
check_passed check = check.expected == check.observed

pub record FunctionalResult : Type 0 where
  pub instruction_id : ℕ
  pub checks : List FunctionalCheck

abbrev pub all_passed : List FunctionalCheck → Bool
all_passed [] = true
all_passed (check ∷ checks) = check_passed check && all_passed checks

-- `FunctionalResult.passed`
unfoldable pub passed : FunctionalResult → Bool
passed result = all_passed result.checks

abbrev pub failing : List FunctionalCheck → List FunctionalCheck
failing [] = []
failing (check ∷ checks) = if check_passed check then failing checks else check ∷ failing checks

unfoldable pub failed_checks : FunctionalResult → List FunctionalCheck
failed_checks result = failing result.checks

pub record FunctionalScoreboard : Type 0 where
  pub expected_by_id : List (ℕ × ExpectedRetire)
  pub store_by_id : List (ℕ × StoreObservation)
  pub results_by_id : List (ℕ × FunctionalResult)

-- `FunctionalScoreboard(…)`
unfoldable pub functional_scoreboard : List ExpectedRetire → Outcome FunctionalScoreboard
functional_scoreboard expected_retires = do
  expected_by_id ← indexed (λ item. item.instruction_id) 1 expected_retires []
  ok (record { expected_by_id = expected_by_id; store_by_id = []; results_by_id = [] })

unfoldable pub expected_count : FunctionalScoreboard → ℕ
expected_count b = length b.expected_by_id

unfoldable pub checked_count : FunctionalScoreboard → ℕ
checked_count b = length b.results_by_id

abbrev pub passes : List (ℕ × FunctionalResult) → ℕ
passes [] = 0
passes (x ∷ xs) = int_of_bool (passed x.1) + passes xs

unfoldable pub passed_count : FunctionalScoreboard → ℕ
passed_count b = passes b.results_by_id

unfoldable pub failed_count : FunctionalScoreboard → ℕ
unfolding checked_count passed_count
failed_count b = checked_count b - passed_count b

abbrev pub failing_ids : List (ℕ × FunctionalResult) → List ℕ
failing_ids [] = []
failing_ids (x ∷ xs) = if not (passed x.1) then x.0 ∷ failing_ids xs else failing_ids xs

unfoldable pub failed_instruction_ids : FunctionalScoreboard → List ℕ
failed_instruction_ids b = failing_ids (sorted b.results_by_id)

unfoldable pub complete : FunctionalScoreboard → Bool
unfolding checked_count expected_count
complete b = checked_count b == expected_count b

unfoldable pub observe_store_stage :
    StoreObservation → FunctionalScoreboard → Outcome (Unit {0}) × FunctionalScoreboard
observe_store_stage observation b =
    let id = observation.instruction_index in
    if not (has_key id b.expected_by_id)
    then (err protocol_error, b)
    else if has_key id b.store_by_id
    then (err protocol_error, b)
    else (ok tt, record b { store_by_id = insert id observation b.store_by_id })

abbrev pub check : CheckName → ℕ → ℕ → FunctionalCheck
check name expected observed = record { name = name; expected = expected; observed = observed }

-- The checks of a register write that is expected.
abbrev pub expected_write_checks :
    Option ℕ → Option ℕ → RetireEvent → Outcome (List FunctionalCheck)
expected_write_checks none wdata r = err protocol_error
expected_write_checks (some rd) none r = err protocol_error
expected_write_checks (some rd) (some wdata) r = ok (
    check CheckName.write_enable 1 (int_of_bool r.regwrite)
    ∷ (if r.regwrite
        then check CheckName.write_rd rd r.rd
          ∷ check CheckName.write_data (bit_and wdata mask32) (bit_and r.wdata mask32)
          ∷ []
        else []))

unfoldable pub write_checks : ExpectedRetire → RetireEvent → Outcome (List FunctionalCheck)
write_checks x r =
    if x.regwrite
    then expected_write_checks x.rd x.wdata r
    else ok (
        check CheckName.unexpected_architectural_write 0
          (int_of_bool (r.regwrite && not (r.rd == 0)))
        ∷ [])

-- The checks of a store, by the address, the data and the width that are expected.
abbrev pub expected_store_checks :
    Option ℕ → Option ℕ → Option ℕ → StoreObservation → Outcome (List FunctionalCheck)
expected_store_checks none word width o =
    ok (check CheckName.unexpected_store 0 (int_of_bool o.write_enable) ∷ [])
expected_store_checks (some address) none width o = err protocol_error
expected_store_checks (some address) (some word) none o = err protocol_error
expected_store_checks (some address) (some word) (some width) o = ok (
    check CheckName.store_enable 1 (int_of_bool o.write_enable)
    ∷ (if o.write_enable
        then (if ltb 0x1ff address
            then check CheckName.store_address_in_dut_range 1 0
            else check CheckName.store_address address o.address)
          ∷ check CheckName.store_data (bit_and word mask32) (bit_and o.word mask32)
          ∷ []
        else []))

unfoldable pub store_checks : ExpectedRetire → StoreObservation → Outcome (List FunctionalCheck)
store_checks x o = expected_store_checks x.store_address x.store_data x.store_width_bytes o

-- The list `checks` that `observe_retire` builds, and its exceptions.
abbrev pub retire_checks :
    ExpectedRetire → RetireEvent → StoreObservation → ℕ → Outcome (List FunctionalCheck)
retire_checks x r o x0 = do
  writes ← write_checks x r
  stores ← store_checks x o
  ok (writes ++ stores ++ check CheckName.architectural_x0 0 (bit_and x0 mask32) ∷ [])

-- The verdict, once the store observation has left its dictionary; an inconsistent expectation
-- raises after that.
abbrev pub judge :
    ℕ
    → Outcome (List FunctionalCheck)
    → FunctionalScoreboard
    → Outcome FunctionalResult × FunctionalScoreboard
judge id (err e) b = (err e, b)
judge id (ok checks) b =
    let result : FunctionalResult = record { instruction_id = id; checks = checks } in
    (ok result, record b { results_by_id = insert id result b.results_by_id })

-- `observe_retire` from the value of x0, the expectation and the store observation that it looks up.
abbrev pub with_observations :
    RetireEvent
    → Outcome ℕ
    → Option ExpectedRetire
    → Option StoreObservation
    → FunctionalScoreboard
    → Outcome FunctionalResult × FunctionalScoreboard
with_observations r (err e) x o b = (err e, b)
with_observations r (ok x0) none o b = (err protocol_error, b)
with_observations r (ok x0) (some x) o b =
    if has_key r.instruction_id b.results_by_id then (err protocol_error, b) else elim o [
      | none ↦ (err protocol_error, b)
      | some o ↦
          judge r.instruction_id (retire_checks x r o x0)
            (record b { store_by_id = erase r.instruction_id b.store_by_id })
    ]

unfoldable pub observe_retire :
    RetireEvent → ℤ → FunctionalScoreboard → Outcome FunctionalResult × FunctionalScoreboard
observe_retire retire observed_x0 b =
    with_observations retire (bounded 0 mask32 observed_x0)
      (lookup retire.instruction_id b.expected_by_id) (lookup retire.instruction_id b.store_by_id) b
