-- ===== src/Promotion/Records.antt =====
-- From the evidence on a hit to the coverage of its bin, research/week9/coverage_promotion.py.
use riscv_pipeline_research.Base.{
  ℕ, Bool, true, false, not, Option, none, some, ℤ, pos, Outcome, ok, err, value_error, raise_if,
  require, ◌>>◌, ◌==◌, if◌then◌else◌,
}
use riscv_pipeline_research.Attribution.Validation.{
  ValidationStatus, ValidatedAttributionRecord, is_true,
}
use riscv_pipeline_research.Promotion.{CoverageCollector, record_l1_validated}

abbrev pub same_bin_id : Option ℕ → ℕ → Bool
same_bin_id none bin_id = false
same_bin_id (some b) bin_id = b == bin_id

-- The statuses that a validated record may have.
abbrev pub may_promote : ValidationStatus → Bool
may_promote ValidationStatus.realized_correctly = true
may_promote ValidationStatus.timing_mismatch = true
may_promote ValidationStatus.unresolved = true
may_promote _ = false

abbrev pub is_realized : ValidationStatus → Bool
is_realized ValidationStatus.realized_correctly = true
is_realized _ = false

abbrev pub has_bin : Option ℕ → Bool
has_bin none = false
has_bin (some b) = true

-- `_validate_record`
unfoldable pub validate_record : ValidatedAttributionRecord → Outcome (Unit {0})
validate_record r =
    if r.validated
    then (do
      require (same_bin_id r.validated_bin r.intent_bin) value_error
      require (is_true r.control_pass) value_error
      require (is_true r.functional_pass) value_error
      require (may_promote r.status) value_error)
    else (do
      raise_if (has_bin r.validated_bin) value_error
      raise_if (is_realized r.status) value_error)

-- `record_l1_validated(record.validated_bin, …)`, which knows no bin `None`.
abbrev pub record_bin :
    Option ℕ → ℕ → ℤ → ℤ → CoverageCollector → Outcome (Unit {0}) × CoverageCollector
record_bin none instruction_id cycle wall_ns c = (err value_error, c)
record_bin (some bin_id) instruction_id cycle wall_ns c =
    record_l1_validated bin_id (pos instruction_id) cycle wall_ns c

abbrev pub promoted : Outcome (Unit {0}) × CoverageCollector → Outcome Bool × CoverageCollector
promoted (err e, c) = (err e, c)
promoted (ok _, c) = (ok true, c)

abbrev pub promote_checked :
    Outcome (Unit {0})
    → ValidatedAttributionRecord
    → ℤ
    → ℤ
    → CoverageCollector
    → Outcome Bool × CoverageCollector
promote_checked (err e) r resolution_cycle wall_ns c = (err e, c)
promote_checked (ok _) r resolution_cycle wall_ns c =
    if not r.validated
    then (ok false, c)
    else promoted (record_bin r.validated_bin r.instruction_id resolution_cycle wall_ns c)

unfoldable pub promote_l1_attribution :
    ValidatedAttributionRecord → ℤ → ℤ → CoverageCollector → Outcome Bool × CoverageCollector
unfolding validate_record
promote_l1_attribution record_ resolution_cycle wall_ns c =
    promote_checked (validate_record record_) record_ resolution_cycle wall_ns c
