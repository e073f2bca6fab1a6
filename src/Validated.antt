-- ===== src/Validated.antt =====
-- The promotion of L1 hits, `L1ValidatedCoverageCollector` of
-- research/week5/impl/validated_coverage.py.
pub mod Steps
pub mod Balance
pub mod Gate
pub mod Entries
pub mod Preserved
pub mod Operations
pub mod Pruning
use riscv_pipeline_research.Base.{
  ℕ, ◌+◌, ◌-◌, Bool, true, false, not, ◌&&◌, ◌||◌, Option, none, some, List, [], ◌∷◌, ◌++◌, map, ℤ,
  Outcome, ok, err, value_error, raise_if, ◌==◌, ltb, leb, if◌then◌else◌, length, get_or, set,
  replicate, lookup, insert, erase,
}
use riscv_pipeline_research.Event.{contains, positive}
use riscv_pipeline_research.CoverageModel.{count_true}
use riscv_pipeline_research.HazardBins.History.{L1Hit}

pub data ResultKind : Type 0 where
  pc store writeback x0 : ResultKind

-- The dictionary of the results of one instruction, by kind.
pub record Evidence : Type 0 where
  pub pc : Option Bool
  pub store : Option Bool
  pub writeback : Option Bool
  pub x0 : Option Bool

abbrev pub no_evidence : Evidence
no_evidence = record { pc = none; store = none; writeback = none; x0 = none }

abbrev pub evidence_of : ResultKind → Evidence → Option Bool
evidence_of ResultKind.pc e = e.pc
evidence_of ResultKind.store e = e.store
evidence_of ResultKind.writeback e = e.writeback
evidence_of ResultKind.x0 e = e.x0

abbrev pub with_evidence : ResultKind → Bool → Evidence → Evidence
with_evidence ResultKind.pc v e = record e { pc = some v }
with_evidence ResultKind.store v e = record e { store = some v }
with_evidence ResultKind.writeback v e = record e { writeback = some v }
with_evidence ResultKind.x0 v e = record e { x0 = some v }

pub record L1ValidationOutcome : Type 0 where
  pub bin_id : ℕ
  pub consumer_instruction_index : ℕ
  pub producer_instruction_indices : List ℕ
  pub control_passed : Bool
  pub architectural_passed : Option Bool
  pub validated : Bool
  pub failed_architectural_checks : List (ℕ × ResultKind)

-- The four dictionaries over the bins are lists in the order of the bins.
pub record ValidatedCollector : Type 0 where
  pub validated_seen : List Bool
  pub validation_attempt_count : List ℕ
  pub validated_hit_count : List ℕ
  pub rejected_hit_count : List ℕ
  pub architectural_results : List (ℕ × Evidence)
  pub pending_by_consumer : List (ℕ × List L1Hit)

-- `__init__`, and `reset`, which assigns the same values.
abbrev pub new_validated : ValidatedCollector
new_validated = record {
  validated_seen = replicate 20 false;
  validation_attempt_count = replicate 20 0;
  validated_hit_count = replicate 20 0;
  rejected_hit_count = replicate 20 0;
  architectural_results = [];
  pending_by_consumer = [];
}

unfoldable pub validated_bins : ValidatedCollector → ℕ
validated_bins c = count_true c.validated_seen

abbrev pub hits_in : List (ℕ × List L1Hit) → ℕ
hits_in [] = 0
hits_in (entry ∷ entries) = length entry.1 + hits_in entries

unfoldable pub pending_hits : ValidatedCollector → ℕ
pending_hits c = hits_in c.pending_by_consumer

abbrev pub total : List ℕ → ℕ
total [] = 0
total (n ∷ ns) = n + total ns

unfoldable pub rejected_hits : ValidatedCollector → ℕ
rejected_hits c = total c.rejected_hit_count

unfoldable pub architectural_cache_entries : ValidatedCollector → ℕ
architectural_cache_entries c = length c.architectural_results

-- The loop of `_participant_indices`; `ordered` is the list of the same name.
abbrev pub distinct : List ℕ → List ℕ → List ℕ
distinct [] ordered = ordered
distinct (i ∷ indices) ordered =
    if contains ordered i then distinct indices ordered else distinct indices (ordered ++ i ∷ [])

unfoldable pub participant_indices : L1Hit → List ℕ
participant_indices hit =
    distinct (hit.producer_instruction_indices ++ hit.consumer_instruction_index ∷ []) []

abbrev pub kinds_of : ℕ → List ResultKind
kinds_of bin_id =
    let base = ResultKind.pc ∷ ResultKind.store ∷ ResultKind.writeback ∷ [] in
    if (bin_id == 18) || (bin_id == 19) then base ++ ResultKind.x0 ∷ [] else base

abbrev pub with_kinds : List ℕ → List ResultKind → List (ℕ × ResultKind)
with_kinds [] kinds = []
with_kinds (i ∷ indices) kinds = map (λ kind. (i, kind)) kinds ++ with_kinds indices kinds

unfoldable pub required_checks : L1Hit → List (ℕ × ResultKind)
unfolding participant_indices
required_checks hit = with_kinds (participant_indices hit) (kinds_of hit.bin_id)

-- The evidence for one required check, if it is there.
abbrev pub evidence_for : List (ℕ × Evidence) → ℕ × ResultKind → Option Bool
evidence_for results required = elim (lookup required.0 results) [
  | none ↦ none
  | some e ↦ evidence_of required.1 e
]

-- `missing`, as a test.
abbrev pub is_missing : List (ℕ × Evidence) → List (ℕ × ResultKind) → Bool
is_missing results [] = false
is_missing results (required ∷ checks) = elim (evidence_for results required) [
  | none ↦ true
  | some v ↦ is_missing results checks
]

-- `failed`
abbrev pub failed_in : List (ℕ × Evidence) → List (ℕ × ResultKind) → List (ℕ × ResultKind)
failed_in results [] = []
failed_in results (required ∷ checks) = elim (evidence_for results required) [
  | some false ↦ required ∷ failed_in results checks
  | _ ↦ failed_in results checks
]

abbrev pub is_nil : List (ℕ × ResultKind) → Bool
is_nil [] = true
is_nil (x ∷ xs) = false

-- `counts[bin_id] += 1`
abbrev pub count_bin : List ℕ → ℕ → List ℕ
count_bin counts bin_id = set counts (bin_id - 1) (get_or counts (bin_id - 1) 0 + 1)

abbrev pub outcome_of : L1Hit → List (ℕ × ResultKind) → L1ValidationOutcome
outcome_of hit failed = record {
  bin_id = hit.bin_id;
  consumer_instruction_index = hit.consumer_instruction_index;
  producer_instruction_indices = hit.producer_instruction_indices;
  control_passed = true;
  architectural_passed = some (is_nil failed);
  validated = is_nil failed;
  failed_architectural_checks = failed;
}

-- `_evaluate_architecture` once nothing is missing: the counters.
abbrev pub settle : L1Hit → Bool → ValidatedCollector → ValidatedCollector
settle hit true c = record c {
  validated_hit_count = count_bin c.validated_hit_count hit.bin_id;
  validated_seen = set c.validated_seen (hit.bin_id - 1) true;
}
settle hit false c = record c { rejected_hit_count = count_bin c.rejected_hit_count hit.bin_id }

unfoldable pub evaluate_architecture :
    L1Hit → ValidatedCollector → Option L1ValidationOutcome × ValidatedCollector
unfolding required_checks
evaluate_architecture hit c =
    let failed = failed_in c.architectural_results (required_checks hit) in
    if is_missing c.architectural_results (required_checks hit)
    then (none, c)
    else (some (outcome_of hit failed), settle hit (is_nil failed) c)
