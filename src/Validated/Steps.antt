-- ===== src/Validated/Steps.antt =====
-- The operations of the collector of validated_coverage.py: what is finalized when a hit or a result
-- arrives, and what is pruned.
use riscv_pipeline_research.Base.{
  ℕ, ◌-◌, Bool, true, false, not, ◌&&◌, ◌||◌, Option, none, some, List, [], ◌∷◌, ◌++◌, ℤ, Outcome,
  ok, err, value_error, ltb, if◌then◌else◌, lookup, insert, erase,
}
use riscv_pipeline_research.Event.{contains, positive}
use riscv_pipeline_research.HazardBins.History.{L1Hit}
use riscv_pipeline_research.Validated.{
  ResultKind, Evidence, no_evidence, evidence_of, with_evidence, L1ValidationOutcome,
  ValidatedCollector, participant_indices, count_bin, evaluate_architecture,
}

-- The loop of `_try_finalize_consumer`: the outcomes, and the hits that are still pending.
abbrev pub Finalized : Type 0
Finalized = List L1ValidationOutcome × List L1Hit × ValidatedCollector

abbrev pub place : Option L1ValidationOutcome → L1Hit → Finalized → Finalized
place none hit (outcomes, still_pending, c) = (outcomes, hit ∷ still_pending, c)
place (some outcome) hit (outcomes, still_pending, c) = (outcome ∷ outcomes, still_pending, c)

abbrev pub finalize_hits : List L1Hit → ValidatedCollector → Finalized
finalize_hits [] c = ([], [], c)
finalize_hits (hit ∷ hits) c =
    let (result, c') = evaluate_architecture hit c in place result hit (finalize_hits hits c')

abbrev pub put_back : ℕ → List L1Hit → ValidatedCollector → ValidatedCollector
put_back consumer [] c = record c { pending_by_consumer = erase consumer c.pending_by_consumer }
put_back consumer (hit ∷ hits) c = record c {
  pending_by_consumer = insert consumer (hit ∷ hits) c.pending_by_consumer;
}

-- `_try_finalize_consumer` from the entry that it looks up.
abbrev pub finalize_entry :
    ℕ → Option (List L1Hit) → ValidatedCollector → List L1ValidationOutcome × ValidatedCollector
finalize_entry consumer none c = ([], c)
finalize_entry consumer (some []) c = ([], c)
finalize_entry consumer (some (hit ∷ hits)) c =
    let (outcomes, still_pending, c') = finalize_hits (hit ∷ hits) c in
    (outcomes, put_back consumer still_pending c')

unfoldable pub try_finalize_consumer :
    ℕ → ValidatedCollector → List L1ValidationOutcome × ValidatedCollector
try_finalize_consumer consumer c = finalize_entry consumer (lookup consumer c.pending_by_consumer) c

abbrev pub keys : List (ℕ × List L1Hit) → List ℕ
keys [] = []
keys (entry ∷ entries) = entry.0 ∷ keys entries

abbrev pub finalize_consumers :
    List ℕ → ValidatedCollector → List L1ValidationOutcome × ValidatedCollector
finalize_consumers [] c = ([], c)
finalize_consumers (consumer ∷ consumers) c =
    let (outcomes, c') = try_finalize_consumer consumer c in
    let (more, c'') = finalize_consumers consumers c' in (outcomes ++ more, c'')

unfoldable pub try_finalize_all : ValidatedCollector → List L1ValidationOutcome × ValidatedCollector
try_finalize_all c = finalize_consumers (keys c.pending_by_consumer) c

-- `setdefault(consumer, []).append(hit)`
abbrev pub wait : L1Hit → ValidatedCollector → ValidatedCollector
wait hit c = record c {
  pending_by_consumer =
      insert hit.consumer_instruction_index
        (elim (lookup hit.consumer_instruction_index c.pending_by_consumer) [
          | none ↦ hit ∷ []
          | some hits ↦ hits ++ hit ∷ []
        ])
        c.pending_by_consumer;
}

abbrev pub rejected_outcome : L1Hit → L1ValidationOutcome
rejected_outcome hit = record {
  bin_id = hit.bin_id;
  consumer_instruction_index = hit.consumer_instruction_index;
  producer_instruction_indices = hit.producer_instruction_indices;
  control_passed = false;
  architectural_passed = none;
  validated = false;
  failed_architectural_checks = [];
}

abbrev pub attempt : L1Hit → ValidatedCollector → ValidatedCollector
attempt hit c = record c {
  validation_attempt_count = count_bin c.validation_attempt_count hit.bin_id;
}

-- `register_hit` for a bin that is known.
unfoldable pub register_known :
    Bool → L1Hit → ValidatedCollector → Outcome (List L1ValidationOutcome) × ValidatedCollector
unfolding try_finalize_consumer
register_known false hit c = (
  ok (rejected_outcome hit ∷ []),
  record (attempt hit c) { rejected_hit_count = count_bin c.rejected_hit_count hit.bin_id },
)
register_known true hit c =
    let (outcomes, c') =
      try_finalize_consumer hit.consumer_instruction_index (wait hit (attempt hit c)) in
    (ok outcomes, c')

unfoldable pub register_hit :
    L1Hit → Bool → ValidatedCollector → Outcome (List L1ValidationOutcome) × ValidatedCollector
unfolding register_known
register_hit hit control_passed c =
    if not (ltb 0 hit.bin_id && ltb hit.bin_id 21)
    then (err value_error, c)
    else register_known control_passed hit c

abbrev pub evidence_at : ℕ → List (ℕ × Evidence) → Evidence
evidence_at i results = elim (lookup i results) [ none ↦ no_evidence | some e ↦ e ]

-- The end of `record_architectural_result`, by the evidence of the kind that is there.
abbrev pub record_evidence :
    ℕ
    → ResultKind
    → Bool
    → Option Bool
    → ValidatedCollector
    → Outcome (List L1ValidationOutcome) × ValidatedCollector
record_evidence i kind v (some previous) c =
    if (previous && not v) || (not previous && v) then (err value_error, c) else (ok [], c)
record_evidence i kind v none c =
    let (outcomes, c') = try_finalize_all (record c {
      architectural_results =
          insert i (with_evidence kind v (evidence_at i c.architectural_results))
            c.architectural_results;
    }) in
    (ok outcomes, c')

-- The call once the index is checked. The entry is made, empty, before the kind is looked up.
abbrev pub record_at :
    Outcome ℕ
    → ResultKind
    → Bool
    → ValidatedCollector
    → Outcome (List L1ValidationOutcome) × ValidatedCollector
record_at (err e) kind v c = (err e, c)
record_at (ok i) kind v c =
    record_evidence i kind v (evidence_of kind (evidence_at i c.architectural_results)) c

unfoldable pub record_architectural_result :
    ℤ
    → ResultKind
    → Bool
    → ValidatedCollector
    → Outcome (List L1ValidationOutcome) × ValidatedCollector
record_architectural_result instruction_index kind passed c =
    record_at (positive instruction_index) kind passed c

unfoldable pub retained_by : List L1Hit → List ℕ
unfolding participant_indices
retained_by [] = []
retained_by (hit ∷ hits) = participant_indices hit ++ retained_by hits

-- `retained_by_pending`, as a list.
unfoldable pub retained : List (ℕ × List L1Hit) → List ℕ
unfolding retained_by
retained [] = []
retained (entry ∷ entries) = retained_by entry.1 ++ retained entries

-- The loop of `prune` over the entries, with the keys that stay.
abbrev pub prune_entries : (ℕ → Bool) → List (ℕ × Evidence) → List (ℕ × Evidence)
prune_entries stays [] = []
prune_entries stays (entry ∷ entries) =
    if stays entry.0 then entry ∷ prune_entries stays entries else prune_entries stays entries

-- `max(1, latest_instruction_index - 4)`
abbrev pub oldest_recent : ℕ → ℕ
oldest_recent latest = if ltb 1 (latest - 4) then latest - 4 else 1

-- The keys that stay.
unfoldable pub stays : ℕ → ValidatedCollector → ℕ → Bool
unfolding retained
stays latest c i =
    not (ltb i (oldest_recent latest) && not (contains (retained c.pending_by_consumer) i))

unfoldable pub prune_at : Outcome ℕ → ValidatedCollector → Outcome (Unit {0}) × ValidatedCollector
unfolding stays
prune_at (err e) c = (err e, c)
prune_at (ok latest) c = (
  ok tt,
  record c { architectural_results = prune_entries (stays latest c) c.architectural_results },
)

unfoldable pub prune : ℤ → ValidatedCollector → Outcome (Unit {0}) × ValidatedCollector
unfolding prune_at
prune latest_instruction_index c = prune_at (positive latest_instruction_index) c
