-- ===== src/CoverageModel/Tally.antt =====
-- The seen flags and the counters of the collector of coverage_model.py.
use riscv_pipeline_research.Base.{
  ℕ, ◌+◌, ◌<◌, ◌≡◌, refl, ◌∙◌, true, false, ltb, Option, none, some, List, [], ◌∷◌, ◌++◌, Outcome,
  ok, err, inl, inr, arith, get_or, length, get_or-set, get_or-replicate, length-set, ◌==◌,
  Bool-cases,
}
use riscv_pipeline_research.Event.{ExecutionEvent, architectural_sources, contains}
use riscv_pipeline_research.CoverageModel.{
  L2Hit, WriterRecord, l2_bin_index, Collector, new_collector, bin_count, source_hit,
  observe_sources, observe, note_writer, count_intent, count_validated, promote_hits,
  promote_validated,
}

-- What holds of one bin.
pub record IsCounted (c : Collector) (i : ℕ) : Type 0 where
  pub intent : get_or c.intent_seen i false ≡ ltb 0 (get_or c.intent_hit_count i 0)
  pub validated : get_or c.validated_seen i false ≡ ltb 0 (get_or c.validated_hit_count i 0)
  pub seen_first : get_or c.validated_seen i false ≡ true → get_or c.intent_seen i false ≡ true

pub record IsConsistent (c : Collector) : Type 0 where
  pub intent_flags : length c.intent_seen ≡ bin_count
  pub intent_counts : length c.intent_hit_count ≡ bin_count
  pub validated_flags : length c.validated_seen ≡ bin_count
  pub validated_counts : length c.validated_hit_count ≡ bin_count
  pub bins : (i : ℕ) → IsCounted c i

pub new_collector-IsConsistent : IsConsistent new_collector
new_collector-IsConsistent = record {
  intent_flags = refl;
  intent_counts = refl;
  validated_flags = refl;
  validated_counts = refl;
  bins = λ i. ground (arith, get_or-replicate 62 i false, get_or-replicate {A = ℕ} 62 i 0);
}

count_intent-IsConsistent :
    (c : Collector) (index : ℕ)
    → index < bin_count
    → IsConsistent c
    → IsConsistent (count_intent index c)
unfolding count_intent
count_intent-IsConsistent c index fits h = record {
  intent_flags = length-set c.intent_seen index true ∙ h.intent_flags;
  intent_counts = length-set c.intent_hit_count index _ ∙ h.intent_counts;
  validated_flags = h.validated_flags;
  validated_counts = h.validated_counts;
  bins = λ i. ground (
    arith,
    h.bins i,
    h.intent_flags,
    h.intent_counts,
    get_or-set c.intent_seen index i true false,
    get_or-set c.intent_hit_count index i (get_or c.intent_hit_count index 0 + 1) 0,
  );
}

count_validated-IsConsistent :
    (c : Collector) (index : ℕ)
    → index < bin_count
    → get_or c.intent_seen index false ≡ true
    → IsConsistent c
    → IsConsistent (count_validated index c)
unfolding count_validated
count_validated-IsConsistent c index fits seen h = record {
  intent_flags = h.intent_flags;
  intent_counts = h.intent_counts;
  validated_flags = length-set c.validated_seen index true ∙ h.validated_flags;
  validated_counts = length-set c.validated_hit_count index _ ∙ h.validated_counts;
  bins = λ i. ground (
    arith,
    seen,
    h.bins i,
    h.validated_flags,
    h.validated_counts,
    get_or-set c.validated_seen index i true false,
    get_or-set c.validated_hit_count index i (get_or c.validated_hit_count index 0 + 1) 0,
  );
}

-- The bins that `source_hit` makes are in range.
source_hit-lt :
    (event : ExecutionEvent) (writers : List (Option WriterRecord)) (r : ℕ) (hit : L2Hit)
    → source_hit event writers r ≡ ok (some hit)
    → hit.bin_index < bin_count
unfolding source_hit l2_bin_index
source_hit-lt event writers r hit h = ground arith

-- One round of the loop of `observe`, given the later rounds.
observe_round-IsConsistent :
    (event : ExecutionEvent) (r : ℕ) (sources indices : List ℕ) (hits : List L2Hit) (c : Collector)
    → IsConsistent c
    → ((indices : List ℕ) (hits : List L2Hit) (c : Collector)
        → IsConsistent c
        → IsConsistent (observe_sources event sources indices hits c).1)
    → (o : Outcome (Option L2Hit)) → source_hit event c.last_writer r ≡ o
    → IsConsistent (observe_sources event (r ∷ sources) indices hits c).1
unfolding observe_sources
observe_round-IsConsistent event r sources indices hits c h later (err _) e =
    rw (e, observe_sources) h
observe_round-IsConsistent event r sources indices hits c h later (ok none) e =
    rw (e, observe_sources) (later indices hits c h)
observe_round-IsConsistent event r sources indices hits c h later (ok (some hit)) e =
    elim (Bool-cases (contains indices hit.bin_index)) [
      | inl old ↦ rw (e, old, observe_sources) (later indices hits c h)
      | inr new ↦
          rw (e, new, observe_sources)
            (later (hit.bin_index ∷ indices) (hits ++ hit ∷ []) (count_intent hit.bin_index c) (
              count_intent-IsConsistent c hit.bin_index (source_hit-lt event c.last_writer r hit e)
                h))
    ]

observe_sources-IsConsistent :
    (event : ExecutionEvent) (sources indices : List ℕ) (hits : List L2Hit) (c : Collector)
    → IsConsistent c
    → IsConsistent (observe_sources event sources indices hits c).1
observe_sources-IsConsistent event [] indices hits c h = unfold observe_sources in h
observe_sources-IsConsistent event (r ∷ sources) indices hits c h =
    observe_round-IsConsistent event r sources indices hits c h
      (λ indices hits c h. observe_sources-IsConsistent event sources indices hits c h)
      (source_hit event c.last_writer r) refl

note_writer-IsConsistent :
    (event : ExecutionEvent) (c : Collector) → IsConsistent c → IsConsistent (note_writer event c)
unfolding note_writer
note_writer-IsConsistent event c h = record {
  intent_flags = h.intent_flags;
  intent_counts = h.intent_counts;
  validated_flags = h.validated_flags;
  validated_counts = h.validated_counts;
  bins = λ i. ground (arith, h.bins i);
}

-- Observing an event keeps the tallies, whether it is accepted or raises.
pub observe-IsConsistent :
    (event : ExecutionEvent) (c : Collector) → IsConsistent c → IsConsistent (observe event c).1
unfolding observe
observe-IsConsistent event c h =
    elim (Bool-cases (event.instruction_index == c.last_instruction_index + 1)) [
      | inl next ↦ rw next (
          accepted (observe_sources event (architectural_sources event) [] [] c)
            (observe_sources-IsConsistent event (architectural_sources event) [] [] c h))
      | inr gap ↦ rw gap h
    ]
  where
    accepted :
        (r : Outcome (List L2Hit) × Collector)
        → IsConsistent r.1
        → IsConsistent
            (elim r.0 as (λ _. Outcome (List L2Hit) × Collector) [
              | err e ↦ (err e, r.1)
              | ok hits ↦ (ok hits, note_writer event r.1)
            ]).1
    accepted (err e, c') valid = valid
    accepted (ok hits, c') valid = note_writer-IsConsistent event c' valid

promote_hits-IsConsistent :
    (hits : List L2Hit) (seen : List ℕ) (c : Collector)
    → IsConsistent c
    → IsConsistent (promote_hits hits seen c).1
unfolding promote_hits
promote_hits-IsConsistent [] seen c h = h
promote_hits-IsConsistent (hit ∷ hits) seen c h = ground (
  arith,
  promote_hits-IsConsistent hits seen c h,
  count_validated-IsConsistent c hit.bin_index,
  promote_hits-IsConsistent hits (hit.bin_index ∷ seen) (count_validated hit.bin_index c),
)

-- Promoting hits keeps the tallies, also where it raises in the middle of the list: no bin is
-- ever validated before it has been seen.
pub promote_validated-IsConsistent :
    (hits : List L2Hit) (c : Collector) → IsConsistent c → IsConsistent (promote_validated hits c).1
unfolding promote_validated
promote_validated-IsConsistent hits c h = promote_hits-IsConsistent hits [] c h
