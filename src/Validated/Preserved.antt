-- ===== src/Validated/Preserved.antt =====
-- Every operation of the collector of validated_coverage.py keeps its counters balanced.
use riscv_pipeline_research.Base.{
  ℕ, ◌+◌, ◌-◌, ◌≡◌, refl, ap, sym, ◌∙◌, subst, arith, Option, none, some, List, [], ◌∷◌, ◌++◌,
  get_or, lookup, insert, erase, length-set, get_or-set,
}
use riscv_pipeline_research.HazardBins.History.{L1Hit}
use riscv_pipeline_research.Validated.{ValidatedCollector, count_bin}
use riscv_pipeline_research.Validated.Steps.{
  put_back, finalize_entry, try_finalize_consumer, finalize_consumers, wait, attempt,
}
use riscv_pipeline_research.Validated.Balance.{
  IsHit, pending_in, pending_of, IsBalanced, Settles, finalize_hits-Settles,
}
use riscv_pipeline_research.Validated.Entries.{
  IsWaiting, lookup-waiting, insert-IsWaiting, erase-IsWaiting, pending_of-insert,
  pending_of-insert_new, pending_of-erase, pending_in-append, waiting-append,
}

put_back-IsBalanced :
    (k : ℕ) (before still : List L1Hit) (c c' : ValidatedCollector)
    → IsBalanced c
    → lookup k c.pending_by_consumer ≡ some before
    → Settles before still c c'
    → IsBalanced (put_back k still c')
put_back-IsBalanced k before [] c c' h found s = record {
  sized = record {
    seen = s.sized.seen;
    attempted = s.sized.attempted;
    validated = s.sized.validated;
    rejected = s.sized.rejected;
  };
  waiting =
      subst (λ e. IsWaiting (erase k e)) (sym s.entries)
        (erase-IsWaiting k c.pending_by_consumer h.waiting);
  counted = λ b. omega (
    arith,
    ap (λ a. get_or a b 0) s.attempted,
    h.counted b,
    s.counted b,
    ap (λ e. pending_of b (erase k e)) s.entries,
    pending_of-erase k b c.pending_by_consumer before found,
  );
  flagged = λ b. s.flagged b (h.flagged b);
}
put_back-IsBalanced k before (hit ∷ hits) c c' h found s = record {
  sized = record {
    seen = s.sized.seen;
    attempted = s.sized.attempted;
    validated = s.sized.validated;
    rejected = s.sized.rejected;
  };
  waiting =
      subst (λ e. IsWaiting (insert k (hit ∷ hits) e)) (sym s.entries)
        (insert-IsWaiting k c.pending_by_consumer (hit ∷ hits) h.waiting s.waiting);
  counted = λ b. omega (
    arith,
    ap (λ a. get_or a b 0) s.attempted,
    h.counted b,
    s.counted b,
    ap (λ e. pending_of b (insert k (hit ∷ hits) e)) s.entries,
    pending_of-insert k b c.pending_by_consumer before (hit ∷ hits) found,
  );
  flagged = λ b. s.flagged b (h.flagged b);
}

finalize_entry-IsBalanced :
    (k : ℕ) (o : Option (List L1Hit)) (c : ValidatedCollector)
    → lookup k c.pending_by_consumer ≡ o
    → IsBalanced c
    → IsBalanced (finalize_entry k o c).1
finalize_entry-IsBalanced k none c found h = h
finalize_entry-IsBalanced k (some []) c found h = h
finalize_entry-IsBalanced k (some (hit ∷ hits)) c found h =
    put_back-IsBalanced k (hit ∷ hits) _ c _ h found (
      finalize_hits-Settles (hit ∷ hits) c
        (lookup-waiting k c.pending_by_consumer (hit ∷ hits) h.waiting found) h.sized)

pub try_finalize_consumer-IsBalanced :
    (k : ℕ) (c : ValidatedCollector) → IsBalanced c → IsBalanced (try_finalize_consumer k c).1
unfolding try_finalize_consumer
try_finalize_consumer-IsBalanced k c h =
    finalize_entry-IsBalanced k (lookup k c.pending_by_consumer) c refl h

pub finalize_consumers-IsBalanced :
    (ks : List ℕ) (c : ValidatedCollector) → IsBalanced c → IsBalanced (finalize_consumers ks c).1
finalize_consumers-IsBalanced [] c h = h
finalize_consumers-IsBalanced (k ∷ ks) c h =
    finalize_consumers-IsBalanced ks (try_finalize_consumer k c).1
      (try_finalize_consumer-IsBalanced k c h)

pub rejected-IsBalanced :
    (hit : L1Hit) (c : ValidatedCollector)
    → IsHit hit
    → IsBalanced c
    → IsBalanced
        (record (attempt hit c) { rejected_hit_count = count_bin c.rejected_hit_count hit.bin_id })
rejected-IsBalanced hit c fits h = record {
  sized = record {
    seen = h.sized.seen;
    attempted = length-set c.validation_attempt_count (hit.bin_id - 1) _ ∙ h.sized.attempted;
    validated = h.sized.validated;
    rejected = length-set c.rejected_hit_count (hit.bin_id - 1) _ ∙ h.sized.rejected;
  };
  waiting = h.waiting;
  counted = λ b. ground (
    arith,
    h.counted b,
    h.sized.attempted,
    h.sized.rejected,
    get_or-set c.validation_attempt_count (hit.bin_id - 1) b
        (get_or c.validation_attempt_count (hit.bin_id - 1) 0 + 1) 0,
    get_or-set c.rejected_hit_count (hit.bin_id - 1) b
        (get_or c.rejected_hit_count (hit.bin_id - 1) 0 + 1) 0,
  );
  flagged = h.flagged;
}

pub wait-IsBalanced :
    (hit : L1Hit) (c : ValidatedCollector)
    → IsHit hit
    → IsBalanced c
    → IsBalanced (wait hit (attempt hit c))
wait-IsBalanced hit c fits h = record {
  sized = record {
    seen = h.sized.seen;
    attempted = length-set c.validation_attempt_count (hit.bin_id - 1) _ ∙ h.sized.attempted;
    validated = h.sized.validated;
    rejected = h.sized.rejected;
  };
  waiting = (waited (lookup hit.consumer_instruction_index c.pending_by_consumer) refl).0;
  counted = λ b. ground (
    arith,
    h.counted b,
    h.sized.attempted,
    get_or-set c.validation_attempt_count (hit.bin_id - 1) b
        (get_or c.validation_attempt_count (hit.bin_id - 1) 0 + 1) 0,
    (waited (lookup hit.consumer_instruction_index c.pending_by_consumer) refl).1 b,
  );
  flagged = h.flagged;
}
  where
    queue : Option (List L1Hit) → List L1Hit
    queue o = elim o [ none ↦ hit ∷ [] | some hits ↦ hits ++ hit ∷ [] ]

    waited :
        (o : Option (List L1Hit))
        → lookup hit.consumer_instruction_index c.pending_by_consumer ≡ o
        → IsWaiting (insert hit.consumer_instruction_index (queue o) c.pending_by_consumer)
          × ((b : ℕ)
              → pending_of b (insert hit.consumer_instruction_index (queue o) c.pending_by_consumer)
                ≡ pending_of b c.pending_by_consumer + pending_in b (hit ∷ []))
    waited none found = (
      insert-IsWaiting hit.consumer_instruction_index c.pending_by_consumer (hit ∷ []) h.waiting
          (fits, tt),
      λ b.
          pending_of-insert_new hit.consumer_instruction_index b c.pending_by_consumer (hit ∷ [])
            found,
    )
    waited (some hits) found = (
      insert-IsWaiting hit.consumer_instruction_index c.pending_by_consumer (hits ++ hit ∷ [])
          h.waiting
          (waiting-append hits (hit ∷ [])
            (lookup-waiting hit.consumer_instruction_index c.pending_by_consumer hits h.waiting
              found)
            (fits, tt)),
      λ b. omega (
        arith,
        pending_in-append b hits (hit ∷ []),
        pending_of-insert hit.consumer_instruction_index b c.pending_by_consumer hits
            (hits ++ hit ∷ []) found,
      ),
    )
