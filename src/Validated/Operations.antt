-- ===== src/Validated/Operations.antt =====
-- The public methods of the collector of validated_coverage.py, as one type of operations.
use riscv_pipeline_research.Base.{
  ℕ, ◌≡◌, refl, arith, Bool, true, false, ◌&&◌, Option, none, some, List, [], ◌∷◌, ℤ, Outcome, ok,
  err, ltb,
}
use riscv_pipeline_research.Event.{positive}
use riscv_pipeline_research.HazardBins.History.{L1Hit}
use riscv_pipeline_research.Validated.{ResultKind, Evidence, ValidatedCollector, new_validated}
use riscv_pipeline_research.Validated.Steps.{
  try_finalize_all, register_known, register_hit, record_at, prune_at, record_evidence,
  record_architectural_result, prune, keys,
}
use riscv_pipeline_research.Validated.Balance.{IsHit, IsBalanced, new_validated-IsBalanced}
use riscv_pipeline_research.Validated.Preserved.{
  finalize_consumers-IsBalanced, try_finalize_consumer-IsBalanced, rejected-IsBalanced,
  wait-IsBalanced,
}

pub data Operation : Type 0 where
  registers : L1Hit → Bool → Operation
  records : ℤ → ResultKind → Bool → Operation
  prunes : ℤ → Operation

-- The collector after a call, also one that raises.
abbrev pub perform : Operation → ValidatedCollector → ValidatedCollector
perform (registers hit control_passed) c = (register_hit hit control_passed c).1
perform (records i kind v) c = (record_architectural_result i kind v c).1
perform (prunes latest) c = (prune latest c).1

abbrev pub perform_all : List Operation → ValidatedCollector → ValidatedCollector
perform_all [] c = c
perform_all (x ∷ xs) c = perform_all xs (perform x c)

same_counts :
    (c : ValidatedCollector) (results : List (ℕ × Evidence))
    → IsBalanced c
    → IsBalanced (record c { architectural_results = results })
same_counts c results h = record {
  sized = record {
    seen = h.sized.seen;
    attempted = h.sized.attempted;
    validated = h.sized.validated;
    rejected = h.sized.rejected;
  };
  waiting = h.waiting;
  counted = h.counted;
  flagged = h.flagged;
}

register_known-IsBalanced :
    (v : Bool) (hit : L1Hit) (c : ValidatedCollector)
    → IsHit hit
    → IsBalanced c
    → IsBalanced (register_known v hit c).1
unfolding register_known
register_known-IsBalanced false hit c fits h = rejected-IsBalanced hit c fits h
register_known-IsBalanced true hit c fits h =
    try_finalize_consumer-IsBalanced hit.consumer_instruction_index _ (wait-IsBalanced hit c fits h)

registers-IsBalanced :
    (hit : L1Hit) (v : Bool) (c : ValidatedCollector)
    → IsBalanced c
    → IsBalanced (register_hit hit v c).1
unfolding register_hit
registers-IsBalanced hit v c h = by_bin (ltb 0 hit.bin_id && ltb hit.bin_id 21) refl
  where
    known_IsHit : (ltb 0 hit.bin_id && ltb hit.bin_id 21) ≡ true → IsHit hit
    known_IsHit known = ground arith

    by_bin :
        (known : Bool)
        → (ltb 0 hit.bin_id && ltb hit.bin_id 21) ≡ known
        → IsBalanced (register_hit hit v c).1
    by_bin true known = rw known (register_known-IsBalanced v hit c (known_IsHit known) h)
    by_bin false unknown = rw unknown h

record_evidence-IsBalanced :
    (i : ℕ) (kind : ResultKind) (v : Bool) (o : Option Bool) (c : ValidatedCollector)
    → IsBalanced c
    → IsBalanced (record_evidence i kind v o c).1
unfolding try_finalize_all
record_evidence-IsBalanced i kind v none c h =
    finalize_consumers-IsBalanced (keys c.pending_by_consumer) _ (same_counts c _ h)
record_evidence-IsBalanced i kind true (some true) c h = h
record_evidence-IsBalanced i kind false (some true) c h = h
record_evidence-IsBalanced i kind true (some false) c h = h
record_evidence-IsBalanced i kind false (some false) c h = h

records-IsBalanced :
    (o : Outcome ℕ) (kind : ResultKind) (v : Bool) (c : ValidatedCollector)
    → IsBalanced c
    → IsBalanced (record_at o kind v c).1
records-IsBalanced (err e) kind v c h = h
records-IsBalanced (ok i) kind v c h = record_evidence-IsBalanced i kind v _ c h

prunes-IsBalanced :
    (o : Outcome ℕ) (c : ValidatedCollector) → IsBalanced c → IsBalanced (prune_at o c).1
unfolding prune_at
prunes-IsBalanced (err e) c h = h
prunes-IsBalanced (ok latest) c h = same_counts c _ h

pub perform-IsBalanced :
    (x : Operation) (c : ValidatedCollector) → IsBalanced c → IsBalanced (perform x c)
unfolding record_architectural_result prune
perform-IsBalanced (registers hit control_passed) c h = registers-IsBalanced hit control_passed c h
perform-IsBalanced (records i kind v) c h = records-IsBalanced (positive i) kind v c h
perform-IsBalanced (prunes latest) c h = prunes-IsBalanced (positive latest) c h

-- Whatever calls are made, raising or not: for every bin, the attempts are the validated hits, the
-- rejected hits and those that still wait for evidence, together, so that no hit is lost or judged
-- twice; a bin is seen as validated exactly if a hit for it was; and only hits for H01 to H20 wait.
pub perform_all-IsBalanced : (xs : List Operation) → IsBalanced (perform_all xs new_validated)
perform_all-IsBalanced xs = from xs new_validated new_validated-IsBalanced
  where
    from :
        (xs : List Operation) (c : ValidatedCollector)
        → IsBalanced c
        → IsBalanced (perform_all xs c)
    from [] c h = h
    from (x ∷ xs) c h = from xs (perform x c) (perform-IsBalanced x c h)
