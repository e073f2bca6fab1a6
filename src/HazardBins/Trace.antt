-- ===== src/HazardBins/Trace.antt =====
-- The classifier against the executed program: what it remembers, and what `observe` returns.
use riscv_pipeline_research.Base.{
  ◌+◌, ◌≡◌, refl, ap, ◌∙◌, true, List, [], ◌∷◌, ok, arith, length, length-set, ◌==◌,
}
use riscv_pipeline_research.Event.{ExecutionEvent}
use riscv_pipeline_research.CoverageModel.Trace.{IsNumbered}
use riscv_pipeline_research.HazardBins.{
  Classifier, new_classifier, candidates, count_hit, add_hits, remember, observe,
}
use riscv_pipeline_research.HazardBins.History.{L1Hit}
use riscv_pipeline_research.HazardBins.RawBins.{recent}
use riscv_pipeline_research.HazardBins.Order.{
  passing, count_hits, add_hits-passing, candidates-IsOrdered,
}
use riscv_pipeline_research.HazardBins.Bins.{Classifies, IsSized, candidates-Classifies}

-- The classifier has seen exactly this trace.
pub record Follows (trace : List ExecutionEvent) (c : Classifier) : Type 0 where
  pub numbered : IsNumbered trace
  pub in_step : c.last_instruction_index ≡ length trace
  pub latest : c.history ≡ recent trace
  pub sized : IsSized c

pub new_classifier-Follows : Follows [] new_classifier
new_classifier-Follows = record {
  numbered = tt;
  in_step = refl;
  latest = refl;
  sized = (refl, refl);
}

remember-recent :
    (event : ExecutionEvent) (trace : List ExecutionEvent)
    → remember event (recent trace) ≡ recent (event ∷ trace)
remember-recent event [] = refl
remember-recent event (a ∷ []) = refl
remember-recent event (a ∷ b ∷ []) = refl
remember-recent event (a ∷ b ∷ c ∷ trace) = refl

count_hits-history : (hits : List L1Hit) (c : Classifier) → (count_hits hits c).history ≡ c.history
unfolding count_hits count_hit
count_hits-history [] c = refl
count_hits-history (hit ∷ hits) c = count_hits-history hits (count_hit hit.bin_id c)

count_hits-IsSized : (hits : List L1Hit) (c : Classifier) → IsSized c → IsSized (count_hits hits c)
unfolding count_hits count_hit
count_hits-IsSized [] c sized = sized
count_hits-IsSized (hit ∷ hits) c sized =
    count_hits-IsSized hits (count_hit hit.bin_id c)
      (length-set c.intent_hit_count _ _ ∙ sized.0, length-set c.intent_seen _ _ ∙ sized.1)

-- The next event of the program makes a hit for each of the twenty bins whose test passes over the
-- last three events of the trace, and for no other: the hits stand in the order of the bins, no bin
-- twice. Each such bin is counted once more and is seen, every other bin keeps its count and its
-- flag, and the classifier then remembers the longer trace.
pub observe-passing :
    (trace : List ExecutionEvent) (c : Classifier) (event : ExecutionEvent)
    → Follows trace c
    → event.instruction_index ≡ length trace + 1
    → (hits : List L1Hit) × ((observe event c).0 ≡ ok hits)
      × Classifies (recent trace) event hits c (observe event c).1
      × Follows (event ∷ trace) (observe event c).1
unfolding observe
observe-passing trace c event f next =
    rw (in_order, tested)
      (
        hits,
        refl,
        record {
          made = classified.made;
          in_order = classified.in_order;
          count = classified.count;
          seen = classified.seen;
        },
        record {
          numbered = (next, f.numbered);
          in_step = omega (arith, next);
          latest =
              ap (remember event) (count_hits-history hits c ∙ f.latest)
              ∙ remember-recent event trace;
          sized = count_hits-IsSized hits c f.sized;
        },
      )
  where
    hits : List L1Hit
    hits = passing (candidates (recent trace) event)

    in_order : (event.instruction_index == c.last_instruction_index + 1) ≡ true
    in_order = ground (arith, next, f.in_step)

    tested : add_hits (candidates c.history event) [] [] c ≡ (hits, count_hits hits c)
    tested =
        ap (λ (h : List ExecutionEvent). add_hits (candidates h event) [] [] c) f.latest
        ∙ add_hits-passing (candidates (recent trace) event) 1 [] [] c
            (candidates-IsOrdered (recent trace) event) tt

    classified : Classifies (recent trace) event hits c (count_hits hits c)
    classified = candidates-Classifies (recent trace) event c f.sized
