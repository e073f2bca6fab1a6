-- ===== src/Tests/Coverage.antt =====
-- The collectors on two instructions.
use riscv_pipeline_research.Base.{ℕ, ◌<◌, ◌≡◌, refl, List, [], ◌∷◌, ok, some}
use riscv_pipeline_research.Event.{architectural_sources}
use riscv_pipeline_research.CoverageModel
use riscv_pipeline_research.CoverageModel.{Collector, L2Hit, new_collector, bin_count, l2_bin_index}
use riscv_pipeline_research.CoverageModel.Bins.{l2_bin_index_bijective}
use riscv_pipeline_research.CoverageModel.Trace.{dependencies}
use riscv_pipeline_research.CoverageModel.Tally.{
  IsConsistent, new_collector-IsConsistent, observe-IsConsistent, promote_validated-IsConsistent,
}
use riscv_pipeline_research.HazardBins
use riscv_pipeline_research.HazardBins.{new_classifier, candidates}
use riscv_pipeline_research.HazardBins.RawBins.{RawBin, IsNamed, NamesHit, test_of, recent}
use riscv_pipeline_research.HazardBins.Agreement.{test_of-Names}
use riscv_pipeline_research.HazardBins.Trace.{Follows, new_classifier-Follows, observe-passing}
use riscv_pipeline_research.HazardBins.Bins.{Classifies}
use riscv_pipeline_research.HazardBins.History.{
  L1Hit, Role, is_positive_producer, is_nearest_writer,
}
use riscv_pipeline_research.HazardBins.Predicates.{h02}
use riscv_pipeline_research.Tests.{producer, consumer}

abbrev after_producer : Collector
after_producer = (CoverageModel.observe producer new_collector).1

-- The dependency of `consumer` on `producer`.
abbrev x1_hit : L2Hit
x1_hit = record {
  bin_index = 0;
  distance = 1;
  register = 1;
  producer_instruction_index = 1;
  consumer_instruction_index = 2;
  producer_type = producer.producer_type;
  consumer_type = consumer.consumer_type;
}

two_instructions :
    dependencies (producer ∷ []) consumer (architectural_sources consumer) ≡ x1_hit ∷ []
unfolding architectural_sources
two_instructions = refl

observe-IsConsistent_example : IsConsistent after_producer
observe-IsConsistent_example =
    observe-IsConsistent producer new_collector new_collector-IsConsistent

promote_validated-IsConsistent_example :
    IsConsistent (CoverageModel.promote_validated (x1_hit ∷ []) new_collector).1
promote_validated-IsConsistent_example =
    promote_validated-IsConsistent (x1_hit ∷ []) new_collector new_collector-IsConsistent

l2_bin_index_bijective_example :
    ((distance register : ℕ)
      → l2_bin_index distance register ≡ ok 40
      → (40 < bin_count) × (distance ≡ 2) × (register ≡ 10))
    × (40 < bin_count → l2_bin_index 2 10 ≡ ok 40)
l2_bin_index_bijective_example = l2_bin_index_bijective 40

after_producer-Follows : Follows (producer ∷ []) (HazardBins.observe producer new_classifier).1
after_producer-Follows = (observe-passing [] new_classifier producer new_classifier-Follows refl).3

observe-passing_example :
    let c = (HazardBins.observe producer new_classifier).1 in
    (hits : List L1Hit) × ((HazardBins.observe consumer c).0 ≡ ok hits)
    × Classifies (recent (producer ∷ [])) consumer hits c (HazardBins.observe consumer c).1
    × Follows (consumer ∷ producer ∷ []) (HazardBins.observe consumer c).1
observe-passing_example =
    observe-passing (producer ∷ []) (HazardBins.observe producer new_classifier).1 consumer
      after_producer-Follows refl

abbrev pub h02_hit : L1Hit
h02_hit = record {
  bin_id = 2;
  consumer_instruction_index = 2;
  producer_instruction_indices = 1 ∷ [];
  matched_sources = Role.rs2 ∷ [];
}

pub h02_fires : h02 (producer ∷ []) consumer ≡ some h02_hit
unfolding h02 is_positive_producer is_nearest_writer
h02_fires = refl

-- `h02` fires exactly on the dependencies that "H02" states, here on the one of `consumer`.
-- `h02` fires exactly on the dependencies that "H02" states, here on the one of `consumer`.
-- `h02` fires exactly on the dependencies that "H02" states, here on the one of `consumer`.
-- `h02` fires exactly on the dependencies that "H02" states, here on the one of `consumer`.
test_of-Names_example :
    ((hit : L1Hit)
      → test_of RawBin.alu_d1_rs2 (recent (producer ∷ [])) consumer ≡ some hit
      → (l2 : L2Hit) × IsNamed RawBin.alu_d1_rs2 (producer ∷ []) consumer l2
        × NamesHit consumer l2 hit)
    × ((l2 : L2Hit)
        → IsNamed RawBin.alu_d1_rs2 (producer ∷ []) consumer l2
        → (hit : L1Hit) × (test_of RawBin.alu_d1_rs2 (recent (producer ∷ [])) consumer ≡ some hit))
test_of-Names_example =
    test_of-Names RawBin.alu_d1_rs2 (producer ∷ []) consumer (refl, tt) ((λ _. λ e. cc), tt)
