-- ===== src/Tests/Campaign.antt =====
-- An epoch of arm A1 with the target x5 at distance 2.
use riscv_pipeline_research.Base.{
  ℕ, ◌≤◌, ◌≡◌, refl, arith, false, none, some, List, [], ◌∷◌, ok, err, runtime_error, pos, length,
}
use riscv_pipeline_research.Adaptive.Templates.{ArmId, Distance, get_template}
use riscv_pipeline_research.Adaptive.Reward.{
  IntentBin, TargetSelection, Tracker, EpochRewardResult, new_tracker, attribution_targets_for,
  intent_bin, record_intent_hit, record_attributable_intent_hit, finalize, epoch_result, same_bin,
}
use riscv_pipeline_research.Adaptive.Reward.Epoch.{
  Hit, seen, attributed, after, Rewards, finalize-Rewards,
}
use riscv_pipeline_research.Adaptive.Reward.Bounds.{target_count, finalize-closes, finalize-bounded}

abbrev x5 : IntentBin
x5 = record { distance = Distance.d2; register = 5 }

abbrev x6 : IntentBin
x6 = record { distance = Distance.d1; register = 6 }

abbrev target : TargetSelection
target = record { d1 = none; d2 = some 5 }

abbrev tracker : Tracker
tracker = record {
  arm_id = ArmId.a1;
  attributable_targets = x5 ∷ [];
  covered_at_epoch_start = [];
  observed_intent_bins = [];
  attributable_observed_intent_bins = [];
  finalized = false;
}

tracker-made : new_tracker ArmId.a1 target [] ≡ ok tracker
unfolding new_tracker attribution_targets_for intent_bin get_template
tracker-made = refl

abbrev hits : List Hit
hits = seen x6 ∷ attributed x5 ∷ attributed x6 ∷ attributed x5 ∷ []

-- A division for the tests: the dividend alone.
abbrev dividend : ℕ → ℕ → ℕ
dividend a b = a

abbrev result : EpochRewardResult ℕ
result = epoch_result dividend (after hits tracker) 20

finalized-ok : (finalize dividend (pos 20) (after hits tracker)).0 ≡ ok result
unfolding finalize record_intent_hit record_attributable_intent_hit same_bin
finalized-ok = refl

one_thousand : result.reward ≡ 1000
unfolding record_intent_hit record_attributable_intent_hit same_bin
one_thousand = refl

finalize-Rewards_example :
    (r : EpochRewardResult ℕ) × ((finalize dividend (pos 20) (after hits tracker)).0 ≡ ok r)
    × Rewards dividend ArmId.a1 (x5 ∷ []) [] hits 20 r
finalize-Rewards_example =
    finalize-Rewards dividend ArmId.a1 target [] tracker hits 20 tracker-made (omega arith)

finalize-bounded_example :
    length result.attributable_new_intent_bins ≤ target_count (get_template ArmId.a1).distance
finalize-bounded_example =
    finalize-bounded dividend ArmId.a1 target [] tracker hits (pos 20) result tracker-made
      finalized-ok

finalize-closes_example :
    let closed = (finalize dividend (pos 20) (after hits tracker)).1 in
    (record_intent_hit x5 closed ≡ (err runtime_error, closed))
    × (record_attributable_intent_hit x5 closed ≡ (err runtime_error, closed))
    × (finalize dividend (pos 20) closed ≡ (err runtime_error, closed))
finalize-closes_example =
    finalize-closes dividend (after hits tracker) (pos 20) (pos 20) x5 result finalized-ok
