-- ===== src/Adaptive/Reward.antt =====
-- The reward of an epoch, research/week10/adaptive/reward_engine.py, with `TargetSelection` of
-- research/week10/adaptive/register_policy.py. A set is a list that `add_bin` keeps free of
-- repetitions.
pub mod Bins
pub mod Epoch
pub mod Bounds
use riscv_pipeline_research.Base.{
  ℕ, ◌*◌, Bool, true, false, not, ◌&&◌, ◌||◌, Option, none, some, List, [], ◌∷◌, ℤ, pos, Outcome,
  ok, err, Error, value_error, runtime_error, require, raise_if, ◌>>=◌, ◌>>◌, length, leb, ◌==◌,
  if◌then◌else◌,
}
use riscv_pipeline_research.Event.{bounded, positive}
use riscv_pipeline_research.Adaptive.Templates.{ArmId, Distance, TemplateSpec, get_template}

pub record IntentBin : Type 0 where
  pub distance : Distance
  pub register : ℕ

-- `POSITIVE_REGISTERS`
abbrev pub is_positive_register : ℕ → Bool
is_positive_register register = leb 1 register && leb register 31

-- `L2IntentBin(…)` with its `__post_init__`.
unfoldable pub intent_bin : Distance → ℕ → Outcome IntentBin
intent_bin Distance.d1_d2 register = err value_error
intent_bin distance register = do
  require (is_positive_register register) value_error
  ok (record { distance = distance; register = register })

abbrev pub distance_code : Distance → ℕ
distance_code Distance.d1 = 1
distance_code Distance.d2 = 2
distance_code Distance.d1_d2 = 3

-- The equality of the frozen dataclass.
unfoldable pub same_bin : IntentBin → IntentBin → Bool
same_bin a b = distance_code a.distance == distance_code b.distance && a.register == b.register

abbrev pub has_bin : List IntentBin → IntentBin → Bool
has_bin [] b = false
has_bin (a ∷ bins) b = same_bin a b || has_bin bins b

-- `set.add`
abbrev pub add_bin : IntentBin → List IntentBin → List IntentBin
add_bin b bins = if has_bin bins b then bins else b ∷ bins

-- The operators `-` and `&` of sets.
abbrev pub difference : List IntentBin → List IntentBin → List IntentBin
difference [] ys = []
difference (x ∷ xs) ys = if has_bin ys x then difference xs ys else x ∷ difference xs ys

abbrev pub intersection : List IntentBin → List IntentBin → List IntentBin
intersection [] ys = []
intersection (x ∷ xs) ys = if has_bin ys x then x ∷ intersection xs ys else intersection xs ys

pub record TargetSelection : Type 0 where
  pub d1 : Option ℕ
  pub d2 : Option ℕ

-- The three cases of a template's distance.
abbrev pub targets_at : Distance → Option ℕ → Option ℕ → Outcome (List IntentBin)
targets_at Distance.d1 (some r) none = do b ← intent_bin Distance.d1 r; ok (b ∷ [])
targets_at Distance.d2 none (some r) = do b ← intent_bin Distance.d2 r; ok (b ∷ [])
targets_at Distance.d1_d2 (some r) (some s) = do
  raise_if (r == s) value_error
  b ← intent_bin Distance.d1 r
  c ← intent_bin Distance.d2 s
  ok (b ∷ c ∷ [])
targets_at _ _ _ = err value_error

unfoldable pub attribution_targets_for : ArmId → TargetSelection → Outcome (List IntentBin)
attribution_targets_for arm_id target =
    targets_at (get_template arm_id).distance target.d1 target.d2

pub record Tracker : Type 0 where
  pub arm_id : ArmId
  pub attributable_targets : List IntentBin
  pub covered_at_epoch_start : List IntentBin
  pub observed_intent_bins : List IntentBin
  pub attributable_observed_intent_bins : List IntentBin
  pub finalized : Bool

unfoldable pub new_tracker : ArmId → TargetSelection → List IntentBin → Outcome Tracker
new_tracker arm_id target covered = do
  targets ← attribution_targets_for arm_id target
  ok (record {
    arm_id = arm_id;
    attributable_targets = targets;
    covered_at_epoch_start = covered;
    observed_intent_bins = [];
    attributable_observed_intent_bins = [];
    finalized = false;
  })

unfoldable pub record_intent_hit : IntentBin → Tracker → Outcome (Unit {0}) × Tracker
record_intent_hit b t =
    if t.finalized
    then (err runtime_error, t)
    else (ok tt, record t { observed_intent_bins = add_bin b t.observed_intent_bins })

unfoldable pub record_attributable_intent_hit : IntentBin → Tracker → Outcome (Unit {0}) × Tracker
record_attributable_intent_hit b t =
    if t.finalized
    then (err runtime_error, t)
    else if not (has_bin t.attributable_targets b)
    then (err value_error, t)
    else (
      ok tt,
      record t {
        observed_intent_bins = add_bin b t.observed_intent_bins;
        attributable_observed_intent_bins = add_bin b t.attributable_observed_intent_bins;
      },
    )

-- `Float` is the type of the reward.
pub record EpochRewardResult (Float : Type 0) : Type 0 where
  pub arm_id : ArmId
  pub actual_executed_instructions : ℕ
  pub attributable_targets : List IntentBin
  pub observed_intent_bins : List IntentBin
  pub attributable_observed_intent_bins : List IntentBin
  pub global_new_intent_bins : List IntentBin
  pub attributable_new_intent_bins : List IntentBin
  pub reward : Float

-- `divide` is Python's division of two integers, which gives a float.
module _ {Float : Type 0} (divide : ℕ → ℕ → Float) where
  -- The result that `finalize` builds.
  abbrev pub epoch_result : Tracker → ℕ → EpochRewardResult Float
  epoch_result t executed =
      let attributable_new =
        intersection (difference t.attributable_observed_intent_bins t.covered_at_epoch_start)
          t.attributable_targets in
      record {
        arm_id = t.arm_id;
        actual_executed_instructions = executed;
        attributable_targets = t.attributable_targets;
        observed_intent_bins = t.observed_intent_bins;
        attributable_observed_intent_bins = t.attributable_observed_intent_bins;
        global_new_intent_bins = difference t.observed_intent_bins t.covered_at_epoch_start;
        attributable_new_intent_bins = attributable_new;
        reward = divide (1000 * length attributable_new) executed;
      }

  unfoldable pub finalize : ℤ → Tracker → Outcome (EpochRewardResult Float) × Tracker
  finalize actual_executed_instructions t =
      if t.finalized then (err runtime_error, t) else elim (positive actual_executed_instructions) [
        | err e ↦ (err e, t)
        | ok executed ↦ (ok (epoch_result t executed), record t { finalized = true })
      ]
