-- ===== src/Adaptive/Reward/Epoch.antt =====
-- An epoch of reward_engine.py from its start to its reward: which bins are rewarded.
use riscv_pipeline_research.Base.{
  ℕ, ◌*◌, ◌<◌, ◌≡◌, refl, ap, sym, ◌∙◌, arith, Bool, true, false, not, ◌&&◌, ◌||◌, List, [], ◌∷◌,
  pos, Outcome, ok, length, ◌==◌, if◌then◌else◌, Bool-cases, subst, inl, inr,
}
use riscv_pipeline_research.Adaptive.Templates.{ArmId}
use riscv_pipeline_research.Adaptive.Reward.{
  IntentBin, TargetSelection, Tracker, EpochRewardResult, same_bin, has_bin, add_bin, new_tracker,
  record_intent_hit, record_attributable_intent_hit, finalize, epoch_result, difference,
}
use riscv_pipeline_research.Adaptive.Reward.Bins.{
  has_bin-add_bin, has_bin-difference, has_bin-intersection, has_bin-same,
}

-- A hit that is recorded in an epoch, with or without its provenance.
pub data Hit : Type 0 where
  seen attributed : IntentBin → Hit

-- An epoch goes on after a hit that is refused.
abbrev pub after : List Hit → Tracker → Tracker
after [] t = t
after (seen b ∷ hits) t = after hits (record_intent_hit b t).1
after (attributed b ∷ hits) t = after hits (record_attributable_intent_hit b t).1

-- The hits with provenance of a bin that is a target.
abbrev pub is_proven : List IntentBin → List Hit → IntentBin → Bool
is_proven targets [] b = false
is_proven targets (seen a ∷ hits) b = is_proven targets hits b
is_proven targets (attributed a ∷ hits) b =
    (has_bin targets a && same_bin a b) || is_proven targets hits b

-- The hits that are not refused.
abbrev pub is_recorded : List IntentBin → List Hit → IntentBin → Bool
is_recorded targets [] b = false
is_recorded targets (seen a ∷ hits) b = same_bin a b || is_recorded targets hits b
is_recorded targets (attributed a ∷ hits) b =
    (has_bin targets a && same_bin a b) || is_recorded targets hits b

-- What the tracker holds after the hits, if it was open before them.
record Holds (hits : List Hit) (t t' : Tracker) : Type 0 where
  arm : t'.arm_id ≡ t.arm_id
  targets : t'.attributable_targets ≡ t.attributable_targets
  covered : t'.covered_at_epoch_start ≡ t.covered_at_epoch_start
  open_still : t'.finalized ≡ false
  observed :
      (b : IntentBin)
      → has_bin t'.observed_intent_bins b
        ≡ (has_bin t.observed_intent_bins b || is_recorded t.attributable_targets hits b)
  proven :
      (b : IntentBin)
      → has_bin t'.attributable_observed_intent_bins b
        ≡ (has_bin t.attributable_observed_intent_bins b || is_proven t.attributable_targets hits b)

-- The tracker with a bin that is observed, and one that is also proven.
abbrev observing : IntentBin → Tracker → Tracker
observing a t = record t { observed_intent_bins = add_bin a t.observed_intent_bins }

abbrev proving : IntentBin → Tracker → Tracker
proving a t = record t {
  observed_intent_bins = add_bin a t.observed_intent_bins;
  attributable_observed_intent_bins = add_bin a t.attributable_observed_intent_bins;
}

seen-Holds :
    (a : IntentBin) (hits : List Hit) (t t' : Tracker)
    → Holds hits (observing a t) t'
    → Holds (seen a ∷ hits) t t'
seen-Holds a hits t t' later = record {
  arm = later.arm;
  targets = later.targets;
  covered = later.covered;
  open_still = later.open_still;
  observed = λ b. ground (arith, later.observed b, has_bin-add_bin a b t.observed_intent_bins);
  proven = later.proven;
}

proven-Holds :
    (a : IntentBin) (hits : List Hit) (t t' : Tracker)
    → has_bin t.attributable_targets a ≡ true
    → Holds hits (proving a t) t'
    → Holds (attributed a ∷ hits) t t'
proven-Holds a hits t t' target later = record {
  arm = later.arm;
  targets = later.targets;
  covered = later.covered;
  open_still = later.open_still;
  observed =
      λ b. ground (arith, target, later.observed b, has_bin-add_bin a b t.observed_intent_bins);
  proven = λ b.
      ground
        (arith, target, later.proven b, has_bin-add_bin a b t.attributable_observed_intent_bins);
}

refused-Holds :
    (a : IntentBin) (hits : List Hit) (t t' : Tracker)
    → has_bin t.attributable_targets a ≡ false
    → Holds hits t t'
    → Holds (attributed a ∷ hits) t t'
refused-Holds a hits t t' other later = record {
  arm = later.arm;
  targets = later.targets;
  covered = later.covered;
  open_still = later.open_still;
  observed = λ b. ground (arith, other, later.observed b);
  proven = λ b. ground (arith, other, later.proven b);
}

-- What each method leaves of an open tracker.
record_intent_hit_open :
    (a : IntentBin) (t : Tracker) → t.finalized ≡ false → (record_intent_hit a t).1 ≡ observing a t
unfolding record_intent_hit
record_intent_hit_open a t opened = simp opened

record_attributable_open :
    (a : IntentBin) (t : Tracker)
    → t.finalized ≡ false
    → (record_attributable_intent_hit a t).1
      ≡ (if has_bin t.attributable_targets a then proving a t else t)
unfolding record_attributable_intent_hit
record_attributable_open a t opened = elim (Bool-cases (has_bin t.attributable_targets a)) [
  | inl target ↦ simp (opened, target)
  | inr other ↦ simp (opened, other)
]

after-Holds : (hits : List Hit) (t : Tracker) → t.finalized ≡ false → Holds hits t (after hits t)
after-Holds [] t opened = record {
  arm = refl;
  targets = refl;
  covered = refl;
  open_still = opened;
  observed = λ b. ground arith;
  proven = λ b. ground arith;
}
after-Holds (seen a ∷ hits) t opened =
    subst (λ (x : Tracker). Holds (seen a ∷ hits) t (after hits x))
      (sym (record_intent_hit_open a t opened))
      (seen-Holds a hits t _ (after-Holds hits (observing a t) opened))
after-Holds (attributed a ∷ hits) t opened =
    subst (λ (x : Tracker). Holds (attributed a ∷ hits) t (after hits x))
      (sym (record_attributable_open a t opened))
      (elim (Bool-cases (has_bin t.attributable_targets a)) [
        | inl target ↦
            rw target (proven-Holds a hits t _ target (after-Holds hits (proving a t) opened))
        | inr other ↦ rw other (refused-Holds a hits t _ other (after-Holds hits t opened))
      ])

-- A proven bin is a target.
is_proven-target :
    (targets : List IntentBin) (hits : List Hit) (b : IntentBin)
    → is_proven targets hits b ≡ true
    → has_bin targets b ≡ true
is_proven-target targets [] b h = cc
is_proven-target targets (seen a ∷ hits) b h = is_proven-target targets hits b h
is_proven-target targets (attributed a ∷ hits) b h =
    ground (arith, is_proven-target targets hits b, has_bin-same targets a b)

-- A tracker that has just been made.
record Fresh (arm_id : ArmId) (start : List IntentBin) (t : Tracker) : Type 0 where
  arm : t.arm_id ≡ arm_id
  covered : t.covered_at_epoch_start ≡ start
  observed : t.observed_intent_bins ≡ []
  proven : t.attributable_observed_intent_bins ≡ []
  open_first : t.finalized ≡ false

new_tracker-Fresh :
    (arm_id : ArmId) (target : TargetSelection) (covered : List IntentBin) (t : Tracker)
    → new_tracker arm_id target covered ≡ ok t
    → Fresh arm_id covered t
unfolding new_tracker
new_tracker-Fresh arm_id target covered t starts = record {
  arm = ground arith;
  covered = ground arith;
  observed = ground arith;
  proven = ground arith;
  open_first = ground arith;
}

module _ {Float : Type 0} (divide : ℕ → ℕ → Float) where
  -- What the result of an epoch should hold.
  pub record Rewards (arm_id : ArmId) (targets covered : List IntentBin) (hits : List Hit) (n : ℕ)
      (r : EpochRewardResult Float) : Type 0 where
    pub arm : r.arm_id ≡ arm_id
    pub counted : r.actual_executed_instructions ≡ n
    pub global_new :
        (b : IntentBin)
        → has_bin r.global_new_intent_bins b
          ≡ (is_recorded targets hits b && not (has_bin covered b))
    pub attributable_new :
        (b : IntentBin)
        → has_bin r.attributable_new_intent_bins b
          ≡ (is_proven targets hits b && not (has_bin covered b))
    pub paid : r.reward ≡ divide (1000 * length r.attributable_new_intent_bins) n

  finalize_open :
      (t : Tracker) (n : ℕ)
      → t.finalized ≡ false
      → 0 < n
      → finalize divide (pos n) t ≡ (ok (epoch_result divide t n), record t { finalized = true })
  unfolding finalize
  finalize_open t n opened some_run = simp (opened, nonzero)
    where
      nonzero : (n == 0) ≡ false
      nonzero = ground arith

  -- From the start of an epoch to its reward: whatever hits are recorded, in whatever order, the
  -- epoch ends with a reward. Its global new bins are those recorded that were not covered before,
  -- its attributable new bins are those recorded with provenance that are targets and were not
  -- covered before, and the reward is 1000 per attributable new bin, divided by the number of
  -- instructions.
  pub finalize-Rewards :
      (arm_id : ArmId) (target : TargetSelection) (covered : List IntentBin) (t : Tracker)
      (hits : List Hit) (n : ℕ)
      → new_tracker arm_id target covered ≡ ok t
      → 0 < n
      → (r : EpochRewardResult Float) × ((finalize divide (pos n) (after hits t)).0 ≡ ok r)
        × Rewards arm_id t.attributable_targets covered hits n r
  finalize-Rewards arm_id target covered t hits n starts some_run = (
    epoch_result divide (after hits t) n,
    ap (λ (r : Outcome (EpochRewardResult Float) × Tracker). r.0)
        (finalize_open (after hits t) n held.open_still some_run),
    record {
      arm = held.arm ∙ fresh.arm;
      counted = refl;
      global_new = λ b. ground (
        arith,
        has_bin-difference (after hits t).observed_intent_bins (after hits t).covered_at_epoch_start
            b,
        held.observed b,
        ap (λ (bins : List IntentBin). has_bin bins b) (held.covered ∙ fresh.covered),
        ap (λ (bins : List IntentBin). has_bin bins b) fresh.observed,
      );
      attributable_new = λ b. ground (
        arith,
        has_bin-intersection
            (difference (after hits t).attributable_observed_intent_bins
              (after hits t).covered_at_epoch_start)
            (after hits t).attributable_targets b,
        has_bin-difference (after hits t).attributable_observed_intent_bins
            (after hits t).covered_at_epoch_start b,
        held.proven b,
        ap (λ (bins : List IntentBin). has_bin bins b) (held.covered ∙ fresh.covered),
        ap (λ (bins : List IntentBin). has_bin bins b) fresh.proven,
        ap (λ (bins : List IntentBin). has_bin bins b) held.targets,
        is_proven-target t.attributable_targets hits b,
      );
      paid = refl;
    },
  )
    where
      fresh : Fresh arm_id covered t
      fresh = new_tracker-Fresh arm_id target covered t starts

      held : Holds hits t (after hits t)
      held = after-Holds hits t fresh.open_first
