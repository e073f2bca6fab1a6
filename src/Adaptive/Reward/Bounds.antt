-- ===== src/Adaptive/Reward/Bounds.antt =====
-- The size of the rewards of reward_engine.py, and its trackers after `finalize`.
use riscv_pipeline_research.Base.{
  ℕ, ◌+◌, ◌≤◌, ◌≡◌, refl, ap, sym, subst, ◌∙◌, arith, true, false, Option, some, none, List, [],
  ◌∷◌, ℤ, ok, err, runtime_error, length, Bool-cases, Outcome-cases, inl, inr,
}
use riscv_pipeline_research.Event.{positive}
use riscv_pipeline_research.Adaptive.Templates.{ArmId, Distance, get_template}
use riscv_pipeline_research.Adaptive.Reward.{
  IntentBin, TargetSelection, Tracker, EpochRewardResult, same_bin, has_bin, add_bin, difference,
  intersection, new_tracker, attribution_targets_for, targets_at, intent_bin, record_intent_hit,
  record_attributable_intent_hit, finalize, epoch_result,
}
use riscv_pipeline_research.Adaptive.Reward.Bins.{
  has_bin-difference, has_bin-intersection, has_bin-same,
}
use riscv_pipeline_research.Adaptive.Reward.Epoch.{Hit, seen, attributed, after}

-- No bin stands twice in a list.
abbrev pub IsDistinct : List IntentBin → Type 0
IsDistinct [] = Unit {0}
IsDistinct (x ∷ xs) = (has_bin xs x ≡ false) × IsDistinct xs

add_bin-IsDistinct :
    (b : IntentBin) (xs : List IntentBin) → IsDistinct xs → IsDistinct (add_bin b xs)
add_bin-IsDistinct b xs h = elim (Bool-cases (has_bin xs b)) [
  | inl old ↦ rw old h
  | inr new ↦ rw new (new, h)
]

difference-IsDistinct : (xs ys : List IntentBin) → IsDistinct xs → IsDistinct (difference xs ys)
difference-IsDistinct [] ys h = tt
difference-IsDistinct (x ∷ xs) ys h =
    ground (arith, difference-IsDistinct xs ys h.1, has_bin-difference xs ys x)

intersection-IsDistinct : (xs ys : List IntentBin) → IsDistinct xs → IsDistinct (intersection xs ys)
intersection-IsDistinct [] ys h = tt
intersection-IsDistinct (x ∷ xs) ys h =
    ground (arith, intersection-IsDistinct xs ys h.1, has_bin-intersection xs ys x)

same_bin_refl : (b : IntentBin) → same_bin b b ≡ true
unfolding same_bin
same_bin_refl b = ground arith

same_bin_comm : (a b : IntentBin) → same_bin a b ≡ same_bin b a
unfolding same_bin
same_bin_comm a b = ground arith

-- Taking out a bin that is not there changes nothing, and taking out one shortens by one at most.
length-difference_absent :
    (xs : List IntentBin) (y : IntentBin)
    → has_bin xs y ≡ false
    → length (difference xs (y ∷ [])) ≡ length xs
length-difference_absent [] y h = refl
length-difference_absent (x ∷ xs) y h =
    ground (arith, length-difference_absent xs y, same_bin_comm x y)

length-difference :
    (xs : List IntentBin) (y : IntentBin)
    → IsDistinct xs
    → length xs ≤ length (difference xs (y ∷ [])) + 1
length-difference [] y h = omega arith
length-difference (x ∷ xs) y h =
    ground
      (arith, length-difference xs y h.1, length-difference_absent xs y, has_bin-same xs y x, h.0)

bool_absurd : false ≡ true → ⊥
bool_absurd h = cc

-- A set within another has no more elements.
length-within :
    (ys xs : List IntentBin)
    → IsDistinct xs
    → ((b : IntentBin) → has_bin xs b ≡ true → has_bin ys b ≡ true)
    → length xs ≤ length ys
length-within [] [] h within = omega arith
length-within [] (x ∷ xs) h within = absurd (bool_absurd (within x (rw (same_bin_refl x) refl)))
length-within (y ∷ ys) xs h within = omega (
  arith,
  length-difference xs y h,
  length-within ys (difference xs (y ∷ [])) (difference-IsDistinct xs (y ∷ []) h) rest,
)
  where
    rest : (b : IntentBin) → has_bin (difference xs (y ∷ [])) b ≡ true → has_bin ys b ≡ true
    rest b kept = ground (arith, has_bin-difference xs (y ∷ []) b, within b)

-- What an epoch keeps of a tracker: the targets, and that the proven bins are distinct.
record Keeps (t t' : Tracker) : Type 0 where
  targets : t'.attributable_targets ≡ t.attributable_targets
  distinct :
      IsDistinct t.attributable_observed_intent_bins
      → IsDistinct t'.attributable_observed_intent_bins

Keeps-trans : {t u v : Tracker} → Keeps t u → Keeps u v → Keeps t v
Keeps-trans a b = record {
  targets = b.targets ∙ a.targets;
  distinct = λ h. b.distinct (a.distinct h);
}

record_intent_hit-Keeps : (b : IntentBin) (t : Tracker) → Keeps t (record_intent_hit b t).1
unfolding record_intent_hit
record_intent_hit-Keeps b t = record { targets = ground arith; distinct = λ h. ground arith }

record_attributable-Keeps :
    (b : IntentBin) (t : Tracker) → Keeps t (record_attributable_intent_hit b t).1
unfolding record_attributable_intent_hit
record_attributable-Keeps b t = record {
  targets = ground arith;
  distinct = λ h. ground (arith, add_bin-IsDistinct b t.attributable_observed_intent_bins h);
}

after-Keeps : (hits : List Hit) (t : Tracker) → Keeps t (after hits t)
after-Keeps [] t = record { targets = refl; distinct = λ h. h }
after-Keeps (seen b ∷ hits) t =
    Keeps-trans (record_intent_hit-Keeps b t) (after-Keeps hits (record_intent_hit b t).1)
after-Keeps (attributed b ∷ hits) t =
    Keeps-trans (record_attributable-Keeps b t)
      (after-Keeps hits (record_attributable_intent_hit b t).1)

-- How many dependencies an arm aims at.
abbrev pub target_count : Distance → ℕ
target_count Distance.d1_d2 = 2
target_count _ = 1

targets_at-length :
    (distance : Distance) (r s : Option ℕ) (targets : List IntentBin)
    → targets_at distance r s ≡ ok targets
    → length targets ≡ target_count distance
targets_at-length Distance.d1 (some r) none targets h =
    ground (arith, Outcome-cases (intent_bin Distance.d1 r))
targets_at-length Distance.d2 none (some s) targets h =
    ground (arith, Outcome-cases (intent_bin Distance.d2 s))
targets_at-length Distance.d1_d2 (some r) (some s) targets h =
    ground
      (arith, Outcome-cases (intent_bin Distance.d1 r), Outcome-cases (intent_bin Distance.d2 s))
targets_at-length Distance.d1 none s targets h = cc
targets_at-length Distance.d1 (some r) (some s) targets h = cc
targets_at-length Distance.d2 none none targets h = cc
targets_at-length Distance.d2 (some r) s targets h = cc
targets_at-length Distance.d1_d2 none s targets h = cc
targets_at-length Distance.d1_d2 (some r) none targets h = cc

new_tracker-length :
    (arm_id : ArmId) (target : TargetSelection) (covered : List IntentBin) (t : Tracker)
    → new_tracker arm_id target covered ≡ ok t
    → (length t.attributable_targets ≡ target_count (get_template arm_id).distance)
      × (t.attributable_observed_intent_bins ≡ [])
unfolding new_tracker attribution_targets_for
new_tracker-length arm_id target covered t starts =
    elim (Outcome-cases (targets_at (get_template arm_id).distance target.d1 target.d2)) [
      | inl (targets, made) ↦
          ground (
            arith,
            targets_at-length (get_template arm_id).distance target.d1 target.d2 targets made,
          )
      | inr (e, raises) ↦ ground arith
    ]

module _ {Float : Type 0} (divide : ℕ → ℕ → Float) where
  finalize-ends :
      (t : Tracker) (n : ℤ) (r : EpochRewardResult Float)
      → (finalize divide n t).0 ≡ ok r
      → ((executed : ℕ) × (r ≡ epoch_result divide t executed))
        × ((finalize divide n t).1 ≡ record t { finalized = true })
  unfolding finalize
  finalize-ends t n r returns = elim (Bool-cases t.finalized) [
    | inl closed ↦ ground arith
    | inr opened ↦ elim (Outcome-cases (positive n)) [
      | inl (executed, counted) ↦ ((executed, ground arith), simp (opened, counted))
      | inr (e, raises) ↦ ground arith
    ]
  ]

  -- After a finalization that returned a result, each method raises `RuntimeError` and leaves the
  -- tracker as it is: no hit is recorded any more, and no reward is paid twice.
  pub finalize-closes :
      (t : Tracker) (n m : ℤ) (b : IntentBin) (r : EpochRewardResult Float)
      → (finalize divide n t).0 ≡ ok r
      → let closed = (finalize divide n t).1 in
        (record_intent_hit b closed ≡ (err runtime_error, closed))
        × (record_attributable_intent_hit b closed ≡ (err runtime_error, closed))
        × (finalize divide m closed ≡ (err runtime_error, closed))
  finalize-closes t n m b r returns =
      subst Refuses (sym (finalize-ends t n r returns).1)
        (unfold record_intent_hit record_attributable_intent_hit finalize in (refl, refl, refl))
    where
      Refuses : Tracker → Type 0
      Refuses closed =
          (record_intent_hit b closed ≡ (err runtime_error, closed))
          × (record_attributable_intent_hit b closed ≡ (err runtime_error, closed))
          × (finalize divide m closed ≡ (err runtime_error, closed))

  -- The reward of an epoch counts at most one bin for an arm with a single dependency, and at most
  -- two for the arm with both distances, whatever hits are recorded and how often.
  pub finalize-bounded :
      (arm_id : ArmId) (target : TargetSelection) (covered : List IntentBin) (t : Tracker)
      (hits : List Hit) (n : ℤ) (r : EpochRewardResult Float)
      → new_tracker arm_id target covered ≡ ok t
      → (finalize divide n (after hits t)).0 ≡ ok r
      → length r.attributable_new_intent_bins ≤ target_count (get_template arm_id).distance
  finalize-bounded arm_id target covered t hits n r starts returns = omega (
    arith,
    fits,
    ap (λ (x : EpochRewardResult Float). length x.attributable_new_intent_bins)
        (finalize-ends (after hits t) n r returns).0.1,
    ap length kept.targets,
    fresh.0,
  )
    where
      t' : Tracker
      t' = after hits t

      kept : Keeps t t'
      kept = after-Keeps hits t

      fresh :
          (length t.attributable_targets ≡ target_count (get_template arm_id).distance)
          × (t.attributable_observed_intent_bins ≡ [])
      fresh = new_tracker-length arm_id target covered t starts

      proven : List IntentBin
      proven = difference t'.attributable_observed_intent_bins t'.covered_at_epoch_start

      fits : length (intersection proven t'.attributable_targets) ≤ length t'.attributable_targets
      fits =
          length-within t'.attributable_targets (intersection proven t'.attributable_targets)
            (intersection-IsDistinct proven t'.attributable_targets (
              difference-IsDistinct t'.attributable_observed_intent_bins t'.covered_at_epoch_start
                (kept.distinct (subst IsDistinct (sym fresh.1) tt))))
            (λ b h. ground (arith, has_bin-intersection proven t'.attributable_targets b, h))
