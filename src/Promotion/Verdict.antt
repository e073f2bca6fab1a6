-- ===== src/Promotion/Verdict.antt =====
-- The promotion of what attribute_l1_hit of research/week9/validated_attribution.py returns.
use riscv_pipeline_research.Base.{
  ok_injective, err_absurd, ℕ, ◌-◌, ◌<◌, ◌≡◌, refl, ap, subst, ◌∙◌, arith, Bool, true, false, not,
  ◌&&◌, ◌||◌, Option, none, some, List, pos, Outcome, Outcome-cases, ok, value_error, ◌==◌,
  if◌then◌else◌, get_or, get_or-set_self, length, Bool-cases, inl, inr,
}
use riscv_pipeline_research.Realization.{is_bin}
use riscv_pipeline_research.Validated.{L1ValidationOutcome, ResultKind, outcome_of}
use riscv_pipeline_research.Validated.Steps.{rejected_outcome}
use riscv_pipeline_research.HazardBins.History.{L1Hit}
use riscv_pipeline_research.Attribution.{HazardAttribution}
use riscv_pipeline_research.Retire.Performance.{PerformanceResult}
use riscv_pipeline_research.Attribution.Validation.{
  ValidationStatus, ValidatedAttributionRecord, EvidenceSet, is_true, is_false, validated_of,
  attributed, status_of, attribute_l1_hit, validate_identity, classify, validate_retire_timing,
}
use riscv_pipeline_research.Attribution
use riscv_pipeline_research.Retire.Performance
use riscv_pipeline_research.Promotion.{
  CoverageCollector, FirstHit, record_validated, BinState, new_bin, record_l1_validated,
  validate_l1_bin, validate_hit_metadata,
}
use riscv_pipeline_research.Promotion.Records.{
  may_promote, is_realized, validate_record, record_bin, promoted, promote_l1_attribution,
}

abbrev pub is_known : Option Bool → Bool
is_known none = false
is_known (some v) = true

-- An outcome as the collector of research/week5 makes them: it has an architectural verdict exactly
-- if the control checks passed, and is validated exactly if both did.
abbrev pub IsJudged : Option L1ValidationOutcome → Type 0
IsJudged none = Unit {0}
IsJudged (some v) =
    (v.validated ≡ (v.control_passed && is_true v.architectural_passed))
    × (v.control_passed ≡ is_known v.architectural_passed)

pub outcome_of-IsJudged :
    (hit : L1Hit) (failed : List (ℕ × ResultKind)) → IsJudged (some (outcome_of hit failed))
outcome_of-IsJudged hit failed = (refl, refl)

pub rejected_outcome-IsJudged : (hit : L1Hit) → IsJudged (some (rejected_outcome hit))
rejected_outcome-IsJudged hit = (refl, refl)

-- A status that the evidence gives is consistent with its verdict.
abbrev Consistent : Option L1ValidationOutcome → ValidationStatus → Type 0
Consistent v status =
    (validated_of v ≡ true → may_promote status ≡ true)
    × (validated_of v ≡ false → is_realized status ≡ false)

classify-Consistent :
    (v : L1ValidationOutcome) (bad worse : Bool)
    → IsJudged (some v)
    → Consistent
        (some v)
        (classify (not v.control_passed || bad || worse) (is_false v.architectural_passed))
classify-Consistent v bad worse judged =
    by_verdict v.control_passed v.architectural_passed judged.0 judged.1
  where
    by_verdict :
        (control : Bool) (arch : Option Bool)
        → v.validated ≡ (control && is_true arch)
        → control ≡ is_known arch
        → Consistent (some v) (classify (not control || bad || worse) (is_false arch))
    by_verdict true none valid known = ground arith
    by_verdict true (some true) valid known = ground arith
    by_verdict true (some false) valid known = ground arith
    by_verdict false arch valid known = ground arith

status_of-Consistent :
    (e : EvidenceSet) (status : ValidationStatus)
    → IsJudged e.validation
    → status_of e ≡ ok status
    → Consistent e.validation status
unfolding status_of
status_of-Consistent e status judged h = by_evidence e.validation e.hazard e.performance judged h
  where
    by_evidence :
        (v : Option L1ValidationOutcome) (x : Option HazardAttribution)
        (p : Option PerformanceResult)
        → IsJudged v
        → status_of (record { validation = v; hazard = x; performance = p }) ≡ ok status
        → Consistent v status
    by_evidence none none none judged h = ground arith
    by_evidence none none (some p) judged h = ground arith
    by_evidence none (some x) p judged h = ground arith
    by_evidence (some v) none p judged h = ground arith
    by_evidence (some v) (some x) none judged h = ground arith
    by_evidence (some v) (some x) (some p) judged h =
        elim (Outcome-cases (validate_retire_timing x p)) [
          | inl (_, same) ↦ subst (Consistent (some v)) (ok_injective (rw (← h, same) refl)) (
              classify-Consistent v (not (Attribution.passed x)) (not (Performance.passed p))
                judged)
          | inr (raised, differ) ↦ absurd (err_absurd raised status (rw (← h, differ) refl))
        ]

-- What an accepted attribution consists of.
record Accepted (bin_id i : ℕ) (e : EvidenceSet) (r : ValidatedAttributionRecord) : Type 0 where
  status : ValidationStatus
  rated : status_of e ≡ ok status
  made : attributed bin_id i e status ≡ r
  known : is_bin bin_id ≡ true
  numbered : 0 < i

validate_identity-known :
    (b n : ℕ) (e : EvidenceSet) → validate_identity b n e ≡ ok tt → (is_bin b ≡ true) × (0 < n)
unfolding validate_identity
validate_identity-known b n e good = elim (Bool-cases (is_bin b)) [
  | inr unknown ↦ absurd (err_absurd {0} value_error tt (rw (← good, unknown) refl))
  | inl known ↦ elim (Bool-cases (n == 0)) [
    | inl zero_id ↦ absurd (err_absurd {0} value_error tt (rw (← good, known, zero_id) refl))
    | inr positive_id ↦ (known, ground arith)
  ]
]

attribute-Accepted :
    (bin_id i : ℕ) (e : EvidenceSet) (r : ValidatedAttributionRecord)
    → attribute_l1_hit bin_id i e ≡ ok r
    → Accepted bin_id i e r
unfolding attribute_l1_hit
attribute-Accepted bin_id i e r h = elim (Outcome-cases (validate_identity bin_id i e)) [
  | inr (x, bad) ↦ absurd (err_absurd x r (rw (← h, bad) refl))
  | inl (_, good) ↦ elim (Outcome-cases (status_of e)) [
    | inr (x, bad) ↦ absurd (err_absurd x r (rw (← h, good, bad) refl))
    | inl (status, rated) ↦ record {
      status = status;
      rated = rated;
      made = ok_injective (rw (← h, good, rated) refl);
      known = (validate_identity-known bin_id i e good).0;
      numbered = (validate_identity-known bin_id i e good).1;
    }
  ]
]

validate_record-attributed :
    (bin_id i : ℕ) (e : EvidenceSet) (status : ValidationStatus)
    → IsJudged e.validation
    → Consistent e.validation status
    → validate_record (attributed bin_id i e status) ≡ ok tt
unfolding validate_record attributed
validate_record-attributed bin_id i e status judged consistent =
    by_outcome e.validation judged consistent
  where
    by_outcome :
        (v : Option L1ValidationOutcome)
        → IsJudged v
        → Consistent v status
        → validate_record (attributed bin_id i (record e { validation = v }) status) ≡ ok tt
    by_outcome none judged consistent = ground arith
    by_outcome (some v) judged consistent = elim (Bool-cases v.validated) [
      | inl valid ↦ ground (arith, valid, consistent.0 valid)
      | inr not_valid ↦ ground (arith, not_valid, consistent.1 not_valid)
    ]

abbrev pub state_of : CoverageCollector → ℕ → BinState
state_of c bin_id = get_or c.l1_state (bin_id - 1) new_bin

-- What a promotion leaves in the bin.
abbrev Promotes : ℕ → Bool → CoverageCollector → Outcome Bool × CoverageCollector → Type 0
Promotes bin_id v c after =
    (after.0 ≡ ok v)
    × ((state_of after.1 bin_id).validated_seen ≡ ((state_of c bin_id).validated_seen || v))

record_validated-ok :
    (hit : FirstHit) (s : BinState)
    → s.intent_seen ≡ true
    → (s' : BinState) × (record_validated hit s ≡ ok s') × (s'.validated_seen ≡ true)
record_validated-ok hit s seen = elim (Bool-cases s.validated_seen) [
  | inl already ↦ (s, rw (seen, already) refl, already)
  | inr first ↦
      (record s { validated_seen = true; validated_first = some hit }, rw (seen, first) refl, refl)
]

metadata-ok :
    (i cycle wall : ℕ)
    → 0 < i
    → validate_hit_metadata (pos i) (pos cycle) (pos wall)
      ≡ ok (record { instruction_id = i; cycle = cycle; wall_ns = wall })
unfolding validate_hit_metadata
metadata-ok i cycle wall h = ground arith

bin-ok : (bin_id : ℕ) → is_bin bin_id ≡ true → validate_l1_bin bin_id ≡ ok (bin_id - 1)
unfolding validate_l1_bin
bin-ok bin_id h = ground arith

bin-in_range : (bin_id : ℕ) → is_bin bin_id ≡ true → bin_id - 1 < 20
bin-in_range bin_id h = ground arith

record_bin-Promotes :
    (bin_id i cycle wall : ℕ) (c : CoverageCollector)
    → is_bin bin_id ≡ true
    → 0 < i
    → length c.l1_state ≡ 20
    → (state_of c bin_id).intent_seen ≡ true
    → Promotes bin_id true c
        (promoted (record_l1_validated bin_id (pos i) (pos cycle) (pos wall) c))
unfolding record_l1_validated
record_bin-Promotes bin_id i cycle wall c known numbered sized seen =
    let (s', done, flagged) =
      record_validated-ok (record { instruction_id = i; cycle = cycle; wall_ns = wall })
        (state_of c bin_id) seen in
    rw (bin-ok bin_id known, metadata-ok i cycle wall numbered, done)
      (
        refl,
        ap (λ (s : BinState). s.validated_seen)
              (get_or-set_self c.l1_state (bin_id - 1) s' new_bin
                (omega (arith, bin-in_range bin_id known, sized)))
            ∙ flagged
            ∙ or_true (state_of c bin_id).validated_seen,
      )
  where
    or_true : (v : Bool) → true ≡ (v || true)
    or_true true = refl
    or_true false = refl

-- An attribution of the evidence on a hit is never refused by the promotion, as long as its outcome
-- is one that the collector of research/week5 makes and its bin has been seen. The promotion
-- answers with the verdict of that outcome, whatever the other evidence says, and the bin is
-- validated afterwards exactly if it was before or the verdict is positive.
pub promote-attributed :
    (bin_id i cycle wall : ℕ) (e : EvidenceSet) (r : ValidatedAttributionRecord)
    (c : CoverageCollector)
    → IsJudged e.validation
    → attribute_l1_hit bin_id i e ≡ ok r
    → length c.l1_state ≡ 20
    → (state_of c bin_id).intent_seen ≡ true
    → ((promote_l1_attribution r (pos cycle) (pos wall) c).0 ≡ ok (validated_of e.validation))
      × ((state_of (promote_l1_attribution r (pos cycle) (pos wall) c).1 bin_id).validated_seen
          ≡ ((state_of c bin_id).validated_seen || validated_of e.validation))
unfolding promote_l1_attribution attributed
promote-attributed bin_id i cycle wall e r c judged accepted sized seen =
    let a = attribute-Accepted bin_id i e r accepted in
    subst
      (λ r.
        Promotes bin_id (validated_of e.validation) c
          (promote_l1_attribution r (pos cycle) (pos wall) c))
      a.made
      (rw
        (validate_record-attributed bin_id i e a.status judged
          (status_of-Consistent e a.status judged a.rated))
        (by_verdict (validated_of e.validation) a.known a.numbered))
  where
    by_verdict :
        (v : Bool)
        → is_bin bin_id ≡ true
        → 0 < i
        → Promotes bin_id v c (
            if not v
            then (ok false, c)
            else promoted (record_bin (if v then some bin_id else none) i (pos cycle) (pos wall) c))
    by_verdict true known numbered =
        record_bin-Promotes bin_id i cycle wall c known numbered sized seen
    by_verdict false known numbered = (refl, or_false (state_of c bin_id).validated_seen)
      where
        or_false : (v : Bool) → v ≡ (v || false)
        or_false true = refl
        or_false false = refl
