-- ===== src/Validated/Gate.antt =====
-- When a hit is promoted: the gate of `_evaluate_architecture` in terms of the evidence.
use riscv_pipeline_research.Base.{
  ℕ, ◌≡◌, ◌↔◌, ◌⊎◌, refl, ap, sym, ◌∙◌, subst, arith, Bool, true, false, ◌||◌, Option, none, some,
  List, [], ◌∷◌, ◌++◌, map, ◌==◌, ==_iff, ==_self, All, Bool-cases, inl, inr,
}
use riscv_pipeline_research.Event.{contains}
use riscv_pipeline_research.HazardBins.History.{L1Hit}
use riscv_pipeline_research.Validated.{
  ResultKind, Evidence, evidence_for, L1ValidationOutcome, ValidatedCollector, distinct,
  participant_indices, kinds_of, with_kinds, required_checks, is_missing, failed_in, is_nil,
  outcome_of, evaluate_architecture,
}
use riscv_pipeline_research.Validated.Balance.{Evaluated, waits, settles, evaluate-Evaluated}

abbrev Passed : List (ℕ × Evidence) → ℕ × ResultKind → Type 0
Passed results required = evidence_for results required ≡ some true

-- The instructions that take part in a hit.
abbrev pub Participates : L1Hit → ℕ → Type 0
Participates hit i =
    contains (hit.producer_instruction_indices ++ hit.consumer_instruction_index ∷ []) i ≡ true

-- x0 is judged for the bins H18 and H19 alone.
abbrev pub Needs : L1Hit → ResultKind → Type 0
Needs hit ResultKind.x0 = (hit.bin_id ≡ 18) ⊎ (hit.bin_id ≡ 19)
Needs hit _ = Unit {0}

pub contains-append :
    (xs ys : List ℕ) (i : ℕ) → contains (xs ++ ys) i ≡ (contains xs i || contains ys i)
contains-append [] ys i = refl
contains-append (x ∷ xs) ys i = ground (arith, contains-append xs ys i)

pub contains-distinct :
    (xs ordered : List ℕ) (i : ℕ)
    → contains (distinct xs ordered) i ≡ (contains ordered i || contains xs i)
contains-distinct [] ordered i = ground arith
contains-distinct (x ∷ xs) ordered i = elim (Bool-cases (contains ordered x)) [
  | inl there ↦ rw there (contains-distinct xs ordered i ∙ known x ordered there)
  | inr new ↦ rw new (
      contains-distinct xs (ordered ++ x ∷ []) i
      ∙ ground (arith, contains-append ordered (x ∷ []) i))
]
  where
    known :
        (x : ℕ) (ordered : List ℕ)
        → contains ordered x ≡ true
        → (contains ordered i || contains xs i) ≡ (contains ordered i || contains (x ∷ xs) i)
    known x ordered there = elim (Bool-cases (x == i)) [
      | inl same ↦ rw (← (==_iff x i).0 same, there) refl
      | inr other ↦ rw other refl
    ]

All-append :
    {A : Type 0} (P : A → Type 0) (xs ys : List A) → All P (xs ++ ys) ↔ (All P xs × All P ys)
All-append P [] ys = (λ h. (tt, h), λ h. h.1)
All-append P (x ∷ xs) ys = (
  λ h. ((h.0, ((All-append P xs ys).0 h.1).0), ((All-append P xs ys).0 h.1).1),
  λ h. (h.0.0, (All-append P xs ys).1 (h.0.1, h.1)),
)

All-map :
    (P : ℕ × ResultKind → Type 0) (i : ℕ) (kinds : List ResultKind)
    → All P (map (λ kind. (i, kind)) kinds) ↔ All (λ kind. P (i, kind)) kinds
All-map P i [] = (λ h. tt, λ h. tt)
All-map P i (kind ∷ kinds) =
    (λ h. (h.0, (All-map P i kinds).0 h.1), λ h. (h.0, (All-map P i kinds).1 h.1))

in_first :
    (P : ℕ × ResultKind → Type 0) (x : ℕ) (is : List ℕ) (kinds : List ResultKind) (i : ℕ)
    → All (λ kind. P (x, kind)) kinds
    → (contains is i ≡ true → All (λ kind. P (i, kind)) kinds)
    → contains (x ∷ is) i ≡ true
    → All (λ kind. P (i, kind)) kinds
in_first P x is kinds i first rest there = elim (Bool-cases (x == i)) [
  | inl same ↦ subst (λ n. All (λ kind. P (n, kind)) kinds) ((==_iff x i).0 same) first
  | inr other ↦ rest (rw (← there, other) refl)
]

All-with_kinds :
    (P : ℕ × ResultKind → Type 0) (is : List ℕ) (kinds : List ResultKind)
    → All P (with_kinds is kinds)
      ↔ ((i : ℕ) → contains is i ≡ true → All (λ kind. P (i, kind)) kinds)
All-with_kinds P [] kinds = (λ h i there. cc, λ h. tt)
All-with_kinds P (x ∷ is) kinds = (
  λ h i there.
      let both = (All-append P (map (λ kind. (x, kind)) kinds) (with_kinds is kinds)).0 h in
      in_first P x is kinds i ((All-map P x kinds).0 both.0)
        ((All-with_kinds P is kinds).0 both.1 i) there,
  λ h. (All-append P (map (λ kind. (x, kind)) kinds) (with_kinds is kinds)).1 (
    (All-map P x kinds).1 (h x (rw (==_self x) refl)),
    (All-with_kinds P is kinds).1 (λ i there. h i (ground (arith, there))),
  ),
)

-- One required check, by its evidence.
one_check :
    (o : Option Bool) (required : ℕ × ResultKind) (m : Bool) (f : List (ℕ × ResultKind))
    {Q : Type 0}
    → (((m ≡ false) × (is_nil f ≡ true)) ↔ Q)
    → (((elim o as (λ _. Bool) [ none ↦ true | some v ↦ m ]) ≡ false)
        × (is_nil (elim o as (λ _. List (ℕ × ResultKind)) [
          | none ↦ f
          | some true ↦ f
          | some false ↦ required ∷ f
        ])
            ≡ true))
      ↔ ((o ≡ some true) × Q)
one_check none required m f iff = (λ h. absurd (true_absurd h.0), λ h. absurd (none_absurd h.0))
  where
    true_absurd : true ≡ false → ⊥
    true_absurd h = cc

    none_absurd : none ≡ some true → ⊥
    none_absurd h = cc
one_check (some true) required m f iff = (λ h. (refl, iff.0 h), λ h. iff.1 h.1)
one_check (some false) required m f iff =
    (λ h. absurd (false_absurd h.1), λ h. absurd (some_absurd h.0))
  where
    false_absurd : false ≡ true → ⊥
    false_absurd h = cc

    some_absurd : some false ≡ some true → ⊥
    some_absurd h = cc

-- A hit whose checks are complete and none of which failed has only evidence of passes.
passes_iff :
    (results : List (ℕ × Evidence)) (checks : List (ℕ × ResultKind))
    → ((is_missing results checks ≡ false) × (is_nil (failed_in results checks) ≡ true))
      ↔ All (Passed results) checks
passes_iff results [] = (λ h. tt, λ h. (refl, refl))
passes_iff results (required ∷ checks) =
    one_check (evidence_for results required) required (is_missing results checks)
      (failed_in results checks) (passes_iff results checks)

x0_needed :
    (hit : L1Hit) → ((hit.bin_id == 18) || (hit.bin_id == 19)) ≡ true → Needs hit ResultKind.x0
x0_needed hit h = ground arith

x0_not_needed :
    (hit : L1Hit) → ((hit.bin_id == 18) || (hit.bin_id == 19)) ≡ false → Needs hit ResultKind.x0 → ⊥
x0_not_needed hit h needs = ground arith

kinds-Needs :
    (hit : L1Hit) (P : ResultKind → Type 0)
    → All P (kinds_of hit.bin_id) ↔ ((kind : ResultKind) → Needs hit kind → P kind)
kinds-Needs hit P = elim (Bool-cases ((hit.bin_id == 18) || (hit.bin_id == 19))) [
  | inl with_x0 ↦ rw with_x0 (
    λ h kind needs. with_all h kind,
    λ h. (
      h ResultKind.pc tt,
      (
        h ResultKind.store tt,
        (h ResultKind.writeback tt, (h ResultKind.x0 (x0_needed hit with_x0), tt)),
      ),
    ),
  )
  | inr without ↦ rw without (
    λ h kind needs. without_x0 (x0_not_needed hit without) h kind needs,
    λ h. (h ResultKind.pc tt, (h ResultKind.store tt, (h ResultKind.writeback tt, tt))),
  )
]
  where
    with_all :
        All P (ResultKind.pc ∷ ResultKind.store ∷ ResultKind.writeback ∷ ResultKind.x0 ∷ [])
        → (kind : ResultKind) → P kind
    with_all h ResultKind.pc = h.0
    with_all h ResultKind.store = h.1.0
    with_all h ResultKind.writeback = h.1.1.0
    with_all h ResultKind.x0 = h.1.1.1.0

    without_x0 :
        (Needs hit ResultKind.x0 → ⊥)
        → All P (ResultKind.pc ∷ ResultKind.store ∷ ResultKind.writeback ∷ [])
        → (kind : ResultKind) → Needs hit kind
        → P kind
    without_x0 never h ResultKind.pc needs = h.0
    without_x0 never h ResultKind.store needs = h.1.0
    without_x0 never h ResultKind.writeback needs = h.1.1.0
    without_x0 never h ResultKind.x0 needs = absurd (never needs)

required-Needs :
    (hit : L1Hit) (P : ℕ × ResultKind → Type 0)
    → All P (required_checks hit)
      ↔ ((i : ℕ) (kind : ResultKind) → Participates hit i → Needs hit kind → P (i, kind))
unfolding required_checks participant_indices
required-Needs hit P =
    let all = All-with_kinds P (participant_indices hit) (kinds_of hit.bin_id) in
    (
      λ h i kind there needs.
          (kinds-Needs hit (λ k. P (i, k))).0
            (all.0 h i (contains-distinct participants [] i ∙ there)) kind needs,
      λ h. all.1 (λ i there.
          (kinds-Needs hit (λ k. P (i, k))).1
            (λ kind needs. h i kind (sym (contains-distinct participants [] i) ∙ there) needs)),
    )
  where
    participants : List ℕ
    participants = hit.producer_instruction_indices ++ hit.consumer_instruction_index ∷ []

promotion_iff :
    (hit : L1Hit) (c : ValidatedCollector)
    → Evaluated hit c
    → ((o : L1ValidationOutcome) × ((evaluate_architecture hit c).0 ≡ some o)
        × (o.validated ≡ true))
      ↔ ((is_missing c.architectural_results (required_checks hit) ≡ false)
          × (is_nil (failed_in c.architectural_results (required_checks hit)) ≡ true))
promotion_iff hit c (waits missing same) = (
  λ p. absurd (none_some p.0 (ap (λ r. r.0) (sym same) ∙ p.1)),
  λ h. absurd (true_false (sym missing ∙ h.0)),
)
  where
    none_some : (o : L1ValidationOutcome) → none ≡ some o → ⊥
    none_some o h = cc

    true_false : true ≡ false → ⊥
    true_false h = cc
promotion_iff hit c (settles failed found fails same) = (
  λ p. (
    found,
    ap is_nil fails
        ∙ ap (λ (o : L1ValidationOutcome). o.validated)
            (some_injective (ap (λ r. r.0) (sym same) ∙ p.1))
        ∙ p.2,
  ),
  λ h. (outcome_of hit failed, ap (λ r. r.0) same, ap is_nil (sym fails) ∙ h.1),
)
  where
    some_injective : {a b : L1ValidationOutcome} → some a ≡ some b → a ≡ b
    some_injective h = cc

-- A hit that passed its control checks is promoted by the evidence of the moment exactly if, for
-- each of its producers and for its consumer, the executed PC, the stores and the register write
-- were found correct, and x0 too for H18 and H19.
pub evaluate_architecture-promotes :
    (hit : L1Hit) (c : ValidatedCollector)
    → ((o : L1ValidationOutcome) × ((evaluate_architecture hit c).0 ≡ some o)
        × (o.validated ≡ true))
      ↔ ((i : ℕ) (kind : ResultKind)
          → Participates hit i
          → Needs hit kind
          → evidence_for c.architectural_results (i, kind) ≡ some true)
evaluate_architecture-promotes hit c =
    let one = promotion_iff hit c (evaluate-Evaluated hit c) in
    let two = passes_iff c.architectural_results (required_checks hit) in
    let three = required-Needs hit (Passed c.architectural_results) in
    (λ p. three.0 (two.0 (one.0 p)), λ h. one.1 (two.1 (three.1 h)))
