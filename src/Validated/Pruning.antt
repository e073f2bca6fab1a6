-- ===== src/Validated/Pruning.antt =====
-- What `prune` of validated_coverage.py keeps and drops.
use riscv_pipeline_research.Base.{
  ℕ, ◌+◌, ◌≤◌, ◌<◌, ◌≡◌, ◌↔◌, ◌⊎◌, refl, ap, sym, ◌∙◌, subst, arith, Bool, true, false, ◌||◌,
  Option, none, List, [], ◌∷◌, pos, ok, ◌==◌, ==_iff, if◌then◌else◌, lookup, Bool-cases, inl, inr,
}
use riscv_pipeline_research.Event.{contains, positive}
use riscv_pipeline_research.HazardBins.History.{L1Hit}
use riscv_pipeline_research.Validated.{Evidence, ValidatedCollector, participant_indices}
use riscv_pipeline_research.Validated.Steps.{
  retained, retained_by, prune_entries, stays, prune, prune_at,
}
use riscv_pipeline_research.Validated.Gate.{Participates, contains-append, contains-distinct}

abbrev pub IsIn : L1Hit → List L1Hit → Type 0
IsIn hit [] = ⊥
IsIn hit (x ∷ xs) = (x ≡ hit) ⊎ IsIn hit xs

abbrev pub IsPending : L1Hit → List (ℕ × List L1Hit) → Type 0
IsPending hit [] = ⊥
IsPending hit (entry ∷ entries) = IsIn hit entry.1 ⊎ IsPending hit entries

-- A pending hit that the instruction takes part in.
abbrev pub IsNeeded : ℕ → ValidatedCollector → Type 0
IsNeeded i c = (hit : L1Hit) × IsPending hit c.pending_by_consumer × Participates hit i

or_cases : (a b : Bool) → (a || b) ≡ true → (a ≡ true) ⊎ (b ≡ true)
or_cases true b h = inl refl
or_cases false b h = inr h

or_right : (a b : Bool) → b ≡ true → (a || b) ≡ true
or_right true b h = refl
or_right false b h = h

or_left : (a b : Bool) → a ≡ true → (a || b) ≡ true
or_left true b h = refl
or_left false b h = cc

retained_by_iff :
    (i : ℕ) (hits : List L1Hit)
    → (contains (retained_by hits) i ≡ true) ↔ ((hit : L1Hit) × IsIn hit hits × Participates hit i)
unfolding retained_by participant_indices
retained_by_iff i [] = (λ h. cc, λ h. absurd h.1)
retained_by_iff i (x ∷ xs) = (
  λ h. elim (or_cases _ _ (sym (contains-append (participant_indices x) (retained_by xs) i) ∙ h)) [
    | inl first ↦ (x, inl refl, sym (contains-distinct _ [] i) ∙ first)
    | inr later ↦ let found = (retained_by_iff i xs).0 later in (found.0, inr found.1, found.2)
  ],
  λ h. contains-append (participant_indices x) (retained_by xs) i ∙ elim h.1 [
    | inl same ↦
        or_left _ _ (contains-distinct _ [] i ∙ subst (λ y. Participates y i) (sym same) h.2)
    | inr later ↦ or_right _ _ ((retained_by_iff i xs).1 (h.0, later, h.2))
  ],
)

retained_iff :
    (i : ℕ) (entries : List (ℕ × List L1Hit))
    → (contains (retained entries) i ≡ true)
      ↔ ((hit : L1Hit) × IsPending hit entries × Participates hit i)
unfolding retained
retained_iff i [] = (λ h. cc, λ h. absurd h.1)
retained_iff i (entry ∷ entries) = (
  λ h. elim (or_cases _ _ (sym (contains-append (retained_by entry.1) (retained entries) i) ∙ h)) [
    | inl first ↦ let found = (retained_by_iff i entry.1).0 first in (found.0, inl found.1, found.2)
    | inr later ↦ let found = (retained_iff i entries).0 later in (found.0, inr found.1, found.2)
  ],
  λ h. contains-append (retained_by entry.1) (retained entries) i ∙ elim h.1 [
    | inl first ↦ or_left _ _ ((retained_by_iff i entry.1).1 (h.0, first, h.2))
    | inr later ↦ or_right _ _ ((retained_iff i entries).1 (h.0, later, h.2))
  ],
)

lookup-prune_entries :
    (p : ℕ → Bool) (i : ℕ) (entries : List (ℕ × Evidence))
    → lookup i (prune_entries p entries) ≡ (if p i then lookup i entries else none)
lookup-prune_entries p i [] = by_test (p i)
  where
    by_test : (v : Bool) → ◌≡◌ {A = Option Evidence} none (if v then none else none)
    by_test true = refl
    by_test false = refl
lookup-prune_entries p i (entry ∷ entries) = elim (Bool-cases (p entry.0)) [
  | inl kept ↦ elim (Bool-cases (i == entry.0)) [
    | inl same ↦ rw (kept, same, (==_iff i entry.0).0 same, kept) refl
    | inr other ↦ rw (kept, other) (lookup-prune_entries p i entries)
  ]
  | inr dropped ↦ elim (Bool-cases (i == entry.0)) [
    | inl same ↦
        rw (dropped, same)
          (lookup-prune_entries p i entries ∙ rw ((==_iff i entry.0).0 same, dropped) refl)
    | inr other ↦ rw (dropped, other) (lookup-prune_entries p i entries)
  ]
]

prune-runs :
    (latest : ℕ) (c : ValidatedCollector)
    → 0 < latest
    → (prune (pos latest) c).1
      ≡ record c { architectural_results = prune_entries (stays latest c) c.architectural_results }
unfolding prune prune_at
prune-runs latest c h = ap (λ o. (prune_at o c).1) (numbered latest h)
  where
    numbered : (n : ℕ) → 0 < n → positive (pos n) ≡ ok n
    numbered n h = ground arith

stays-kept :
    (latest i : ℕ) (c : ValidatedCollector)
    → 0 < i
    → (latest ≤ i + 4) ⊎ (contains (retained c.pending_by_consumer) i ≡ true)
    → stays latest c i ≡ true
unfolding stays
stays-kept latest i c positive_i h = ground arith

stays-dropped :
    (latest i : ℕ) (c : ValidatedCollector)
    → i + 4 < latest
    → contains (retained c.pending_by_consumer) i ≡ false
    → stays latest c i ≡ false
unfolding stays
stays-dropped latest i c old h = ground arith

-- Pruning after the instruction `latest` keeps the evidence of the last five instructions and that of
-- every instruction that a pending hit still needs, and drops that of every other instruction. It
-- changes no other field of the collector.
pub prune-keeps :
    (latest i : ℕ) (c : ValidatedCollector)
    → 0 < latest
    → 0 < i
    → ((latest ≤ i + 4) ⊎ IsNeeded i c
        → lookup i (prune (pos latest) c).1.architectural_results
          ≡ lookup i c.architectural_results)
      × ((i + 4 < latest)
          → (IsNeeded i c → ⊥)
          → lookup i (prune (pos latest) c).1.architectural_results ≡ none)
      × ((prune (pos latest) c).1
          ≡ record c { architectural_results = (prune (pos latest) c).1.architectural_results })
prune-keeps latest i c some_run positive_i = (
  λ why. found ∙ rw (stays-kept latest i c positive_i (retained_why why)) refl,
  λ old not_needed. found ∙ rw (stays-dropped latest i c old (not_retained not_needed)) refl,
  rw (prune-runs latest c some_run) refl,
)
  where
    found :
        lookup i (prune (pos latest) c).1.architectural_results
        ≡ (if stays latest c i then lookup i c.architectural_results else none)
    found =
        ap (λ (d : ValidatedCollector). lookup i d.architectural_results)
          (prune-runs latest c some_run)
        ∙ lookup-prune_entries (stays latest c) i c.architectural_results

    retained_why :
        (latest ≤ i + 4) ⊎ IsNeeded i c
        → (latest ≤ i + 4) ⊎ (contains (retained c.pending_by_consumer) i ≡ true)
    retained_why (inl recent) = inl recent
    retained_why (inr needed) = inr ((retained_iff i c.pending_by_consumer).1 needed)

    not_retained : (IsNeeded i c → ⊥) → contains (retained c.pending_by_consumer) i ≡ false
    not_retained never = elim (Bool-cases (contains (retained c.pending_by_consumer) i)) [
      | inl there ↦ absurd (never ((retained_iff i c.pending_by_consumer).0 there))
      | inr absent ↦ absent
    ]
