-- ===== src/Promotion/Invariant.antt =====
-- The coverage of a campaign over any calls of the collector of coverage_collector.py.
use mathlib.Core.List.{append-nil}
use riscv_pipeline_research.Base.{
  ◌++◌, ok_injective, err_absurd, ℕ, ◌%◌, ◌≤◌, ◌≡◌, refl, ap, sym, ◌∙◌, subst, arith, true, false,
  Option, none, some, List, [], ◌∷◌, Outcome, Outcome-cases, ok, err, value_error, zero, suc, ◌⊎◌,
  get_or, set, All, All-set, All-get_or, Bool-cases, inl, inr, is_some,
}
use riscv_pipeline_research.Promotion.{
  FirstHit, BinState, new_bin, CoverageCheckpoint, CoverageCollector, record_intent,
  record_validated, change_bin, changed, with_l1, with_l2, count_seen,
}

-- A bin has the metadata of its first hits, and is validated only after it has been seen.
pub record IsState (s : BinState) : Type 0 where
  pub after_intent : s.validated_seen ≡ true → s.intent_seen ≡ true
  pub intent : is_some s.intent_first ≡ s.intent_seen
  pub validated : is_some s.validated_first ≡ s.validated_seen

-- What was first stays first.
abbrev pub Keeps : BinState → BinState → Type 0
Keeps s s' =
    ((f : FirstHit) → s.intent_first ≡ some f → s'.intent_first ≡ some f)
    × ((f : FirstHit) → s.validated_first ≡ some f → s'.validated_first ≡ some f)

-- A change of one bin that raises or keeps what holds of it.
abbrev pub IsChange : (FirstHit → BinState → Outcome BinState) → Type 0
IsChange change =
    (hit : FirstHit) (s s' : BinState) → change hit s ≡ ok s' → IsState s → IsState s' × Keeps s s'

pub Keeps-refl : (s : BinState) → Keeps s s
Keeps-refl s = (λ f h. h, λ f h. h)

some_unseen : (f : FirstHit) (o : Option FirstHit) → is_some o ≡ false → o ≡ some f → ⊥
some_unseen f none h e = cc
some_unseen f (some g) h e = cc

pub record_intent-IsChange : IsChange record_intent
record_intent-IsChange hit s s' h is = elim (Bool-cases s.intent_seen) [
  | inl seen ↦
      subst (λ t. IsState t × Keeps s t) (ok_injective {a = s} (rw (← h, seen) refl))
        (is, Keeps-refl s)
  | inr fresh ↦
      subst (λ t. IsState t × Keeps s t)
        (ok_injective {a = record s { intent_seen = true; intent_first = some hit }}
          (rw (← h, fresh) refl))
        (
          record { after_intent = λ _. refl; intent = refl; validated = is.validated },
          (λ f e. absurd (some_unseen f s.intent_first (is.intent ∙ fresh) e), λ f e. e),
        )
]

pub record_validated-IsChange : IsChange record_validated
record_validated-IsChange hit s s' h is = elim (Bool-cases s.intent_seen) [
  | inr fresh ↦ absurd (err_absurd value_error s' (rw (← h, fresh) refl))
  | inl seen ↦ elim (Bool-cases s.validated_seen) [
    | inl already ↦
        subst (λ t. IsState t × Keeps s t) (ok_injective {a = s} (rw (← h, seen, already) refl))
          (is, Keeps-refl s)
    | inr new ↦
        subst (λ t. IsState t × Keeps s t)
          (ok_injective {a = record s { validated_seen = true; validated_first = some hit }}
            (rw (← h, seen, new) refl))
          (
            record { after_intent = λ _. seen; intent = is.intent; validated = refl },
            (λ f e. e, λ f e. absurd (some_unseen f s.validated_first (is.validated ∙ new) e)),
          )
  ]
]

pub new_bin-IsState : IsState new_bin
new_bin-IsState = record { after_intent = λ h. h; intent = refl; validated = refl }

abbrev pub AllKeep : List BinState → List BinState → Type 0
AllKeep states states' = (i : ℕ) → Keeps (get_or states i new_bin) (get_or states' i new_bin)

get_or-set_cases :
    (xs : List BinState) (i j : ℕ) (v d : BinState)
    → ((i ≡ j) × (get_or (set xs i v) j d ≡ v)) ⊎ (get_or (set xs i v) j d ≡ get_or xs j d)
get_or-set_cases [] i j v d = inr refl
get_or-set_cases (x ∷ xs) zero zero v d = inl (refl, refl)
get_or-set_cases (x ∷ xs) zero (suc j) v d = inr refl
get_or-set_cases (x ∷ xs) (suc i) zero v d = inr refl
get_or-set_cases (x ∷ xs) (suc i) (suc j) v d = elim (get_or-set_cases xs i j v d) [
  | inl (same, written) ↦ inl (ap suc same, written)
  | inr kept ↦ inr kept
]

change_bin-keeps :
    (change : FirstHit → BinState → Outcome BinState) (index : ℕ) (hit : FirstHit)
    (states states' : List BinState)
    → IsChange change
    → All IsState states
    → change_bin index (change hit) states ≡ ok states'
    → All IsState states' × AllKeep states states'
change_bin-keeps change index hit states states' is_change is h =
    elim (Outcome-cases (change hit (get_or states index new_bin))) [
      | inr (x, raised) ↦ absurd (err_absurd x states' (rw (← h, raised) refl))
      | inl (s', done) ↦
          let kept =
            is_change hit (get_or states index new_bin) s' done
              (All-get_or IsState states index new_bin is new_bin-IsState) in
          subst (λ t. All IsState t × AllKeep states t)
            (ok_injective {a = set states index s'} (rw (← h, done) refl))
            (All-set IsState states index s' is kept.0, written s' kept.1)
    ]
  where
    written :
        (s' : BinState)
        → Keeps (get_or states index new_bin) s'
        → AllKeep states (set states index s')
    written s' kept i = elim (get_or-set_cases states index i s' new_bin) [
      | inl (same, now) ↦
          subst (Keeps (get_or states i new_bin)) (sym now)
            (subst (λ n. Keeps (get_or states n new_bin) s') same kept)
      | inr same ↦
          subst (Keeps (get_or states i new_bin)) (sym same) (Keeps-refl (get_or states i new_bin))
    ]

pub changed-keeps :
    (bin : Outcome ℕ) (hit : Outcome FirstHit) (change : FirstHit → BinState → Outcome BinState)
    (states states' : List BinState)
    → IsChange change
    → All IsState states
    → changed bin hit change states ≡ ok states'
    → All IsState states' × AllKeep states states'
changed-keeps (err e) hit change states states' is_change is h = cc
changed-keeps (ok index) (err e) change states states' is_change is h = cc
changed-keeps (ok index) (ok hit) change states states' is_change is h =
    change_bin-keeps change index hit states states' is_change is h

-- Whatever is counted as validated has been seen.
pub counts-le :
    (states : List BinState)
    → All IsState states
    → count_seen (λ s. s.validated_seen) states ≤ count_seen (λ s. s.intent_seen) states
counts-le [] is = omega arith
counts-le (s ∷ states) is = ground (arith, counts-le states is.1, is.0.after_intent)

abbrev pub IsCheckpoint : ℕ → CoverageCheckpoint → Type 0
IsCheckpoint interval k =
    (k.executed_instructions % interval ≡ 0)
    × (k.l1_validated_count ≤ k.l1_intent_count)
    × (k.l2_validated_count ≤ k.l2_intent_count)

pub record IsCollector (c : CoverageCollector) : Type 0 where
  pub l1 : All IsState c.l1_state
  pub l2 : All IsState c.l2_state
  pub numbered : c.executed_instructions ≡ c.last_instruction_id
  pub checkpoints : All (IsCheckpoint c.checkpoint_interval) c.checkpoints
  pub sunk : All (IsCheckpoint c.checkpoint_interval) c.sunk

-- What was listed stays listed, in front.
abbrev pub IsPrefix : List CoverageCheckpoint → List CoverageCheckpoint → Type 0
IsPrefix ks ks' = (rest : List CoverageCheckpoint) × (ks' ≡ ks ++ rest)

pub IsPrefix-refl : (ks : List CoverageCheckpoint) → IsPrefix ks ks
IsPrefix-refl ks = ([], sym (append-nil ks))

-- No first hit is lost or replaced, and no checkpoint disappears.
pub record Grows (c c' : CoverageCollector) : Type 0 where
  pub l1 : AllKeep c.l1_state c'.l1_state
  pub l2 : AllKeep c.l2_state c'.l2_state
  pub counted : c.executed_instructions ≤ c'.executed_instructions
  pub kept : IsPrefix c.checkpoints c'.checkpoints

pub Grows-refl : (c : CoverageCollector) → Grows c c
Grows-refl c = record {
  l1 = λ i. Keeps-refl (get_or c.l1_state i new_bin);
  l2 = λ i. Keeps-refl (get_or c.l2_state i new_bin);
  counted = omega arith;
  kept = IsPrefix-refl c.checkpoints;
}

pub with_l1-keeps :
    (o : Outcome (List BinState)) (c : CoverageCollector)
    → ((states : List BinState) → o ≡ ok states → All IsState states × AllKeep c.l1_state states)
    → IsCollector c
    → IsCollector (with_l1 o c).1 × Grows c (with_l1 o c).1
with_l1-keeps (err e) c kept h = (h, Grows-refl c)
with_l1-keeps (ok states) c kept h =
    let (is, keeps) = kept states refl in
    (
      record {
        l1 = is;
        l2 = h.l2;
        numbered = h.numbered;
        checkpoints = h.checkpoints;
        sunk = h.sunk;
      },
      record {
        l1 = keeps;
        l2 = (Grows-refl c).l2;
        counted = omega arith;
        kept = IsPrefix-refl c.checkpoints;
      },
    )

pub with_l2-keeps :
    (o : Outcome (List BinState)) (c : CoverageCollector)
    → ((states : List BinState) → o ≡ ok states → All IsState states × AllKeep c.l2_state states)
    → IsCollector c
    → IsCollector (with_l2 o c).1 × Grows c (with_l2 o c).1
with_l2-keeps (err e) c kept h = (h, Grows-refl c)
with_l2-keeps (ok states) c kept h =
    let (is, keeps) = kept states refl in
    (
      record {
        l1 = h.l1;
        l2 = is;
        numbered = h.numbered;
        checkpoints = h.checkpoints;
        sunk = h.sunk;
      },
      record {
        l1 = (Grows-refl c).l1;
        l2 = keeps;
        counted = omega arith;
        kept = IsPrefix-refl c.checkpoints;
      },
    )
