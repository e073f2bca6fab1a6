-- ===== src/Validated/Balance.antt =====
-- The counters of the collector of validated_coverage.py: every attempt is validated, rejected or
-- still pending.
use riscv_pipeline_research.Base.{
  ℕ, ◌+◌, ◌-◌, ◌≤◌, ◌<◌, ◌≡◌, refl, ap, sym, ◌∙◌, arith, Bool, true, false, Option, none, some,
  List, [], ◌∷◌, ◌==◌, ltb, if◌then◌else◌, length, get_or, All, length-set, get_or-set,
  get_or-replicate, Bool-cases, inl, inr, subst,
}
use riscv_pipeline_research.HazardBins.History.{L1Hit}
use riscv_pipeline_research.Validated.{
  ResultKind, L1ValidationOutcome, ValidatedCollector, new_validated, required_checks, is_missing,
  failed_in, is_nil, settle, outcome_of, evaluate_architecture,
}
use riscv_pipeline_research.Validated.Steps.{Finalized, place, finalize_hits}

abbrev pub IsHit : L1Hit → Type 0
IsHit hit = (0 < hit.bin_id) × (hit.bin_id ≤ 20)

-- The hits for the bin with the index `b`.
abbrev pub pending_in : ℕ → List L1Hit → ℕ
pending_in b [] = 0
pending_in b (hit ∷ hits) = (if hit.bin_id - 1 == b then 1 else 0) + pending_in b hits

abbrev pub pending_of : ℕ → List (ℕ × List L1Hit) → ℕ
pending_of b [] = 0
pending_of b (entry ∷ entries) = pending_in b entry.1 + pending_of b entries

abbrev pub attempts : ValidatedCollector → ℕ → ℕ
attempts c b = get_or c.validation_attempt_count b 0

abbrev pub settled : ValidatedCollector → ℕ → ℕ
settled c b = get_or c.validated_hit_count b 0 + get_or c.rejected_hit_count b 0

-- A bin is seen as validated exactly if a hit for it was validated.
abbrev pub IsFlagged : ValidatedCollector → ℕ → Type 0
IsFlagged c b = get_or c.validated_seen b false ≡ ltb 0 (get_or c.validated_hit_count b 0)

pub record IsSized (c : ValidatedCollector) : Type 0 where
  pub seen : length c.validated_seen ≡ 20
  pub attempted : length c.validation_attempt_count ≡ 20
  pub validated : length c.validated_hit_count ≡ 20
  pub rejected : length c.rejected_hit_count ≡ 20

pub record IsBalanced (c : ValidatedCollector) : Type 0 where
  pub sized : IsSized c
  pub waiting : All (λ (entry : ℕ × List L1Hit). All IsHit entry.1) c.pending_by_consumer
  pub counted : (b : ℕ) → attempts c b ≡ settled c b + pending_of b c.pending_by_consumer
  pub flagged : (b : ℕ) → IsFlagged c b

pub new_validated-IsBalanced : IsBalanced new_validated
new_validated-IsBalanced = record {
  sized = record { seen = refl; attempted = refl; validated = refl; rejected = refl };
  waiting = tt;
  counted = λ b. omega (arith, get_or-replicate {A = ℕ} 20 b 0);
  flagged = λ b. ground (arith, get_or-replicate {A = ℕ} 20 b 0, get_or-replicate 20 b false);
}

-- What a settled hit changes.
pub record Settles (before after : List L1Hit) (c c' : ValidatedCollector) : Type 0 where
  pub sized : IsSized c'
  pub attempted : c'.validation_attempt_count ≡ c.validation_attempt_count
  pub entries : c'.pending_by_consumer ≡ c.pending_by_consumer
  pub evidence : c'.architectural_results ≡ c.architectural_results
  pub waiting : All IsHit after
  pub counted : (b : ℕ) → settled c' b + pending_in b after ≡ settled c b + pending_in b before
  pub flagged : (b : ℕ) → IsFlagged c b → IsFlagged c' b

settle-Settles :
    (hit : L1Hit) (v : Bool) (c : ValidatedCollector)
    → IsHit hit
    → IsSized c
    → Settles (hit ∷ []) [] c (settle hit v c)
settle-Settles hit true c h s = record {
  sized = record {
    seen = length-set c.validated_seen (hit.bin_id - 1) true ∙ s.seen;
    attempted = s.attempted;
    validated = length-set c.validated_hit_count (hit.bin_id - 1) _ ∙ s.validated;
    rejected = s.rejected;
  };
  attempted = refl;
  entries = refl;
  evidence = refl;
  waiting = tt;
  counted = λ b. ground (
    arith,
    s.validated,
    get_or-set c.validated_hit_count (hit.bin_id - 1) b
        (get_or c.validated_hit_count (hit.bin_id - 1) 0 + 1) 0,
  );
  flagged = λ b f. ground (
    arith,
    s.validated,
    s.seen,
    get_or-set c.validated_hit_count (hit.bin_id - 1) b
        (get_or c.validated_hit_count (hit.bin_id - 1) 0 + 1) 0,
    get_or-set c.validated_seen (hit.bin_id - 1) b true false,
  );
}
settle-Settles hit false c h s = record {
  sized = record {
    seen = s.seen;
    attempted = s.attempted;
    validated = s.validated;
    rejected = length-set c.rejected_hit_count (hit.bin_id - 1) _ ∙ s.rejected;
  };
  attempted = refl;
  entries = refl;
  evidence = refl;
  waiting = tt;
  counted = λ b. ground (
    arith,
    s.rejected,
    get_or-set c.rejected_hit_count (hit.bin_id - 1) b
        (get_or c.rejected_hit_count (hit.bin_id - 1) 0 + 1) 0,
  );
  flagged = λ b f. f;
}

-- How the evaluation of a hit ends.
pub data Evaluated (hit : L1Hit) (c : ValidatedCollector) : Type 0 where
  waits :
      is_missing c.architectural_results (required_checks hit) ≡ true
      → evaluate_architecture hit c ≡ (none, c)
      → Evaluated hit c
  settles :
      (failed : List (ℕ × ResultKind))
      → is_missing c.architectural_results (required_checks hit) ≡ false
      → failed_in c.architectural_results (required_checks hit) ≡ failed
      → evaluate_architecture hit c ≡ (some (outcome_of hit failed), settle hit (is_nil failed) c)
      → Evaluated hit c

pub evaluate-Evaluated : (hit : L1Hit) (c : ValidatedCollector) → Evaluated hit c
unfolding evaluate_architecture
evaluate-Evaluated hit c =
    elim (Bool-cases (is_missing c.architectural_results (required_checks hit))) [
      | inl missing ↦ waits missing (rw missing refl)
      | inr found ↦
          settles (failed_in c.architectural_results (required_checks hit)) found refl
            (rw found refl)
    ]

pub finalize_hits-cons :
    (hit : L1Hit) (hits : List L1Hit) (c c' : ValidatedCollector) (o : Option L1ValidationOutcome)
    → evaluate_architecture hit c ≡ (o, c')
    → finalize_hits (hit ∷ hits) c ≡ place o hit (finalize_hits hits c')
finalize_hits-cons hit hits c c' o h = ap (λ r. place r.0 hit (finalize_hits hits r.1)) h

pub finalize_hits-Settles :
    (hits : List L1Hit) (c : ValidatedCollector)
    → All IsHit hits
    → IsSized c
    → Settles hits (finalize_hits hits c).1 c (finalize_hits hits c).2
finalize_hits-Settles [] c h s = record {
  sized = s;
  attempted = refl;
  entries = refl;
  evidence = refl;
  waiting = tt;
  counted = λ b. refl;
  flagged = λ b f. f;
}
finalize_hits-Settles (hit ∷ hits) c h s = elim (evaluate-Evaluated hit c) [
  | waits missing same ↦
      let rest = finalize_hits-Settles hits c h.1 s in
      subst (λ (r : Finalized). Settles (hit ∷ hits) r.1 c r.2)
        (sym (finalize_hits-cons hit hits c c none same))
        (record {
          sized = rest.sized;
          attempted = rest.attempted;
          entries = rest.entries;
          evidence = rest.evidence;
          waiting = (h.0, rest.waiting);
          counted = λ b. omega (arith, rest.counted b);
          flagged = rest.flagged;
        })
  | settles failed found fails same ↦
      let one = settle-Settles hit (is_nil failed) c h.0 s in
      let rest = finalize_hits-Settles hits (settle hit (is_nil failed) c) h.1 one.sized in
      subst (λ (r : Finalized). Settles (hit ∷ hits) r.1 c r.2)
        (sym (finalize_hits-cons hit hits c _ _ same))
        (record {
          sized = rest.sized;
          attempted = rest.attempted ∙ one.attempted;
          entries = rest.entries ∙ one.entries;
          evidence = rest.evidence ∙ one.evidence;
          waiting = rest.waiting;
          counted = λ b. omega (arith, rest.counted b, one.counted b);
          flagged = λ b f. rest.flagged b (one.flagged b f);
        })
]
