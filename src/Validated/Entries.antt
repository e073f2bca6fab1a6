-- ===== src/Validated/Entries.antt =====
-- The dictionary of the pending hits: what its operations do to the number of hits for a bin.
use riscv_pipeline_research.Base.{
  ℕ, ◌+◌, ◌≡◌, refl, ap, subst, arith, none, some, List, [], ◌∷◌, ◌++◌, ◌==◌, All, lookup, insert,
  erase, Bool-cases, inl, inr,
}
use riscv_pipeline_research.HazardBins.History.{L1Hit}
use riscv_pipeline_research.Validated.Balance.{IsHit, pending_in, pending_of}

abbrev pub Entries : Type 0
Entries = List (ℕ × List L1Hit)

abbrev pub IsWaiting : Entries → Type 0
IsWaiting entries = All (λ (entry : ℕ × List L1Hit). All IsHit entry.1) entries

some_injective : {A : Type 0} {a b : A} → some a ≡ some b → a ≡ b
some_injective h = cc

none_absurd : {A : Type 0} {a : A} → none ≡ some a → ⊥
none_absurd h = cc

module _ (k : ℕ) where
  pub lookup-waiting :
      (entries : Entries) (hits : List L1Hit)
      → IsWaiting entries
      → lookup k entries ≡ some hits
      → All IsHit hits
  lookup-waiting [] hits h found = cc
  lookup-waiting (entry ∷ entries) hits h found = elim (Bool-cases (k == entry.0)) [
    | inl same ↦ subst (All IsHit) (some_injective (rw (← found, same) refl)) h.0
    | inr other ↦ lookup-waiting entries hits h.1 (rw (← found, other) refl)
  ]

  pub insert-IsWaiting :
      (entries : Entries) (hits : List L1Hit)
      → IsWaiting entries
      → All IsHit hits
      → IsWaiting (insert k hits entries)
  insert-IsWaiting [] hits h new = (new, tt)
  insert-IsWaiting (entry ∷ entries) hits h new = elim (Bool-cases (k == entry.0)) [
    | inl same ↦ rw same (new, h.1)
    | inr other ↦ rw other (h.0, insert-IsWaiting entries hits h.1 new)
  ]

  pub erase-IsWaiting : (entries : Entries) → IsWaiting entries → IsWaiting (erase k entries)
  erase-IsWaiting [] h = tt
  erase-IsWaiting (entry ∷ entries) h = elim (Bool-cases (k == entry.0)) [
    | inl same ↦ rw same h.1
    | inr other ↦ rw other (h.0, erase-IsWaiting entries h.1)
  ]

  module _ (b : ℕ) where
    pub pending_of-insert :
        (entries : Entries) (old new : List L1Hit)
        → lookup k entries ≡ some old
        → pending_of b (insert k new entries) + pending_in b old
          ≡ pending_of b entries + pending_in b new
    pending_of-insert [] old new found = cc
    pending_of-insert (entry ∷ entries) old new found = elim (Bool-cases (k == entry.0)) [
      | inl same ↦ rw same (
          omega (
            arith,
            ap (pending_in b) (some_injective {a = entry.1} {b = old} (rw (← found, same) refl)),
          ))
      | inr other ↦
          rw other (omega (arith, pending_of-insert entries old new (rw (← found, other) refl)))
    ]

    pub pending_of-insert_new :
        (entries : Entries) (new : List L1Hit)
        → lookup k entries ≡ none
        → pending_of b (insert k new entries) ≡ pending_of b entries + pending_in b new
    pending_of-insert_new [] new found = omega arith
    pending_of-insert_new (entry ∷ entries) new found = elim (Bool-cases (k == entry.0)) [
      | inl same ↦ absurd (none_absurd {a = entry.1} (rw (← found, same) refl))
      | inr other ↦
          rw other (omega (arith, pending_of-insert_new entries new (rw (← found, other) refl)))
    ]

    pub pending_of-erase :
        (entries : Entries) (old : List L1Hit)
        → lookup k entries ≡ some old
        → pending_of b (erase k entries) + pending_in b old ≡ pending_of b entries
    pending_of-erase [] old found = cc
    pending_of-erase (entry ∷ entries) old found = elim (Bool-cases (k == entry.0)) [
      | inl same ↦ rw same (
          omega (
            arith,
            ap (pending_in b) (some_injective {a = entry.1} {b = old} (rw (← found, same) refl)),
          ))
      | inr other ↦
          rw other (omega (arith, pending_of-erase entries old (rw (← found, other) refl)))
    ]

pub pending_in-append :
    (b : ℕ) (xs ys : List L1Hit) → pending_in b (xs ++ ys) ≡ pending_in b xs + pending_in b ys
pending_in-append b [] ys = omega arith
pending_in-append b (x ∷ xs) ys = omega (arith, pending_in-append b xs ys)

pub waiting-append : (xs ys : List L1Hit) → All IsHit xs → All IsHit ys → All IsHit (xs ++ ys)
waiting-append [] ys h g = g
waiting-append (x ∷ xs) ys h g = (h.0, waiting-append xs ys h.1 g)
