-- ===== src/Base/Dict.antt =====
-- Python's dictionaries with natural keys: association lists in the order of insertion.
use Prim.Native.Nat.{ℕ, suc, ◌+◌, ◌<◌, ◌≤◌}
use mathlib.Core.Path.{◌≡◌, refl, ap, ◌∙◌}
use mathlib.Core.Logic.{inl, inr}
use mathlib.Core.Bool.{Bool, true, false}
use mathlib.Core.Option.{Option, none, some}
use mathlib.Core.List.{List, [], ◌∷◌, ◌++◌}
use native.Mathlib.Omega.{arith}
use riscv_pipeline_research.Base.Tests.{◌==◌, ==_ne, if◌then◌else◌, Bool-cases, ==_iff, ltb}
use riscv_pipeline_research.Base.Lists.{length}

module _ {ℓ} {A : Type ℓ} where
  abbrev pub lookup : ℕ → List (ℕ × A) → Option A
  lookup k [] = none
  lookup k (x ∷ xs) = if k == x.0 then some x.1 else lookup k xs

  -- `d[k] = v`
  abbrev pub insert : ℕ → A → List (ℕ × A) → List (ℕ × A)
  insert k v [] = (k, v) ∷ []
  insert k v (x ∷ xs) = if k == x.0 then (k, v) ∷ xs else x ∷ insert k v xs

  -- `d.pop(k)`
  abbrev pub erase : ℕ → List (ℕ × A) → List (ℕ × A)
  erase k [] = []
  erase k (x ∷ xs) = if k == x.0 then xs else x ∷ erase k xs

  abbrev pub is_some : Option A → Bool
  is_some none = false
  is_some (some a) = true

  -- `sorted(d.items())`, for keys that differ.
  abbrev pub sorted_in : ℕ × A → List (ℕ × A) → List (ℕ × A)
  sorted_in x [] = x ∷ []
  sorted_in x (y ∷ ys) = if ltb y.0 x.0 then y ∷ sorted_in x ys else x ∷ y ∷ ys

  abbrev pub sorted : List (ℕ × A) → List (ℕ × A)
  sorted [] = []
  sorted (x ∷ xs) = sorted_in x (sorted xs)

  -- `k in d`
  abbrev pub has_key : ℕ → List (ℕ × A) → Bool
  has_key k xs = is_some (lookup k xs)

  pub lookup-insert_self : (k : ℕ) (v : A) (xs : List (ℕ × A)) → lookup k (insert k v xs) ≡ some v
  lookup-insert_self k v [] = rw ((==_iff k k).1 refl) refl
  lookup-insert_self k v (x ∷ xs) = elim (Bool-cases (k == x.0)) [
    | inl same ↦ rw (same, (==_iff k k).1 refl) refl
    | inr other ↦ rw (other, other) (lookup-insert_self k v xs)
  ]

  pub lookup-insert_ne :
      (k j : ℕ) (v : A) (xs : List (ℕ × A))
      → (j == k) ≡ false
      → lookup j (insert k v xs) ≡ lookup j xs
  lookup-insert_ne k j v [] h = rw h refl
  lookup-insert_ne k j v (x ∷ xs) h = elim (Bool-cases (k == x.0)) [
    | inl same ↦ rw (same, h, ← (==_iff k x.0).0 same, h) refl
    | inr other ↦ rw (other, lookup-insert_ne k j v xs h) refl
  ]

  some_absurd : {v : A} → some v ≡ none → ⊥
  some_absurd h = cc

  -- A new key goes to the end.
  pub insert-new :
      (k : ℕ) (v : A) (xs : List (ℕ × A)) → lookup k xs ≡ none → insert k v xs ≡ xs ++ (k, v) ∷ []
  insert-new k v [] h = refl
  insert-new k v (x ∷ xs) h = elim (Bool-cases (k == x.0)) [
    | inl same ↦ absurd (some_absurd {v = x.1} (rw (← h, same) refl))
    | inr other ↦ rw other (ap (x ∷◌) (insert-new k v xs (rw (← h, other) refl)))
  ]

  abbrev pub numbered : ℕ → List A → List (ℕ × A)
  numbered n [] = []
  numbered n (x ∷ xs) = (n, x) ∷ numbered (n + 1) xs

  pub length-numbered : (n : ℕ) (xs : List A) → length (numbered n xs) ≡ length xs
  length-numbered n [] = refl
  length-numbered n (x ∷ xs) = ap suc (length-numbered (n + 1) xs)

  pub lookup-numbered_before : (n k : ℕ) (xs : List A) → k < n → lookup k (numbered n xs) ≡ none
  lookup-numbered_before n k [] h = refl
  lookup-numbered_before n k (x ∷ xs) h =
      rw (==_ne k n (inl h)) (lookup-numbered_before (n + 1) k xs (omega (arith, h)))

  pub lookup-numbered_beyond :
      (n k : ℕ) (xs : List A) → n + length xs ≤ k → lookup k (numbered n xs) ≡ none
  lookup-numbered_beyond n k [] h = refl
  lookup-numbered_beyond n k (x ∷ xs) h =
      rw (==_ne k n (inr (omega (arith, h))))
        (lookup-numbered_beyond (n + 1) k xs (omega (arith, h)))

  pub has_key-numbered :
      (n k : ℕ) (xs : List A) → n ≤ k → k < n + length xs → has_key k (numbered n xs) ≡ true
  has_key-numbered n k [] low high = absurd (omega (arith, low, high))
  has_key-numbered n k (x ∷ xs) low high = elim (Bool-cases (k == n)) [
    | inl same ↦ rw same refl
    | inr other ↦ rw other (has_key-numbered (n + 1) k xs (ground arith) (omega (arith, high)))
  ]

  pub numbered-append :
      (n : ℕ) (xs : List A) (a : A)
      → numbered n xs ++ (n + length xs, a) ∷ [] ≡ numbered n (xs ++ a ∷ [])
  numbered-append n [] a = ap (λ k. (k, a) ∷ []) (omega arith)
  numbered-append n (x ∷ xs) a =
      ap ((n, x) ∷◌)
        (ap (λ k. numbered (n + 1) xs ++ (k, a) ∷ []) (omega arith) ∙ numbered-append (n + 1) xs a)

  pub lookup-append_none :
      (k : ℕ) (xs ys : List (ℕ × A)) → lookup k xs ≡ none → lookup k (xs ++ ys) ≡ lookup k ys
  lookup-append_none k [] ys h = refl
  lookup-append_none k (x ∷ xs) ys h = elim (Bool-cases (k == x.0)) [
    | inl same ↦ absurd (some_absurd {v = x.1} (rw (← h, same) refl))
    | inr other ↦ rw other (lookup-append_none k xs ys (rw (← h, other) refl))
  ]
