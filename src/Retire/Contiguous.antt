-- ===== src/Retire/Contiguous.antt =====
-- The loop with which the constructors of functional_scoreboard.py and performance_monitor.py
-- index the items they are given, which are to be numbered from 1 without gaps.
use riscv_pipeline_research.Base.{
  ℕ, ◌+◌, ◌≤◌, ◌≡◌, refl, ap, arith, not, none, List, [], ◌∷◌, ◌++◌, Outcome, ok, err, value_error,
  ◌==◌, ==_iff, ==_ne, ◌∙◌, sym, inr, if◌then◌else◌, lookup, insert, insert-new, numbered,
  lookup-append_none,
}
use mathlib.Core.List.{append-nil, append_assoc}

module _ {A : Type 0} (id_of : A → ℕ) where
  -- The loop, with the next identifier and the dictionary so far.
  abbrev pub indexed : ℕ → List A → List (ℕ × A) → Outcome (List (ℕ × A))
  indexed expected_id [] so_far = ok so_far
  indexed expected_id (item ∷ items) so_far =
      if not (id_of item == expected_id)
      then err value_error
      else indexed (expected_id + 1) items (insert (id_of item) item so_far)

  abbrev pub IsNumbered : ℕ → List A → Type 0
  IsNumbered n [] = Unit {0}
  IsNumbered n (item ∷ items) = (id_of item ≡ n) × IsNumbered (n + 1) items

  indexed-onto :
      (n : ℕ) (items : List A) (so_far : List (ℕ × A))
      → IsNumbered n items
      → ((k : ℕ) → n ≤ k → lookup k so_far ≡ none)
      → indexed n items so_far ≡ ok (so_far ++ numbered n items)
  indexed-onto n [] so_far h fresh = ap ok (sym (append-nil so_far))
  indexed-onto n (item ∷ items) so_far h fresh =
      rw (h.0, (==_iff n n).1 refl, insert-new n item so_far (fresh n (omega arith)))
        (indexed-onto (n + 1) items (so_far ++ (n, item) ∷ []) h.1 still
          ∙ ap ok (append_assoc so_far ((n, item) ∷ []) (numbered (n + 1) items)))
    where
      still : (k : ℕ) → n + 1 ≤ k → lookup k (so_far ++ (n, item) ∷ []) ≡ none
      still k high =
          lookup-append_none k so_far ((n, item) ∷ []) (fresh k (omega (arith, high)))
          ∙ rw (==_ne k n (inr (omega (arith, high)))) refl

  -- Items that are numbered from 1 are all indexed, in their order.
  pub indexed-numbered :
      (items : List A) → IsNumbered 1 items → indexed 1 items [] ≡ ok (numbered 1 items)
  indexed-numbered items h = indexed-onto 1 items [] h (λ k _. refl)
