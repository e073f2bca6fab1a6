-- ===== src/HazardBins/Bins.antt =====
-- The twenty bins of l1_coverage.py by their numbers, and the hits and the counts of each.
use riscv_pipeline_research.Base.{
  ℕ, suc, ◌+◌, ◌-◌, subst, ◌<◌, ◌≤◌, ◌≡◌, ◌↔◌, ◌⊎◌, refl, ap, sym, ◌∙◌, true, false, Option, none,
  some, List, [], ◌∷◌, arith, length, inl, inr, Bool-cases, ==_iff, ◌==◌, ◌||◌, get_or, length-set,
  int_of_bool, is_some, get_or-set, if◌then◌else◌,
}
use riscv_pipeline_research.Event.{ExecutionEvent}
use riscv_pipeline_research.HazardBins.{Classifier, candidates, count_hit}
use riscv_pipeline_research.HazardBins.History.{L1Hit}
use riscv_pipeline_research.HazardBins.Order.{candidates-IsOrdered, passing, IsOrdered, count_hits}
use riscv_pipeline_research.HazardBins.Predicates.{
  h01, h02, h03, h04, h05, h06, h07, h08, h09, h10, h11, h12, h13, h14, h15, h16, h17, h18, h19,
  h20,
}

-- The twenty bins, "H01" to "H20".
pub data HazardBin : Type 0 where
  hazard_01 hazard_02 hazard_03 hazard_04 hazard_05 hazard_06 hazard_07 hazard_08 hazard_09
        hazard_10 hazard_11 hazard_12 hazard_13 hazard_14 hazard_15 hazard_16 hazard_17 hazard_18
        hazard_19 hazard_20 :
      HazardBin

abbrev pub number_of : HazardBin → ℕ
number_of HazardBin.hazard_01 = 1
number_of HazardBin.hazard_02 = 2
number_of HazardBin.hazard_03 = 3
number_of HazardBin.hazard_04 = 4
number_of HazardBin.hazard_05 = 5
number_of HazardBin.hazard_06 = 6
number_of HazardBin.hazard_07 = 7
number_of HazardBin.hazard_08 = 8
number_of HazardBin.hazard_09 = 9
number_of HazardBin.hazard_10 = 10
number_of HazardBin.hazard_11 = 11
number_of HazardBin.hazard_12 = 12
number_of HazardBin.hazard_13 = 13
number_of HazardBin.hazard_14 = 14
number_of HazardBin.hazard_15 = 15
number_of HazardBin.hazard_16 = 16
number_of HazardBin.hazard_17 = 17
number_of HazardBin.hazard_18 = 18
number_of HazardBin.hazard_19 = 19
number_of HazardBin.hazard_20 = 20

-- The test of each bin.
abbrev pub test_for : HazardBin → List ExecutionEvent → ExecutionEvent → Option L1Hit
test_for HazardBin.hazard_01 = h01
test_for HazardBin.hazard_02 = h02
test_for HazardBin.hazard_03 = h03
test_for HazardBin.hazard_04 = h04
test_for HazardBin.hazard_05 = h05
test_for HazardBin.hazard_06 = h06
test_for HazardBin.hazard_07 = h07
test_for HazardBin.hazard_08 = h08
test_for HazardBin.hazard_09 = h09
test_for HazardBin.hazard_10 = h10
test_for HazardBin.hazard_11 = h11
test_for HazardBin.hazard_12 = h12
test_for HazardBin.hazard_13 = h13
test_for HazardBin.hazard_14 = h14
test_for HazardBin.hazard_15 = h15
test_for HazardBin.hazard_16 = h16
test_for HazardBin.hazard_17 = h17
test_for HazardBin.hazard_18 = h18
test_for HazardBin.hazard_19 = h19
test_for HazardBin.hazard_20 = h20

-- The test of the bin `j` in a list of the tests of the bins n, n + 1, and so on.
abbrev test_from : ℕ → List (Option L1Hit) → ℕ → Option L1Hit
test_from n [] j = none
test_from n (test ∷ tests) j = if j == n then test else test_from (suc n) tests j

test_for-candidates :
    (b : HazardBin) (history : List ExecutionEvent) (event : ExecutionEvent)
    → test_for b history event ≡ test_from 1 (candidates history event) (number_of b)
unfolding candidates
test_for-candidates HazardBin.hazard_01 history event = refl
test_for-candidates HazardBin.hazard_02 history event = refl
test_for-candidates HazardBin.hazard_03 history event = refl
test_for-candidates HazardBin.hazard_04 history event = refl
test_for-candidates HazardBin.hazard_05 history event = refl
test_for-candidates HazardBin.hazard_06 history event = refl
test_for-candidates HazardBin.hazard_07 history event = refl
test_for-candidates HazardBin.hazard_08 history event = refl
test_for-candidates HazardBin.hazard_09 history event = refl
test_for-candidates HazardBin.hazard_10 history event = refl
test_for-candidates HazardBin.hazard_11 history event = refl
test_for-candidates HazardBin.hazard_12 history event = refl
test_for-candidates HazardBin.hazard_13 history event = refl
test_for-candidates HazardBin.hazard_14 history event = refl
test_for-candidates HazardBin.hazard_15 history event = refl
test_for-candidates HazardBin.hazard_16 history event = refl
test_for-candidates HazardBin.hazard_17 history event = refl
test_for-candidates HazardBin.hazard_18 history event = refl
test_for-candidates HazardBin.hazard_19 history event = refl
test_for-candidates HazardBin.hazard_20 history event = refl

abbrev pub IsHit : L1Hit → List L1Hit → Type 0
IsHit hit [] = ⊥
IsHit hit (x ∷ xs) = (x ≡ hit) ⊎ IsHit hit xs

-- The hits are of the bins n to 20, in order, none of them twice.
abbrev pub IsIncreasing : ℕ → List L1Hit → Type 0
IsIncreasing n [] = Unit {0}
IsIncreasing n (hit ∷ hits) =
    (n ≤ hit.bin_id) × (hit.bin_id ≤ 20) × IsIncreasing (hit.bin_id + 1) hits

IsIncreasing-weaken :
    (m n : ℕ) (hits : List L1Hit) → m ≤ n → IsIncreasing n hits → IsIncreasing m hits
IsIncreasing-weaken m n [] le h = tt
IsIncreasing-weaken m n (hit ∷ hits) le h = (omega (arith, h.0), h.1, h.2)

passing-IsIncreasing :
    (tests : List (Option L1Hit)) (n : ℕ)
    → IsOrdered n tests
    → n + length tests ≤ 21
    → IsIncreasing n (passing tests)
passing-IsIncreasing [] n o fits = tt
passing-IsIncreasing (none ∷ tests) n o fits =
    IsIncreasing-weaken n (suc n) (passing tests) (omega arith)
      (passing-IsIncreasing tests (suc n) o.1 (omega (arith, fits)))
passing-IsIncreasing (some hit ∷ tests) n o fits =
    let own = o.0 hit refl in
    (
      omega (arith, own),
      omega (arith, own, fits),
      IsIncreasing-weaken (hit.bin_id + 1) (suc n) (passing tests) (omega (arith, own))
          (passing-IsIncreasing tests (suc n) o.1 (omega (arith, fits))),
    )

test_from-before : (tests : List (Option L1Hit)) (n j : ℕ) → j < n → test_from n tests j ≡ none
test_from-before [] n j early = refl
test_from-before (test ∷ tests) n j early = ground (arith, test_from-before tests (suc n) j)

test_from-bin_id :
    (tests : List (Option L1Hit)) (n j : ℕ) (hit : L1Hit)
    → IsOrdered n tests
    → test_from n tests j ≡ some hit
    → hit.bin_id ≡ j
test_from-bin_id [] n j hit o h = cc
test_from-bin_id (test ∷ tests) n j hit o h = elim (Bool-cases (j == n)) [
  | inl own ↦ o.0 hit (rw own at h) ∙ sym ((==_iff j n).0 own)
  | inr other ↦ test_from-bin_id tests (suc n) j hit o.1 (rw other at h)
]

-- A test that passes makes its hit.
test_from-IsHit :
    (tests : List (Option L1Hit)) (n j : ℕ) (hit : L1Hit)
    → test_from n tests j ≡ some hit
    → IsHit hit (passing tests)
test_from-IsHit [] n j hit h = cc
test_from-IsHit (none ∷ tests) n j hit h = test_from-IsHit tests (suc n) j hit (ground (arith, h))
test_from-IsHit (some x ∷ tests) n j hit h = elim (Bool-cases (j == n)) [
  | inl own ↦ inl (ground (arith, own, h))
  | inr other ↦ inr (test_from-IsHit tests (suc n) j hit (rw other at h))
]

-- A hit is made by the test of its bin.
IsHit-test_from :
    (tests : List (Option L1Hit)) (n : ℕ) (hit : L1Hit)
    → IsOrdered n tests
    → IsHit hit (passing tests)
    → (n ≤ hit.bin_id) × (test_from n tests hit.bin_id ≡ some hit)
IsHit-test_from [] n hit o h = absurd h
IsHit-test_from (none ∷ tests) n hit o h =
    let (late, made) = IsHit-test_from tests (suc n) hit o.1 h in
    (omega (arith, late), ground (arith, late, made))
IsHit-test_from (some x ∷ tests) n hit o (inl same) =
    let own = o.0 hit (ap some same) in (omega (arith, own), ground (arith, own, same))
IsHit-test_from (some x ∷ tests) n hit o (inr later) =
    let (late, made) = IsHit-test_from tests (suc n) hit o.1 later in
    (omega (arith, late), ground (arith, late, made))

-- The count and the flag of the bin j + 1 after the hits.
record Counts (tests : List (Option L1Hit)) (n j : ℕ) (c : Classifier) : Type 0 where
  count :
      get_or (count_hits (passing tests) c).intent_hit_count j 0
      ≡ get_or c.intent_hit_count j 0 + int_of_bool (is_some (test_from (suc n) tests (suc j)))
  seen :
      get_or (count_hits (passing tests) c).intent_seen j false
      ≡ (is_some (test_from (suc n) tests (suc j)) || get_or c.intent_seen j false)

abbrev pub IsSized : Classifier → Type 0
IsSized c = (length c.intent_hit_count ≡ 20) × (length c.intent_seen ≡ 20)

passing-Counts :
    (tests : List (Option L1Hit)) (n j : ℕ) (c : Classifier)
    → IsOrdered (suc n) tests
    → n + length tests ≤ 20
    → IsSized c
    → Counts tests n j c
unfolding count_hits count_hit
passing-Counts [] n j c o fits sized = record { count = omega arith; seen = refl }
passing-Counts (none ∷ tests) n j c o fits sized =
    let rest = passing-Counts tests (suc n) j c o.1 (omega (arith, fits)) sized in
    record {
      count = ground (arith, rest.count, test_from-before tests (suc (suc n)) (suc j));
      seen = ground (arith, rest.seen, test_from-before tests (suc (suc n)) (suc j));
    }
passing-Counts (some hit ∷ tests) n j c o fits sized =
    let own = o.0 hit refl in
    let rest =
      passing-Counts tests (suc n) j (count_hit hit.bin_id c) o.1 (omega (arith, fits))
        (length-set c.intent_hit_count _ _ ∙ sized.0, length-set c.intent_seen _ _ ∙ sized.1) in
    let before = test_from-before tests (suc (suc n)) (suc j) in
    record {
      count = ground (
        arith,
        own,
        rest.count,
        before,
        get_or-set c.intent_hit_count (hit.bin_id - 1) j
            (get_or c.intent_hit_count (hit.bin_id - 1) 0 + 1) 0
            (omega (arith, own, fits, sized.0)),
      );
      seen = ground (
        arith,
        own,
        rest.seen,
        before,
        get_or-set c.intent_seen (hit.bin_id - 1) j true false (omega (arith, own, fits, sized.1)),
      );
    }

-- What an event does to the bins: the hits are those of the bins whose tests pass, each bin at most
-- once and in order, and each such bin is counted once more and is seen.
pub record Classifies (history : List ExecutionEvent) (event : ExecutionEvent) (hits : List L1Hit)
    (c c' : Classifier) : Type 0 where
  pub made :
      (b : HazardBin) (hit : L1Hit)
      → (IsHit hit hits × (hit.bin_id ≡ number_of b)) ↔ (test_for b history event ≡ some hit)
  pub in_order : IsIncreasing 1 hits
  pub count :
      (b : HazardBin)
      → get_or c'.intent_hit_count (number_of b - 1) 0
        ≡ get_or c.intent_hit_count (number_of b - 1) 0
          + int_of_bool (is_some (test_for b history event))
  pub seen :
      (b : HazardBin)
      → get_or c'.intent_seen (number_of b - 1) false
        ≡ (is_some (test_for b history event) || get_or c.intent_seen (number_of b - 1) false)

twenty :
    (history : List ExecutionEvent) (event : ExecutionEvent)
    → length (candidates history event) ≡ 20
unfolding candidates
twenty history event = refl

numbered : (b : HazardBin) → suc (number_of b - 1) ≡ number_of b
numbered HazardBin.hazard_01 = refl
numbered HazardBin.hazard_02 = refl
numbered HazardBin.hazard_03 = refl
numbered HazardBin.hazard_04 = refl
numbered HazardBin.hazard_05 = refl
numbered HazardBin.hazard_06 = refl
numbered HazardBin.hazard_07 = refl
numbered HazardBin.hazard_08 = refl
numbered HazardBin.hazard_09 = refl
numbered HazardBin.hazard_10 = refl
numbered HazardBin.hazard_11 = refl
numbered HazardBin.hazard_12 = refl
numbered HazardBin.hazard_13 = refl
numbered HazardBin.hazard_14 = refl
numbered HazardBin.hazard_15 = refl
numbered HazardBin.hazard_16 = refl
numbered HazardBin.hazard_17 = refl
numbered HazardBin.hazard_18 = refl
numbered HazardBin.hazard_19 = refl
numbered HazardBin.hazard_20 = refl

pub candidates-Classifies :
    (history : List ExecutionEvent) (event : ExecutionEvent) (c : Classifier)
    → IsSized c
    → let hits = passing (candidates history event) in
      Classifies history event hits c (count_hits hits c)
candidates-Classifies history event c sized = record {
  made = λ b hit.
      let own = test_for-candidates b history event in
      (
        λ h.
            own
            ∙ subst (λ (j : ℕ). test_from 1 tests j ≡ some hit) h.1
                (IsHit-test_from tests 1 hit ordered h.0).1,
        λ h. (
          test_from-IsHit tests 1 (number_of b) hit (sym own ∙ h),
          test_from-bin_id tests 1 (number_of b) hit ordered (sym own ∙ h),
        ),
      );
  in_order = passing-IsIncreasing tests 1 ordered within;
  count = λ b.
      (passing-Counts tests 0 (number_of b - 1) c ordered within_20 sized).count
      ∙ ap
          (λ (o : Option L1Hit).
            get_or c.intent_hit_count (number_of b - 1) 0 + int_of_bool (is_some o))
          (by_number b);
  seen = λ b.
      (passing-Counts tests 0 (number_of b - 1) c ordered within_20 sized).seen
      ∙ ap (λ (o : Option L1Hit). is_some o || get_or c.intent_seen (number_of b - 1) false)
          (by_number b);
}
  where
    tests : List (Option L1Hit)
    tests = candidates history event

    ordered : IsOrdered 1 tests
    ordered = candidates-IsOrdered history event

    within : 1 + length tests ≤ 21
    within = omega (arith, twenty history event)

    within_20 : 0 + length tests ≤ 20
    within_20 = omega (arith, twenty history event)

    by_number :
        (b : HazardBin) → test_from 1 tests (suc (number_of b - 1)) ≡ test_for b history event
    by_number b = ap (test_from 1 tests) (numbered b) ∙ sym (test_for-candidates b history event)
