-- ===== src/HazardBins/Order.antt =====
-- The order of the twenty tests of l1_coverage.py, and the hits of those that pass.
use mathlib.Core.List.{append-nil, append_assoc}
use riscv_pipeline_research.Base.{
  ℕ, suc, ◌<◌, ◌≡◌, refl, ap, ◌∙◌, false, Option, none, some, List, [], ◌∷◌, ◌++◌, arith, All,
}
use riscv_pipeline_research.Event.{ExecutionEvent, contains}
use riscv_pipeline_research.HazardBins.{Classifier, candidates, count_hit, add_hits}
use riscv_pipeline_research.HazardBins.History.{L1Hit}
use riscv_pipeline_research.HazardBins.Predicates.{
  h01, h02, h03, h04, h05, h06, h07, h08, h09, h10, h11, h12, h13, h14, h15, h16, h17, h18, h19,
  h20,
}

-- The tests that pass.
abbrev pub passing : List (Option L1Hit) → List L1Hit
passing [] = []
passing (none ∷ tests) = passing tests
passing (some hit ∷ tests) = hit ∷ passing tests

-- The tests make hits of the bins n, n + 1, and so on.
abbrev pub IsOrdered : ℕ → List (Option L1Hit) → Type 0
IsOrdered n [] = Unit {0}
IsOrdered n (test ∷ tests) =
    ((hit : L1Hit) → test ≡ some hit → hit.bin_id ≡ n) × IsOrdered (suc n) tests

unfoldable pub count_hits : List L1Hit → Classifier → Classifier
count_hits [] c = c
count_hits (hit ∷ hits) c = count_hits hits (count_hit hit.bin_id c)

not_contained : (emitted : List ℕ) (n : ℕ) → All (λ m. m < n) emitted → contains emitted n ≡ false
not_contained [] n h = refl
not_contained (m ∷ emitted) n h = ground (arith, not_contained emitted n h.1)

All-weaken : (emitted : List ℕ) (n : ℕ) → All (λ m. m < n) emitted → All (λ m. m < suc n) emitted
All-weaken [] n h = tt
All-weaken (m ∷ emitted) n h = (omega (arith, h.0), All-weaken emitted n h.1)

pub add_hits-passing :
    (tests : List (Option L1Hit)) (n : ℕ) (emitted : List ℕ) (hits : List L1Hit) (c : Classifier)
    → IsOrdered n tests
    → All (λ m. m < n) emitted
    → add_hits tests emitted hits c ≡ (hits ++ passing tests, count_hits (passing tests) c)
unfolding add_hits count_hits
add_hits-passing [] n emitted hits c o h = rw (append-nil hits)
add_hits-passing (none ∷ tests) n emitted hits c o h =
    add_hits-passing tests (suc n) emitted hits c o.1 (All-weaken emitted n h)
add_hits-passing (some hit ∷ tests) n emitted hits c o h =
    rw (ap (contains emitted) (o.0 hit refl) ∙ not_contained emitted n h, add_hits)
      (add_hits-passing tests (suc n) (hit.bin_id ∷ emitted) (hits ++ hit ∷ [])
          (count_hit hit.bin_id c) o.1 (omega (arith, o.0 hit refl), All-weaken emitted n h)
        ∙ rw (append_assoc hits (hit ∷ []) (passing tests)))

-- Each test makes hits of its own bin.
module _ (history : List ExecutionEvent) (event : ExecutionEvent) (hit : L1Hit) where
  h01-bin_id : h01 history event ≡ some hit → hit.bin_id ≡ 1
  unfolding h01
  h01-bin_id h = ground arith

  h02-bin_id : h02 history event ≡ some hit → hit.bin_id ≡ 2
  unfolding h02
  h02-bin_id h = ground arith

  h03-bin_id : h03 history event ≡ some hit → hit.bin_id ≡ 3
  unfolding h03
  h03-bin_id h = ground arith

  h04-bin_id : h04 history event ≡ some hit → hit.bin_id ≡ 4
  unfolding h04
  h04-bin_id h = ground arith

  h05-bin_id : h05 history event ≡ some hit → hit.bin_id ≡ 5
  unfolding h05
  h05-bin_id h = ground arith

  h06-bin_id : h06 history event ≡ some hit → hit.bin_id ≡ 6
  unfolding h06
  h06-bin_id h = ground arith

  h07-bin_id : h07 history event ≡ some hit → hit.bin_id ≡ 7
  unfolding h07
  h07-bin_id h = ground arith

  h08-bin_id : h08 history event ≡ some hit → hit.bin_id ≡ 8
  unfolding h08
  h08-bin_id h = ground arith

  h09-bin_id : h09 history event ≡ some hit → hit.bin_id ≡ 9
  unfolding h09
  h09-bin_id h = ground arith

  h10-bin_id : h10 history event ≡ some hit → hit.bin_id ≡ 10
  unfolding h10
  h10-bin_id h = ground arith

  h11-bin_id : h11 history event ≡ some hit → hit.bin_id ≡ 11
  unfolding h11
  h11-bin_id h = ground arith

  h12-bin_id : h12 history event ≡ some hit → hit.bin_id ≡ 12
  unfolding h12
  h12-bin_id h = ground arith

  h13-bin_id : h13 history event ≡ some hit → hit.bin_id ≡ 13
  unfolding h13
  h13-bin_id h = ground arith

  h14-bin_id : h14 history event ≡ some hit → hit.bin_id ≡ 14
  unfolding h14
  h14-bin_id h = ground arith

  h15-bin_id : h15 history event ≡ some hit → hit.bin_id ≡ 15
  unfolding h15
  h15-bin_id h = ground arith

  h16-bin_id : h16 history event ≡ some hit → hit.bin_id ≡ 16
  unfolding h16
  h16-bin_id h = ground arith

  h17-bin_id : h17 history event ≡ some hit → hit.bin_id ≡ 17
  unfolding h17
  h17-bin_id h = ground arith

  h18-bin_id : h18 history event ≡ some hit → hit.bin_id ≡ 18
  unfolding h18
  h18-bin_id h = ground arith

  h19-bin_id : h19 history event ≡ some hit → hit.bin_id ≡ 19
  unfolding h19
  h19-bin_id h = ground arith

  h20-bin_id : h20 history event ≡ some hit → hit.bin_id ≡ 20
  unfolding h20
  h20-bin_id h = ground arith

pub candidates-IsOrdered :
    (history : List ExecutionEvent) (event : ExecutionEvent)
    → IsOrdered 1 (candidates history event)
unfolding candidates
candidates-IsOrdered history event = (
  h01-bin_id history event,
  (
    h02-bin_id history event,
    (
      h03-bin_id history event,
      (
        h04-bin_id history event,
        (
          h05-bin_id history event,
          (
            h06-bin_id history event,
            (
              h07-bin_id history event,
              (
                h08-bin_id history event,
                (
                  h09-bin_id history event,
                  (
                    h10-bin_id history event,
                    (
                      h11-bin_id history event,
                      (
                        h12-bin_id history event,
                        (
                          h13-bin_id history event,
                          (
                            h14-bin_id history event,
                            (
                              h15-bin_id history event,
                              (
                                h16-bin_id history event,
                                (
                                  h17-bin_id history event,
                                  (
                                    h18-bin_id history event,
                                    (h19-bin_id history event, (h20-bin_id history event, tt)),
                                  ),
                                ),
                              ),
                            ),
                          ),
                        ),
                      ),
                    ),
                  ),
                ),
              ),
            ),
          ),
        ),
      ),
    ),
  ),
)
