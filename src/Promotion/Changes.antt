-- ===== src/Promotion/Changes.antt =====
-- The first hits of a bin of coverage_collector.py from the calls alone, and what one change does to
-- them.
use riscv_pipeline_research.Base.{
  ℕ, ◌+◌, ◌-◌, ◌*◌, ◌≤◌, ◌<◌, ◌≡◌, refl, ap, sym, ◌∙◌, arith, true, false, ◌&&◌, Option, none, some,
  List, [], ◌∷◌, ℤ, pos, negsuc, Outcome, Outcome-cases, ok, err, ◌==◌, ==_iff, if◌then◌else◌, All,
  All-get_or, Bool-cases, inl, inr, length, length-set, get_or, get_or-set_self, get_or-set_ne,
  is_some,
}
use riscv_pipeline_research.Promotion.{
  FirstHit, BinState, new_bin, CoverageCollector, record_intent, record_validated,
  validate_hit_metadata, changed, change_bin,
}
use riscv_pipeline_research.Promotion.Invariant.{IsState, new_bin-IsState}
use riscv_pipeline_research.Promotion.Calls.{Call, l1_intent, l1_validated, l2_intent, l2_validated}

-- A bin of either level: "H01" to "H20" by its number, or a distance and a register.
pub data Bin : Type 0 where
  hazard : ℕ → Bin
  dependency : ℕ → ℕ → Bin

abbrev pub IsBin : Bin → Type 0
IsBin (Bin.hazard b) = (0 < b) × (b ≤ 20)
IsBin (Bin.dependency d r) = ((0 < d) × (d ≤ 2)) × ((0 < r) × (r ≤ 31))

-- What a call records of its arguments: an identifier from 1, a cycle and a time.
abbrev pub metadata : ℤ → ℤ → ℤ → Option FirstHit
metadata (pos i) (pos cycle) (pos wall) =
    if i == 0 then none else some (record { instruction_id = i; cycle = cycle; wall_ns = wall })
metadata (pos i) (pos cycle) (negsuc wall) = none
metadata (pos i) (negsuc cycle) wall = none
metadata (negsuc i) cycle wall = none

-- The metadata of a call that records an intent of the bin.
abbrev pub intent_of : Bin → Call → Option FirstHit
intent_of (Bin.hazard b) (l1_intent b' i cycle wall) =
    if b == b' then metadata i cycle wall else none
intent_of (Bin.dependency d r) (l2_intent d' r' i cycle wall) =
    if (d == d') && (r == r') then metadata i cycle wall else none
intent_of bin _ = none

-- The metadata of a call that records a validation of the bin.
abbrev pub validated_of : Bin → Call → Option FirstHit
validated_of (Bin.hazard b) (l1_validated b' i cycle wall) =
    if b == b' then metadata i cycle wall else none
validated_of (Bin.dependency d r) (l2_validated d' r' i cycle wall) =
    if (d == d') && (r == r') then metadata i cycle wall else none
validated_of bin _ = none

abbrev pub or_first : Option FirstHit → Option FirstHit → Option FirstHit
or_first (some f) g = some f
or_first none g = g

-- The first intent and the first validation of a bin: a validation counts only after an intent.
pub record Firsts : Type 0 where
  pub intent : Option FirstHit
  pub validated : Option FirstHit

abbrev pub firsts : Bin → List Call → Firsts → Firsts
firsts bin [] f = f
firsts bin (x ∷ xs) f = firsts bin xs (record {
  intent = or_first f.intent (intent_of bin x);
  validated = if is_some f.intent then or_first f.validated (validated_of bin x) else f.validated;
})

abbrev pub bin_state : Bin → CoverageCollector → BinState
bin_state (Bin.hazard b) c = get_or c.l1_state (b - 1) new_bin
bin_state (Bin.dependency d r) c = get_or c.l2_state ((d - 1) * 31 + (r - 1)) new_bin

abbrev pub firsts_of : BinState → Firsts
firsts_of s = record { intent = s.intent_first; validated = s.validated_first }

abbrev pub recorded : Option FirstHit → Option FirstHit → Firsts → Firsts
recorded i v f = record {
  intent = or_first f.intent i;
  validated = if is_some f.intent then or_first f.validated v else f.validated;
}

abbrev pub updated : Outcome (List BinState) → List BinState → List BinState
updated (ok states) old = states
updated (err e) old = old

abbrev pub to_option : Outcome FirstHit → Option FirstHit
to_option (ok hit) = some hit
to_option (err e) = none

-- What the arguments name of the bin at the index `j`.
abbrev pub named : Outcome ℕ → Outcome FirstHit → ℕ → Option FirstHit
named (err e) hit j = none
named (ok k) hit j = if k == j then to_option hit else none

pub recorded-none : (f : Firsts) → recorded none none f ≡ f
recorded-none f = by_cases f.intent f.validated
  where
    by_cases :
        (i v : Option FirstHit)
        → recorded none none (record { intent = i; validated = v })
          ≡ record { intent = i; validated = v }
    by_cases none v = refl
    by_cases (some i) none = refl
    by_cases (some i) (some v) = refl

pub to_option-metadata :
    (i cycle wall : ℤ) → to_option (validate_hit_metadata i cycle wall) ≡ metadata i cycle wall
unfolding validate_hit_metadata
to_option-metadata (pos i) (pos cycle) (pos wall) = ground arith
to_option-metadata (pos i) (pos cycle) (negsuc wall) = ground arith
to_option-metadata (pos i) (negsuc cycle) wall = ground arith
to_option-metadata (negsuc i) cycle wall = refl

-- The state after a change, also one that raises.
abbrev after : Outcome BinState → BinState → BinState
after (ok s') s = s'
after (err e) s = s

is_intent :
    (i v : Option FirstHit) (hit : FirstHit)
    → is_some i ≡ true
    → ◌≡◌ {A = Firsts}
        (recorded (some hit) none (record { intent = i; validated = v }))
        (record { intent = i; validated = v })
is_intent none v hit e = cc
is_intent (some i) none hit e = refl
is_intent (some i) (some v) hit e = refl

new_intent :
    (i v : Option FirstHit) (hit : FirstHit)
    → is_some i ≡ false
    → ◌≡◌ {A = Firsts}
        (recorded (some hit) none (record { intent = i; validated = v }))
        (record { intent = some hit; validated = v })
new_intent none v hit e = refl
new_intent (some i) v hit e = cc

is_validated :
    (i v : Option FirstHit) (hit : FirstHit)
    → is_some v ≡ true
    → ◌≡◌ {A = Firsts}
        (recorded none (some hit) (record { intent = i; validated = v }))
        (record { intent = i; validated = v })
is_validated i none hit e = cc
is_validated none (some v) hit e = refl
is_validated (some i) (some v) hit e = refl

unseen_validated :
    (i v : Option FirstHit) (hit : FirstHit)
    → is_some i ≡ false
    → ◌≡◌ {A = Firsts}
        (recorded none (some hit) (record { intent = i; validated = v }))
        (record { intent = i; validated = v })
unseen_validated none v hit e = refl
unseen_validated (some i) v hit e = cc

new_validated :
    (i v : Option FirstHit) (hit : FirstHit)
    → is_some i ≡ true
    → is_some v ≡ false
    → ◌≡◌ {A = Firsts}
        (recorded none (some hit) (record { intent = i; validated = v }))
        (record { intent = i; validated = some hit })
new_validated none v hit e n = cc
new_validated (some i) none hit e n = refl
new_validated (some i) (some v) hit e n = cc

-- What a change does to the first hits of the bin that it is made on.
abbrev pub Records :
    (FirstHit → BinState → Outcome BinState) → (Option FirstHit → Firsts → Firsts) → Type 0
Records change effect =
    ((hit : FirstHit) (s : BinState)
      → IsState s
      → firsts_of (after (change hit s) s) ≡ effect (some hit) (firsts_of s))
    × ((f : Firsts) → effect none f ≡ f)

pub record_intent-Records : Records record_intent (λ hit. recorded hit none)
record_intent-Records = (
  λ hit s is. elim (Bool-cases s.intent_seen) [
    | inl seen ↦ rw seen (sym (is_intent s.intent_first s.validated_first hit (is.intent ∙ seen)))
    | inr fresh ↦
        rw fresh (sym (new_intent s.intent_first s.validated_first hit (is.intent ∙ fresh)))
  ],
  recorded-none,
)

pub record_validated-Records : Records record_validated (recorded none)
record_validated-Records = (
  λ hit s is. elim (Bool-cases s.intent_seen) [
    | inr fresh ↦
        rw fresh (sym (unseen_validated s.intent_first s.validated_first hit (is.intent ∙ fresh)))
    | inl seen ↦ elim (Bool-cases s.validated_seen) [
      | inl again ↦
          rw (seen, again)
            (sym (is_validated s.intent_first s.validated_first hit (is.validated ∙ again)))
      | inr new ↦
          rw (seen, new)
            (sym (
              new_validated s.intent_first s.validated_first hit (is.intent ∙ seen)
                (is.validated ∙ new)))
    ]
  ],
  recorded-none,
)

get_or-change_bin :
    (change : BinState → Outcome BinState) (k j : ℕ) (states : List BinState)
    → j < length states
    → get_or (updated (change_bin k change states) states) j new_bin ≡ (
        if k == j
        then after (change (get_or states j new_bin)) (get_or states j new_bin)
        else get_or states j new_bin)
get_or-change_bin change k j states within = elim (Bool-cases (k == j)) [
  | inl same ↦
      rw (same, (==_iff k j).0 same)
        (elim (Outcome-cases (change (get_or states j new_bin))) [
          | inl (s', done) ↦ rw done (get_or-set_self states j s' new_bin within)
          | inr (e, raised) ↦ rw raised refl
        ])
  | inr other ↦ rw other (elim (Outcome-cases (change (get_or states k new_bin))) [
    | inl (s', done) ↦ rw done (get_or-set_ne states k j s' new_bin (λ e. ground (arith, other)))
    | inr (e, raised) ↦ rw raised refl
  ])
]

module _ (change : FirstHit → BinState → Outcome BinState)
    (effect : Option FirstHit → Firsts → Firsts) (records : Records change effect) where
  pub changed-firsts :
      (o : Outcome ℕ) (m : Outcome FirstHit) (j : ℕ) (states : List BinState)
      → j < length states
      → All IsState states
      → firsts_of (get_or (updated (changed o m change states) states) j new_bin)
        ≡ effect (named o m j) (firsts_of (get_or states j new_bin))
  changed-firsts (err e) m j states within is = sym (records.1 _)
  changed-firsts (ok k) (err e) j states within is = elim (Bool-cases (k == j)) [
    | inl same ↦ rw same (sym (records.1 _))
    | inr other ↦ rw other (sym (records.1 _))
  ]
  changed-firsts (ok k) (ok hit) j states within is =
      ap firsts_of (get_or-change_bin (change hit) k j states within) ∙ elim (Bool-cases (k == j)) [
        | inl same ↦ rw same (
            records.0 hit (get_or states j new_bin)
              (All-get_or IsState states j new_bin is new_bin-IsState))
        | inr other ↦ rw other (sym (records.1 _))
      ]

pub updated-length :
    (o : Outcome ℕ) (m : Outcome FirstHit) (change : FirstHit → BinState → Outcome BinState)
    (states : List BinState)
    → length (updated (changed o m change states) states) ≡ length states
updated-length (err e) m change states = refl
updated-length (ok k) (err e) change states = refl
updated-length (ok k) (ok hit) change states =
    elim (Outcome-cases (change hit (get_or states k new_bin))) [
      | inl (s', done) ↦ rw done (length-set states k s')
      | inr (e, raised) ↦ rw raised refl
    ]
