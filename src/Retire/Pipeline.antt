-- ===== src/Retire/Pipeline.antt =====
-- The retire monitor over a whole run: each cycle moves the tags and then observes D.
use riscv_pipeline_research.Base.{
  ℕ, ◌+◌, ◌≤◌, ◌<◌, ◌≡◌, refl, ap, ◌∙◌, arith, Bool, true, false, Option, none, some, List, [], ◌∷◌,
  pos, Outcome, ok, err, ==_iff,
}
use riscv_pipeline_research.Word.{mask32}
use riscv_pipeline_research.Retire.{
  RetireTag, RetireEvent, RetireMonitor, retire_event, advance_pipeline, observe_falling_edge,
  signals,
}

-- What the monitor is given in one cycle.
pub record Cycle : Type 0 where
  pub accepted : Option RetireTag
  pub cycle : ℕ
  pub regwrite : Bool
  pub rd : ℕ
  pub wdata : ℕ

abbrev pub watch : Cycle → RetireMonitor → Outcome (Option RetireEvent) × RetireMonitor
watch x m =
    observe_falling_edge (pos x.cycle) x.regwrite (pos x.rd) (pos x.wdata)
      (advance_pipeline x.accepted m)

-- A run stops at the first exception.
abbrev pub watch_all : List Cycle → RetireMonitor → Outcome (List (Option RetireEvent))
watch_all [] m = ok []
watch_all (x ∷ xs) m = elim (watch x m).0 [
  | err e ↦ err e
  | ok o ↦ elim (watch_all xs (watch x m).1) [ err e ↦ err e | ok os ↦ ok (o ∷ os) ]
]

abbrev pub event_of : Option RetireTag → Cycle → Option RetireEvent
event_of none x = none
event_of (some tag) x = some (record {
  cycle = x.cycle;
  valid = true;
  regwrite = x.regwrite;
  rd = x.rd;
  wdata = x.wdata;
  instruction_id = tag.instruction_id;
})

-- The tags that leave C and B, and then those that are accepted, with the signals of each cycle.
abbrev pub delayed : Option RetireTag → Option RetireTag → List Cycle → List (Option RetireEvent)
delayed c b [] = []
delayed c b (x ∷ xs) = event_of c x ∷ delayed b x.accepted xs

-- The signals of a cycle that the tag `c` retires in: in range, and a write only with a tag.
abbrev pub IsQuiet : Option RetireTag → Cycle → Type 0
IsQuiet none x = (x.regwrite ≡ false) × (x.rd ≤ 31) × (x.wdata ≤ mask32)
IsQuiet (some tag) x = (x.rd ≤ 31) × (x.wdata ≤ mask32)

-- A stream with two tags in front: no write without a tag, and the tags numbered from `n + 1`.
abbrev pub IsStream : ℕ → Option RetireTag → Option RetireTag → List Cycle → Type 0
IsStream n c b [] = Unit {0}
IsStream n none b (x ∷ xs) = IsQuiet none x × IsStream n b x.accepted xs
IsStream n (some tag) b (x ∷ xs) =
    IsQuiet (some tag) x × (tag.instruction_id ≡ n + 1) × IsStream (n + 1) b x.accepted xs

module _ (b c d : Option RetireTag) (n k : ℕ) where
  abbrev holding : RetireMonitor
  holding = record {
    b_tag = b;
    c_tag = c;
    d_tag = d;
    last_retired_instruction_id = n;
    retired_count = k;
  }

signals-ok : (c r w : ℕ) → r ≤ 31 → w ≤ mask32 → signals (pos c) (pos r) (pos w) ≡ ok (c, r, w)
signals-ok c r w hr hw = ground arith

retire_event-ok :
    (c r w i : ℕ) (writes : Bool)
    → r ≤ 31
    → w ≤ mask32
    → 0 < i
    → retire_event (pos c) true writes (pos r) (pos w) (pos i)
      ≡ ok (record {
        cycle = c;
        valid = true;
        regwrite = writes;
        rd = r;
        wdata = w;
        instruction_id = i;
      })
unfolding retire_event
retire_event-ok c r w i writes hr hw hi = ground arith

watch_bubble :
    (b d : Option RetireTag) (n k : ℕ) (x : Cycle)
    → IsQuiet none x
    → watch x (holding b none d n k) ≡ (ok none, holding x.accepted b none n k)
unfolding observe_falling_edge advance_pipeline
watch_bubble b d n k x h =
    rw (observe_falling_edge, signals-ok x.cycle x.rd x.wdata h.1 h.2, h.0) refl

watch_tag :
    (tag : RetireTag) (b d : Option RetireTag) (n k : ℕ) (x : Cycle)
    → IsQuiet (some tag) x
    → tag.instruction_id ≡ n + 1
    → watch x (holding b (some tag) d n k)
      ≡ (ok (event_of (some tag) x), holding x.accepted b none (n + 1) (k + 1))
unfolding observe_falling_edge advance_pipeline
watch_tag tag b d n k x h next =
    rw
      (
        observe_falling_edge,
        signals-ok x.cycle x.rd x.wdata h.0 h.1,
        (==_iff _ _).1 next,
        retire_event-ok x.cycle x.rd x.wdata tag.instruction_id x.regwrite h.0 h.1
            (omega (arith, next)),
        next,
      )
      refl

watch_all-cons :
    (x : Cycle) (xs : List Cycle) (m m' : RetireMonitor) (o : Option RetireEvent)
    (os : List (Option RetireEvent))
    → watch x m ≡ (ok o, m')
    → watch_all xs m' ≡ ok os
    → watch_all (x ∷ xs) m ≡ ok (o ∷ os)
watch_all-cons x xs m m' o os h g = ap (λ r. go r) h ∙ rw g refl
  where
    go : Outcome (Option RetireEvent) × RetireMonitor → Outcome (List (Option RetireEvent))
    go r = elim r.0 [
      | err e ↦ err e
      | ok o ↦ elim (watch_all xs r.1) [ err e ↦ err e | ok os ↦ ok (o ∷ os) ]
    ]

-- A monitor that is given tags numbered without gaps, and no register write without a tag, raises
-- nothing and reports each tag exactly two cycles after the one that accepted it, with the signals
-- of that later cycle; bubbles report nothing.
pub watch_all-delayed :
    (b c d : Option RetireTag) (n k : ℕ) (xs : List Cycle)
    → IsStream n c b xs
    → watch_all xs (holding b c d n k) ≡ ok (delayed c b xs)
watch_all-delayed b c d n k [] h = refl
watch_all-delayed b none d n k (x ∷ xs) h =
    watch_all-cons x xs _ _ _ _ (watch_bubble b d n k x h.0)
      (watch_all-delayed x.accepted b none n k xs h.1)
watch_all-delayed b (some tag) d n k (x ∷ xs) h =
    watch_all-cons x xs _ _ _ _ (watch_tag tag b d n k x h.0 h.1)
      (watch_all-delayed x.accepted b none (n + 1) (k + 1) xs h.2)
