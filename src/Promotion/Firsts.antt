-- ===== src/Promotion/Firsts.antt =====
-- The first hits of a bin of coverage_collector.py, after any sequence of calls.
use riscv_pipeline_research.Base.{
  ok_injective, err_absurd, ℕ, ◌+◌, ◌-◌, ◌*◌, ◌≤◌, ◌%◌, get_or-replicate, ◌<◌, ◌≡◌, refl, ap, sym,
  ◌∙◌, subst, arith, Bool, ◌&&◌, none, List, [], ◌∷◌, ℤ, Outcome, Outcome-cases, ok, err, ◌==◌,
  if◌then◌else◌, All-replicate, Bool-cases, inl, inr, replicate, length, get_or,
}
use riscv_pipeline_research.Event.{positive}
use riscv_pipeline_research.Promotion.{
  FirstHit, BinState, new_bin, CoverageCollector, coverage_collector, record_intent,
  record_validated, record_l1_intent, record_l1_validated, record_l2_intent, record_l2_validated,
  record_instruction, validate_hit_metadata, validate_l1_bin, validate_l2_bin, changed, with_l1,
  with_l2, counted_at, next_instruction, count_instruction, emit_checkpoint,
}
use riscv_pipeline_research.Promotion.Invariant.{IsState, IsCollector, Grows, new_bin-IsState}
use riscv_pipeline_research.Promotion.Calls.{
  Call, l1_intent, l1_validated, l2_intent, l2_validated, instruction, call, call_all,
  call_all-keeps,
}
use riscv_pipeline_research.Promotion.Changes.{
  Bin, IsBin, intent_of, validated_of, Firsts, firsts, bin_state, firsts_of, recorded, updated,
  to_option, named, recorded-none, to_option-metadata, record_intent-Records,
  record_validated-Records, changed-firsts, updated-length,
}

named-hazard :
    (b b' : ℕ) (m : Outcome FirstHit)
    → (0 < b) × (b ≤ 20)
    → named (validate_l1_bin b') m (b - 1) ≡ (if b == b' then to_option m else none)
unfolding validate_l1_bin
named-hazard b b' m is = ground (arith, is.0, is.1)

named-dependency :
    (d r d' r' : ℕ) (m : Outcome FirstHit)
    → IsBin (Bin.dependency d r)
    → named (validate_l2_bin d' r') m ((d - 1) * 31 + (r - 1))
      ≡ (if (d == d') && (r == r') then to_option m else none)
unfolding validate_l2_bin
named-dependency d r d' r' m is = ground (arith, is.0.0, is.0.1, is.1.0, is.1.1)

abbrev IsWide : CoverageCollector → Type 0
IsWide c = (length c.l1_state ≡ 20) × (length c.l2_state ≡ 62)

-- What a call of the two levels leaves.
module _ (o : Outcome (List BinState)) (c : CoverageCollector) where
  with_l1-states :
      ((with_l1 o c).1.l1_state ≡ updated o c.l1_state) × ((with_l1 o c).1.l2_state ≡ c.l2_state)
  with_l1-states = by_outcome o
    where
      by_outcome :
          (o : Outcome (List BinState))
          → ((with_l1 o c).1.l1_state ≡ updated o c.l1_state)
            × ((with_l1 o c).1.l2_state ≡ c.l2_state)
      by_outcome (ok states) = (refl, refl)
      by_outcome (err e) = (refl, refl)

  with_l2-states :
      ((with_l2 o c).1.l2_state ≡ updated o c.l2_state) × ((with_l2 o c).1.l1_state ≡ c.l1_state)
  with_l2-states = by_outcome o
    where
      by_outcome :
          (o : Outcome (List BinState))
          → ((with_l2 o c).1.l2_state ≡ updated o c.l2_state)
            × ((with_l2 o c).1.l1_state ≡ c.l1_state)
      by_outcome (ok states) = (refl, refl)
      by_outcome (err e) = (refl, refl)

counted-states :
    (o : Outcome (ℕ × ℕ)) (c : CoverageCollector)
    → ((counted_at o c).1.l1_state ≡ c.l1_state) × ((counted_at o c).1.l2_state ≡ c.l2_state)
unfolding counted_at count_instruction emit_checkpoint
counted-states (err e) c = (refl, refl)
counted-states (ok (i, n)) c =
    elim (Bool-cases ((c.executed_instructions + 1) % c.checkpoint_interval == 0)) [
      | inl due ↦ rw due (refl, refl)
      | inr early ↦ rw early (refl, refl)
    ]

call-IsWide : (x : Call) (c : CoverageCollector) → IsWide c → IsWide (call x c)
unfolding record_l1_intent record_l1_validated record_l2_intent record_l2_validated
    record_instruction
call-IsWide (l1_intent b i cycle wall) c wide =
    let states =
      with_l1-states
        (changed (validate_l1_bin b) (validate_hit_metadata i cycle wall) record_intent c.l1_state)
        c in
    (
      ap length states.0 ∙ updated-length _ _ record_intent c.l1_state ∙ wide.0,
      ap length states.1 ∙ wide.1,
    )
call-IsWide (l1_validated b i cycle wall) c wide =
    let states =
      with_l1-states
        (changed (validate_l1_bin b) (validate_hit_metadata i cycle wall) record_validated
          c.l1_state)
        c in
    (
      ap length states.0 ∙ updated-length _ _ record_validated c.l1_state ∙ wide.0,
      ap length states.1 ∙ wide.1,
    )
call-IsWide (l2_intent d r i cycle wall) c wide =
    let states =
      with_l2-states
        (changed (validate_l2_bin d r) (validate_hit_metadata i cycle wall) record_intent
          c.l2_state)
        c in
    (
      ap length states.1 ∙ wide.0,
      ap length states.0 ∙ updated-length _ _ record_intent c.l2_state ∙ wide.1,
    )
call-IsWide (l2_validated d r i cycle wall) c wide =
    let states =
      with_l2-states
        (changed (validate_l2_bin d r) (validate_hit_metadata i cycle wall) record_validated
          c.l2_state)
        c in
    (
      ap length states.1 ∙ wide.0,
      ap length states.0 ∙ updated-length _ _ record_validated c.l2_state ∙ wide.1,
    )
call-IsWide (instruction i cycle) c wide =
    let states = counted-states (next_instruction i cycle c) c in
    (ap length states.0 ∙ wide.0, ap length states.1 ∙ wide.1)

abbrev at_l1 : ℕ → List BinState → Firsts
at_l1 b states = firsts_of (get_or states (b - 1) new_bin)

abbrev at_l2 : ℕ → ℕ → List BinState → Firsts
at_l2 d r states = firsts_of (get_or states ((d - 1) * 31 + (r - 1)) new_bin)

call-firsts :
    (bin : Bin) (x : Call) (c : CoverageCollector)
    → IsBin bin
    → IsWide c
    → IsCollector c
    → firsts_of (bin_state bin (call x c))
      ≡ recorded (intent_of bin x) (validated_of bin x) (firsts_of (bin_state bin c))
unfolding record_l1_intent record_l1_validated record_l2_intent record_l2_validated
    record_instruction
call-firsts (Bin.hazard b) (l1_intent b' i cycle wall) c is wide h =
    ap (at_l1 b)
      (with_l1-states
        (changed (validate_l1_bin b') (validate_hit_metadata i cycle wall) record_intent c.l1_state)
        c).0
    ∙ changed-firsts record_intent (λ hit. recorded hit none) record_intent-Records
        (validate_l1_bin b') (validate_hit_metadata i cycle wall) (b - 1) c.l1_state
        (omega (arith, is.0, is.1, wide.0)) h.l1
    ∙ rw
        (named-hazard b b' (validate_hit_metadata i cycle wall) is, to_option-metadata i cycle wall)
        refl
call-firsts (Bin.hazard b) (l1_validated b' i cycle wall) c is wide h =
    ap (at_l1 b)
      (with_l1-states
        (changed (validate_l1_bin b') (validate_hit_metadata i cycle wall) record_validated
          c.l1_state)
        c).0
    ∙ changed-firsts record_validated (recorded none) record_validated-Records (validate_l1_bin b')
        (validate_hit_metadata i cycle wall) (b - 1) c.l1_state (omega (arith, is.0, is.1, wide.0))
        h.l1
    ∙ rw
        (named-hazard b b' (validate_hit_metadata i cycle wall) is, to_option-metadata i cycle wall)
        refl
call-firsts (Bin.hazard b) (l2_intent d r i cycle wall) c is wide h =
    ap (at_l1 b)
      (with_l2-states
        (changed (validate_l2_bin d r) (validate_hit_metadata i cycle wall) record_intent
          c.l2_state)
        c).1
    ∙ sym (recorded-none _)
call-firsts (Bin.hazard b) (l2_validated d r i cycle wall) c is wide h =
    ap (at_l1 b)
      (with_l2-states
        (changed (validate_l2_bin d r) (validate_hit_metadata i cycle wall) record_validated
          c.l2_state)
        c).1
    ∙ sym (recorded-none _)
call-firsts (Bin.hazard b) (instruction i cycle) c is wide h =
    ap (at_l1 b) (counted-states (next_instruction i cycle c) c).0 ∙ sym (recorded-none _)
call-firsts (Bin.dependency d r) (l1_intent b' i cycle wall) c is wide h =
    ap (at_l2 d r)
      (with_l1-states
        (changed (validate_l1_bin b') (validate_hit_metadata i cycle wall) record_intent c.l1_state)
        c).1
    ∙ sym (recorded-none _)
call-firsts (Bin.dependency d r) (l1_validated b' i cycle wall) c is wide h =
    ap (at_l2 d r)
      (with_l1-states
        (changed (validate_l1_bin b') (validate_hit_metadata i cycle wall) record_validated
          c.l1_state)
        c).1
    ∙ sym (recorded-none _)
call-firsts (Bin.dependency d r) (l2_intent d' r' i cycle wall) c is wide h =
    ap (at_l2 d r)
      (with_l2-states
        (changed (validate_l2_bin d' r') (validate_hit_metadata i cycle wall) record_intent
          c.l2_state)
        c).0
    ∙ changed-firsts record_intent (λ hit. recorded hit none) record_intent-Records
        (validate_l2_bin d' r') (validate_hit_metadata i cycle wall) ((d - 1) * 31 + (r - 1))
        c.l2_state (omega (arith, is.0.0, is.0.1, is.1.0, is.1.1, wide.1)) h.l2
    ∙ rw
        (
          named-dependency d r d' r' (validate_hit_metadata i cycle wall) is,
          to_option-metadata i cycle wall,
        )
        refl
call-firsts (Bin.dependency d r) (l2_validated d' r' i cycle wall) c is wide h =
    ap (at_l2 d r)
      (with_l2-states
        (changed (validate_l2_bin d' r') (validate_hit_metadata i cycle wall) record_validated
          c.l2_state)
        c).0
    ∙ changed-firsts record_validated (recorded none) record_validated-Records
        (validate_l2_bin d' r') (validate_hit_metadata i cycle wall) ((d - 1) * 31 + (r - 1))
        c.l2_state (omega (arith, is.0.0, is.0.1, is.1.0, is.1.1, wide.1)) h.l2
    ∙ rw
        (
          named-dependency d r d' r' (validate_hit_metadata i cycle wall) is,
          to_option-metadata i cycle wall,
        )
        refl
call-firsts (Bin.dependency d r) (instruction i cycle) c is wide h =
    ap (at_l2 d r) (counted-states (next_instruction i cycle c) c).1 ∙ sym (recorded-none _)

call_all-firsts :
    (bin : Bin) (xs : List Call) (c : CoverageCollector)
    → IsBin bin
    → IsWide c
    → IsCollector c
    → firsts_of (bin_state bin (call_all xs c)) ≡ firsts bin xs (firsts_of (bin_state bin c))
call_all-firsts bin [] c is wide h = refl
call_all-firsts bin (x ∷ xs) c is wide h =
    call_all-firsts bin xs (call x c) is (call-IsWide x c wide) (call_all-keeps (x ∷ []) c h).0
    ∙ ap (firsts bin xs) (call-firsts bin x c is wide h)

abbrev pub no_firsts : Firsts
no_firsts = record { intent = none; validated = none }

-- A campaign from a new collector, whatever calls are made and whichever of them raise. After the
-- calls `xs`, every bin that is validated has been seen, a bin has first hits exactly as it is seen
-- and validated, the executed instructions are numbered without gaps, and every checkpoint was made at
-- a multiple of the interval with no more validated bins than seen ones. The first hits of every bin
-- of the two levels are the identifier, the cycle and the time of the first call among `xs` that
-- records its intent, and of the first after that one that records its validation, calls with
-- invalid metadata left out. No further call replaces a first hit or drops a checkpoint.
pub call_all-IsCollector :
    (interval : ℤ) (retain sink : Bool) (c : CoverageCollector) (xs ys : List Call)
    → coverage_collector interval retain sink ≡ ok c
    → IsCollector (call_all xs c)
      × ((bin : Bin)
          → IsBin bin
          → firsts_of (bin_state bin (call_all xs c)) ≡ firsts bin xs no_firsts)
      × Grows (call_all xs c) (call_all ys (call_all xs c))
unfolding coverage_collector
call_all-IsCollector interval retain sink c xs ys h =
    let new = fresh interval h in
    let before = call_all-keeps xs c new.0 in
    (
      before.0,
      λ bin is. call_all-firsts bin xs c is new.1 new.0 ∙ ap (firsts bin xs) (new.2 bin),
      (call_all-keeps ys (call_all xs c) before.0).1,
    )
  where
    start : ℕ → CoverageCollector
    start n = record {
      checkpoint_interval = n;
      retain_checkpoints = retain;
      has_sink = sink;
      l1_state = replicate 20 new_bin;
      l2_state = replicate 62 new_bin;
      checkpoints = [];
      sunk = [];
      executed_instructions = 0;
      last_instruction_id = 0;
    }

    start-IsCollector : (n : ℕ) → IsCollector (start n)
    start-IsCollector n = record {
      l1 = All-replicate IsState 20 new_bin new_bin-IsState;
      l2 = All-replicate IsState 62 new_bin new_bin-IsState;
      numbered = refl;
      checkpoints = tt;
      sunk = tt;
    }

    IsFresh : CoverageCollector → Type 0
    IsFresh c = IsCollector c × IsWide c × ((bin : Bin) → firsts_of (bin_state bin c) ≡ no_firsts)

    start-firsts : (n : ℕ) (bin : Bin) → firsts_of (bin_state bin (start n)) ≡ no_firsts
    start-firsts n (Bin.hazard b) = ap firsts_of (get_or-replicate 20 (b - 1) new_bin)
    start-firsts n (Bin.dependency d r) =
        ap firsts_of (get_or-replicate 62 ((d - 1) * 31 + (r - 1)) new_bin)

    fresh : (z : ℤ) → coverage_collector z retain sink ≡ ok c → IsFresh c
    fresh z h = elim (Outcome-cases (positive z)) [
      | inl (n, e) ↦
          subst IsFresh (ok_injective {a = start n} (rw (← h, e) refl))
            (start-IsCollector n, (refl, refl), start-firsts n)
      | inr (x, e) ↦ absurd (err_absurd x c (rw (← h, e) refl))
    ]
