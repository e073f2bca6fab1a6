-- ===== src/Promotion/Calls.antt =====
-- A campaign as a sequence of calls of the collector of coverage_collector.py.
use mathlib.Core.List.{append_assoc}
use riscv_pipeline_research.Base.{
  ap, ◌∙◌, ℕ, ◌+◌, ◌%◌, ◌≡◌, refl, arith, Bool, true, false, List, [], ◌∷◌, ◌++◌, ℤ, Outcome, ok,
  err, ◌==◌, ==_iff, if◌then◌else◌, All, Bool-cases, inl, inr,
}
use riscv_pipeline_research.Promotion.{
  CoverageCheckpoint, CoverageCollector, record_intent, record_validated, record_l1_intent,
  record_l1_validated, record_l2_intent, record_l2_validated, checkpoint_of, emit_checkpoint,
  count_instruction, counted_at, next_instruction, record_instruction,
}
use riscv_pipeline_research.Promotion.Invariant.{
  IsCheckpoint, IsCollector, Grows, Grows-refl, IsPrefix, IsPrefix-refl, with_l1-keeps,
  with_l2-keeps, counts-le, changed-keeps, record_intent-IsChange, record_validated-IsChange,
}

pub data Call : Type 0 where
  l1_intent l1_validated : ℕ → ℤ → ℤ → ℤ → Call
  l2_intent l2_validated : ℕ → ℕ → ℤ → ℤ → ℤ → Call
  instruction : ℤ → ℤ → Call

-- The collector after a call, also one that raises.
abbrev pub call : Call → CoverageCollector → CoverageCollector
call (l1_intent b i cycle wall) c = (record_l1_intent b i cycle wall c).1
call (l1_validated b i cycle wall) c = (record_l1_validated b i cycle wall c).1
call (l2_intent d r i cycle wall) c = (record_l2_intent d r i cycle wall c).1
call (l2_validated d r i cycle wall) c = (record_l2_validated d r i cycle wall c).1
call (instruction i cycle) c = (record_instruction i cycle c).1

abbrev pub call_all : List Call → CoverageCollector → CoverageCollector
call_all [] c = c
call_all (x ∷ xs) c = call_all xs (call x c)

All-last :
    {A : Type 0} (P : A → Type 0) (xs : List A) (x : A) → All P xs → P x → All P (xs ++ x ∷ [])
All-last P [] x h p = (p, tt)
All-last P (y ∷ ys) x h p = (h.0, All-last P ys x h.1 p)

-- The checkpoint of a collector at a multiple of the interval.
checkpoint_of-IsCheckpoint :
    (cycle : ℕ) (c : CoverageCollector)
    → IsCollector c
    → c.executed_instructions % c.checkpoint_interval ≡ 0
    → IsCheckpoint c.checkpoint_interval (checkpoint_of cycle c)
checkpoint_of-IsCheckpoint cycle c h due =
    (due, counts-le c.l1_state h.l1, counts-le c.l2_state h.l2)

emit-keeps :
    (cycle : ℕ) (c : CoverageCollector)
    → IsCollector c
    → c.executed_instructions % c.checkpoint_interval ≡ 0
    → IsCollector (emit_checkpoint cycle c)
unfolding emit_checkpoint
emit-keeps cycle c h due = record {
  l1 = h.l1;
  l2 = h.l2;
  numbered = h.numbered;
  checkpoints = either c.retain_checkpoints c.checkpoints h.checkpoints;
  sunk = either c.has_sink c.sunk h.sunk;
}
  where
    either :
        (v : Bool) (ks : List CoverageCheckpoint)
        → All (IsCheckpoint c.checkpoint_interval) ks
        → All
            (IsCheckpoint c.checkpoint_interval)
            (if v then ks ++ checkpoint_of cycle c ∷ [] else ks)
    either true ks is =
        All-last (IsCheckpoint c.checkpoint_interval) ks _ is
          (checkpoint_of-IsCheckpoint cycle c h due)
    either false ks is = is

counted-keeps :
    (i cycle : ℕ) (c : CoverageCollector)
    → i ≡ c.last_instruction_id + 1
    → IsCollector c
    → IsCollector (count_instruction i cycle c) × Grows c (count_instruction i cycle c)
unfolding count_instruction emit_checkpoint
counted-keeps i cycle c next h =
    elim (Bool-cases (after.executed_instructions % c.checkpoint_interval == 0)) [
      | inl due ↦ rw due (
        emit-keeps cycle after is_after ((==_iff _ _).0 due),
        record {
          l1 = grows.l1;
          l2 = grows.l2;
          counted = grows.counted;
          kept = listed c.retain_checkpoints;
        },
      )
      | inr early ↦ rw early (is_after, grows)
    ]
  where
    after : CoverageCollector
    after = record c {
      last_instruction_id = i;
      executed_instructions = c.executed_instructions + 1;
    }

    is_after : IsCollector after
    is_after = record {
      l1 = h.l1;
      l2 = h.l2;
      numbered = omega (arith, h.numbered, next);
      checkpoints = h.checkpoints;
      sunk = h.sunk;
    }

    grows : Grows c after
    grows = record {
      l1 = (Grows-refl c).l1;
      l2 = (Grows-refl c).l2;
      counted = omega arith;
      kept = (Grows-refl c).kept;
    }

    listed :
        (v : Bool)
        → IsPrefix c.checkpoints
            (if v then c.checkpoints ++ checkpoint_of cycle after ∷ [] else c.checkpoints)
    listed true = (checkpoint_of cycle after ∷ [], refl)
    listed false = IsPrefix-refl c.checkpoints

next_instruction-next :
    (z cycle : ℤ) (c : CoverageCollector) (i n : ℕ)
    → next_instruction z cycle c ≡ ok (i, n)
    → i ≡ c.last_instruction_id + 1
next_instruction-next z cycle c i n h = ground arith

counted_at-keeps :
    (o : Outcome (ℕ × ℕ)) (c : CoverageCollector)
    → ((i n : ℕ) → o ≡ ok (i, n) → i ≡ c.last_instruction_id + 1)
    → IsCollector c
    → IsCollector (counted_at o c).1 × Grows c (counted_at o c).1
unfolding counted_at
counted_at-keeps (err e) c next h = (h, Grows-refl c)
counted_at-keeps (ok (i, n)) c next h = counted-keeps i n c (next i n refl) h

call-keeps :
    (x : Call) (c : CoverageCollector) → IsCollector c → IsCollector (call x c) × Grows c (call x c)
unfolding record_l1_intent record_l1_validated record_l2_intent record_l2_validated
    record_instruction
call-keeps (l1_intent b i cycle wall) c h =
    with_l1-keeps _ c
      (λ states. changed-keeps _ _ record_intent c.l1_state states record_intent-IsChange h.l1) h
call-keeps (l1_validated b i cycle wall) c h =
    with_l1-keeps _ c
      (λ states.
        changed-keeps _ _ record_validated c.l1_state states record_validated-IsChange h.l1)
      h
call-keeps (l2_intent d r i cycle wall) c h =
    with_l2-keeps _ c
      (λ states. changed-keeps _ _ record_intent c.l2_state states record_intent-IsChange h.l2) h
call-keeps (l2_validated d r i cycle wall) c h =
    with_l2-keeps _ c
      (λ states.
        changed-keeps _ _ record_validated c.l2_state states record_validated-IsChange h.l2)
      h
call-keeps (instruction i cycle) c h =
    counted_at-keeps (next_instruction i cycle c) c (next_instruction-next i cycle c) h

Grows-trans : (a b c : CoverageCollector) → Grows a b → Grows b c → Grows a c
Grows-trans a b c f g = record {
  l1 = λ i. (λ h e. (g.l1 i).0 h ((f.l1 i).0 h e), λ h e. (g.l1 i).1 h ((f.l1 i).1 h e));
  l2 = λ i. (λ h e. (g.l2 i).0 h ((f.l2 i).0 h e), λ h e. (g.l2 i).1 h ((f.l2 i).1 h e));
  counted = omega (arith, f.counted, g.counted);
  kept = (
    f.kept.0 ++ g.kept.0,
    g.kept.1 ∙ ap (λ ks. ks ++ g.kept.0) f.kept.1 ∙ append_assoc a.checkpoints f.kept.0 g.kept.0,
  );
}

pub call_all-keeps :
    (xs : List Call) (c : CoverageCollector)
    → IsCollector c
    → IsCollector (call_all xs c) × Grows c (call_all xs c)
call_all-keeps [] c h = (h, Grows-refl c)
call_all-keeps (x ∷ xs) c h =
    let one = call-keeps x c h in
    let rest = call_all-keeps xs (call x c) one.0 in
    (rest.0, Grows-trans c (call x c) (call_all xs (call x c)) one.1 rest.1)
