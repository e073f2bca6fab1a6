-- ===== src/Realization/Agreement.antt =====
-- The table of the realization checker against the classifier, which makes the hits, and the timing
-- oracle, which says when and from where an operand is to be read.
use riscv_pipeline_research.Base.{
  ℕ, ◌+◌, ◌≡◌, ◌↔◌, refl, ap, sym, ◌∙◌, ok_injective, ◌<◌, arith, Bool, true, false, ◌&&◌, some,
  List, [], ◌∷◌, ◌++◌, pos, Outcome, ok, All, all, ==_iff, ◌==◌,
}
use mathlib.Core.List.{append-nil}
use riscv_pipeline_research.Event.{ExecutionEvent}
use riscv_pipeline_research.Timing.{Forward, forward_for_age}
use riscv_pipeline_research.HazardBins.History.{L1Hit, Role}
use riscv_pipeline_research.HazardBins.RawBins.{RawBin, test_of, distance_of}
use riscv_pipeline_research.Realization.{
  ControlCheck, ControlName, ControlRealizationResult, check, check_passed, passed, all_passed,
  forward_checks, with_selection, add_forward_check, fixed_forward, special_checks, stall_check,
  stall_expected, is_bin,
}
use riscv_pipeline_research.Realization.Rows.{
  id_of, stall_of, bubbles_of, code, selected, real, Made, test_of-Made,
}

-- The checks that some selections make, and what it means that they pass.
abbrev Judges :
    Outcome (List ControlCheck) → ExecutionEvent → ℕ → List Role → List ControlCheck → Type 0
Judges o event expected roles checks =
    (o ≡ ok checks)
    × ((all_passed checks ≡ true) ↔ All (λ role. selected event role ≡ expected) roles)

and_iff :
    (a b : Bool) {P Q : Type 0} → ((a ≡ true) ↔ P) → ((b ≡ true) ↔ Q) → ((a && b) ≡ true) ↔ (P × Q)
and_iff true b p q = (λ h. (p.0 refl, q.0 h), λ h. q.1 h.1)
and_iff false b p q = (λ h. cc, λ h. p.1 h.0)

forward_checks-Judges :
    (event : ExecutionEvent) (expected : ℕ) (roles : List Role)
    → all real roles ≡ true
    → (checks : List ControlCheck) × Judges
        (forward_checks event (with_selection expected roles))
        event
        expected
        roles
        checks
unfolding add_forward_check check_passed
forward_checks-Judges event expected [] h = ([], (refl, (λ _. tt, λ _. refl)))
forward_checks-Judges event expected (Role.rs1 ∷ roles) h =
    let (checks, (runs, means)) = forward_checks-Judges event expected roles h in
    (
      record { name = ControlName.forward_rs1; expected = expected; observed = event.forward_a }
          ∷ checks,
      (rw runs refl, and_iff _ _ (by_test event.forward_a) means),
    )
  where
    by_test : (n : ℕ) → ((expected == n) ≡ true) ↔ (n ≡ expected)
    by_test n = ground arith
forward_checks-Judges event expected (Role.rs2 ∷ roles) h =
    let (checks, (runs, means)) = forward_checks-Judges event expected roles h in
    (
      record { name = ControlName.forward_rs2; expected = expected; observed = event.forward_b }
          ∷ checks,
      (rw runs refl, and_iff _ _ (by_test event.forward_b) means),
    )
  where
    by_test : (n : ℕ) → ((expected == n) ≡ true) ↔ (n ≡ expected)
    by_test n = ground arith
forward_checks-Judges event expected (Role.raw_rs2_unused ∷ roles) h = cc

-- The check of a hit, from the checks of its selections.
with_checks :
    (hit : L1Hit) (event : ExecutionEvent) (events : List (ℕ × ExecutionEvent)) (stall : ℕ)
    (fixed special : List ControlCheck) {P : Type 0}
    → hit.consumer_instruction_index ≡ event.instruction_index
    → is_bin hit.bin_id ≡ true
    → stall_expected hit.bin_id ≡ stall
    → forward_checks event (fixed_forward hit.bin_id) ≡ ok fixed
    → special_checks hit event events ≡ ok special
    → ((all_passed (fixed ++ special) ≡ true) ↔ P)
    → (result : ControlRealizationResult) × (check hit event events ≡ ok result)
      × ((passed result ≡ true) ↔ ((event.stall_cycles_before_accept ≡ stall) × P))
unfolding check passed check_passed
with_checks hit event events stall fixed special index known stalls fixed_runs special_runs means =
    (
      record {
        bin_id = hit.bin_id;
        consumer_instruction_index = event.instruction_index;
        checks = stall_check hit event ∷ fixed ++ special;
      },
      rw (known, (==_iff _ _).1 index, fixed_runs, special_runs) refl,
      and_iff _ _ (by_test (stall_expected hit.bin_id) event.stall_cycles_before_accept stalls)
          means,
    )
  where
    by_test : (e n : ℕ) → e ≡ stall → ((e == n) ≡ true) ↔ (n ≡ stall)
    by_test e n same = ground arith

-- What the realization checker says of a hit for the bin `b`: the stall is the bin's, and every
-- operand that the hit names was read from `f`.
abbrev pub Realizes : RawBin → Forward → L1Hit → ExecutionEvent → Type 0
Realizes b f hit event =
    (event.stall_cycles_before_accept ≡ stall_of b)
    × All (λ role. selected event role ≡ code f) hit.matched_sources

-- The age of the producer where nothing but the bin's own stall, and a link's own bubbles, comes
-- between the two instructions.
abbrev pub age_of : RawBin → ℕ
age_of b = distance_of b + stall_of b + bubbles_of b

abbrev Checked : RawBin → Forward → L1Hit → ExecutionEvent → List (ℕ × ExecutionEvent) → Type 0
Checked b f hit event events =
    (result : ControlRealizationResult) × (check hit event events ≡ ok result)
    × ((passed result ≡ true) ↔ Realizes b f hit event)

-- A bin with a fixed row for one role.
fixed_row :
    (b : RawBin) (f : Forward) (role : Role) (hit : L1Hit) (event : ExecutionEvent)
    (events : List (ℕ × ExecutionEvent))
    → hit.bin_id ≡ id_of b
    → hit.consumer_instruction_index ≡ event.instruction_index
    → hit.matched_sources ≡ role ∷ []
    → real role ≡ true
    → is_bin (id_of b) ≡ true
    → stall_expected (id_of b) ≡ stall_of b
    → fixed_forward (id_of b) ≡ (role, code f) ∷ []
    → special_checks hit event events ≡ ok []
    → Checked b f hit event events
fixed_row b f role hit event events id index roles is_real known stalls row special =
    let (checks, (runs, means)) =
      forward_checks-Judges event (code f) (role ∷ []) (rw is_real refl) in
    with_checks hit event events (stall_of b) checks [] index (ap is_bin id ∙ known)
      (ap stall_expected id ∙ stalls)
      (ap (λ n. forward_checks event (fixed_forward n)) id ∙ ap (forward_checks event) row ∙ runs)
      special (rw (append-nil checks, roles) means)

link_row :
    (hit : L1Hit) (event : ExecutionEvent) (events : List (ℕ × ExecutionEvent))
    → Made RawBin.link_d1 event hit
    → Checked RawBin.link_d1 Forward.register_file hit event events
link_row hit event events (id, index, roles) =
    let (checks, (runs, means)) =
      forward_checks-Judges event (code Forward.register_file) hit.matched_sources roles in
    with_checks hit event events 0 [] checks index (ap is_bin id) (ap stall_expected id)
      (ap (λ n. forward_checks event (fixed_forward n)) id) (rw id runs) means

checked :
    (b : RawBin) (hit : L1Hit) (event : ExecutionEvent) (events : List (ℕ × ExecutionEvent))
    → Made b event hit
    → (f : Forward) × (forward_for_age (some (pos (age_of b))) ≡ ok f)
      × Checked b f hit event events
unfolding forward_for_age
checked RawBin.alu_d1_rs1 hit event events (id, index, roles) = (
  Forward.ex_mem,
  refl,
  fixed_row RawBin.alu_d1_rs1 Forward.ex_mem Role.rs1 hit event events id index roles refl refl refl
      refl (rw id refl),
)
checked RawBin.alu_d1_rs2 hit event events (id, index, roles) = (
  Forward.ex_mem,
  refl,
  fixed_row RawBin.alu_d1_rs2 Forward.ex_mem Role.rs2 hit event events id index roles refl refl refl
      refl (rw id refl),
)
checked RawBin.alu_d2_rs1 hit event events (id, index, roles) = (
  Forward.mem_wb,
  refl,
  fixed_row RawBin.alu_d2_rs1 Forward.mem_wb Role.rs1 hit event events id index roles refl refl refl
      refl (rw id refl),
)
checked RawBin.alu_d2_rs2 hit event events (id, index, roles) = (
  Forward.mem_wb,
  refl,
  fixed_row RawBin.alu_d2_rs2 Forward.mem_wb Role.rs2 hit event events id index roles refl refl refl
      refl (rw id refl),
)
checked RawBin.load_d1_rs1 hit event events (id, index, roles) = (
  Forward.mem_wb,
  refl,
  fixed_row RawBin.load_d1_rs1 Forward.mem_wb Role.rs1 hit event events id index roles refl refl
      refl refl (rw id refl),
)
checked RawBin.load_d1_rs2 hit event events (id, index, roles) = (
  Forward.mem_wb,
  refl,
  fixed_row RawBin.load_d1_rs2 Forward.mem_wb Role.rs2 hit event events id index roles refl refl
      refl refl (rw id refl),
)
checked RawBin.load_d2_rs1 hit event events (id, index, roles) = (
  Forward.mem_wb,
  refl,
  fixed_row RawBin.load_d2_rs1 Forward.mem_wb Role.rs1 hit event events id index roles refl refl
      refl refl (rw id refl),
)
checked RawBin.load_d2_rs2 hit event events (id, index, roles) = (
  Forward.mem_wb,
  refl,
  fixed_row RawBin.load_d2_rs2 Forward.mem_wb Role.rs2 hit event events id index roles refl refl
      refl refl (rw id refl),
)
checked RawBin.lui_d1 hit event events (id, index, roles) = (
  Forward.ex_mem,
  refl,
  fixed_row RawBin.lui_d1 Forward.ex_mem Role.rs1 hit event events id index roles refl refl refl
      refl (rw id refl),
)
checked RawBin.lui_d2 hit event events (id, index, roles) = (
  Forward.mem_wb,
  refl,
  fixed_row RawBin.lui_d2 Forward.mem_wb Role.rs1 hit event events id index roles refl refl refl
      refl (rw id refl),
)
checked RawBin.auipc_d1 hit event events (id, index, roles) = (
  Forward.ex_mem,
  refl,
  fixed_row RawBin.auipc_d1 Forward.ex_mem Role.rs1 hit event events id index roles refl refl refl
      refl (rw id refl),
)
checked RawBin.auipc_d2 hit event events (id, index, roles) = (
  Forward.mem_wb,
  refl,
  fixed_row RawBin.auipc_d2 Forward.mem_wb Role.rs1 hit event events id index roles refl refl refl
      refl (rw id refl),
)
checked RawBin.store_data_d1 hit event events (id, index, roles) = (
  Forward.ex_mem,
  refl,
  fixed_row RawBin.store_data_d1 Forward.ex_mem Role.rs2 hit event events id index roles refl refl
      refl refl (rw id refl),
)
checked RawBin.link_d1 hit event events made =
    (Forward.register_file, refl, link_row hit event events made)

-- A delay of the instruction in between makes a producer at distance 2 too old to be forwarded.
delayed :
    (b : RawBin) (f : Forward) (delay : ℕ)
    → forward_for_age (some (pos (age_of b))) ≡ ok f
    → 0 < delay
    → distance_of b ≡ 2
    → (f ≡ Forward.mem_wb)
      × (forward_for_age (some (pos (age_of b + delay))) ≡ ok Forward.register_file)
unfolding forward_for_age
delayed RawBin.alu_d1_rs1 f delay h late two = absurd (omega (arith, two))
delayed RawBin.alu_d1_rs2 f delay h late two = absurd (omega (arith, two))
delayed RawBin.alu_d2_rs1 f delay h late two = (sym (ok_injective h), ground arith)
delayed RawBin.alu_d2_rs2 f delay h late two = (sym (ok_injective h), ground arith)
delayed RawBin.load_d1_rs1 f delay h late two = absurd (omega (arith, two))
delayed RawBin.load_d1_rs2 f delay h late two = absurd (omega (arith, two))
delayed RawBin.load_d2_rs1 f delay h late two = (sym (ok_injective h), ground arith)
delayed RawBin.load_d2_rs2 f delay h late two = (sym (ok_injective h), ground arith)
delayed RawBin.lui_d1 f delay h late two = absurd (omega (arith, two))
delayed RawBin.lui_d2 f delay h late two = (sym (ok_injective h), ground arith)
delayed RawBin.auipc_d1 f delay h late two = absurd (omega (arith, two))
delayed RawBin.auipc_d2 f delay h late two = (sym (ok_injective h), ground arith)
delayed RawBin.link_d1 f delay h late two = absurd (omega (arith, two))
delayed RawBin.store_data_d1 f delay h late two = absurd (omega (arith, two))

-- The realization checker raises nothing on a hit that the classifier makes for one of the fourteen
-- single-dependency bins. It passes exactly if the reader waited for the cycles of a load-use stall
-- of its own bin, and for no others, and every operand that the hit names was read from the place `f`
-- that the timing oracle's rule gives for a producer of the age `age_of b`: the bin's distance, with
-- the bin's stall or, for a link, the bubbles behind the jump itself. This age leaves out any delay
-- of an instruction in between, a redirect or a stall, and there the two disagree: for a bin at
-- distance 2 the checker demands MEM/WB, while the oracle's rule gives the register file for the age
-- with the delay.
pub check-Realizes :
    (b : RawBin) (history : List ExecutionEvent) (event : ExecutionEvent) (hit : L1Hit)
    (events : List (ℕ × ExecutionEvent)) (delay : ℕ)
    → test_of b history event ≡ some hit
    → 0 < delay
    → (f : Forward) × (forward_for_age (some (pos (age_of b))) ≡ ok f)
      × ((result : ControlRealizationResult) × (check hit event events ≡ ok result)
          × ((passed result ≡ true) ↔ Realizes b f hit event))
      × (distance_of b ≡ 2
          → (f ≡ Forward.mem_wb)
            × (forward_for_age (some (pos (age_of b + delay))) ≡ ok Forward.register_file))
check-Realizes b history event hit events delay h late =
    let (f, rule, judged) = checked b hit event events (test_of-Made b history event hit h) in
    (f, rule, judged, delayed b f delay rule late)
