-- ===== src/HazardBins/Agreement.antt =====
-- The L1 classifier of l1_coverage.py against the dependencies of the executed trace.
use riscv_pipeline_research.Base.{
  ℕ, zero, suc, ◌≤◌, ◌<◌, ◌≡◌, ◌≢◌, refl, sym, ap, ◌∙◌, subst, true, some, List, [], ◌∷◌, arith,
  All, none, false, Option-cases, Bool-cases, inl, inr, leb, ◌==◌, ◌&&◌, if◌then◌else◌, ◌-◌, ◌*◌,
  ◌+◌,
}
use riscv_pipeline_research.Isa.{no_producer}
use riscv_pipeline_research.Event.{ExecutionEvent}
use riscv_pipeline_research.CoverageModel.{L2Hit}
use riscv_pipeline_research.CoverageModel.Trace.{nearest_writer, dependency, IsNumbered}
use riscv_pipeline_research.HazardBins.History.{
  L1Hit, is_positive_producer, is_nearest_writer, producer_at_distance, ◌=p=◌,
}
use riscv_pipeline_research.HazardBins.RawBins.{
  RawBin, test_of, distance_of, kind_of, recent, IsClassified, IsReader, IsNamed, NamesHit,
}
use riscv_pipeline_research.HazardBins.Guards.{
  is_kind, guard, made, made-NamesHit, guard_iff, test_of-form, unpack, pack,
}

-- The hit that the L2 collector makes of a producer at a distance.
abbrev hit_at : ℕ → ExecutionEvent → ExecutionEvent → L2Hit
hit_at k p event = record {
  bin_index = (k - 1) * 31 + (p.rd - 1);
  distance = k;
  register = p.rd;
  producer_instruction_index = p.instruction_index;
  consumer_instruction_index = event.instruction_index;
  producer_type = p.producer_type;
  consumer_type = event.consumer_type;
}

-- The producer at distance `d` in the history passes the tests that every bin makes of it.
abbrev Found : List ExecutionEvent → ℕ → ExecutionEvent → Type 0
Found trace d p =
    (producer_at_distance (recent trace) d ≡ some p)
    × (is_positive_producer p ≡ true)
    × (is_nearest_writer (recent trace) (some p) p.rd ≡ true)

-- It is the producer of a dependency of the trace.
Found-dependency :
    (d : ℕ) (trace : List ExecutionEvent) (event p : ExecutionEvent)
    → (0 < d) × (d ≤ 2)
    → IsNumbered trace
    → All IsClassified trace
    → Found trace d p
    → dependency trace event p.rd ≡ some (hit_at d p event)
unfolding is_positive_producer is_nearest_writer
Found-dependency zero trace event p near num cl found = absurd (omega (arith, near.0))
Found-dependency (suc zero) [] event p near num cl found = cc
Found-dependency (suc zero) (q ∷ trace) event p near num cl found =
    ground (arith, found.0, found.1, found.2)
Found-dependency (suc (suc zero)) [] event p near num cl found = cc
Found-dependency (suc (suc zero)) (q ∷ []) event p near num cl found = cc
Found-dependency (suc (suc zero)) (q ∷ r ∷ trace) event p near num cl found =
    ground (arith, found.0, found.1, found.2, num.0, num.1.0, cl.0)
Found-dependency (suc (suc (suc d))) trace event p near num cl found =
    absurd (omega (arith, near.1))

nearest_writer-positive :
    (trace : List ExecutionEvent) (r k : ℕ) (p : ExecutionEvent)
    → nearest_writer trace r ≡ some (k, p)
    → 0 < k
nearest_writer-positive [] r k p h = cc
nearest_writer-positive (e ∷ trace) r k p h = ground arith

-- A dependency at distance 1 or 2 is on the writer that stands there.
abbrev IsAt : List ExecutionEvent → ℕ → L2Hit → Type 0
IsAt trace d l2 =
    (p : ExecutionEvent) × (nearest_writer trace l2.register ≡ some (d, p))
    × (0 < l2.register)
    × (p.producer_type ≡ l2.producer_type)

dependency-IsAt :
    (trace : List ExecutionEvent) (event : ExecutionEvent) (l2 : L2Hit)
    → dependency trace event l2.register ≡ some l2
    → IsAt trace l2.distance l2
dependency-IsAt trace event l2 found = elim (Option-cases (nearest_writer trace l2.register)) [
  | inl unwritten ↦ absurd (never (rw unwritten at found))
  | inr ((k, p), written) ↦ placed k p written (rw written at found)
]
  where
    never : (if l2.register == 0 then none else none) ≡ some l2 → ⊥
    never h = ground arith

    placed :
        (k : ℕ) (p : ExecutionEvent)
        → nearest_writer trace l2.register ≡ some (k, p)
        → (if l2.register == 0
            then none
            else if leb k 2
            then some (record {
              bin_index = (k - 1) * 31 + (l2.register - 1);
              distance = k;
              register = l2.register;
              producer_instruction_index = p.instruction_index;
              consumer_instruction_index = event.instruction_index;
              producer_type = p.producer_type;
              consumer_type = event.consumer_type;
            })
            else none)
          ≡ some l2
        → IsAt trace l2.distance l2
    placed k p written h = (p, ground arith, ground arith, ground arith)

-- The latest event is the nearest writer, or it is not a writer of the register.
first_writer :
    (q p : ExecutionEvent) (trace : List ExecutionEvent) (r : ℕ)
    → nearest_writer (q ∷ trace) r ≡ some (1, p)
    → (q ≡ p) × (q.writes_rd ≡ true) × (q.rd ≡ r)
first_writer q p trace r h = elim (Option-cases (nearest_writer trace r)) [
  | inl unwritten ↦ let only = rw unwritten at h in (ground arith, ground arith, ground arith)
  | inr ((k, w), found) ↦
      let some_left = nearest_writer-positive trace r k w found in
      let split = rw found at h in (ground arith, ground arith, ground arith)
]

later_writer :
    (q p : ExecutionEvent) (trace : List ExecutionEvent) (r k : ℕ)
    → nearest_writer (q ∷ trace) r ≡ some (suc (suc k), p)
    → ((q.writes_rd && q.rd == r) ≡ false) × (nearest_writer trace r ≡ some (suc k, p))
later_writer q p trace r k h = elim (Option-cases (nearest_writer trace r)) [
  | inl unwritten ↦ let only = rw unwritten at h in absurd (ground arith)
  | inr ((j, w), found) ↦ let split = rw found at h in (ground arith, found ∙ ground arith)
]

-- And the producer of every dependency of the trace is found.
dependency-Found :
    (d : ℕ) (trace : List ExecutionEvent) (event : ExecutionEvent) (l2 : L2Hit)
    → (0 < d) × (d ≤ 2)
    → dependency trace event l2.register ≡ some l2
    → l2.distance ≡ d
    → l2.producer_type ≢ no_producer
    → (p : ExecutionEvent) × Found trace d p
      × (p.rd ≡ l2.register)
      × (p.producer_type ≡ l2.producer_type)
unfolding is_positive_producer is_nearest_writer
dependency-Found d trace event l2 near depends placed kind =
    let (p, written, positive_r, same) = dependency-IsAt trace event l2 depends in
    stands d trace p near (written ∙ ap (λ (n : ℕ). some (n, p)) placed) positive_r same
  where
    typed :
        (p : ExecutionEvent)
        → p.producer_type ≡ l2.producer_type
        → (p.producer_type =p= no_producer) ≡ false
    typed p same = elim (Bool-cases (p.producer_type =p= no_producer)) [
      | inl untyped ↦ absurd (kind (sym same ∙ (is_kind _ _).0 untyped))
      | inr other ↦ other
    ]

    stands :
        (d : ℕ) (trace : List ExecutionEvent) (p : ExecutionEvent)
        → (0 < d) × (d ≤ 2)
        → nearest_writer trace l2.register ≡ some (d, p)
        → 0 < l2.register
        → p.producer_type ≡ l2.producer_type
        → (p : ExecutionEvent) × Found trace d p
          × (p.rd ≡ l2.register)
          × (p.producer_type ≡ l2.producer_type)
    stands d [] p near written positive_r same = cc
    stands zero (q ∷ trace) p near written positive_r same = absurd (omega (arith, near.0))
    stands (suc zero) (q ∷ trace) p near written positive_r same =
        let (e, w, r) = first_writer q p trace l2.register written in
        let kind_q = typed q (ap (λ (x : ExecutionEvent). x.producer_type) e ∙ same) in
        (
          q,
          (refl, ground (arith, w, r, kind_q), ground (arith, w, r, kind_q)),
          r,
          ap (λ (x : ExecutionEvent). x.producer_type) e ∙ same,
        )
    stands (suc (suc zero)) (q ∷ []) p near written positive_r same = ground arith
    stands (suc (suc zero)) (q ∷ s ∷ trace) p near written positive_r same =
        let (skipped, found) = later_writer q p (s ∷ trace) l2.register 0 written in
        let (e, w, r) = first_writer s p trace l2.register found in
        let kind_s = typed s (ap (λ (x : ExecutionEvent). x.producer_type) e ∙ same) in
        (
          s,
          (refl, ground (arith, w, r, kind_s), ground (arith, w, r, kind_s, skipped)),
          r,
          ap (λ (x : ExecutionEvent). x.producer_type) e ∙ same,
        )
    stands (suc (suc (suc d))) (q ∷ trace) p near written positive_r same =
        absurd (omega (arith, near.1))

near_distance : (b : RawBin) → (0 < distance_of b) × (distance_of b ≤ 2)
near_distance RawBin.alu_d1_rs1 = (omega arith, omega arith)
near_distance RawBin.alu_d1_rs2 = (omega arith, omega arith)
near_distance RawBin.alu_d2_rs1 = (omega arith, omega arith)
near_distance RawBin.alu_d2_rs2 = (omega arith, omega arith)
near_distance RawBin.load_d1_rs1 = (omega arith, omega arith)
near_distance RawBin.load_d1_rs2 = (omega arith, omega arith)
near_distance RawBin.load_d2_rs1 = (omega arith, omega arith)
near_distance RawBin.load_d2_rs2 = (omega arith, omega arith)
near_distance RawBin.lui_d1 = (omega arith, omega arith)
near_distance RawBin.lui_d2 = (omega arith, omega arith)
near_distance RawBin.auipc_d1 = (omega arith, omega arith)
near_distance RawBin.auipc_d2 = (omega arith, omega arith)
near_distance RawBin.link_d1 = (omega arith, omega arith)
near_distance RawBin.store_data_d1 = (omega arith, omega arith)

is_producer : (b : RawBin) → kind_of b ≢ no_producer
is_producer RawBin.alu_d1_rs1 e = cc
is_producer RawBin.alu_d1_rs2 e = cc
is_producer RawBin.alu_d2_rs1 e = cc
is_producer RawBin.alu_d2_rs2 e = cc
is_producer RawBin.load_d1_rs1 e = cc
is_producer RawBin.load_d1_rs2 e = cc
is_producer RawBin.load_d2_rs1 e = cc
is_producer RawBin.load_d2_rs2 e = cc
is_producer RawBin.lui_d1 e = cc
is_producer RawBin.lui_d2 e = cc
is_producer RawBin.auipc_d1 e = cc
is_producer RawBin.auipc_d2 e = cc
is_producer RawBin.link_d1 e = cc
is_producer RawBin.store_data_d1 e = cc

-- Each of the fourteen single-dependency bins of L1 stands for exactly the dependencies that its name
-- states, on a trace that is numbered from 1 and whose writers all have a producer type. Where its
-- test makes a hit, the trace has such a dependency, and the hit names its producer and its reader:
-- the nearest writer of the register stands at the bin's distance and is of the bin's kind (the
-- result of an ALU instruction, of a load, of LUI, of AUIPC or of a link), and the reader is of the
-- bin's kind and reads the register through the bin's operand. And wherever the trace has such a
-- dependency, the test makes a hit.
pub test_of-Names :
    (b : RawBin) (trace : List ExecutionEvent) (event : ExecutionEvent)
    → IsNumbered trace
    → All IsClassified trace
    → ((hit : L1Hit)
        → test_of b (recent trace) event ≡ some hit
        → (l2 : L2Hit) × IsNamed b trace event l2 × NamesHit event l2 hit)
      × ((l2 : L2Hit)
          → IsNamed b trace event l2
          → (hit : L1Hit) × (test_of b (recent trace) event ≡ some hit))
test_of-Names b trace event numbered classified = (
  λ hit h.
      let (p, found, positive, passes, makes) =
        unpack (producer_at_distance (recent trace) (distance_of b))
          (λ p. guard (recent trace) event p b) (λ p. made (recent trace) event p b) hit
          (sym (test_of-form b (recent trace) event) ∙ h) in
      let (kind, reader, nearest) = (guard_iff (recent trace) event p b).0 passes in
      let named = made-NamesHit (recent trace) event p b hit makes in
      (
        hit_at (distance_of b) p event,
        record {
          on_trace =
              Found-dependency (distance_of b) trace event p (near_distance b) numbered classified
                (found, positive, nearest);
          at_distance = refl;
          of_kind = kind;
          reader = reader;
        },
        record { producer = named.0; consumer = named.1 },
      ),
  λ l2 named.
      let (p, (found, positive, nearest), register, kind) =
        dependency-Found (distance_of b) trace event l2 (near_distance b) named.on_trace
          named.at_distance (λ none_there. is_producer b (sym named.of_kind ∙ none_there)) in
      let passes =
        (guard_iff (recent trace) event p b).1
          (kind ∙ named.of_kind, subst (IsReader b event) (sym register) named.reader, nearest) in
      (
        made (recent trace) event p b,
        test_of-form b (recent trace) event
            ∙ pack (producer_at_distance (recent trace) (distance_of b))
                (λ p. guard (recent trace) event p b) (λ p. made (recent trace) event p b) p found
                positive passes,
      ),
)
