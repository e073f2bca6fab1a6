-- ===== src/CoverageModel/Bins.antt =====
-- The numbering of the 62 bins by distance and register.
use riscv_pipeline_research.Base.{ℕ, ◌+◌, ◌/◌, ◌%◌, ◌<◌, ◌≡◌, ok, arith}
use riscv_pipeline_research.CoverageModel.{bin_count, l2_bin_index}

-- The index of a bin is below 62 and gives back the distance and the register, and each of the 62
-- numbers is the index of a bin: the numbering is a bijection.
pub l2_bin_index_bijective :
    (i : ℕ)
    → ((distance register : ℕ)
        → l2_bin_index distance register ≡ ok i
        → (i < bin_count) × (distance ≡ i / 31 + 1) × (register ≡ i % 31 + 1))
      × (i < bin_count → l2_bin_index (i / 31 + 1) (i % 31 + 1) ≡ ok i)
unfolding l2_bin_index
l2_bin_index_bijective i = (λ d r h. ground arith, λ h. ground arith)
