-- ===== src/Adaptive/Templates.antt =====
-- The ten arms, research/week10/adaptive/template_library.py, without the texts that describe them.
use riscv_pipeline_research.Base.{ℕ, List, [], ◌∷◌}

pub data ArmId : Type 0 where
  a0 a1 a2 a3 a4 a5 a6 a7 a8 a9 : ArmId

pub data Distance : Type 0 where
  d1 d2 d1_d2 : Distance

pub data RegisterPolicy : Type 0 where
  uncovered_first_single uncovered_first_dual_distinct store_data_rs2 same_rd_newest_writer :
      RegisterPolicy

pub data FillerPolicy : Type 0 where
  no_filler one_independent_for_d2 control_flow_structural : FillerPolicy

-- `l1_bins` holds the numbers of the bins, 1 for "H01".
pub record TemplateSpec : Type 0 where
  pub arm_id : ArmId
  pub distance : Distance
  pub register_policy : RegisterPolicy
  pub filler_policy : FillerPolicy
  pub l1_bins : List ℕ

-- Every arm has a template, so the `KeyError` of the source does not occur.
unfoldable pub get_template : ArmId → TemplateSpec
get_template ArmId.a0 = record {
  arm_id = ArmId.a0;
  distance = Distance.d1;
  register_policy = RegisterPolicy.uncovered_first_single;
  filler_policy = FillerPolicy.no_filler;
  l1_bins = 1 ∷ 2 ∷ [];
}
get_template ArmId.a1 = record {
  arm_id = ArmId.a1;
  distance = Distance.d2;
  register_policy = RegisterPolicy.uncovered_first_single;
  filler_policy = FillerPolicy.one_independent_for_d2;
  l1_bins = 3 ∷ 4 ∷ [];
}
get_template ArmId.a2 = record {
  arm_id = ArmId.a2;
  distance = Distance.d1;
  register_policy = RegisterPolicy.uncovered_first_single;
  filler_policy = FillerPolicy.no_filler;
  l1_bins = 6 ∷ 7 ∷ [];
}
get_template ArmId.a3 = record {
  arm_id = ArmId.a3;
  distance = Distance.d2;
  register_policy = RegisterPolicy.uncovered_first_single;
  filler_policy = FillerPolicy.one_independent_for_d2;
  l1_bins = 8 ∷ 9 ∷ [];
}
get_template ArmId.a4 = record {
  arm_id = ArmId.a4;
  distance = Distance.d1_d2;
  register_policy = RegisterPolicy.uncovered_first_dual_distinct;
  filler_policy = FillerPolicy.no_filler;
  l1_bins = 10 ∷ [];
}
get_template ArmId.a5 = record {
  arm_id = ArmId.a5;
  distance = Distance.d1;
  register_policy = RegisterPolicy.uncovered_first_single;
  filler_policy = FillerPolicy.no_filler;
  l1_bins = 11 ∷ 13 ∷ [];
}
get_template ArmId.a6 = record {
  arm_id = ArmId.a6;
  distance = Distance.d2;
  register_policy = RegisterPolicy.uncovered_first_single;
  filler_policy = FillerPolicy.one_independent_for_d2;
  l1_bins = 12 ∷ 14 ∷ [];
}
get_template ArmId.a7 = record {
  arm_id = ArmId.a7;
  distance = Distance.d1;
  register_policy = RegisterPolicy.uncovered_first_single;
  filler_policy = FillerPolicy.control_flow_structural;
  l1_bins = 15 ∷ [];
}
get_template ArmId.a8 = record {
  arm_id = ArmId.a8;
  distance = Distance.d1;
  register_policy = RegisterPolicy.store_data_rs2;
  filler_policy = FillerPolicy.no_filler;
  l1_bins = 16 ∷ [];
}
get_template ArmId.a9 = record {
  arm_id = ArmId.a9;
  distance = Distance.d1;
  register_policy = RegisterPolicy.same_rd_newest_writer;
  filler_policy = FillerPolicy.no_filler;
  l1_bins = 17 ∷ [];
}
