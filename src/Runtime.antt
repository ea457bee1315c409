-- ===== src/Runtime.antt =====
-- src/core/runtime_state.cpp: which runtime states are legal and what they allow.
pub mod Laws
pub mod Display
use mo_driver_pc_ether_cat.Common.{Bool, true, false, ◌&&◌}
use mo_driver_pc_ether_cat.Types.{MasterMode, TransitionStage, PrepareStage, MasterRuntimeState}

abbrev pub is_prepare : MasterMode → Bool
is_prepare MasterMode.prepare = true
is_prepare _ = false

abbrev pub is_run : MasterMode → Bool
is_run MasterMode.run = true
is_run _ = false

abbrev pub is_stable : TransitionStage → Bool
is_stable TransitionStage.stable = true
is_stable _ = false

abbrev pub is_no_stage : PrepareStage → Bool
is_no_stage PrepareStage.none = true
is_no_stage _ = false

abbrev pub is_maintenance_stage : PrepareStage → Bool
is_maintenance_stage PrepareStage.pre_op_maintenance = true
is_maintenance_stage _ = false

-- The first `switch` of the source has no effect on a value of the enumeration.
unfoldable pub is_valid_runtime_state : MasterRuntimeState → Bool
is_valid_runtime_state s = elim s.mode [
  | MasterMode.prepare ↦ true
  | _ ↦ is_no_stage s.prepare_stage
]

unfoldable pub can_run_maintenance_activity : MasterRuntimeState → Bool
can_run_maintenance_activity s =
    is_prepare s.mode && is_stable s.transition && is_maintenance_stage s.prepare_stage

unfoldable pub can_run_process_data : MasterRuntimeState → Bool
can_run_process_data s = is_run s.mode && is_stable s.transition && is_no_stage s.prepare_stage

unfoldable pub should_check_pre_op_slaves : MasterRuntimeState → Bool
unfolding can_run_maintenance_activity
should_check_pre_op_slaves s = can_run_maintenance_activity s

unfoldable pub should_check_operational_slaves : MasterRuntimeState → Bool
unfolding can_run_process_data
should_check_operational_slaves s = can_run_process_data s
