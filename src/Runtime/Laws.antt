-- ===== src/Runtime/Laws.antt =====
-- The runtime states for which the gates of src/core/runtime_state.cpp open.
use mo_driver_pc_ether_cat.Common.{◌≡◌, ◌↔◌, refl, true, arith}
use mo_driver_pc_ether_cat.Types.{
  MasterMode, TransitionStage, PrepareStage, MasterRuntimeState, runtime,
}
use mo_driver_pc_ether_cat.Runtime.{can_run_maintenance_activity, can_run_process_data}

abbrev pub maintenance_runtime : MasterRuntimeState
maintenance_runtime =
    runtime MasterMode.prepare TransitionStage.stable PrepareStage.pre_op_maintenance

abbrev pub run_runtime : MasterRuntimeState
run_runtime = runtime MasterMode.run TransitionStage.stable PrepareStage.none

-- A runtime state opens the gate for maintenance, or the gate for process data, exactly when it is
-- the one state that belongs to that gate.
pub gates_single :
    (s : MasterRuntimeState)
    → ((can_run_maintenance_activity s ≡ true) ↔ (s ≡ maintenance_runtime))
      × ((can_run_process_data s ≡ true) ↔ (s ≡ run_runtime))
unfolding can_run_maintenance_activity can_run_process_data
gates_single s = ((λ h. ground arith, λ h. rw h refl), (λ h. ground arith, λ h. rw h refl))
