-- ===== src/Api/Gates.antt =====
-- What the runtime state of src/core/mo_ecat_master.cpp permits.
use mo_driver_pc_ether_cat.Common.{◌≡◌, ◌↔◌, ◌≢◌, true, false, none, arith}
use mo_driver_pc_ether_cat.Types.{MasterRuntimeState, TransitionStage}
use mo_driver_pc_ether_cat.Runtime.{
  is_valid_runtime_state, can_run_maintenance_activity, can_run_process_data,
}
use mo_driver_pc_ether_cat.Controller.States.{ControllerState}
use mo_driver_pc_ether_cat.Api.{
  Impl, current_runtime_state, to_master_runtime_state, begin_runtime_transition,
}

module _ {B F : Type 0} where
  -- Whatever transition is asked for, the runtime state that is shown is a legal one.
  pub current_runtime_state_legal :
      (i : Impl B F) → is_valid_runtime_state (current_runtime_state i) ≡ true
  unfolding current_runtime_state is_valid_runtime_state to_master_runtime_state
  current_runtime_state_legal i = ground arith

  -- Between transitions, a maintenance activity may start exactly in `maintenance`, and process
  -- data is exchanged exactly in `operational`.
  pub gates_iff :
      (i : Impl B F)
      → i.runtime_state_override ≡ none
      → ((can_run_maintenance_activity (current_runtime_state i) ≡ true)
          ↔ (i.controller.state ≡ ControllerState.maintenance))
        × ((can_run_process_data (current_runtime_state i) ≡ true)
            ↔ (i.controller.state ≡ ControllerState.operational))
  unfolding current_runtime_state is_valid_runtime_state to_master_runtime_state
      can_run_maintenance_activity can_run_process_data
  gates_iff i e = ((λ h. ground arith, λ h. ground arith), (λ h. ground arith, λ h. ground arith))

  -- While a transition is under way, nothing may start: neither gate is open.
  pub gates_shut :
      (s : MasterRuntimeState) (i : Impl B F)
      → s.transition ≢ TransitionStage.stable
      → (can_run_maintenance_activity (current_runtime_state (begin_runtime_transition s i))
          ≡ false)
        × (can_run_process_data (current_runtime_state (begin_runtime_transition s i)) ≡ false)
  unfolding current_runtime_state begin_runtime_transition is_valid_runtime_state
      can_run_maintenance_activity can_run_process_data
  gates_shut s i h = (ground arith, ground arith)
