-- ===== src/Api/Lifecycle.antt =====
-- The life cycle methods of src/core/mo_ecat_master.cpp and what the callbacks hear of them.
use mo_driver_pc_ether_cat.Common.{◌≡◌, true, none, ◌∷◌, arith}
use mo_driver_pc_ether_cat.Types.{
  MasterRuntimeState, runtime, MasterMode, TransitionStage, PrepareStage,
}
use mo_driver_pc_ether_cat.Runtime.{is_valid_runtime_state}
use mo_driver_pc_ether_cat.Soem.{Soem}
use mo_driver_pc_ether_cat.Axis.{Floats}
use mo_driver_pc_ether_cat.Controller.States.{ControllerState}
use mo_driver_pc_ether_cat.Controller.Requests.{
  Request, control, initialize_adapter, scan, enter_maintenance, prepare_run, start_operation,
  back_to_maintenance, stop, request_fault, request_emergency_stop,
}
use mo_driver_pc_ether_cat.Api
use mo_driver_pc_ether_cat.Api.{
  Impl, runtime_state_changed, entering, current_runtime_state, to_master_runtime_state, during,
  begin_runtime_transition, end_runtime_transition, notify_runtime_state_changed,
}

module _ {B F : Type 0} ⦃soem : Soem B⦄ ⦃fl : Floats F⦄ where
  -- The public method of each request.
  unfoldable pub perform : Request → Impl B F → Impl B F
  perform (initialize_adapter config) i = (Api.initialize_adapter config i).1
  perform scan i = (Api.scan i).1
  perform enter_maintenance i = (Api.enter_maintenance i).1
  perform prepare_run i = (Api.prepare_run i).1
  perform start_operation i = (Api.start_operation i).1
  perform back_to_maintenance i = (Api.back_to_maintenance i).1
  perform stop i = Api.stop i
  perform request_fault i = Api.request_fault i
  perform request_emergency_stop i = Api.request_emergency_stop i

-- The transition that a request shows while it runs, by the state it starts in.
unfoldable pub shown : Request → ControllerState → MasterRuntimeState
shown (initialize_adapter config) s = entering MasterMode.prepare PrepareStage.adapter_ready
shown scan s = entering MasterMode.prepare PrepareStage.topology_discovered
shown enter_maintenance s = entering MasterMode.prepare PrepareStage.pre_op_maintenance
shown prepare_run s = entering MasterMode.prepare PrepareStage.safe_op_ready
shown start_operation s = entering MasterMode.run PrepareStage.none
shown back_to_maintenance ControllerState.operational =
    runtime MasterMode.run TransitionStage.exiting PrepareStage.none
shown back_to_maintenance s = entering MasterMode.prepare PrepareStage.pre_op_maintenance
shown stop s = record (to_master_runtime_state s) { transition = TransitionStage.exiting }
shown request_fault s = entering MasterMode.fault PrepareStage.none
shown request_emergency_stop s = entering MasterMode.emergency_stop PrepareStage.none

module _ {B F : Type 0} ⦃soem : Soem B⦄ ⦃fl : Floats F⦄ where
  -- Each method of the life cycle hands the call to the controller and ends its transition.
  pub perform-control :
      (r : Request) (i : Impl B F)
      → ((perform r i).controller ≡ control r i.controller)
        × ((perform r i).runtime_state_override ≡ none)
  unfolding perform control during Api.initialize_adapter Api.scan Api.enter_maintenance
      Api.prepare_run Api.start_operation Api.back_to_maintenance Api.stop Api.request_fault
      Api.request_emergency_stop begin_runtime_transition end_runtime_transition
      notify_runtime_state_changed
  perform-control r i = ground arith

  -- A listener hears of each request that is made between transitions exactly twice, and through
  -- on_runtime_state_changed alone: the transition, then the stable state that the controller has
  -- reached, success or not.
  pub perform-notifies :
      (r : Request) (i : Impl B F)
      → i.on_runtime_state_changed ≡ true
      → i.runtime_state_override ≡ none
      → (perform r i).trace
        ≡ runtime_state_changed (to_master_runtime_state (control r i.controller).state)
          ∷ runtime_state_changed (shown r i.controller.state)
          ∷ i.trace
  unfolding perform control shown during Api.initialize_adapter Api.scan Api.enter_maintenance
      Api.prepare_run Api.start_operation Api.back_to_maintenance Api.stop Api.request_fault
      Api.request_emergency_stop begin_runtime_transition end_runtime_transition
      notify_runtime_state_changed current_runtime_state is_valid_runtime_state
      to_master_runtime_state
  perform-notifies r i h e = ground arith
