-- ===== src/Controller/Machine.antt =====
-- The life cycle that the documents and the comments of src/ec_controller describe, as a machine on
-- states alone, and the controller beside it.
use mo_driver_pc_ether_cat.Common.{◌≡◌, Bool, true, false, ◌⊎◌, arith, if◌then◌else◌}
use mo_driver_pc_ether_cat.Soem.{Soem}
use mo_driver_pc_ether_cat.Axis.{Floats}
use mo_driver_pc_ether_cat.Controller.States.{ControllerState, MasterAction, is_allowed}
use mo_driver_pc_ether_cat.Controller.{do_pdo_configure, do_prepare_run, dispatch}
use mo_driver_pc_ether_cat.Controller.Actions.{
  Controller, enter_fault, enter_emergency_stop, do_shutdown, do_init, do_scan,
  do_enter_maintenance, do_back_to_maintenance, do_safe_op, do_dc_configure, do_start_operation,
}

-- The state after an action, by the state before it and by whether the action succeeded. A step
-- forward that fails ends in `uninitialized` before PREOP is reached and in `fault` from there on.
unfoldable pub next : ControllerState → MasterAction → Bool → ControllerState
next ControllerState.uninitialized MasterAction.initialize_adapter true =
    ControllerState.adapter_ready
next ControllerState.adapter_ready MasterAction.scan_slaves true = ControllerState.scanned
next ControllerState.adapter_ready MasterAction.scan_slaves false = ControllerState.uninitialized
next ControllerState.scanned MasterAction.enter_maintenance true = ControllerState.maintenance
next ControllerState.scanned MasterAction.enter_maintenance false = ControllerState.uninitialized
next ControllerState.maintenance MasterAction.prepare_run true = ControllerState.ready_to_run
next ControllerState.maintenance MasterAction.prepare_run false = ControllerState.fault
next ControllerState.ready_to_run MasterAction.start_operation true = ControllerState.operational
next ControllerState.ready_to_run MasterAction.start_operation false = ControllerState.fault
next ControllerState.ready_to_run MasterAction.back_to_maintenance true =
    ControllerState.maintenance
next ControllerState.ready_to_run MasterAction.back_to_maintenance false = ControllerState.fault
next ControllerState.operational MasterAction.back_to_maintenance true = ControllerState.maintenance
next ControllerState.operational MasterAction.back_to_maintenance false = ControllerState.fault
next s MasterAction.stop true = ControllerState.uninitialized
next s MasterAction.request_fault true = ControllerState.fault
next s MasterAction.request_emergency_stop true = ControllerState.emergency_stop
next s a ok = s

module _ {B F : Type 0} ⦃soem : Soem B⦄ ⦃fl : Floats F⦄ where
  -- `r` is a step of the machine from state `s` on action `a`.
  abbrev IsStep : ControllerState → MasterAction → Bool × Controller B F → Type 0
  IsStep s a r = r.1.state ≡ next s a r.0

  do_init-IsStep :
      (c : Controller B F)
      → c.state ≡ ControllerState.uninitialized
      → IsStep c.state MasterAction.initialize_adapter (do_init c)
  unfolding do_init next
  do_init-IsStep c e = ground arith

  do_scan-IsStep :
      (c : Controller B F)
      → c.state ≡ ControllerState.adapter_ready
      → IsStep c.state MasterAction.scan_slaves (do_scan c)
  unfolding do_scan next do_shutdown
  do_scan-IsStep c e = ground arith

  do_enter_maintenance-IsStep :
      (c : Controller B F)
      → c.state ≡ ControllerState.scanned
      → IsStep c.state MasterAction.enter_maintenance (do_enter_maintenance c)
  unfolding do_enter_maintenance next do_shutdown
  do_enter_maintenance-IsStep c e = ground arith

  do_back_to_maintenance-IsStep :
      (c : Controller B F)
      → (c.state ≡ ControllerState.ready_to_run) ⊎ (c.state ≡ ControllerState.operational)
      → IsStep c.state MasterAction.back_to_maintenance (do_back_to_maintenance c)
  unfolding do_back_to_maintenance next enter_fault
  do_back_to_maintenance-IsStep c e = ground arith

  do_start_operation-IsStep :
      (c : Controller B F)
      → c.state ≡ ControllerState.ready_to_run
      → IsStep c.state MasterAction.start_operation (do_start_operation c)
  unfolding do_start_operation next enter_fault
  do_start_operation-IsStep c e = ground arith

  -- A part of the preparation keeps `maintenance` or ends in `fault`.
  abbrev pub IsPart : Bool × Controller B F → Type 0
  IsPart r = r.1.state ≡ (if r.0 then ControllerState.maintenance else ControllerState.fault)

  pub do_pdo_configure-IsPart :
      (c : Controller B F) → c.state ≡ ControllerState.maintenance → IsPart (do_pdo_configure c)
  unfolding do_pdo_configure enter_fault
  do_pdo_configure-IsPart c e = ground arith

  pub do_safe_op-IsPart :
      (c : Controller B F) → c.state ≡ ControllerState.maintenance → IsPart (do_safe_op c)
  unfolding do_safe_op enter_fault
  do_safe_op-IsPart c e = ground arith

  pub do_dc_configure-IsPart :
      (c : Controller B F) → c.state ≡ ControllerState.maintenance → IsPart (do_dc_configure c)
  unfolding do_dc_configure enter_fault
  do_dc_configure-IsPart c e = ground arith

  do_prepare_run-IsStep :
      (c : Controller B F)
      → c.state ≡ ControllerState.maintenance
      → IsStep c.state MasterAction.prepare_run (do_prepare_run c)
  unfolding do_prepare_run next
  do_prepare_run-IsStep c e =
      let r1 = do_pdo_configure c in
      let r2 = do_safe_op r1.1 in
      ground
        (arith, do_pdo_configure-IsPart c e, do_safe_op-IsPart r1.1, do_dc_configure-IsPart r2.1)

  -- Every action, in every state and on every branch, makes the step of the documented machine:
  -- the state after it is `next` of the state before, the action, and the reported success.
  pub dispatch-next :
      (a : MasterAction) (c : Controller B F)
      → (dispatch a c).1.state ≡ next c.state a (dispatch a c).0
  unfolding dispatch is_allowed next
  dispatch-next MasterAction.initialize_adapter c = ground (arith, do_init-IsStep c)
  dispatch-next MasterAction.scan_slaves c = ground (arith, do_scan-IsStep c)
  dispatch-next MasterAction.enter_maintenance c = ground (arith, do_enter_maintenance-IsStep c)
  dispatch-next MasterAction.prepare_run c = ground (arith, do_prepare_run-IsStep c)
  dispatch-next MasterAction.start_operation c = ground (arith, do_start_operation-IsStep c)
  dispatch-next MasterAction.back_to_maintenance c = ground (arith, do_back_to_maintenance-IsStep c)
  dispatch-next MasterAction.stop c = unfold do_shutdown in ground arith
  dispatch-next MasterAction.request_fault c = unfold enter_fault in ground arith
  dispatch-next MasterAction.request_emergency_stop c = unfold enter_emergency_stop in ground arith
