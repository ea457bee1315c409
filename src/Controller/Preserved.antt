-- ===== src/Controller/Preserved.antt =====
-- The invariant of src/ec_controller/ec_controller.cpp over its actions and its public methods.
use mo_driver_pc_ether_cat.Common.{◌≡◌, arith}
use mo_driver_pc_ether_cat.Soem.{Soem}
use mo_driver_pc_ether_cat.Axis.{Floats}
use mo_driver_pc_ether_cat.Node.Manager
use mo_driver_pc_ether_cat.Node.All.{AllConfigured, configure_all_succeeds, configure_all-AllSound}
use mo_driver_pc_ether_cat.Controller.States.{ControllerState, MasterAction}
use mo_driver_pc_ether_cat.Controller.{do_pdo_configure, do_prepare_run, dispatch}
use mo_driver_pc_ether_cat.Controller.Actions.{
  Controller, do_safe_op, do_dc_configure, enter_fault, log_slave_snapshot,
}
use mo_driver_pc_ether_cat.Controller.Invariant.{
  IsWellFormed, do_shutdown-IsWellFormed, enter_fault-IsWellFormed,
  enter_emergency_stop-IsWellFormed, do_init-IsWellFormed, do_scan-IsWellFormed,
  do_enter_maintenance-IsWellFormed, do_back_to_maintenance-IsWellFormed, do_safe_op-IsWellFormed,
  do_dc_configure-IsWellFormed, do_start_operation-IsWellFormed,
}
use mo_driver_pc_ether_cat.Controller.Machine.{
  do_pdo_configure-IsPart, do_safe_op-IsPart, do_dc_configure-IsPart,
}

module _ {B F : Type 0} ⦃soem : Soem B⦄ ⦃fl : Floats F⦄ where
  do_pdo_configure-IsWellFormed :
      (c : Controller B F) → IsWellFormed c → IsWellFormed (do_pdo_configure c).1
  unfolding do_pdo_configure
  do_pdo_configure-IsWellFormed c w =
      let ns = (Manager.configure_all c.nodes).1 in
      let c' : Controller B F = record c { nodes = ns } in
      ground (arith, configure_all_succeeds c.nodes, configure_all-AllSound c.nodes)

  -- After the configuration the later parts keep the nodes as they are.
  configured_by :
      (c : Controller B F)
      → c.state ≡ ControllerState.maintenance
      → AllConfigured (do_pdo_configure c).1.nodes
  unfolding do_pdo_configure
  configured_by c e = ground (arith, configure_all_succeeds c.nodes)

  do_safe_op-nodes : (c : Controller B F) → (do_safe_op c).1.nodes ≡ c.nodes
  unfolding do_safe_op enter_fault log_slave_snapshot
  do_safe_op-nodes c = ground arith

  do_dc_configure-nodes : (c : Controller B F) → (do_dc_configure c).1.nodes ≡ c.nodes
  unfolding do_dc_configure enter_fault log_slave_snapshot
  do_dc_configure-nodes c = ground arith

  made_ready :
      (c : Controller B F)
      → c.state ≡ ControllerState.maintenance
      → AllConfigured c.nodes
      → IsWellFormed c
      → IsWellFormed (record c { state = ControllerState.ready_to_run })
  made_ready c e k w = ground arith

  do_prepare_run-IsWellFormed :
      (c : Controller B F) → IsWellFormed c → IsWellFormed (do_prepare_run c).1
  unfolding do_prepare_run
  do_prepare_run-IsWellFormed c w =
      let c1 = (do_pdo_configure c).1 in
      let c2 = (do_safe_op c1).1 in
      let c3 = (do_dc_configure c2).1 in
      let w1 = do_pdo_configure-IsWellFormed c w in
      let w2 = do_safe_op-IsWellFormed c1 w1 in
      let w3 = do_dc_configure-IsWellFormed c2 w2 in
      ground (
        arith,
        do_pdo_configure-IsPart c,
        do_safe_op-IsPart c1,
        do_dc_configure-IsPart c2,
        configured_by c,
        do_safe_op-nodes c1,
        do_dc_configure-nodes c2,
        made_ready c3,
      )

  pub dispatch-IsWellFormed :
      (a : MasterAction) (c : Controller B F) → IsWellFormed c → IsWellFormed (dispatch a c).1
  unfolding dispatch
  dispatch-IsWellFormed MasterAction.initialize_adapter c w =
      ground (arith, do_init-IsWellFormed c w)
  dispatch-IsWellFormed MasterAction.scan_slaves c w = ground (arith, do_scan-IsWellFormed c w)
  dispatch-IsWellFormed MasterAction.enter_maintenance c w =
      ground (arith, do_enter_maintenance-IsWellFormed c w)
  dispatch-IsWellFormed MasterAction.prepare_run c w =
      ground (arith, do_prepare_run-IsWellFormed c w)
  dispatch-IsWellFormed MasterAction.start_operation c w =
      ground (arith, do_start_operation-IsWellFormed c w)
  dispatch-IsWellFormed MasterAction.back_to_maintenance c w =
      ground (arith, do_back_to_maintenance-IsWellFormed c w)
  dispatch-IsWellFormed MasterAction.stop c w = ground (arith, do_shutdown-IsWellFormed c)
  dispatch-IsWellFormed MasterAction.request_fault c w = enter_fault-IsWellFormed c w.sound
  dispatch-IsWellFormed MasterAction.request_emergency_stop c w =
      enter_emergency_stop-IsWellFormed c w.sound
