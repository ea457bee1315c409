-- ===== src/Controller.antt =====
-- src/ec_controller/ec_controller.{h,cpp}: the life cycle of the master. Log lines are left out,
-- but the reads of the bus that LogSlaveSnapshot makes for its lines are there.
pub mod States
pub mod Actions
pub mod Machine
pub mod Wrappers
pub mod Invariant
pub mod Preserved
pub mod Stopping
pub mod Shutdown
pub mod Topology
pub mod Requests
pub mod Report
pub mod Queries
pub mod Reached
pub mod Frame
use mo_driver_pc_ether_cat.Common.{Bool, true, false, ◌||◌, if◌then◌else◌}
use mo_driver_pc_ether_cat.Types.{EcMasterConfig}
use mo_driver_pc_ether_cat.Soem.{Soem}
use mo_driver_pc_ether_cat.Axis.{Floats}
use mo_driver_pc_ether_cat.Master
use mo_driver_pc_ether_cat.Node.Manager
use States.{ControllerState, MasterAction, is_allowed}
use Actions.{
  with_master, Controller, do_back_to_maintenance, do_dc_configure, do_enter_maintenance, do_init,
  do_safe_op, do_scan, do_shutdown, do_start_operation, enter_emergency_stop, enter_fault, in_state,
}

module _ {B F : Type 0} ⦃soem : Soem B⦄ ⦃fl : Floats F⦄ where
  unfoldable pub do_pdo_configure : Controller B F → Bool × Controller B F
  do_pdo_configure c =
      if in_state c ControllerState.maintenance
      then (let (ok, nodes) = Manager.configure_all c.nodes in
          let c' : Controller B F = record c { nodes = nodes } in
          if ok then (true, c') else (false, enter_fault c'))
      else (false, c)

  unfoldable pub do_prepare_run : Controller B F → Bool × Controller B F
  do_prepare_run c =
      if in_state c ControllerState.maintenance
      then (let (configured, c1) = do_pdo_configure c in
          if configured
          then (let (safe, c2) = do_safe_op c1 in
              if safe
              then (let (clocked, c3) = do_dc_configure c2 in
                  if clocked
                  then (true, record c3 { state = ControllerState.ready_to_run })
                  else (false, c3))
              else (false, c2))
          else (false, c1))
      else (false, c)

  -- DoAction; the last two actions do not reach it and fall under `default`.
  unfoldable pub do_action : MasterAction → Controller B F → Bool × Controller B F
  do_action MasterAction.initialize_adapter c = do_init c
  do_action MasterAction.scan_slaves c = do_scan c
  do_action MasterAction.enter_maintenance c = do_enter_maintenance c
  do_action MasterAction.prepare_run c = do_prepare_run c
  do_action MasterAction.start_operation c = do_start_operation c
  do_action MasterAction.back_to_maintenance c = do_back_to_maintenance c
  do_action MasterAction.stop c = do_shutdown c
  do_action MasterAction.request_fault c = (false, c)
  do_action MasterAction.request_emergency_stop c = (false, c)

  unfoldable pub dispatch : MasterAction → Controller B F → Bool × Controller B F
  unfolding do_action
  dispatch MasterAction.request_emergency_stop c = (true, enter_emergency_stop c)
  dispatch MasterAction.request_fault c = (true, enter_fault c)
  dispatch a c = if is_allowed c.state a then do_action a c else (false, c)

  unfoldable pub request_fault : Controller B F → Controller B F
  request_fault c = (dispatch MasterAction.request_fault c).1

  unfoldable pub request_emergency_stop : Controller B F → Controller B F
  request_emergency_stop c = (dispatch MasterAction.request_emergency_stop c).1

  unfoldable pub initialize_adapter : EcMasterConfig → Controller B F → Bool × Controller B F
  initialize_adapter config c =
      if in_state c ControllerState.uninitialized
      then dispatch MasterAction.initialize_adapter (record c { config = config })
      else (false, c)

  unfoldable pub scan : Controller B F → Bool × Controller B F
  scan c =
      if in_state c ControllerState.adapter_ready
      then dispatch MasterAction.scan_slaves c
      else (false, c)

  unfoldable pub enter_maintenance : Controller B F → Bool × Controller B F
  enter_maintenance c =
      if in_state c ControllerState.scanned
      then dispatch MasterAction.enter_maintenance c
      else (false, c)

  unfoldable pub prepare_run : Controller B F → Bool × Controller B F
  prepare_run c =
      if in_state c ControllerState.maintenance
      then dispatch MasterAction.prepare_run c
      else (false, c)

  unfoldable pub start_operation : Controller B F → Bool × Controller B F
  start_operation c =
      if in_state c ControllerState.ready_to_run
      then dispatch MasterAction.start_operation c
      else (false, c)

  unfoldable pub back_to_maintenance : Controller B F → Bool × Controller B F
  back_to_maintenance c =
      if in_state c ControllerState.ready_to_run || in_state c ControllerState.operational
      then dispatch MasterAction.back_to_maintenance c
      else (false, c)

  unfoldable pub stop : Controller B F → Controller B F
  stop c = if in_state c ControllerState.uninitialized then c else (dispatch MasterAction.stop c).1

  -- The destructor, and that of the master in it.
  unfoldable pub destroy : Controller B F → Controller B F
  unfolding stop Master.destroy
  destroy c = let stopped = stop c in with_master stopped (Master.destroy stopped.master)

  -- The three steps in one call.
  unfoldable pub initialize : EcMasterConfig → Controller B F → Bool × Controller B F
  initialize config c =
      if in_state c ControllerState.uninitialized
      then (let (ready, c1) = initialize_adapter config c in
          if ready
          then (let (scanned, c2) = scan c1 in
              if scanned then enter_maintenance c2 else (false, c2))
          else (false, c1))
      else (false, c)
