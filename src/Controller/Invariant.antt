-- ===== src/Controller/Invariant.antt =====
-- What holds of the controller of src/ec_controller/ec_controller.cpp between two actions.
use mo_driver_pc_ether_cat.Common.{ℕ, ◌≡◌, refl, Bool, true, false, [], arith}
use mo_driver_pc_ether_cat.Types.{default_config}
use mo_driver_pc_ether_cat.Soem.{Port, Soem, state_pre_op, state_safe_op, state_operational}
use mo_driver_pc_ether_cat.Master
use mo_driver_pc_ether_cat.Master.{Master}
use mo_driver_pc_ether_cat.Node.Manager
use mo_driver_pc_ether_cat.Node.All.{
  AllSound, AllConfigured, infos_of, initialize-AllSound, infos_of-initialize,
}
use mo_driver_pc_ether_cat.Controller.States.{ControllerState}
use mo_driver_pc_ether_cat.Controller.Actions.{
  Controller, with_master, refresh_slave_infos, log_slave_snapshot, enter_fault,
  enter_emergency_stop, do_shutdown, do_init, do_scan, do_enter_maintenance, return_to_pre_op,
  do_back_to_maintenance, do_safe_op, do_dc_configure, do_operational, do_start_operation,
}

-- The states in which the adapter is known to be open.
abbrev pub is_open : ControllerState → Bool
is_open ControllerState.uninitialized = false
is_open ControllerState.fault = false
is_open ControllerState.emergency_stop = false
is_open _ = true

-- The states before the slave nodes are made.
abbrev pub is_bare : ControllerState → Bool
is_bare ControllerState.uninitialized = true
is_bare ControllerState.adapter_ready = true
is_bare ControllerState.scanned = true
is_bare _ = false

-- The states in which a node stands for each slave.
abbrev pub has_nodes : ControllerState → Bool
has_nodes ControllerState.maintenance = true
has_nodes ControllerState.ready_to_run = true
has_nodes ControllerState.operational = true
has_nodes _ = false

-- The states behind PrepareRun.
abbrev pub is_prepared : ControllerState → Bool
is_prepared ControllerState.ready_to_run = true
is_prepared ControllerState.operational = true
is_prepared _ = false

-- The adapter is closed when idle and open while the life cycle runs; the nodes are there from
-- `maintenance` on, one for each slave of the last refresh, configured once the run is prepared;
-- and every node is sound.
pub record IsWellFormed {B F : Type 0} (c : Controller B F) : Type 0 where
  pub idle_closed : c.state ≡ ControllerState.uninitialized → c.master.closed ≡ true
  pub open_adapter : is_open c.state ≡ true → c.master.closed ≡ false
  pub bare : is_bare c.state ≡ true → c.nodes ≡ []
  pub matched : has_nodes c.state ≡ true → infos_of c.nodes ≡ c.slave_infos
  pub prepared : is_prepared c.state ≡ true → AllConfigured c.nodes
  pub sound : AllSound c.nodes

-- A controller that was just made: the context is zero.
abbrev pub new_controller : {B F : Type 0} → Port B → Controller B F
new_controller port = record {
  state = ControllerState.uninitialized;
  master = Master.new_master port;
  nodes = [];
  config = default_config;
  slave_infos = [];
}

pub new_controller-IsWellFormed :
    {B F : Type 0} (port : Port B) → IsWellFormed (new_controller {B = B} {F = F} port)
new_controller-IsWellFormed port = record {
  idle_closed = λ _. refl;
  open_adapter = λ e. cc;
  bare = λ _. refl;
  matched = λ e. cc;
  prepared = λ e. cc;
  sound = tt;
}

-- The requests leave the adapter as open as it was.
module _ {B : Type 0} ⦃soem : Soem B⦄ (m : Master B) where
  request_pre_op-closed : (Master.request_pre_op_state m).1.closed ≡ m.closed
  unfolding Master.request_pre_op_state Master.request_state_with_retry
  request_pre_op-closed = refl

  request_safe_op-closed : (Master.request_safe_op_state m).1.closed ≡ m.closed
  unfolding Master.request_safe_op_state
  request_safe_op-closed = refl

  request_operational-closed : (Master.request_operational_state m).1.closed ≡ m.closed
  unfolding Master.request_operational_state
  request_operational-closed = refl

  configure_process_data-closed : (Master.configure_process_data m).1.closed ≡ m.closed
  unfolding Master.configure_process_data
  configure_process_data-closed = ground arith

check_all-closed :
    {B : Type 0} ⦃soem : Soem B⦄ (state : ℕ) (m : Master B)
    → (Master.check_all_slaves_in_state state m).1.closed ≡ m.closed
unfolding Master.check_all_slaves_in_state
check_all-closed state m = refl

module _ {B F : Type 0} ⦃soem : Soem B⦄ where
  pub do_shutdown-IsWellFormed : (c : Controller B F) → IsWellFormed (do_shutdown c).1
  unfolding do_shutdown Master.close
  do_shutdown-IsWellFormed c = ground arith

  -- A record of the controller that differs in the master and is in `fault`.
  pub enter_fault-IsWellFormed :
      (c : Controller B F) → AllSound c.nodes → IsWellFormed (enter_fault c)
  unfolding enter_fault log_slave_snapshot
  enter_fault-IsWellFormed c s = ground arith

  pub enter_emergency_stop-IsWellFormed :
      (c : Controller B F) → AllSound c.nodes → IsWellFormed (enter_emergency_stop c)
  unfolding enter_emergency_stop log_slave_snapshot
  enter_emergency_stop-IsWellFormed c s = ground arith

  pub do_init-IsWellFormed : (c : Controller B F) → IsWellFormed c → IsWellFormed (do_init c).1
  unfolding do_init Master.initialize
  do_init-IsWellFormed c w = ground arith

  pub do_scan-IsWellFormed : (c : Controller B F) → IsWellFormed c → IsWellFormed (do_scan c).1
  unfolding do_scan Master.scan_slaves
  do_scan-IsWellFormed c w =
      let (infos, m) = Master.scan_slaves c.master in
      ground (arith, do_shutdown-IsWellFormed (record c { master = m; slave_infos = infos }))

  pub do_enter_maintenance-IsWellFormed :
      (c : Controller B F) → IsWellFormed c → IsWellFormed (do_enter_maintenance c).1
  unfolding do_enter_maintenance Manager.initialize
  do_enter_maintenance-IsWellFormed c w =
      let m1 = (Master.request_pre_op_state c.master).1 in
      let m2 = (Master.check_all_slaves_in_state state_pre_op m1).1 in
      let c1 : Controller B F = record c { state = ControllerState.maintenance; master = m2 } in
      let infos = refresh_slave_infos c1 in
      ground (
        arith,
        do_shutdown-IsWellFormed (with_master c m1),
        do_shutdown-IsWellFormed (with_master c m2),
        request_pre_op-closed c.master,
        check_all-closed state_pre_op m1,
        infos_of-initialize infos c.nodes,
        initialize-AllSound infos c.nodes,
      )

  return_to_pre_op-IsWellFormed :
      (c : Controller B F)
      → has_nodes c.state ≡ true
      → IsWellFormed c
      → IsWellFormed (return_to_pre_op c).1
  unfolding return_to_pre_op
  return_to_pre_op-IsWellFormed c h w =
      let m1 = (Master.request_pre_op_state c.master).1 in
      let m2 = (Master.check_all_slaves_in_state state_pre_op m1).1 in
      ground (
        arith,
        enter_fault-IsWellFormed (with_master c m1),
        enter_fault-IsWellFormed (with_master c m2),
        request_pre_op-closed c.master,
        check_all-closed state_pre_op m1,
      )

  pub do_back_to_maintenance-IsWellFormed :
      (c : Controller B F) → IsWellFormed c → IsWellFormed (do_back_to_maintenance c).1
  unfolding do_back_to_maintenance
  do_back_to_maintenance-IsWellFormed c w =
      let m1 = (Master.request_safe_op_state c.master).1 in
      let c1 : Controller B F = with_master c m1 in
      ground (
        arith,
        return_to_pre_op-IsWellFormed c,
        return_to_pre_op-IsWellFormed c1,
        request_safe_op-closed c.master,
      )

  pub do_safe_op-IsWellFormed :
      (c : Controller B F) → IsWellFormed c → IsWellFormed (do_safe_op c).1
  unfolding do_safe_op
  do_safe_op-IsWellFormed c w =
      let m1 = (Master.configure_process_data c.master).1 in
      let m2 = (Master.request_safe_op_state m1).1 in
      let m3 = (Master.check_all_slaves_in_state state_safe_op m2).1 in
      ground (
        arith,
        enter_fault-IsWellFormed (with_master c m1),
        enter_fault-IsWellFormed (with_master c m2),
        enter_fault-IsWellFormed (with_master c m3),
        configure_process_data-closed c.master,
        request_safe_op-closed m1,
        check_all-closed state_safe_op m2,
      )

  pub do_dc_configure-IsWellFormed :
      (c : Controller B F) → IsWellFormed c → IsWellFormed (do_dc_configure c).1
  unfolding do_dc_configure Master.configure_dc
  do_dc_configure-IsWellFormed c w =
      ground (arith, enter_fault-IsWellFormed (with_master c (Master.configure_dc c.master).1))

  do_operational-IsWellFormed :
      (c : Controller B F) → IsWellFormed c → IsWellFormed (do_operational c).1
  unfolding do_operational
  do_operational-IsWellFormed c w =
      let m1 = (Master.request_operational_state c.master).1 in
      let m2 = (Master.check_all_slaves_in_state state_operational m1).1 in
      ground (
        arith,
        enter_fault-IsWellFormed (with_master c m1),
        enter_fault-IsWellFormed (with_master c m2),
        request_operational-closed c.master,
        check_all-closed state_operational m1,
      )

  pub do_start_operation-IsWellFormed :
      (c : Controller B F) → IsWellFormed c → IsWellFormed (do_start_operation c).1
  unfolding do_start_operation
  do_start_operation-IsWellFormed c w = ground (arith, do_operational-IsWellFormed c w)
