-- ===== src/Controller/Frame.antt =====
-- What the life cycle of src/ec_controller/ec_controller.cpp leaves alone on the port if SOEM does.
use mo_driver_pc_ether_cat.Common.{ℕ, zero, suc, ◌≡◌, refl, ap, ◌∙◌, arith}
use mo_driver_pc_ether_cat.Soem.{Port, Soem, state_pre_op, state_safe_op, state_operational}
use mo_driver_pc_ether_cat.Master
use mo_driver_pc_ether_cat.Master.{Master}
use mo_driver_pc_ether_cat.Master.Frame.{
  Unseen, initialize-unseen, close-unseen, scan_slaves-unseen, configure_process_data-unseen,
  configure_dc-unseen, request_safe_op-unseen, request_operational-unseen, request_init-unseen,
  request_pre_op-unseen, read_actual_state-unseen, read_al_status_code-unseen, check_all-unseen,
}
use mo_driver_pc_ether_cat.Axis.{Floats}
use mo_driver_pc_ether_cat.Node.Manager
use mo_driver_pc_ether_cat.Controller.{dispatch, do_action, do_pdo_configure, do_prepare_run}
use mo_driver_pc_ether_cat.Controller.States.{MasterAction}
use mo_driver_pc_ether_cat.Controller.Actions.{
  Controller, with_master, snapshot_loop, log_slave_snapshot, enter_fault, enter_emergency_stop,
  roll_back, do_shutdown, do_init, do_scan, do_enter_maintenance, return_to_pre_op,
  do_back_to_maintenance, do_safe_op, do_dc_configure, do_operational, do_start_operation,
}
use mo_driver_pc_ether_cat.Controller.Requests.{Request, control, action_of, control-dispatch}

module _ {B A : Type 0} ⦃soem : Soem B⦄ {f : Port B → A} (u : Unseen soem f) where
  snapshot_loop-unseen : (n from : ℕ) (m : Master B) → f (snapshot_loop n from m).port ≡ f m.port
  unfolding snapshot_loop
  snapshot_loop-unseen zero from m = refl
  snapshot_loop-unseen (suc n) from m =
      let m1 = (Master.read_actual_state from m).1 in
      let m2 = (Master.read_al_status_code from m1).1 in
      snapshot_loop-unseen n (suc from) m2
      ∙ read_al_status_code-unseen u from m1
      ∙ read_actual_state-unseen u from m

  module _ {F : Type 0} where
    pub enter_fault-unseen : (c : Controller B F) → f (enter_fault c).master.port ≡ f c.master.port
    unfolding enter_fault log_slave_snapshot
    enter_fault-unseen c = snapshot_loop-unseen c.master.port.slavecount 1 c.master

    enter_emergency_stop-unseen :
        (c : Controller B F) → f (enter_emergency_stop c).master.port ≡ f c.master.port
    unfolding enter_emergency_stop log_slave_snapshot
    enter_emergency_stop-unseen c = snapshot_loop-unseen c.master.port.slavecount 1 c.master

    do_shutdown-unseen : (c : Controller B F) → f (do_shutdown c).1.master.port ≡ f c.master.port
    unfolding do_shutdown roll_back
    do_shutdown-unseen c =
        let m1 = (Master.request_safe_op_state c.master).1 in
        let m2 = (Master.request_pre_op_state c.master).1 in
        let m3 = (Master.request_pre_op_state m1).1 in
        ground (
          arith,
          close-unseen u (roll_back c),
          request_safe_op-unseen u c.master,
          request_pre_op-unseen u c.master,
          request_pre_op-unseen u m1,
          request_init-unseen u c.master,
          request_init-unseen u m2,
          request_init-unseen u m3,
        )

    do_init-unseen : (c : Controller B F) → f (do_init c).1.master.port ≡ f c.master.port
    unfolding do_init
    do_init-unseen c = ground (arith, initialize-unseen u c.config c.master)

    do_scan-unseen : (c : Controller B F) → f (do_scan c).1.master.port ≡ f c.master.port
    unfolding do_scan
    do_scan-unseen c =
        let (infos, m) = Master.scan_slaves c.master in
        ground (
          arith,
          scan_slaves-unseen u c.master,
          do_shutdown-unseen (record c { master = m; slave_infos = infos }),
        )

    do_enter_maintenance-unseen :
        (c : Controller B F) → f (do_enter_maintenance c).1.master.port ≡ f c.master.port
    unfolding do_enter_maintenance Manager.initialize
    do_enter_maintenance-unseen c =
        let m1 = (Master.request_pre_op_state c.master).1 in
        let m2 = (Master.check_all_slaves_in_state state_pre_op m1).1 in
        ground (
          arith,
          request_pre_op-unseen u c.master,
          check_all-unseen u state_pre_op m1,
          do_shutdown-unseen (with_master c m1),
          do_shutdown-unseen (with_master c m2),
        )

    return_to_pre_op-unseen :
        (c : Controller B F) → f (return_to_pre_op c).1.master.port ≡ f c.master.port
    unfolding return_to_pre_op
    return_to_pre_op-unseen c =
        let m1 = (Master.request_pre_op_state c.master).1 in
        let m2 = (Master.check_all_slaves_in_state state_pre_op m1).1 in
        ground (
          arith,
          request_pre_op-unseen u c.master,
          check_all-unseen u state_pre_op m1,
          enter_fault-unseen (with_master c m1),
          enter_fault-unseen (with_master c m2),
        )

    do_back_to_maintenance-unseen :
        (c : Controller B F) → f (do_back_to_maintenance c).1.master.port ≡ f c.master.port
    unfolding do_back_to_maintenance
    do_back_to_maintenance-unseen c =
        let m1 = (Master.request_safe_op_state c.master).1 in
        ground (
          arith,
          request_safe_op-unseen u c.master,
          return_to_pre_op-unseen c,
          return_to_pre_op-unseen (with_master c m1),
        )

    do_safe_op-unseen : (c : Controller B F) → f (do_safe_op c).1.master.port ≡ f c.master.port
    unfolding do_safe_op
    do_safe_op-unseen c =
        let m1 = (Master.configure_process_data c.master).1 in
        let m2 = (Master.request_safe_op_state m1).1 in
        let m3 = (Master.check_all_slaves_in_state state_safe_op m2).1 in
        ground (
          arith,
          configure_process_data-unseen u c.master,
          request_safe_op-unseen u m1,
          check_all-unseen u state_safe_op m2,
          enter_fault-unseen (with_master c m1),
          enter_fault-unseen (with_master c m2),
          enter_fault-unseen (with_master c m3),
        )

    do_dc_configure-unseen :
        (c : Controller B F) → f (do_dc_configure c).1.master.port ≡ f c.master.port
    unfolding do_dc_configure
    do_dc_configure-unseen c =
        let m = (Master.configure_dc c.master).1 in
        ground (arith, configure_dc-unseen u c.master, enter_fault-unseen (with_master c m))

    do_start_operation-unseen :
        (c : Controller B F) → f (do_start_operation c).1.master.port ≡ f c.master.port
    unfolding do_start_operation do_operational
    do_start_operation-unseen c =
        let m1 = (Master.request_operational_state c.master).1 in
        let m2 = (Master.check_all_slaves_in_state state_operational m1).1 in
        ground (
          arith,
          request_operational-unseen u c.master,
          check_all-unseen u state_operational m1,
          enter_fault-unseen (with_master c m1),
          enter_fault-unseen (with_master c m2),
        )

    module _ ⦃fl : Floats F⦄ where
      do_pdo_configure-unseen :
          (c : Controller B F) → f (do_pdo_configure c).1.master.port ≡ f c.master.port
      unfolding do_pdo_configure
      do_pdo_configure-unseen c =
          let nodes = (Manager.configure_all c.nodes).1 in
          ground (arith, enter_fault-unseen (record c { nodes = nodes }))

      do_prepare_run-unseen :
          (c : Controller B F) → f (do_prepare_run c).1.master.port ≡ f c.master.port
      unfolding do_prepare_run
      do_prepare_run-unseen c =
          let c1 = (do_pdo_configure c).1 in
          let c2 = (do_safe_op c1).1 in
          ground (arith, do_pdo_configure-unseen c, do_safe_op-unseen c1, do_dc_configure-unseen c2)

      dispatch-unseen :
          (a : MasterAction) (c : Controller B F) → f (dispatch a c).1.master.port ≡ f c.master.port
      unfolding dispatch do_action
      dispatch-unseen MasterAction.initialize_adapter c = ground (arith, do_init-unseen c)
      dispatch-unseen MasterAction.scan_slaves c = ground (arith, do_scan-unseen c)
      dispatch-unseen MasterAction.enter_maintenance c =
          ground (arith, do_enter_maintenance-unseen c)
      dispatch-unseen MasterAction.prepare_run c = ground (arith, do_prepare_run-unseen c)
      dispatch-unseen MasterAction.start_operation c = ground (arith, do_start_operation-unseen c)
      dispatch-unseen MasterAction.back_to_maintenance c =
          ground (arith, do_back_to_maintenance-unseen c)
      dispatch-unseen MasterAction.stop c = ground (arith, do_shutdown-unseen c)
      dispatch-unseen MasterAction.request_fault c = enter_fault-unseen c
      dispatch-unseen MasterAction.request_emergency_stop c = enter_emergency_stop-unseen c

      -- No request of the life cycle changes what `f` sees of the port.
      pub control-unseen :
          (r : Request) (c : Controller B F) → f (control r c).master.port ≡ f c.master.port
      control-unseen r c =
          let (config, e) = control-dispatch r c in
          ap (λ (d : Controller B F). f d.master.port) e
          ∙ dispatch-unseen (action_of r) (record c { config = config })
