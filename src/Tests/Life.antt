-- ===== src/Tests/Life.antt =====
-- Whole lives of a controller on the simulated bus.
use mo_driver_pc_ether_cat.Engine.Axes.{HasItsAxis, after-HasItsAxis}
use mo_driver_pc_ether_cat.Common.{All, ℕ, ◌≡◌, refl, List, [], ◌∷◌, inr}
use mo_driver_pc_ether_cat.Common.Int.{ℤ}
use mo_driver_pc_ether_cat.Types.{default_config}
use mo_driver_pc_ether_cat.Master
use mo_driver_pc_ether_cat.Node.Manager
use mo_driver_pc_ether_cat.Node.Slave
use mo_driver_pc_ether_cat.Controller.{
  dispatch, initialize_adapter, scan, enter_maintenance, prepare_run, start_operation,
  do_prepare_run, do_action, do_pdo_configure,
}
use mo_driver_pc_ether_cat.Controller.Actions.{
  identities_ok, Controller, do_init, do_scan, do_enter_maintenance, do_start_operation, do_safe_op,
  do_dc_configure, do_operational, refresh_slave_infos,
}
use mo_driver_pc_ether_cat.Controller.States.{ControllerState, MasterAction, is_allowed}
use mo_driver_pc_ether_cat.Controller.Machine.{next, dispatch-next}
use mo_driver_pc_ether_cat.Controller.Invariant.{IsWellFormed, new_controller}
use mo_driver_pc_ether_cat.Controller.Requests
use mo_driver_pc_ether_cat.Engine.{run_once}
use mo_driver_pc_ether_cat.Engine.History.{
  Occurrence, request, cycle, watch, traffic, actions_of, Unstopped, after, after-IsWellFormed,
  IsHalted, after-IsHalted,
}
use mo_driver_pc_ether_cat.Engine.Milestones.{Within, path_to, after-Within}
use mo_driver_pc_ether_cat.Tests.Bus.{whole, bus, dark_port, lit_port, master_on}

abbrev idle : Controller ℕ ℤ
idle = new_controller dark_port

-- A controller in a state, on a bus that is lit.
abbrev pub at_state : ControllerState → Controller ℕ ℤ
at_state s = record idle { state = s; master = master_on lit_port }

-- Up to operation, the last occurrence first.
abbrev climb : List (Occurrence ℕ)
climb =
    cycle 5000
    ∷ request Requests.start_operation
    ∷ request Requests.prepare_run
    ∷ traffic lit_port
    ∷ request Requests.enter_maintenance
    ∷ request Requests.scan
    ∷ request (Requests.initialize_adapter default_config)
    ∷ []

dispatch-next_example :
    (dispatch MasterAction.scan_slaves (at_state ControllerState.adapter_ready)).1.state
    ≡ next ControllerState.adapter_ready MasterAction.scan_slaves
        (dispatch MasterAction.scan_slaves (at_state ControllerState.adapter_ready)).0
dispatch-next_example =
    dispatch-next MasterAction.scan_slaves (at_state ControllerState.adapter_ready)

after-IsWellFormed_example : IsWellFormed (after climb idle)
after-IsWellFormed_example = after-IsWellFormed dark_port climb

after-HasItsAxis_example : All HasItsAxis (after climb idle).nodes
after-HasItsAxis_example = after-HasItsAxis ℤ dark_port climb

after-Within_example : Within (path_to (after climb idle).state) (actions_of climb)
after-Within_example = after-Within climb idle refl

after-IsHalted_example :
    IsHalted
      (after
        (cycle 7 ∷ watch 9 1 ∷ request Requests.scan ∷ [])
        (at_state ControllerState.emergency_stop)).state
unfolding Unstopped Requests.action_of
after-IsHalted_example =
    after-IsHalted (cycle 7 ∷ watch 9 1 ∷ request Requests.scan ∷ [])
      (at_state ControllerState.emergency_stop) (inr refl) ((λ e. cc), tt)

abbrev running : Controller ℕ ℤ
running = after climb idle

-- The simulated bus lets the controller climb all the way.
climbs : running.state ≡ ControllerState.operational
unfolding after Requests.control initialize_adapter scan enter_maintenance prepare_run
    start_operation dispatch is_allowed do_action do_init do_scan do_enter_maintenance
    do_prepare_run do_start_operation Master.initialize Master.scan_slaves Master.get_slave_info
    Master.request_pre_op_state Master.request_state_with_retry Master.retry_loop Master.attempt
    Master.check_all_slaves_in_state do_pdo_configure do_safe_op do_dc_configure do_operational
    Manager.configure_all Master.configure_process_data Master.request_safe_op_state
    Master.request_operational_state Master.request_state Master.configure_dc Manager.initialize
    Slave.configure run_once refresh_slave_infos identities_ok
climbs = refl
