-- ===== src/Engine.antt =====
-- src/cyclic/process_data_engine.{h,cpp}: the cyclic exchange and the watch over the slaves. The
-- engine keeps only the time of its last check; it works on the controller it was given.
pub mod Watch
pub mod History
pub mod Milestones
pub mod Exchange
pub mod Axes
pub mod Payload
use mo_driver_pc_ether_cat.Common.{ℕ, ◌+◌, ltb, if◌then◌else◌}
use mo_driver_pc_ether_cat.Soem.{Soem, state_pre_op, state_operational}
use mo_driver_pc_ether_cat.Master
use mo_driver_pc_ether_cat.Master.{Master}
use mo_driver_pc_ether_cat.Axis.{Floats}
use mo_driver_pc_ether_cat.Node.Manager
use mo_driver_pc_ether_cat.Controller.States.{ControllerState}
use mo_driver_pc_ether_cat.Controller.{request_fault}
use mo_driver_pc_ether_cat.Controller.Actions.{Controller, is_operational, with_master}

-- kStateCheckInterval, in nanoseconds
abbrev pub state_check_interval : ℕ
state_check_interval = 500000000

module _ {B F : Type 0} ⦃soem : Soem B⦄ ⦃fl : Floats F⦄ where
  -- RunOnce at time `now`.
  unfoldable pub run_once : ℕ → Controller B F → Controller B F
  run_once now c =
      if is_operational c
      then (let (sent, m1) = Manager.update_all_outputs c.nodes c.master in
          let m2 = Master.run_one_cycle now m1 in
          record c { master = m2; nodes = Manager.update_all_inputs sent m2 })
      else c

  -- One case of the switch: the check, and the fault if it fails.
  unfoldable pub demand : ℕ → Controller B F → Controller B F
  demand state c =
      let (reached, m) = Master.check_all_slaves_in_state state c.master in
      if reached then with_master c m else request_fault (with_master c m)

  -- CheckSlaveStates at time `now`, with the time of the last check.
  unfoldable pub check_slave_states : (now last : ℕ) → Controller B F → ℕ × Controller B F
  unfolding demand
  check_slave_states now last c = if ltb now (last + state_check_interval) then (last, c) else (
    now,
    (elim c.state [
      | ControllerState.maintenance ↦ demand state_pre_op c
      | ControllerState.operational ↦ demand state_operational c
      | _ ↦ c
    ]),
  )
