-- ===== src/Api/Feedback.antt =====
-- Service of src/core/mo_ecat_master.cpp in operation, from the commands of an axis to its feedback.
use mo_driver_pc_ether_cat.Common.{length, ℕ, ◌≡◌, ap, ◌∙◌, none, some, map, arith, get_elem?}
use mo_driver_pc_ether_cat.Soem.{Soem}
use mo_driver_pc_ether_cat.Axis.{Floats, ServoAxis}
use mo_driver_pc_ether_cat.Runtime.{
  should_check_pre_op_slaves, can_run_maintenance_activity, can_run_process_data,
  is_valid_runtime_state,
}
use mo_driver_pc_ether_cat.Node.Slave.{SlaveNode}
use mo_driver_pc_ether_cat.Node.Profile.{Profile}
use mo_driver_pc_ether_cat.Node.Image.{AllApart}
use mo_driver_pc_ether_cat.Node.Exchange.{share}
use mo_driver_pc_ether_cat.Node.Answer.{IsDrive}
use mo_driver_pc_ether_cat.Node.Layout.{CommandsFit, answered}
use mo_driver_pc_ether_cat.Controller.{request_fault, dispatch}
use mo_driver_pc_ether_cat.Controller.States.{ControllerState}
use mo_driver_pc_ether_cat.Controller.Actions.{Controller, enter_fault, log_slave_snapshot}
use mo_driver_pc_ether_cat.Controller.Invariant.{IsWellFormed}
use mo_driver_pc_ether_cat.Engine.{run_once, demand, check_slave_states}
use mo_driver_pc_ether_cat.Engine.Exchange.{Mirrors, loaded, run_once-answered}
use mo_driver_pc_ether_cat.Api.{
  Impl, current_runtime_state, to_master_runtime_state, notify_runtime_state_changed,
}
use mo_driver_pc_ether_cat.Api.Service.{service, work, watch}

module _ {B F : Type 0} ⦃soem : Soem B⦄ ⦃fl : Floats F⦄ where
  -- The watch does not touch the nodes, also where it goes to the fault.
  check_slave_states-nodes :
      (now last : ℕ) (c : Controller B F) → (check_slave_states now last c).1.nodes ≡ c.nodes
  unfolding check_slave_states demand request_fault dispatch enter_fault log_slave_snapshot
  check_slave_states-nodes now last c = ground arith

  service-nodes :
      (cycle_time check_time : ℕ) (i : Impl B F)
      → i.controller.state ≡ ControllerState.operational
      → i.runtime_state_override ≡ none
      → (service cycle_time check_time i).controller.nodes
        ≡ (run_once cycle_time i.controller).nodes
  unfolding service work watch current_runtime_state to_master_runtime_state
      notify_runtime_state_changed should_check_pre_op_slaves can_run_maintenance_activity
      can_run_process_data is_valid_runtime_state
  service-nodes cycle_time check_time i o n = ground (
    arith,
    check_slave_states-nodes check_time i.last_state_check_time (run_once cycle_time i.controller),
  )

  -- With outputs that nowhere overlap, one Service in operation closes the loop of every drive that
  -- returns its outputs as its inputs, in buffers of one length and under a mapping that has the
  -- three outputs and inputs of a servo at the same places and apart: its node ends with the
  -- commands of its axis, converted to raw values and back, as its feedback, if the raw values fit
  -- their fields, and also when the watch finds a slave out of OPERATIONAL in the same call.
  pub service-answered :
      (cycle_time check_time k base : ℕ) (i : Impl B F) (n : SlaveNode F) (a : ServoAxis F)
      → i.controller.state ≡ ControllerState.operational
      → i.runtime_state_override ≡ none
      → IsWellFormed i.controller
      → AllApart (map (share i.controller.master.port.slavelist) i.controller.nodes)
      → get_elem? i.controller.nodes k ≡ some n
      → IsDrive a n
      → CommandsFit a
      → Mirrors (loaded i.controller).port n.info.slave_id base (length n.output_buffer)
      → (n' : SlaveNode F) × (get_elem? (service cycle_time check_time i).controller.nodes k
          ≡ some n')
        × (n'.profile ≡ some (Profile.servo (answered a)))
  service-answered cycle_time check_time k base i n a o v w h e d f m =
      let (n', found, profile) =
        run_once-answered cycle_time k base i.controller n a o w h e d f m in
      (n', ap (λ ns. get_elem? ns k) (service-nodes cycle_time check_time i o v) ∙ found, profile)
