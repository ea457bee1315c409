-- ===== src/Api/Reports.antt =====
-- What a call of Service of src/core/mo_ecat_master.cpp changes and reports.
use mo_driver_pc_ether_cat.Common.{ℕ, ◌≡◌, sym, subst, if_rule, ◌⊎◌, true, none, ◌∷◌, arith}
use mo_driver_pc_ether_cat.Types.{MasterState}
use mo_driver_pc_ether_cat.Runtime.{
  is_valid_runtime_state, should_check_pre_op_slaves, can_run_process_data,
}
use mo_driver_pc_ether_cat.Soem.{Soem}
use mo_driver_pc_ether_cat.Axis.{Floats}
use mo_driver_pc_ether_cat.Controller.States.{ControllerState}
use mo_driver_pc_ether_cat.Controller.Invariant.{IsWellFormed}
use mo_driver_pc_ether_cat.Engine
use mo_driver_pc_ether_cat.Engine.Watch.{
  run_once-IsWellFormed, check_slave_states-IsWellFormed, run_once-state, check_slave_states-state,
}
use mo_driver_pc_ether_cat.Api.{
  Impl, state_changed, runtime_state_changed, get_state, to_master_state, to_master_runtime_state,
  current_runtime_state, notify_runtime_state_changed,
}
use mo_driver_pc_ether_cat.Api.Service.{service, work, watch}

module _ {B F : Type 0} ⦃soem : Soem B⦄ ⦃fl : Floats F⦄ where
  pub work-state :
      (cycle_time check_time : ℕ) (i : Impl B F)
      → ((work cycle_time check_time i).controller.state ≡ i.controller.state)
        ⊎ ((work cycle_time check_time i).controller.state ≡ ControllerState.fault)
  unfolding work watch
  work-state cycle_time check_time i =
      let ran = Engine.run_once cycle_time i.controller in
      ground (
        arith,
        check_slave_states-state check_time i.last_state_check_time i.controller,
        check_slave_states-state check_time i.last_state_check_time ran,
        run_once-state cycle_time i.controller,
      )

  work-rest :
      (cycle_time check_time : ℕ) (i : Impl B F)
      → ((work cycle_time check_time i).trace ≡ i.trace)
        × ((work cycle_time check_time i).runtime_state_override ≡ i.runtime_state_override)
        × ((work cycle_time check_time i).on_state_changed ≡ i.on_state_changed)
        × ((work cycle_time check_time i).on_runtime_state_changed ≡ i.on_runtime_state_changed)
  unfolding work watch
  work-rest cycle_time check_time i = ground arith

  work-IsWellFormed :
      (cycle_time check_time : ℕ) (i : Impl B F)
      → IsWellFormed i.controller
      → IsWellFormed (work cycle_time check_time i).controller
  unfolding work watch
  work-IsWellFormed cycle_time check_time i w =
      let ran = Engine.run_once cycle_time i.controller in
      let wr = run_once-IsWellFormed cycle_time i.controller w in
      if_rule (λ (r : Impl B F). IsWellFormed r.controller)
        (should_check_pre_op_slaves (current_runtime_state i))
        (check_slave_states-IsWellFormed check_time i.last_state_check_time i.controller w)
        (if_rule (λ (r : Impl B F). IsWellFormed r.controller)
          (can_run_process_data (current_runtime_state i))
          (check_slave_states-IsWellFormed check_time i.last_state_check_time ran wr) w)

  pub service-controller :
      (cycle_time check_time : ℕ) (i : Impl B F)
      → (service cycle_time check_time i).controller ≡ (work cycle_time check_time i).controller
  unfolding service notify_runtime_state_changed
  service-controller cycle_time check_time i = ground arith

  -- A call of Service keeps a well-formed controller well-formed, in whatever state it is called.
  pub service-IsWellFormed :
      (cycle_time check_time : ℕ) (i : Impl B F)
      → IsWellFormed i.controller
      → IsWellFormed (service cycle_time check_time i).controller
  service-IsWellFormed cycle_time check_time i w =
      subst IsWellFormed (sym (service-controller cycle_time check_time i))
        (work-IsWellFormed cycle_time check_time i w)

  -- With both callbacks set and no transition under way, a call of Service either keeps the state
  -- and says nothing, or it has put the master into the fault state and says so once on each
  -- callback.
  pub service-reports :
      (cycle_time check_time : ℕ) (i : Impl B F)
      → i.runtime_state_override ≡ none
      → i.on_state_changed ≡ true
      → i.on_runtime_state_changed ≡ true
      → (((service cycle_time check_time i).controller.state ≡ i.controller.state)
          × ((service cycle_time check_time i).trace ≡ i.trace))
        ⊎ (((service cycle_time check_time i).controller.state ≡ ControllerState.fault)
            × ((service cycle_time check_time i).trace
                ≡ runtime_state_changed (to_master_runtime_state ControllerState.fault)
                  ∷ state_changed (get_state i) MasterState.fault
                  ∷ i.trace))
  unfolding service notify_runtime_state_changed current_runtime_state is_valid_runtime_state
      to_master_runtime_state to_master_state
  service-reports cycle_time check_time i e hs hr =
      ground (arith, work-state cycle_time check_time i, work-rest cycle_time check_time i)
