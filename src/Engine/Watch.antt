-- ===== src/Engine/Watch.antt =====
-- What the engine of src/cyclic/process_data_engine.cpp does to the controller.
use mo_driver_pc_ether_cat.Common.{
  ℕ, ◌+◌, ◌≤◌, ◌<◌, ◌≡◌, refl, ◌≢◌, Option, none, some, ◌⊎◌, inl, inr, arith, [], ◌∷◌, Bool-cases,
  if◌then◌else◌,
}
use mo_driver_pc_ether_cat.Soem.{Soem, state_pre_op, state_operational}
use mo_driver_pc_ether_cat.Master
use mo_driver_pc_ether_cat.Master.{Master}
use mo_driver_pc_ether_cat.Master.Check.{AllIn, AllIn-cases, check_all_slaves_in_state_iff}
use mo_driver_pc_ether_cat.Axis.{Floats}
use mo_driver_pc_ether_cat.Node.Manager
use mo_driver_pc_ether_cat.Node.Slave
use mo_driver_pc_ether_cat.Node.All.{
  update_all_outputs-AllSound, update_all_inputs-AllSound, update_all_outputs-kept,
  update_all_inputs-kept,
}
use mo_driver_pc_ether_cat.Controller.States.{ControllerState}
use mo_driver_pc_ether_cat.Controller.{request_fault, dispatch}
use mo_driver_pc_ether_cat.Controller.Actions.{Controller, enter_fault, with_master}
use mo_driver_pc_ether_cat.Controller.Invariant.{IsWellFormed, enter_fault-IsWellFormed}
use mo_driver_pc_ether_cat.Engine.{run_once, check_slave_states, demand, state_check_interval}

-- What the watch asks of the bus in a state; `none` where it asks nothing.
abbrev pub watched : ControllerState → Option ℕ
watched ControllerState.maintenance = some state_pre_op
watched ControllerState.operational = some state_operational
watched _ = none

module _ {B F : Type 0} ⦃soem : Soem B⦄ ⦃fl : Floats F⦄ where
  update_all_outputs-closed :
      (ns : Manager.Nodes F) (m : Master B) → (Manager.update_all_outputs ns m).1.closed ≡ m.closed
  unfolding Manager.update_all_outputs Slave.update_pdo_output Master.write_output
  update_all_outputs-closed [] m = refl
  update_all_outputs-closed (n ∷ ns) m =
      let m' = (if n.configured then Slave.update_pdo_output n m else (n, m)).1 in
      ground (arith, update_all_outputs-closed ns m')

  -- A cycle leaves a well-formed controller well-formed: no buffer of a node changes its size, and
  -- no node loses its slave or its configuration.
  pub run_once-IsWellFormed :
      (now : ℕ) (c : Controller B F) → IsWellFormed c → IsWellFormed (run_once now c)
  unfolding run_once Master.run_one_cycle
  run_once-IsWellFormed now c w =
      let (ns, m) = Manager.update_all_outputs c.nodes c.master in
      let m2 = Master.run_one_cycle now m in
      ground (
        arith,
        update_all_outputs-closed c.nodes c.master,
        update_all_outputs-AllSound c.nodes c.master,
        update_all_outputs-kept c.nodes c.master,
        update_all_inputs-AllSound ns m2,
        update_all_inputs-kept ns m2,
      )

  demand-IsWellFormed :
      (state : ℕ) (c : Controller B F) → IsWellFormed c → IsWellFormed (demand state c)
  unfolding demand Master.check_all_slaves_in_state request_fault dispatch
  demand-IsWellFormed state c w =
      let m = (Master.check_all_slaves_in_state state c.master).1 in
      ground (arith, enter_fault-IsWellFormed (with_master c m))

  pub check_slave_states-IsWellFormed :
      (now last : ℕ) (c : Controller B F)
      → IsWellFormed c
      → IsWellFormed (check_slave_states now last c).1
  unfolding check_slave_states
  check_slave_states-IsWellFormed now last c w =
      ground (arith, demand-IsWellFormed state_pre_op c, demand-IsWellFormed state_operational c)

  demand-kept :
      (state : ℕ) (c : Controller B F)
      → AllIn state (soem.ecx_readstate c.master.port)
      → (demand state c).state ≡ c.state
  unfolding demand Master.check_all_slaves_in_state
  demand-kept state c a =
      let ok = (check_all_slaves_in_state_iff state c.master).1.1 a in ground (arith, ok)

  demand-fault :
      (state : ℕ) (c : Controller B F)
      → ¬ AllIn state (soem.ecx_readstate c.master.port)
      → (demand state c).state ≡ ControllerState.fault
  unfolding demand Master.check_all_slaves_in_state request_fault dispatch enter_fault
  demand-fault state c a = elim (Bool-cases (Master.check_all_slaves_in_state state c.master).0) [
    | inl e ↦ absurd (a ((check_all_slaves_in_state_iff state c.master).1.0 e))
    | inr e ↦ ground (arith, e)
  ]

  -- What is not a request keeps the state or ends in `fault`.
  pub run_once-state : (now : ℕ) (c : Controller B F) → (run_once now c).state ≡ c.state
  unfolding run_once
  run_once-state now c = ground arith

  pub check_slave_states-state :
      (now last : ℕ) (c : Controller B F)
      → ((check_slave_states now last c).1.state ≡ c.state)
        ⊎ (((check_slave_states now last c).1.state ≡ ControllerState.fault)
            × (c.state ≢ ControllerState.emergency_stop))
  unfolding check_slave_states demand request_fault dispatch enter_fault
  check_slave_states-state now last c = ground arith

  -- A watch that comes due in `maintenance` or in `operational` reads the bus: either every slave
  -- is where it belongs and the state is kept, or one is not and the state is `fault`.
  pub check_slave_states-due :
      (now last s : ℕ) (c : Controller B F)
      → last + state_check_interval ≤ now
      → watched c.state ≡ some s
      → (AllIn s (soem.ecx_readstate c.master.port)
          × ((check_slave_states now last c).1.state ≡ c.state))
        ⊎ ((¬ AllIn s (soem.ecx_readstate c.master.port))
            × ((check_slave_states now last c).1.state ≡ ControllerState.fault))
  unfolding check_slave_states
  check_slave_states-due now last s c h e = elim (AllIn-cases s c.master) [
    | inl a ↦ inl (a, ground (arith, demand-kept s c a))
    | inr n ↦ inr (n, ground (arith, demand-fault s c n))
  ]

  -- Outside `maintenance` and `operational`, and until 500 ms have passed since the last watch, the
  -- watch leaves the controller, and with it the bus, as it is.
  pub check_slave_states-quiet :
      (now last : ℕ) (c : Controller B F)
      → (now < last + state_check_interval) ⊎ (watched c.state ≡ none)
      → (check_slave_states now last c).1 ≡ c
  unfolding check_slave_states
  check_slave_states-quiet now last c h = ground (arith, h)
