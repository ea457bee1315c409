-- ===== src/Controller/Reached.antt =====
-- What the success of an action of src/ec_controller/ec_controller.cpp means on the bus.
use mo_driver_pc_ether_cat.Common.{ℕ, ◌≡◌, true}
use mo_driver_pc_ether_cat.Soem.{Port, Soem, state_pre_op, state_operational}
use mo_driver_pc_ether_cat.Master
use mo_driver_pc_ether_cat.Master.{Master}
use mo_driver_pc_ether_cat.Master.Check.{AllIn, check_all_slaves_in_state_iff}
use mo_driver_pc_ether_cat.Controller.States.{MasterAction}
use mo_driver_pc_ether_cat.Controller.Actions.{Controller}

module _ {B : Type 0} ⦃soem : Soem B⦄ where
  -- A check that succeeded shows on the port it left behind.
  shown :
      (state : ℕ) (m : Master B)
      → (Master.check_all_slaves_in_state state m).0 ≡ true
      → AllIn state (Master.check_all_slaves_in_state state m).1.port
  shown state m h = (check_all_slaves_in_state_iff state m).1.0 h

-- What an action promises of the slaves, as the port shows them.
pub Promised : {B : Type 0} → MasterAction → Port B → Type 0
Promised MasterAction.enter_maintenance p = AllIn state_pre_op p
Promised MasterAction.back_to_maintenance p = AllIn state_pre_op p
Promised MasterAction.start_operation p = AllIn state_operational p
Promised _ p = Unit
