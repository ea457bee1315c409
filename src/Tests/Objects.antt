-- ===== src/Tests/Objects.antt =====
-- SDO walks and activities at concrete inputs.
use mo_driver_pc_ether_cat.Common.{
  ℕ, ◌≡◌, ◌<◌, refl, true, false, none, some, [], ◌∷◌, arith, is_some,
}
use mo_driver_pc_ether_cat.Common.Int.{ℤ}
use mo_driver_pc_ether_cat.Common.Bytes.{le_bytes, of_le_bytes}
use mo_driver_pc_ether_cat.Types.{empty_info}
use mo_driver_pc_ether_cat.Runtime.{can_run_maintenance_activity}
use mo_driver_pc_ether_cat.Runtime.Laws.{maintenance_runtime}
use mo_driver_pc_ether_cat.Master
use mo_driver_pc_ether_cat.Master.{Master}
use mo_driver_pc_ether_cat.Node.Slave
use mo_driver_pc_ether_cat.Node.Slave.{SlaveNode, placeholder}
use mo_driver_pc_ether_cat.Controller.{request_fault}
use mo_driver_pc_ether_cat.Controller.Actions.{Controller}
use mo_driver_pc_ether_cat.Controller.States.{ControllerState}
use mo_driver_pc_ether_cat.Sdo.{read_value, read_object, read_entries}
use mo_driver_pc_ether_cat.Sdo.Walk.{read_object-ends, read_object-endless}
use mo_driver_pc_ether_cat.Activity.{
  set_node, apply_policy, get_failure_policy, execute, EcatActivity, sdo_parameter, write_parameter,
  read_u32, schedule, execute,
}
use mo_driver_pc_ether_cat.Tests.Bus.{whole, bus, simulated_bus, lit_port, master_on}
use mo_driver_pc_ether_cat.Tests.Life.{at_state}

abbrev online : Master ℕ
online = master_on lit_port

two_parts : (read_value 1 1 0x1C12 0 online).1 ≡ 2
unfolding read_value Master.sdo_read le_bytes of_le_bytes
two_parts = refl

fewer : (read_value 1 1 0x1C12 0 online).1 < 255
fewer = omega (arith, two_parts)

read_object-ends_example : is_some (read_object 256 2 1 0x1C12 online) ≡ true
read_object-ends_example = read_object-ends 2 1 0x1C12 online fewer

reads_two : read_object 4 2 1 0x1C12 online ≡ some (true, 16 ∷ 16 ∷ [], online)
unfolding read_object read_entries read_value Master.sdo_read le_bytes of_le_bytes
reads_two = refl

read_object-endless_example : read_object ⦃soem = simulated_bus 255⦄ 1000 4 1 0x1600 online ≡ none
unfolding read_value Master.sdo_read le_bytes of_le_bytes
read_object-endless_example =
    read_object-endless ⦃soem = simulated_bus 255⦄ 1000 4 1 0x1600 online refl refl (λ i n. refl)

abbrev drive : SlaveNode ℤ
drive = placeholder (record empty_info { slave_id = 1 })

-- In maintenance, with one node.
abbrev serviced : Controller ℕ ℤ
serviced = record (at_state ControllerState.maintenance) { nodes = drive ∷ [] }

-- The write is acknowledged, but another value is read back.
abbrev mistaken : EcatActivity
mistaken = sdo_parameter 0x6060 1 5 true

fails :
    schedule 300 (some (mistaken, 0)) false maintenance_runtime serviced
    ≡ some (false, false, request_fault serviced)
unfolding schedule execute can_run_maintenance_activity write_parameter read_u32 Slave.sdo_write
    Slave.sdo_read Master.sdo_write Master.sdo_read le_bytes of_le_bytes set_node apply_policy
    get_failure_policy
fails = refl
