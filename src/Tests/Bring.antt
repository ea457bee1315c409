-- ===== src/Tests/Bring.antt =====
-- The climb, step by step, on the simulated bus.
use mo_driver_pc_ether_cat.Common.{ℕ, ◌≡◌, refl, true, false, arith, ◌⊎◌}
use mo_driver_pc_ether_cat.Soem.{state_operational}
use mo_driver_pc_ether_cat.Master
use mo_driver_pc_ether_cat.Master.{Master}
use mo_driver_pc_ether_cat.Master.Check.{AllIn}
use mo_driver_pc_ether_cat.Node.Manager
use mo_driver_pc_ether_cat.Controller.{scan}
use mo_driver_pc_ether_cat.Controller.States.{ControllerState}
use mo_driver_pc_ether_cat.Controller.Topology.{IsExpected, scan-IsExpected}
use mo_driver_pc_ether_cat.Engine.{check_slave_states}
use mo_driver_pc_ether_cat.Engine.Watch.{check_slave_states-due}
use mo_driver_pc_ether_cat.Tests.Bus.{whole, bus, lit_port, master_on}
use mo_driver_pc_ether_cat.Tests.Life.{at_state}

scan-IsExpected_example :
    let c = at_state ControllerState.adapter_ready in
    let infos = (Master.scan_slaves c.master).0 in
    ((scan c).1.slave_infos ≡ infos)
    × ((IsExpected c.config infos
          × ((scan c).0 ≡ true)
          × ((scan c).1.state ≡ ControllerState.scanned))
        ⊎ ((¬ IsExpected c.config infos)
            × ((scan c).0 ≡ false)
            × ((scan c).1.state ≡ ControllerState.uninitialized)
            × ((scan c).1.master.closed ≡ true)))
scan-IsExpected_example = scan-IsExpected (at_state ControllerState.adapter_ready) refl

-- The drive reports an error that has to be acknowledged first.
abbrev failing : Master ℕ
failing = master_on (record lit_port { bus = 1 })

check_slave_states-due_example :
    let c = at_state ControllerState.operational in
    (AllIn state_operational (bus.ecx_readstate c.master.port)
      × ((check_slave_states 600000000 1 c).1.state ≡ ControllerState.operational))
    ⊎ ((¬ AllIn state_operational (bus.ecx_readstate c.master.port))
        × ((check_slave_states 600000000 1 c).1.state ≡ ControllerState.fault))
check_slave_states-due_example =
    check_slave_states-due 600000000 1 state_operational (at_state ControllerState.operational)
      (omega arith) refl
