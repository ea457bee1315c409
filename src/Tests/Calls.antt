-- ===== src/Tests/Calls.antt =====
-- The calls of the simulated bus, recorded.
use mo_driver_pc_ether_cat.Common.{false, ℕ, ◌+◌, ◌≤◌, ◌≡◌, refl, List, [], ◌∷◌, ◌++◌, length}
use mo_driver_pc_ether_cat.Common.Int.{ℤ}
use mo_driver_pc_ether_cat.Soem.{Port}
use mo_driver_pc_ether_cat.Soem.Calls.{Call, Recorded, recorded, calls_of, above}
use mo_driver_pc_ether_cat.Controller.{stop}
use mo_driver_pc_ether_cat.Controller.States.{ControllerState}
use mo_driver_pc_ether_cat.Controller.Actions.{Controller}
use mo_driver_pc_ether_cat.Controller.Invariant.{new_controller}
use mo_driver_pc_ether_cat.Controller.Requests
use mo_driver_pc_ether_cat.Controller.Shutdown.{Descends, stop-Descends}
use mo_driver_pc_ether_cat.Engine.History.{Occurrence, request, cycle, watch, after}
use mo_driver_pc_ether_cat.Engine.Payload.{payload_of, cycles_of, after-payload}
use mo_driver_pc_ether_cat.Tests.Bus.{whole, simulated_bus, lit_port}

abbrev lit : Port (Recorded ℕ)
lit = above [] lit_port

-- A controller in operation.
abbrev operating : Controller (Recorded ℕ) ℤ
operating = record (new_controller lit) {
  state = ControllerState.operational;
  master = record ((new_controller {F = ℤ} lit).master) { closed = false };
}

stop-Descends_example :
    let before = calls_of operating.master.port in
    let after' = calls_of (stop ⦃soem = recorded (simulated_bus 2)⦄ operating).master.port in
    Descends operating.state operating.master.closed before after'
    × (length after' ≤ length before + 17)
stop-Descends_example = stop-Descends (simulated_bus 2) operating

-- Two cycles, of which the second comes after a stop.
abbrev halted : List (Occurrence (Recorded ℕ))
halted = cycle 3000 ∷ request Requests.stop ∷ watch 1500 0 ∷ cycle 1000 ∷ []

after-payload_example :
    payload_of (after ⦃soem = recorded (simulated_bus 2)⦄ halted operating).master.port
    ≡ cycles_of (simulated_bus 2) halted operating ++ payload_of operating.master.port
after-payload_example = after-payload (simulated_bus 2) halted operating tt

one_cycle :
    cycles_of (simulated_bus 2) (cycle 1000 ∷ []) operating ≡ Call.receives ∷ Call.sends ∷ []
unfolding cycles_of after
one_cycle = refl
