-- ===== src/Tests/Console.antt =====
-- The command line program at concrete inputs.
use mo_driver_pc_ether_cat.Common.{inl, ℕ, ◌+◌, ◌≡◌, ◌^◌, refl, some, List, [], ◌∷◌, arith}
use mo_driver_pc_ether_cat.Common.Int.{ℤ}
use mo_driver_pc_ether_cat.Common.Bytes.{le_bytes, of_le_bytes}
use mo_driver_pc_ether_cat.Common.Text.{Text, codes}
use mo_driver_pc_ether_cat.Master
use mo_driver_pc_ether_cat.Sdo.{read_value}
use mo_driver_pc_ether_cat.Controller.States.{ControllerState}
use mo_driver_pc_ether_cat.Controller.Invariant.{new_controller, new_controller-IsWellFormed}
use mo_driver_pc_ether_cat.Cli.Log.{App, CliLogLevel}
use mo_driver_pc_ether_cat.Cli.Words.{words}
use mo_driver_pc_ether_cat.Cli.Params.{accepted, parse_param}
use mo_driver_pc_ether_cat.Cli.Histories.{Input, line_input, run_all}
use mo_driver_pc_ether_cat.Cli.Exits.{IsIdle}
use mo_driver_pc_ether_cat.Cli.Main.{main, IsStopped}
use mo_driver_pc_ether_cat.Cli.Lines.{lines_to, typed}
use mo_driver_pc_ether_cat.Engine.History.{IsHalted}
use mo_driver_pc_ether_cat.Engine.Milestones.{Within}
use mo_driver_pc_ether_cat.Cli.Outcomes.{
  run_all-lines_to, run_all-stop, run_all-IsHalted, main-IsStopped,
}
use mo_driver_pc_ether_cat.Cli.Printed.{param_line, parse_param-param_line}
use mo_driver_pc_ether_cat.Cli.Returns.{IsBounded}
use mo_driver_pc_ether_cat.Cli.Stdin.{commands, piped, commands-piped}
use mo_driver_pc_ether_cat.Tests.Bus.{whole, bus, dark_port}
use mo_driver_pc_ether_cat.Tests.Facade.{around, facade}

abbrev console : ControllerState → App ℕ ℤ
console s = record { master = facade s; threshold = CliLogLevel.info; lines = [] }

abbrev fresh : App ℕ ℤ
fresh = record (console ControllerState.uninitialized) {
  master = around (new_controller dark_port);
}

abbrev type_line : Text → Input
type_line = line_input 10 20

abbrev session : List Input
session =
    type_line (codes "scan")
    ∷ type_line (codes "config")
    ∷ type_line (codes "param 0x6040 0 15")
    ∷ type_line (codes "stop")
    ∷ type_line (codes "scan")
    ∷ []

-- No object of the simulated bus tells of 255 parts.
bus-IsBounded : IsBounded bus
unfolding read_value Master.sdo_read le_bytes of_le_bytes
bus-IsBounded slave index m = omega arith

run_all-lines_to_example :
    (app' : App ℕ ℤ) × (run_all 256 session (console ControllerState.adapter_ready) ≡ some app')
    × Within (lines_to app'.master.controller.state) (typed session [])
unfolding lines_to
run_all-lines_to_example =
    run_all-lines_to session (console ControllerState.adapter_ready) bus-IsBounded refl

main-IsStopped_example :
    (r : ℕ × App ℕ ℤ) × (main 256 (some (codes "eth0")) session fresh ≡ some r)
    × IsStopped r.1.master.controller
main-IsStopped_example =
    main-IsStopped (some (codes "eth0")) session fresh bus-IsBounded
      (new_controller-IsWellFormed dark_port) refl

parse_param-param_line_example :
    parse_param (words (param_line 0x6083 0 (2 ^ 32 + 500))) ≡ accepted 0x6083 0 500
parse_param-param_line_example =
    parse_param-param_line 0x6083 0 (2 ^ 32 + 500) (omega arith) (omega arith) (omega arith)

commands-piped_example :
    commands 3 (piped (codes "scan\nconfig\n")) ≡ some (codes "scan" ∷ codes "config" ∷ [])
commands-piped_example =
    commands-piped (codes "scan" ∷ codes "config" ∷ [])
      ((refl, (refl, (refl, (refl, tt)))), ((refl, (refl, (refl, (refl, (refl, (refl, tt)))))), tt))

run_all-stop_example :
    (app' : App ℕ ℤ) × (run_all 256 (type_line (codes "stop") ∷ session) fresh ≡ some app')
    × IsIdle app'.master
run_all-stop_example =
    run_all-stop 10 20 session fresh bus-IsBounded (new_controller-IsWellFormed dark_port) refl

-- What an operator may type after a fault.
abbrev attempts : List Input
attempts = type_line (codes "help") ∷ type_line (codes "start") ∷ []

run_all-IsHalted_example :
    (app' : App ℕ ℤ) × (run_all 256 attempts (console ControllerState.fault) ≡ some app')
    × IsHalted app'.master.controller.state
run_all-IsHalted_example =
    run_all-IsHalted attempts (console ControllerState.fault) bus-IsBounded (refl, (refl, tt))
      (inl refl)
