-- ===== src/Tests/Facade.antt =====
-- The public class at concrete inputs.
use mo_driver_pc_ether_cat.Common.{ℕ, ◌≡◌, refl, true, false, none, [], ◌∷◌, ◌⊎◌}
use mo_driver_pc_ether_cat.Common.Int.{ℤ}
use mo_driver_pc_ether_cat.Types.{MasterState, MasterMode, TransitionStage, PrepareStage, runtime}
use mo_driver_pc_ether_cat.Controller.Actions.{Controller}
use mo_driver_pc_ether_cat.Controller.States.{ControllerState}
use mo_driver_pc_ether_cat.Controller.Requests
use mo_driver_pc_ether_cat.Controller.Requests.{control}
use mo_driver_pc_ether_cat.Api.{
  Impl, state_changed, runtime_state_changed, get_state, to_master_runtime_state,
}
use mo_driver_pc_ether_cat.Api.Lifecycle.{perform, shown, perform-notifies}
use mo_driver_pc_ether_cat.Api.Service.{service}
use mo_driver_pc_ether_cat.Api.Reports.{service-reports}
use mo_driver_pc_ether_cat.Tests.Bus.{whole, bus}
use mo_driver_pc_ether_cat.Tests.Life.{at_state}

-- The class round a controller, with both callbacks set.
abbrev pub around : Controller ℕ ℤ → Impl ℕ ℤ
around c = record {
  controller = c;
  last_state_check_time = 0;
  runtime_state_override = none;
  sinks = record { console_enabled = false; log_file = []; callback = true };
  on_state_changed = true;
  on_runtime_state_changed = true;
  trace = [];
}

abbrev pub facade : ControllerState → Impl ℕ ℤ
facade s = around (at_state s)

perform-notifies_example :
    let i = facade ControllerState.operational in
    (perform Requests.back_to_maintenance i).trace
    ≡ runtime_state_changed
        (to_master_runtime_state (control Requests.back_to_maintenance i.controller).state)
      ∷ runtime_state_changed (runtime MasterMode.run TransitionStage.exiting PrepareStage.none)
      ∷ []
unfolding shown
perform-notifies_example =
    perform-notifies Requests.back_to_maintenance (facade ControllerState.operational) refl refl

service-reports_example :
    let i = facade ControllerState.operational in
    let j = service 600000000 600000000 i in
    ((j.controller.state ≡ ControllerState.operational) × (j.trace ≡ []))
    ⊎ ((j.controller.state ≡ ControllerState.fault)
        × (j.trace
            ≡ runtime_state_changed (to_master_runtime_state ControllerState.fault)
              ∷ state_changed (get_state i) MasterState.fault
              ∷ []))
service-reports_example =
    service-reports 600000000 600000000 (facade ControllerState.operational) refl refl refl
