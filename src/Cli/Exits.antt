-- ===== src/Cli/Exits.antt =====
-- The state of examples/cli/ecat_application.cpp in which only an exit is left.
use mo_driver_pc_ether_cat.Common.{
  ℕ, ◌≡◌, refl, sym, ◌∙◌, subst, Bool, ◌||◌, Option, none, some, List, [], ◌∷◌, arith, inl, inr,
  Bool-cases, bind-Ends, Ends, Ends-map, if_rule,
}
use mo_driver_pc_ether_cat.Common.Text.{Text, codes, starts_with}
use mo_driver_pc_ether_cat.Types.{default_config}
use mo_driver_pc_ether_cat.Runtime.{
  should_check_pre_op_slaves, can_run_process_data, can_run_maintenance_activity,
  is_valid_runtime_state,
}
use mo_driver_pc_ether_cat.Soem.{Soem}
use mo_driver_pc_ether_cat.Axis.{Floats}
use mo_driver_pc_ether_cat.Controller.States.{ControllerState}
use mo_driver_pc_ether_cat.Controller.Invariant.{IsWellFormed}
use mo_driver_pc_ether_cat.Controller.Stopping.{stop-idle}
use mo_driver_pc_ether_cat.Controller.Requests
use mo_driver_pc_ether_cat.Controller.Requests.{Request, control}
use mo_driver_pc_ether_cat.Api.{
  notify_runtime_state_changed, Impl, get_state, current_runtime_state, to_master_runtime_state,
  to_master_state,
}
use mo_driver_pc_ether_cat.Api.Lifecycle.{perform-control}
use mo_driver_pc_ether_cat.Api.Service.{service, work, watch}
use mo_driver_pc_ether_cat.Api.Reports.{service-IsWellFormed}
use mo_driver_pc_ether_cat.Cli.{ReadResult, run}
use mo_driver_pc_ether_cat.Cli.Log.{App}
use mo_driver_pc_ether_cat.Cli.Orders.{request_of, order, asks_exit, sets_level}
use mo_driver_pc_ether_cat.Cli.Handlers.{Obeys}
use mo_driver_pc_ether_cat.Cli.Obedience.{run-Obeys-Ends, run-local}
use mo_driver_pc_ether_cat.Cli.Histories.{Input, line_input, run_all}

module _ {B F : Type 0} ⦃soem : Soem B⦄ ⦃fl : Floats F⦄ where
  -- The controller is uninitialised and no transition is under way.
  abbrev pub IsIdle : Impl B F → Type 0
  IsIdle i =
      (i.controller.state ≡ ControllerState.uninitialized) × (i.runtime_state_override ≡ none)

  service-IsIdle :
      (cycle_time check_time : ℕ) (i : Impl B F)
      → IsIdle i
      → IsIdle (service cycle_time check_time i)
  unfolding service work current_runtime_state is_valid_runtime_state to_master_runtime_state
      should_check_pre_op_slaves can_run_maintenance_activity can_run_process_data
  service-IsIdle cycle_time check_time i h = ground arith

  order_idle :
      (result : ReadResult) (c : Text) (i : Impl B F)
      → IsIdle i
      → order result c (get_state i) ≡ none
  unfolding order request_of to_master_state
  order_idle result c i h = ground arith

  Obeys-IsIdle :
      (o : Option Request) (i i' : Impl B F) → o ≡ none → IsIdle i → Obeys o i i' → IsIdle i'
  unfolding Obeys
  Obeys-IsIdle none i i' e h k = ground arith
  Obeys-IsIdle (some r) i i' e h k = absurd (ground arith)

  run-IsIdle :
      (fuel : ℕ) (x : Input) (app : App B F)
      → IsIdle app.master
      → Ends
          (λ (r : Bool × App B F). IsIdle r.1.master)
          (run fuel x.cycle_time x.check_time x.result x.line app)
  run-IsIdle fuel x app h =
      elim (Bool-cases (asks_exit x.result x.line || sets_level x.result x.line)) [
        | inl e ↦
            (let (app', r, k) = run-local fuel x.cycle_time x.check_time x.result x.line app e in
              subst (Ends (λ (r : Bool × App B F). IsIdle r.1.master)) (sym r)
                (subst IsIdle (sym k) h))
        | inr e ↦
            (let served = service x.cycle_time x.check_time app.master in
              let idle : IsIdle served = service-IsIdle x.cycle_time x.check_time app.master h in
              Ends-map
                (λ (r : Bool × App B F) k.
                  Obeys-IsIdle (order x.result x.line (get_state served)) served r.1.master
                    (order_idle x.result x.line served idle) idle k.1)
                (run fuel x.cycle_time x.check_time x.result x.line app)
                (run-Obeys-Ends fuel x.cycle_time x.check_time x.result x.line app
                  (ground (arith, e)) (ground (arith, e))))
      ]

  -- Once the class is uninitialised, with no transition under way, no input brings it out of that
  -- state: the program offers no command that opens the adapter again.
  pub run_all-IsIdle :
      (fuel : ℕ) (inputs : List Input) (app : App B F)
      → IsIdle app.master
      → Ends (λ (app' : App B F). IsIdle app'.master) (run_all fuel inputs app)
  unfolding run_all
  run_all-IsIdle fuel [] app h = h
  run_all-IsIdle fuel (x ∷ inputs) app h =
      bind-Ends _ _ (run fuel x.cycle_time x.check_time x.result x.line app)
        (run-IsIdle fuel x app h)
        (λ r k.
          if_rule (Ends (λ (app' : App B F). IsIdle app'.master)) r.0
            (run_all-IsIdle fuel inputs r.1 k) k)

  service-override :
      (cycle_time check_time : ℕ) (i : Impl B F)
      → (service cycle_time check_time i).runtime_state_override ≡ i.runtime_state_override
  unfolding service work watch notify_runtime_state_changed
  service-override cycle_time check_time i = ground arith

  stop-IsIdle :
      (i i' : Impl B F)
      → IsWellFormed i.controller
      → i.runtime_state_override ≡ none
      → Obeys (request_of (get_state i) (codes "stop")) i i'
      → IsIdle i'
  unfolding request_of to_master_state Obeys control
  stop-IsIdle i i' w h k =
      let stopped = (stop-idle default_config i.controller w).0 in
      ground (arith, perform-control Requests.stop i, stopped)

  -- The command stop on a well-formed controller, with no transition under way and in whatever
  -- state, brings the class to uninitialised, where all further inputs leave it.
  pub run_all-stop-Ends :
      (fuel cycle_time check_time : ℕ) (inputs : List Input) (app : App B F)
      → IsWellFormed app.master.controller
      → app.master.runtime_state_override ≡ none
      → Ends
          (λ (app' : App B F). IsIdle app'.master)
          (run_all fuel (line_input cycle_time check_time (codes "stop") ∷ inputs) app)
  unfolding run_all order asks_exit sets_level
  run_all-stop-Ends fuel cycle_time check_time inputs app w h =
      let served = service cycle_time check_time app.master in
      bind-Ends _ _ (run fuel cycle_time check_time ReadResult.ok (codes "stop") app)
        (run-Obeys-Ends fuel cycle_time check_time ReadResult.ok (codes "stop") app refl
          (unfold starts_with in refl))
        (λ r k.
          let idle : IsIdle r.1.master =
            stop-IsIdle served r.1.master (service-IsWellFormed cycle_time check_time app.master w)
              (service-override cycle_time check_time app.master ∙ h) k.1 in
          if_rule (Ends (λ (app' : App B F). IsIdle app'.master)) r.0
            (run_all-IsIdle fuel inputs r.1 idle) idle)
