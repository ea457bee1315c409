-- ===== src/Cli/Main.antt =====
-- examples/cli/main.cpp.
use mo_driver_pc_ether_cat.Common.{
  ℕ, ◌≡◌, refl, ap, sym, ◌∙◌, subst, true, false, Option, none, some, List, [], arith,
  if◌then◌else◌, inl, inr, Bool-cases, bind-Ends, Ends,
}
use mo_driver_pc_ether_cat.Common.Text.{Text}
use mo_driver_pc_ether_cat.Types.{EcMasterConfig, default_config}
use mo_driver_pc_ether_cat.Soem.{Soem}
use mo_driver_pc_ether_cat.Master
use mo_driver_pc_ether_cat.Axis.{Floats}
use mo_driver_pc_ether_cat.Controller
use mo_driver_pc_ether_cat.Controller.{dispatch, do_action}
use mo_driver_pc_ether_cat.Controller.Actions.{Controller, do_init}
use mo_driver_pc_ether_cat.Controller.States.{ControllerState, is_allowed}
use mo_driver_pc_ether_cat.Controller.Invariant.{IsWellFormed}
use mo_driver_pc_ether_cat.Controller.Stopping.{stop-idle}
use mo_driver_pc_ether_cat.Controller.Requests
use mo_driver_pc_ether_cat.Controller.Requests.{control, control-IsWellFormed}
use mo_driver_pc_ether_cat.Engine.History.{after-kept}
use mo_driver_pc_ether_cat.Api
use mo_driver_pc_ether_cat.Api.{
  during, begin_runtime_transition, end_runtime_transition, notify_runtime_state_changed, Impl,
}
use mo_driver_pc_ether_cat.Api.Lifecycle.{perform, perform-control}
use mo_driver_pc_ether_cat.Cli.{initialize, shutdown}
use mo_driver_pc_ether_cat.Cli.Log.{
  App, CliLogLevel, Message, log_info, log_error, initialize_failed, running, shutting_down,
}
use mo_driver_pc_ether_cat.Cli.Traffic.{log-master}
use mo_driver_pc_ether_cat.Cli.Histories.{Input, IsHistory, run_all, run_all-IsHistory-Ends}

-- The configuration that main sets.
unfoldable pub main_config : Text → EcMasterConfig
main_config interface = record default_config {
  ifname = interface;
  cycle_time_us = 1000;
  use_dc = true;
}

module _ {B F : Type 0} ⦃soem : Soem B⦄ ⦃fl : Floats F⦄ where
  -- The exit code and the application at the end, with the master destroyed where it was made. The
  -- inputs end where a signal clears g_running; the first argument of the program is `none` where it
  -- is missing.
  unfoldable pub leave : ℕ → App B F → ℕ × App B F
  unfolding Api.destroy
  leave code app = (code, record app { master = Api.destroy app.master })

  unfoldable pub main : (fuel : ℕ) → Option Text → List Input → App B F → Option (ℕ × App B F)
  unfolding main_config initialize run_all shutdown leave
  main fuel none inputs app = some (1, app)
  main fuel (some interface) inputs app =
      let (good, app') = initialize (main_config interface) app in
      if good
      then (elim (run_all fuel inputs (log_info running app')) [
        | none ↦ none
        | some ended ↦ some (leave 0 (shutdown (log_info shutting_down ended)))
      ])
      else some (leave 1 (log_error initialize_failed app'))

  -- What Stop leaves of a controller.
  abbrev pub IsStopped : Controller B F → Type 0
  IsStopped c =
      (c.state ≡ ControllerState.uninitialized) × (c.master.closed ≡ true) × (c.nodes ≡ [])

  leave-IsStopped :
      (code : ℕ) (app : App B F)
      → IsStopped app.master.controller
      → IsStopped (leave code app).1.master.controller
  unfolding leave Api.destroy Controller.destroy Controller.stop Master.destroy Master.close
  leave-IsStopped code app h = ground (arith, h)

  IsWellFormed-IsStopped :
      (c : Controller B F) → IsWellFormed c → c.state ≡ ControllerState.uninitialized → IsStopped c
  IsWellFormed-IsStopped c w e = (e, w.idle_closed e, w.bare (rw e refl))

  initialize-state :
      (config : EcMasterConfig) (c : Controller B F)
      → c.state ≡ ControllerState.uninitialized
      → (Controller.initialize_adapter config c).0 ≡ false
      → (Controller.initialize_adapter config c).1.state ≡ ControllerState.uninitialized
  unfolding Controller.initialize_adapter dispatch do_action do_init is_allowed
  initialize-state config c e h = ground arith

  logged-IsWellFormed :
      (m : Message) (app : App B F)
      → IsWellFormed app.master.controller
      → IsWellFormed (log_info m app).master.controller
  logged-IsWellFormed m app w =
      subst (λ (i : Impl B F). IsWellFormed i.controller) (sym (log-master CliLogLevel.info m app))
        w

  IsHistory-IsWellFormed :
      (c c' : Controller B F) → IsHistory c c' → IsWellFormed c → IsWellFormed c'
  IsHistory-IsWellFormed c c' (os, e) w = subst IsWellFormed (sym e) (after-kept os c w)

  initialize-control :
      (config : EcMasterConfig) (app : App B F)
      → ((initialize config app).0 ≡ (Controller.initialize_adapter config app.master.controller).0)
        × ((initialize config app).1.master.controller
            ≡ (Controller.initialize_adapter config app.master.controller).1)
  unfolding initialize Api.initialize_adapter during begin_runtime_transition end_runtime_transition
      notify_runtime_state_changed
  initialize-control config app = ground arith

  initialize-IsWellFormed :
      (config : EcMasterConfig) (app : App B F)
      → IsWellFormed app.master.controller
      → IsWellFormed (initialize config app).1.master.controller
  unfolding control
  initialize-IsWellFormed config app w =
      subst IsWellFormed (sym (initialize-control config app).1)
        (control-IsWellFormed (Requests.initialize_adapter config) app.master.controller w)

  failed-IsStopped :
      (config : EcMasterConfig) (app : App B F)
      → IsWellFormed app.master.controller
      → app.master.controller.state ≡ ControllerState.uninitialized
      → (initialize config app).0 ≡ false
      → IsStopped (initialize config app).1.master.controller
  failed-IsStopped config app w e h =
      let (good, c) = initialize-control config app in
      IsWellFormed-IsStopped (initialize config app).1.master.controller
        (initialize-IsWellFormed config app w)
        (ap (λ (d : Controller B F). d.state) c
          ∙ initialize-state config app.master.controller e (sym good ∙ h))

  shutdown-IsStopped :
      (app : App B F)
      → IsWellFormed app.master.controller
      → IsStopped (shutdown app).master.controller
  unfolding shutdown perform control
  shutdown-IsStopped app w = subst IsStopped (sym (perform-control Requests.stop app.master).0) (
      let (s, closed, nodes, twice, again) = stop-idle default_config app.master.controller w in
      (s, closed, nodes))

  -- Started on a controller that is well-formed and uninitialised, a program that returns leaves it
  -- so, with the adapter closed and no node: without an argument, where the adapter cannot be
  -- opened, and after any inputs.
  pub main-IsStopped-Ends :
      (fuel : ℕ) (first : Option Text) (inputs : List Input) (app : App B F)
      → IsWellFormed app.master.controller
      → app.master.controller.state ≡ ControllerState.uninitialized
      → Ends (λ (r : ℕ × App B F). IsStopped r.1.master.controller) (main fuel first inputs app)
  unfolding main
  main-IsStopped-Ends fuel none inputs app w e = IsWellFormed-IsStopped app.master.controller w e
  main-IsStopped-Ends fuel (some interface) inputs app w e =
      let config = main_config interface in
      let app' = (initialize config app).1 in
      elim (Bool-cases (initialize config app).0) [
        | inl h ↦
            (let started = log_info running app' in
              rw h (
                bind-Ends _ _ (run_all fuel inputs started)
                  (run_all-IsHistory-Ends fuel inputs started)
                  (λ ended k.
                    let told = log_info shutting_down ended in
                    leave-IsStopped 0 (shutdown told) (
                      shutdown-IsStopped told (
                        logged-IsWellFormed shutting_down ended (
                          IsHistory-IsWellFormed started.master.controller ended.master.controller k
                            (logged-IsWellFormed running app'
                              (initialize-IsWellFormed config app w))))))))
        | inr h ↦ rw h (
            leave-IsStopped 1 (log_error initialize_failed app') (
              subst (λ (i : Impl B F). IsStopped i.controller)
                (sym (log-master CliLogLevel.error initialize_failed app'))
                (failed-IsStopped config app w e h)))
      ]
