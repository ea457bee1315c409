-- ===== src/Cli/Handlers.antt =====
-- What the handlers of examples/cli/ecat_application.cpp do to the public class.
use mo_driver_pc_ether_cat.Common.{
  ℕ, ◌≡◌, refl, Bool, Option, none, some, arith, inl, inr, Bool-cases, Ends,
}
use mo_driver_pc_ether_cat.Common.Text.{Text, codes, text_eq, starts_with}
use mo_driver_pc_ether_cat.Types.{MasterState}
use mo_driver_pc_ether_cat.Soem.{Soem}
use mo_driver_pc_ether_cat.Axis.{Floats}
use mo_driver_pc_ether_cat.Controller.Requests.{Request}
use mo_driver_pc_ether_cat.Api
use mo_driver_pc_ether_cat.Api.{Impl}
use mo_driver_pc_ether_cat.Api.Lifecycle.{perform}
use mo_driver_pc_ether_cat.Cli.{
  handle_in, handle_adapter_ready_state, handle_scanned_state, handle_maintenance_state,
  handle_ready_to_run_state, handle_operational_state, handle_error_state, call, call_stop,
  shutdown,
}
use mo_driver_pc_ether_cat.Cli.Words.{words}
use mo_driver_pc_ether_cat.Cli.Log.{
  scan_failed, maintenance_failed, prepare_failed, start_failed, back_failed, App, Message, log,
  log_info, command,
}
use mo_driver_pc_ether_cat.Cli.Commands.{on_inspect}
use mo_driver_pc_ether_cat.Cli.Traffic.{OnBus, on_param-OnBus, on_diagnose-OnBus, on_pdo-OnBus}
use mo_driver_pc_ether_cat.Cli.Orders.{request_of, forward, apart, quiet_word, quiet_prefix}

module _ {B F : Type 0} ⦃soem : Soem B⦄ ⦃fl : Floats F⦄ where
  -- What a command line does to the class: the request it asks for, or traffic on the bus at most.
  unfoldable pub Obeys : Option Request → Impl B F → Impl B F → Type 0
  Obeys (some r) i i' = i' ≡ perform r i
  Obeys none i i' = OnBus i i'

  call-master :
      (c : Text) (method : Impl B F → Bool × Impl B F) (failure : Message) (app : App B F)
      → (call c method failure app).master ≡ (method app.master).1
  unfolding call log
  call-master c method failure app = ground arith

  call_stop-master : (app : App B F) → (call_stop app).master ≡ Api.stop app.master
  unfolding call_stop shutdown log
  call_stop-master app = ground arith

  adapter_ready-Obeys :
      (c : Text) (app : App B F)
      → Obeys
          (request_of MasterState.adapter_ready c)
          app.master
          (handle_adapter_ready_state (some c) app).master
  unfolding handle_adapter_ready_state request_of forward Obeys perform log
  adapter_ready-Obeys c app = ground (
    arith,
    apart (codes "scan") (codes "stop") c refl,
    call-master c Api.scan scan_failed app,
    call_stop-master app,
  )

  scanned-Obeys :
      (c : Text) (app : App B F)
      → Obeys
          (request_of MasterState.scanned c)
          app.master
          (handle_scanned_state (some c) app).master
  unfolding handle_scanned_state request_of forward Obeys perform log
  scanned-Obeys c app = ground (
    arith,
    apart (codes "config") (codes "stop") c refl,
    call-master c Api.enter_maintenance maintenance_failed app,
    call_stop-master app,
  )

  ready_to_run-Obeys :
      (c : Text) (app : App B F)
      → Obeys
          (request_of MasterState.ready_to_run c)
          app.master
          (handle_ready_to_run_state (some c) app).master
  unfolding handle_ready_to_run_state request_of forward Obeys perform log
  ready_to_run-Obeys c app = ground (
    arith,
    apart (codes "start") (codes "stop") c refl,
    apart (codes "back") (codes "stop") c refl,
    call-master c Api.start_operation start_failed app,
    call-master c Api.back_to_maintenance back_failed app,
    call_stop-master app,
  )

  operational-Obeys :
      (c : Text) (app : App B F)
      → Obeys
          (request_of MasterState.operational c)
          app.master
          (handle_operational_state (some c) app).master
  unfolding handle_operational_state request_of forward Obeys perform
  operational-Obeys c app = ground (arith, call_stop-master app)

  error-Obeys :
      (c : Text) (app : App B F)
      → Obeys (request_of MasterState.fault c) app.master (handle_error_state (some c) app).master
  unfolding handle_error_state request_of forward Obeys perform log
  error-Obeys c app = ground (arith, call_stop-master app)

  maintenance-Obeys :
      (fuel : ℕ) (c : Text) (app : App B F)
      → Ends
          (λ (app' : App B F). Obeys (request_of MasterState.maintenance c) app.master app'.master)
          (handle_maintenance_state fuel (some c) app)
  unfolding handle_maintenance_state request_of forward Obeys perform log on_inspect
  maintenance-Obeys fuel c app =
      let told = log_info (command c) app in
      elim (Bool-cases (text_eq c (codes "diagnose"))) [
        | inl e ↦
            ground (arith, e, quiet_word (codes "diagnose") c refl refl, on_diagnose-OnBus told)
        | inr e1 ↦ (elim (Bool-cases (starts_with (codes "param") c)) [
          | inl e ↦ ground (
            arith,
            e1,
            e,
            quiet_prefix (codes "param") c (unfold starts_with in refl)
                (unfold starts_with in refl),
            on_param-OnBus (words c) app,
          )
          | inr e2 ↦ (elim (Bool-cases (text_eq c (codes "inspect"))) [
            | inl e ↦ ground (arith, e1, e2, e, quiet_word (codes "inspect") c refl refl)
            | inr e3 ↦ (elim (Bool-cases (starts_with (codes "pdo") c)) [
              | inl e ↦ ground (
                arith,
                e1,
                e2,
                e3,
                e,
                quiet_prefix (codes "pdo") c (unfold starts_with in refl)
                    (unfold starts_with in refl),
                on_pdo-OnBus fuel (words c) app,
              )
              | inr e4 ↦ ground (
                arith,
                e1,
                e2,
                e3,
                e4,
                apart (codes "prepare") (codes "stop") c refl,
                call-master c Api.prepare_run prepare_failed app,
                call_stop-master app,
              )
            ])
          ])
        ])
      ]

  pub handle_in-Obeys :
      (fuel : ℕ) (s : MasterState) (c : Text) (app : App B F)
      → Ends
          (λ (app' : App B F). Obeys (request_of s c) app.master app'.master)
          (handle_in fuel s (some c) app)
  unfolding handle_in
  handle_in-Obeys fuel MasterState.adapter_ready c app = adapter_ready-Obeys c app
  handle_in-Obeys fuel MasterState.scanned c app = scanned-Obeys c app
  handle_in-Obeys fuel MasterState.maintenance c app = maintenance-Obeys fuel c app
  handle_in-Obeys fuel MasterState.ready_to_run c app = ready_to_run-Obeys c app
  handle_in-Obeys fuel MasterState.operational c app = operational-Obeys c app
  handle_in-Obeys fuel MasterState.fault c app = error-Obeys c app
  handle_in-Obeys fuel MasterState.emergency_stop c app = unfold request_of in error-Obeys c app
  handle_in-Obeys fuel MasterState.uninitialized c app = unfold request_of in unfold Obeys in refl

  pub handle_in-idle :
      (fuel : ℕ) (s : MasterState) (app : App B F) → handle_in fuel s none app ≡ some app
  unfolding handle_in handle_adapter_ready_state handle_scanned_state handle_maintenance_state
      handle_ready_to_run_state handle_operational_state handle_error_state
  handle_in-idle fuel s app = ground arith
