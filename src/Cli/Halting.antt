-- ===== src/Cli/Halting.antt =====
-- The error states of examples/cli/ecat_application.cpp.
use mo_driver_pc_ether_cat.Common.{
  ℕ, ◌≡◌, sym, subst, Bool, false, ◌||◌, Option, none, some, List, [], ◌∷◌, arith, All, inl, inr,
  Bool-cases, bind-Ends, Ends, Ends-map, if_rule,
}
use mo_driver_pc_ether_cat.Common.Text.{codes, text_eq}
use mo_driver_pc_ether_cat.Soem.{Soem}
use mo_driver_pc_ether_cat.Axis.{Floats}
use mo_driver_pc_ether_cat.Controller.Requests.{Request}
use mo_driver_pc_ether_cat.Engine.History.{IsHalted}
use mo_driver_pc_ether_cat.Api.{Impl, get_state, to_master_state}
use mo_driver_pc_ether_cat.Api.Service.{service}
use mo_driver_pc_ether_cat.Api.Reports.{service-controller, work-state}
use mo_driver_pc_ether_cat.Cli.{ReadResult, run}
use mo_driver_pc_ether_cat.Cli.Log.{App}
use mo_driver_pc_ether_cat.Cli.Orders.{request_of, forward, order, asks_exit, sets_level}
use mo_driver_pc_ether_cat.Cli.Handlers.{Obeys}
use mo_driver_pc_ether_cat.Cli.Obedience.{run-Obeys-Ends, run-local}
use mo_driver_pc_ether_cat.Cli.Histories.{Input, run_all}

-- The command stop was read.
abbrev pub is_stop : Input → Bool
is_stop x = elim x.result [ ReadResult.ok ↦ text_eq x.line (codes "stop") | _ ↦ false ]

module _ {B F : Type 0} ⦃soem : Soem B⦄ ⦃fl : Floats F⦄ where
  service-IsHalted :
      (cycle_time check_time : ℕ) (i : Impl B F)
      → IsHalted i.controller.state
      → IsHalted (service cycle_time check_time i).controller.state
  service-IsHalted cycle_time check_time i h =
      ground (arith, service-controller cycle_time check_time i, work-state cycle_time check_time i)

  order-halted :
      (x : Input) (i : Impl B F)
      → IsHalted i.controller.state
      → is_stop x ≡ false
      → order x.result x.line (get_state i) ≡ none
  unfolding order request_of forward to_master_state
  order-halted x i h k = ground arith

  Obeys-IsHalted :
      (o : Option Request) (i i' : Impl B F)
      → o ≡ none
      → Obeys o i i'
      → IsHalted i.controller.state
      → IsHalted i'.controller.state
  unfolding Obeys
  Obeys-IsHalted none i i' e k h = ground arith
  Obeys-IsHalted (some r) i i' e k h = absurd (ground arith)

  run-IsHalted :
      (fuel : ℕ) (x : Input) (app : App B F)
      → is_stop x ≡ false
      → IsHalted app.master.controller.state
      → Ends
          (λ (r : Bool × App B F). IsHalted r.1.master.controller.state)
          (run fuel x.cycle_time x.check_time x.result x.line app)
  run-IsHalted fuel x app n h =
      elim (Bool-cases (asks_exit x.result x.line || sets_level x.result x.line)) [
        | inl e ↦
            (let (app', r, k) = run-local fuel x.cycle_time x.check_time x.result x.line app e in
              subst (Ends (λ (r : Bool × App B F). IsHalted r.1.master.controller.state)) (sym r)
                (subst (λ (j : Impl B F). IsHalted j.controller.state) (sym k) h))
        | inr e ↦
            (let served = service x.cycle_time x.check_time app.master in
              let halted : IsHalted served.controller.state =
                service-IsHalted x.cycle_time x.check_time app.master h in
              Ends-map
                (λ (r : Bool × App B F) k.
                  Obeys-IsHalted (order x.result x.line (get_state served)) served r.1.master
                    (order-halted x served halted n) k.1 halted)
                (run fuel x.cycle_time x.check_time x.result x.line app)
                (run-Obeys-Ends fuel x.cycle_time x.check_time x.result x.line app
                  (ground (arith, e)) (ground (arith, e))))
      ]

  pub run_all-IsHalted-Ends :
      (fuel : ℕ) (inputs : List Input) (app : App B F)
      → All (λ x. is_stop x ≡ false) inputs
      → IsHalted app.master.controller.state
      → Ends (λ (app' : App B F). IsHalted app'.master.controller.state) (run_all fuel inputs app)
  unfolding run_all
  run_all-IsHalted-Ends fuel [] app n h = h
  run_all-IsHalted-Ends fuel (x ∷ inputs) app n h =
      bind-Ends _ _ (run fuel x.cycle_time x.check_time x.result x.line app)
        (run-IsHalted fuel x app n.0 h)
        (λ r k.
          if_rule (Ends (λ (app' : App B F). IsHalted app'.master.controller.state)) r.0
            (run_all-IsHalted-Ends fuel inputs r.1 n.1 k) k)
