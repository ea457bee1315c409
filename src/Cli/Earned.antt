-- ===== src/Cli/Earned.antt =====
-- Which lines have been typed when examples/cli/ecat_application.cpp has come to a state.
use mo_driver_pc_ether_cat.Common.{
  ℕ, ◌≡◌, refl, ap, sym, ◌∙◌, subst, Bool, ◌||◌, Option, none, some, List, [], ◌∷◌, arith, inl, inr,
  Bool-cases, bind-Ends, Ends, Ends-map, if_rule,
}
use mo_driver_pc_ether_cat.Common.Text.{Text}
use mo_driver_pc_ether_cat.Soem.{Soem}
use mo_driver_pc_ether_cat.Axis.{Floats}
use mo_driver_pc_ether_cat.Controller.Actions.{Controller}
use mo_driver_pc_ether_cat.Controller.Requests.{Request, action_of, control-next}
use mo_driver_pc_ether_cat.Engine.Milestones.{Within, Within-later}
use mo_driver_pc_ether_cat.Api.{Impl, get_state}
use mo_driver_pc_ether_cat.Api.Lifecycle.{perform-control}
use mo_driver_pc_ether_cat.Api.Service.{service}
use mo_driver_pc_ether_cat.Api.Reports.{service-controller, work-state}
use mo_driver_pc_ether_cat.Cli.{ReadResult, run}
use mo_driver_pc_ether_cat.Cli.Log.{App}
use mo_driver_pc_ether_cat.Cli.Orders.{request_of, order, asks_exit, sets_level}
use mo_driver_pc_ether_cat.Cli.Handlers.{Obeys}
use mo_driver_pc_ether_cat.Cli.Obedience.{run-Obeys-Ends, run-local}
use mo_driver_pc_ether_cat.Cli.Histories.{Input, run_all}
use mo_driver_pc_ether_cat.Cli.Lines.{
  word_of, lines_to, typed, put_line, request_of-word_of, Within-next, Within-put_line,
  Within-typed,
}

module _ {B F : Type 0} ⦃soem : Soem B⦄ ⦃fl : Floats F⦄ where
  -- The lines of the state have been typed.
  abbrev IsEarned : List Text → Impl B F → Type 0
  IsEarned before i = Within (lines_to i.controller.state) before

  service-IsEarned :
      (before : List Text) (cycle_time check_time : ℕ) (i : Impl B F)
      → IsEarned before i
      → IsEarned before (service cycle_time check_time i)
  unfolding lines_to Within
  service-IsEarned before cycle_time check_time i w =
      subst (λ (c : Controller B F). Within (lines_to c.state) before)
        (sym (service-controller cycle_time check_time i))
        (elim (work-state cycle_time check_time i) [
          | inl e ↦ subst (λ s. Within (lines_to s) before) (sym e) w
          | inr e ↦ subst (λ s. Within (lines_to s) before) (sym e) tt
        ])

  Obeys-IsEarned :
      (before : List Text) (c : Text) (i i' : Impl B F) (o : Option Request)
      → request_of (get_state i) c ≡ o
      → Obeys o i i'
      → IsEarned before i
      → IsEarned (c ∷ before) i'
  unfolding Obeys
  Obeys-IsEarned before c i i' none e k w =
      Within-later (lines_to i'.controller.state) c before
        (subst (λ (j : Impl B F). IsEarned before j) (sym k) w)
  Obeys-IsEarned before c i i' (some r) e k w =
      let s = i.controller.state in
      let (ok, n) = control-next r i.controller in
      subst (λ u. Within (lines_to i'.controller.state) (u ∷ before))
        (sym (request_of-word_of s c r e))
        (subst (λ t. Within (lines_to t) (word_of (action_of r) ∷ before))
          (sym (
            ap (λ (j : Impl B F). j.controller.state) k
            ∙ ap (λ (d : Controller B F). d.state) (perform-control r i).0
            ∙ n))
          (Within-next s (action_of r) ok before w))

  idle-IsEarned :
      (before : List Text) (i i' : Impl B F)
      → Obeys none i i'
      → IsEarned before i
      → IsEarned before i'
  unfolding Obeys
  idle-IsEarned before i i' k w = subst (λ (j : Impl B F). IsEarned before j) (sym k) w

  order-IsEarned :
      (before : List Text) (result : ReadResult) (c : Text) (i i' : Impl B F)
      → Obeys (order result c (get_state i)) i i'
      → IsEarned before i
      → IsEarned (put_line result c before) i'
  unfolding order
  order-IsEarned before ReadResult.ok c i i' k w =
      Obeys-IsEarned before c i i' (request_of (get_state i) c) refl k w
  order-IsEarned before ReadResult.timeout c i i' k w = idle-IsEarned before i i' k w
  order-IsEarned before ReadResult.eof c i i' k w = idle-IsEarned before i i' k w
  order-IsEarned before ReadResult.error c i i' k w = idle-IsEarned before i i' k w

  run-IsEarned :
      (before : List Text) (fuel : ℕ) (x : Input) (app : App B F)
      → IsEarned before app.master
      → Ends
          (λ (r : Bool × App B F). IsEarned (put_line x.result x.line before) r.1.master)
          (run fuel x.cycle_time x.check_time x.result x.line app)
  run-IsEarned before fuel x app w =
      elim (Bool-cases (asks_exit x.result x.line || sets_level x.result x.line)) [
        | inl e ↦
            (let (app', r, k) = run-local fuel x.cycle_time x.check_time x.result x.line app e in
              subst
                (Ends
                  (λ (r : Bool × App B F). IsEarned (put_line x.result x.line before) r.1.master))
                (sym r)
                (subst (λ (j : Impl B F). IsEarned (put_line x.result x.line before) j) (sym k)
                  (Within-put_line x.result x.line (lines_to app.master.controller.state) before
                    w)))
        | inr e ↦
            (let served = service x.cycle_time x.check_time app.master in
              Ends-map
                (λ (r : Bool × App B F) k.
                  order-IsEarned before x.result x.line served r.1.master k.1
                    (service-IsEarned before x.cycle_time x.check_time app.master w))
                (run fuel x.cycle_time x.check_time x.result x.line app)
                (run-Obeys-Ends fuel x.cycle_time x.check_time x.result x.line app
                  (ground (arith, e)) (ground (arith, e))))
      ]

  pub run_all-IsEarned-Ends :
      (before : List Text) (fuel : ℕ) (inputs : List Input) (app : App B F)
      → IsEarned before app.master
      → Ends
          (λ (app' : App B F). IsEarned (typed inputs before) app'.master)
          (run_all fuel inputs app)
  unfolding run_all
  run_all-IsEarned-Ends before fuel [] app w = w
  run_all-IsEarned-Ends before fuel (x ∷ inputs) app w =
      let before' = put_line x.result x.line before in
      bind-Ends _ _ (run fuel x.cycle_time x.check_time x.result x.line app)
        (run-IsEarned before fuel x app w)
        (λ r k.
          if_rule (Ends (λ (app' : App B F). IsEarned (typed inputs before') app'.master)) r.0
            (run_all-IsEarned-Ends before' fuel inputs r.1 k)
            (Within-typed inputs (lines_to r.1.master.controller.state) before' k))
