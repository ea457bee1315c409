-- ===== src/Cli/Histories.antt =====
-- Whole runs of examples/cli/ecat_application.cpp, against those of the controller.
use mo_driver_pc_ether_cat.Common.{
  ℕ, ◌≡◌, refl, ap, sym, ◌∙◌, subst, Bool, ◌||◌, Option, none, some, List, [], ◌∷◌, ◌++◌, arith,
  if◌then◌else◌, inl, inr, Bool-cases, bind-Ends, Ends, Ends-map, if_rule,
}
use mo_driver_pc_ether_cat.Common.Text.{Text}
use mo_driver_pc_ether_cat.Runtime.{should_check_pre_op_slaves, can_run_process_data}
use mo_driver_pc_ether_cat.Soem.{Soem}
use mo_driver_pc_ether_cat.Axis.{Floats}
use mo_driver_pc_ether_cat.Controller.Actions.{Controller}
use mo_driver_pc_ether_cat.Controller.Requests.{Request}
use mo_driver_pc_ether_cat.Engine.History.{
  Occurrence, request, cycle, watch, traffic, after, happen,
}
use mo_driver_pc_ether_cat.Api.{Impl, get_state, current_runtime_state}
use mo_driver_pc_ether_cat.Api.Lifecycle.{perform-control}
use mo_driver_pc_ether_cat.Api.Service
use mo_driver_pc_ether_cat.Api.Service.{service, work}
use mo_driver_pc_ether_cat.Api.Reports.{service-controller}
use mo_driver_pc_ether_cat.Cli.{ReadResult, run}
use mo_driver_pc_ether_cat.Cli.Log.{App}
use mo_driver_pc_ether_cat.Cli.Orders.{order, asks_exit, sets_level}
use mo_driver_pc_ether_cat.Cli.Handlers.{Obeys}
use mo_driver_pc_ether_cat.Cli.Obedience.{run-Obeys-Ends, run-local}

-- One call of Run: the times of its service, the result of the reader and the text.
pub record Input : Type 0 where
  pub cycle_time : ℕ
  pub check_time : ℕ
  pub result : ReadResult
  pub line : Text

-- A line that is read, at the times of the service.
abbrev pub line_input : (cycle_time check_time : ℕ) → Text → Input
line_input cycle_time check_time line = record {
  cycle_time = cycle_time;
  check_time = check_time;
  result = ReadResult.ok;
  line = line;
}

module _ {B F : Type 0} ⦃soem : Soem B⦄ ⦃fl : Floats F⦄ where
  -- The loop of main on a list of inputs: it ends when Run returns false.
  unfoldable pub run_all : (fuel : ℕ) → List Input → App B F → Option (App B F)
  unfolding run
  run_all fuel [] app = some app
  run_all fuel (x ∷ inputs) app = elim (run fuel x.cycle_time x.check_time x.result x.line app) [
    | none ↦ none
    | some (going, app') ↦ (if going then run_all fuel inputs app' else some app')
  ]

  -- The controller has got from one to the other by methods, cycles, checks and traffic.
  abbrev pub IsHistory : Controller B F → Controller B F → Type 0
  IsHistory c c' = (os : List (Occurrence B)) × (c' ≡ after os c)

  after-append :
      (os ps : List (Occurrence B)) (c : Controller B F)
      → after (os ++ ps) c ≡ after os (after ps c)
  unfolding after
  after-append [] ps c = refl
  after-append (o ∷ os) ps c = ap (happen o) (after-append os ps c)

  IsHistory-trans :
      (c c' c'' : Controller B F) → IsHistory c c' → IsHistory c' c'' → IsHistory c c''
  IsHistory-trans c c' c'' (os, e) (ps, e') =
      (ps ++ os, e' ∙ ap (after ps) e ∙ sym (after-append ps os c))

  work-IsHistory :
      (cycle_time check_time : ℕ) (i : Impl B F)
      → IsHistory i.controller (work cycle_time check_time i).controller
  unfolding work Service.watch after
  work-IsHistory cycle_time check_time i =
      let last = i.last_state_check_time in
      elim (Bool-cases (should_check_pre_op_slaves (current_runtime_state i))) [
        | inl e ↦ (watch check_time last ∷ [], ground (arith, e))
        | inr e ↦ (elim (Bool-cases (can_run_process_data (current_runtime_state i))) [
          | inl e' ↦ (watch check_time last ∷ cycle cycle_time ∷ [], ground (arith, e, e'))
          | inr e' ↦ ([], ground (arith, e, e'))
        ])
      ]

  service-IsHistory :
      (cycle_time check_time : ℕ) (i : Impl B F)
      → IsHistory i.controller (service cycle_time check_time i).controller
  service-IsHistory cycle_time check_time i =
      let (os, e) = work-IsHistory cycle_time check_time i in
      (os, service-controller cycle_time check_time i ∙ e)

  Obeys-IsHistory :
      (o : Option Request) (i i' : Impl B F) → Obeys o i i' → IsHistory i.controller i'.controller
  unfolding Obeys after
  Obeys-IsHistory none i i' h =
      (traffic i'.controller.master.port ∷ [], ap (λ (j : Impl B F). j.controller) h)
  Obeys-IsHistory (some r) i i' h =
      (request r ∷ [], ap (λ (j : Impl B F). j.controller) h ∙ (perform-control r i).0)

  run-IsHistory :
      (fuel : ℕ) (x : Input) (app : App B F)
      → Ends
          (λ (r : Bool × App B F). IsHistory app.master.controller r.1.master.controller)
          (run fuel x.cycle_time x.check_time x.result x.line app)
  run-IsHistory fuel x app =
      elim (Bool-cases (asks_exit x.result x.line || sets_level x.result x.line)) [
        | inl e ↦
            (let (app', r, k) = run-local fuel x.cycle_time x.check_time x.result x.line app e in
              subst
                (Ends
                  (λ (r : Bool × App B F). IsHistory app.master.controller r.1.master.controller))
                (sym r) ([], ap (λ (j : Impl B F). j.controller) k ∙ unfold after in refl))
        | inr e ↦
            (let served = service x.cycle_time x.check_time app.master in
              Ends-map
                (λ (r : Bool × App B F) h.
                  IsHistory-trans app.master.controller served.controller r.1.master.controller
                    (service-IsHistory x.cycle_time x.check_time app.master)
                    (Obeys-IsHistory (order x.result x.line (get_state served)) served r.1.master
                      h.1))
                (run fuel x.cycle_time x.check_time x.result x.line app)
                (run-Obeys-Ends fuel x.cycle_time x.check_time x.result x.line app
                  (ground (arith, e)) (ground (arith, e))))
      ]

  -- Whatever is typed, the controller under the program has gone through a history of methods,
  -- cycles, checks and traffic on the bus.
  pub run_all-IsHistory-Ends :
      (fuel : ℕ) (inputs : List Input) (app : App B F)
      → Ends
          (λ (app' : App B F). IsHistory app.master.controller app'.master.controller)
          (run_all fuel inputs app)
  unfolding run_all
  run_all-IsHistory-Ends fuel [] app = ([], unfold after in refl)
  run_all-IsHistory-Ends fuel (x ∷ inputs) app =
      bind-Ends _ _ (run fuel x.cycle_time x.check_time x.result x.line app)
        (run-IsHistory fuel x app)
        (λ r h.
          if_rule
            (Ends (λ (app' : App B F). IsHistory app.master.controller app'.master.controller)) r.0
            (Ends-map
              (λ (app' : App B F) k.
                IsHistory-trans app.master.controller r.1.master.controller app'.master.controller h
                  k)
              (run_all fuel inputs r.1) (run_all-IsHistory-Ends fuel inputs r.1))
            h)
