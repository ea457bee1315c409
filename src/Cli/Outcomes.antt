-- ===== src/Cli/Outcomes.antt =====
-- What calls of Run, and whole runs of main, of examples/cli come to, on a bus whose objects the walks
-- can get through.
use mo_driver_pc_ether_cat.Common.{
  All, ℕ, ◌≡◌, refl, true, false, Option, none, some, List, [], ◌∷◌, is_some, Ends, if_rule,
}
use mo_driver_pc_ether_cat.Common.Text.{Text, codes}
use mo_driver_pc_ether_cat.Soem.{Soem}
use mo_driver_pc_ether_cat.Axis.{Floats}
use mo_driver_pc_ether_cat.Controller.States.{ControllerState}
use mo_driver_pc_ether_cat.Controller.Invariant.{IsWellFormed}
use mo_driver_pc_ether_cat.Engine.Milestones.{Within}
use mo_driver_pc_ether_cat.Cli.{run, initialize}
use mo_driver_pc_ether_cat.Cli.Log.{App, log_info, running}
use mo_driver_pc_ether_cat.Cli.Histories.{Input, line_input, run_all}
use mo_driver_pc_ether_cat.Cli.Exits.{IsIdle, run_all-stop-Ends}
use mo_driver_pc_ether_cat.Cli.Main.{main, main_config, IsStopped, main-IsStopped-Ends}
use mo_driver_pc_ether_cat.Cli.Lines.{lines_to, typed}
use mo_driver_pc_ether_cat.Cli.Earned.{run_all-IsEarned-Ends}
use mo_driver_pc_ether_cat.Cli.Halting.{is_stop, run_all-IsHalted-Ends}
use mo_driver_pc_ether_cat.Engine.History.{IsHalted}
use mo_driver_pc_ether_cat.Cli.Returns.{IsBounded, is_some-bind, run-returns}

-- A result that is there, with the property that holds where it is.
reached {ℓ κ} :
    {A : Type ℓ} {P : A → Type κ} (o : Option A)
    → is_some o ≡ true
    → Ends P o
    → (a : A) × (o ≡ some a) × P a
reached none h k = absurd cc
reached (some a) h k = (a, refl, k)

module _ {B F : Type 0} ⦃soem : Soem B⦄ ⦃fl : Floats F⦄ where
  run_all-returns :
      (inputs : List Input) (app : App B F)
      → IsBounded soem
      → is_some (run_all 256 inputs app) ≡ true
  unfolding run_all
  run_all-returns [] app h = refl
  run_all-returns (x ∷ inputs) app h =
      is_some-bind _ (run 256 x.cycle_time x.check_time x.result x.line app)
        (run-returns x.cycle_time x.check_time x.result x.line app h)
        (λ r.
          if_rule (λ (o : Option (App B F)). is_some o ≡ true) r.0 (run_all-returns inputs r.1 h)
            refl)

  main-returns :
      (first : Option Text) (inputs : List Input) (app : App B F)
      → IsBounded soem
      → is_some (main 256 first inputs app) ≡ true
  unfolding main
  main-returns none inputs app h = refl
  main-returns (some interface) inputs app h =
      let (good, app') = initialize (main_config interface) app in
      if_rule (λ (o : Option (ℕ × App B F)). is_some o ≡ true) good
        (is_some-bind _ (run_all 256 inputs (log_info running app'))
          (run_all-returns inputs (log_info running app') h) (λ ended. refl))
        refl

  -- Where no object tells of 255 parts, and from a state that takes no lines: when the loop of main
  -- ends, the lines that its state takes have been typed one after the other, with any others in
  -- between. The master is operational only after scan, config, prepare and start.
  pub run_all-lines_to :
      (inputs : List Input) (app : App B F)
      → IsBounded soem
      → lines_to app.master.controller.state ≡ []
      → (app' : App B F) × (run_all 256 inputs app ≡ some app')
        × Within (lines_to app'.master.controller.state) (typed inputs [])
  unfolding Within
  run_all-lines_to inputs app b e =
      reached (run_all 256 inputs app) (run_all-returns inputs app b)
        (run_all-IsEarned-Ends [] 256 inputs app (rw e tt))

  -- Where no object tells of 255 parts: the command stop, given to a well-formed controller with no
  -- transition under way, in whatever state, brings the class to uninitialised, where all further
  -- inputs leave it; the program has no command that opens the adapter again.
  pub run_all-stop :
      (cycle_time check_time : ℕ) (inputs : List Input) (app : App B F)
      → IsBounded soem
      → IsWellFormed app.master.controller
      → app.master.runtime_state_override ≡ none
      → (app' : App B F) × (run_all 256
            (line_input cycle_time check_time (codes "stop") ∷ inputs)
            app
          ≡ some app')
        × IsIdle app'.master
  run_all-stop cycle_time check_time inputs app b w h =
      let all = line_input cycle_time check_time (codes "stop") ∷ inputs in
      reached (run_all 256 all app) (run_all-returns all app b)
        (run_all-stop-Ends 256 cycle_time check_time inputs app w h)

  -- Where no object tells of 255 parts: main, on a controller that is well-formed and
  -- uninitialised, returns on every argument and all inputs, and the controller is again
  -- uninitialised, with the adapter closed and no node.
  pub main-IsStopped :
      (first : Option Text) (inputs : List Input) (app : App B F)
      → IsBounded soem
      → IsWellFormed app.master.controller
      → app.master.controller.state ≡ ControllerState.uninitialized
      → (r : ℕ × App B F) × (main 256 first inputs app ≡ some r) × IsStopped r.1.master.controller
  main-IsStopped first inputs app b w e =
      reached (main 256 first inputs app) (main-returns first inputs app b)
        (main-IsStopped-Ends 256 first inputs app w e)

  -- Where no object tells of 255 parts: a program whose controller is in fault or in emergency stop
  -- runs to its end on inputs among which there is no command stop, and the controller is then
  -- still in one of the two.
  pub run_all-IsHalted :
      (inputs : List Input) (app : App B F)
      → IsBounded soem
      → All (λ x. is_stop x ≡ false) inputs
      → IsHalted app.master.controller.state
      → (app' : App B F) × (run_all 256 inputs app ≡ some app')
        × IsHalted app'.master.controller.state
  run_all-IsHalted inputs app b n h =
      reached (run_all 256 inputs app) (run_all-returns inputs app b)
        (run_all-IsHalted-Ends 256 inputs app n h)
