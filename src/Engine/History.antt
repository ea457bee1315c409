-- ===== src/Engine/History.antt =====
-- Whole runs of a controller: the methods of src/ec_controller/ec_controller.cpp, the engine of
-- src/cyclic/process_data_engine.cpp and everything else that talks to the bus, in any order.
use mo_driver_pc_ether_cat.Common.{ℕ, ◌≡◌, ◌≢◌, sym, subst, Bool, ◌⊎◌, List, [], ◌∷◌, arith}
use mo_driver_pc_ether_cat.Soem.{Port, Soem}
use mo_driver_pc_ether_cat.Axis.{Floats}
use mo_driver_pc_ether_cat.Controller.Actions.{Controller, with_master}
use mo_driver_pc_ether_cat.Controller.States.{ControllerState, MasterAction}
use mo_driver_pc_ether_cat.Controller.Machine.{next}
use mo_driver_pc_ether_cat.Controller.Invariant.{
  IsWellFormed, new_controller, new_controller-IsWellFormed,
}
use mo_driver_pc_ether_cat.Controller.Requests.{
  Request, control, action_of, control-next, control-IsWellFormed,
}
use mo_driver_pc_ether_cat.Engine.{run_once, check_slave_states}
use mo_driver_pc_ether_cat.Engine.Watch.{
  run_once-IsWellFormed, check_slave_states-IsWellFormed, run_once-state, check_slave_states-state,
}

-- What can happen between two looks at the controller. `traffic` is any other use of the bus (an
-- SDO, a diagnosis, a reading), which may leave the port in any condition.
pub data Occurrence (B : Type 0) : Type 0 where
  request : Request → Occurrence B
  cycle : ℕ → Occurrence B
  watch : (now last : ℕ) → Occurrence B
  traffic : Port B → Occurrence B

module _ {B : Type 0} where
  -- The actions that were requested, the last one first.
  unfoldable pub actions_of : List (Occurrence B) → List MasterAction
  unfolding action_of
  actions_of [] = []
  actions_of (request r ∷ os) = action_of r ∷ actions_of os
  actions_of (_ ∷ os) = actions_of os

  -- No method Stop among them.
  unfoldable pub Unstopped : List (Occurrence B) → Type 0
  Unstopped [] = Unit
  Unstopped (request r ∷ os) = (action_of r ≢ MasterAction.stop) × Unstopped os
  Unstopped (_ ∷ os) = Unstopped os

module _ {B F : Type 0} ⦃soem : Soem B⦄ ⦃fl : Floats F⦄ where
  abbrev pub happen : Occurrence B → Controller B F → Controller B F
  happen (request r) c = control r c
  happen (cycle now) c = run_once now c
  happen (watch now last) c = (check_slave_states now last c).1
  happen (traffic p) c = with_master c (record (c.master) { port = p })

  -- The controller after a history, whose last occurrence stands first.
  unfoldable pub after : List (Occurrence B) → Controller B F → Controller B F
  after [] c = c
  after (o ∷ os) c = happen o (after os c)

  traffic-IsWellFormed :
      (p : Port B) (c : Controller B F)
      → IsWellFormed c
      → IsWellFormed (with_master c (record (c.master) { port = p }))
  traffic-IsWellFormed p c w = ground arith

  pub after-kept :
      (os : List (Occurrence B)) (c : Controller B F) → IsWellFormed c → IsWellFormed (after os c)
  unfolding after
  after-kept [] c w = w
  after-kept (request r ∷ os) c w = control-IsWellFormed r (after os c) (after-kept os c w)
  after-kept (cycle now ∷ os) c w = run_once-IsWellFormed now (after os c) (after-kept os c w)
  after-kept (watch now last ∷ os) c w =
      check_slave_states-IsWellFormed now last (after os c) (after-kept os c w)
  after-kept (traffic p ∷ os) c w = traffic-IsWellFormed p (after os c) (after-kept os c w)

  -- Whatever happens to a new controller, in whatever order, it stays well-formed: the adapter is
  -- closed in `uninitialized` and open from `adapter_ready` to `operational`, there are no nodes
  -- before `maintenance` and from there on one for each slave, all configured once the run is
  -- prepared, and every node has buffers of the sizes that its mapping asks for.
  pub after-IsWellFormed :
      (port : Port B) (os : List (Occurrence B))
      → IsWellFormed (after os (new_controller {F = F} port))
  after-IsWellFormed port os =
      after-kept os (new_controller port) (new_controller-IsWellFormed port)

-- The states that only Stop leaves.
abbrev pub IsHalted : ControllerState → Type 0
IsHalted s = (s ≡ ControllerState.fault) ⊎ (s ≡ ControllerState.emergency_stop)

next-IsHalted :
    (s : ControllerState) (a : MasterAction) (ok : Bool)
    → IsHalted s
    → a ≢ MasterAction.stop
    → IsHalted (next s a ok)
unfolding next
next-IsHalted s a ok h n = ground arith

module _ {B F : Type 0} ⦃soem : Soem B⦄ ⦃fl : Floats F⦄ where
  -- Once in `fault` or `emergency_stop`, the controller stays in one of the two, whatever is
  -- called and whatever the bus does, until Stop is called.
  pub after-IsHalted :
      (os : List (Occurrence B)) (c : Controller B F)
      → IsHalted c.state
      → Unstopped os
      → IsHalted (after os c).state
  unfolding after Unstopped
  after-IsHalted [] c h u = h
  after-IsHalted (request r ∷ os) c h u =
      let (ok, e) = control-next r (after os c) in
      subst IsHalted (sym e)
        (next-IsHalted (after os c).state (action_of r) ok (after-IsHalted os c h u.1) u.0)
  after-IsHalted (cycle now ∷ os) c h u =
      subst IsHalted (sym (run_once-state now (after os c))) (after-IsHalted os c h u)
  after-IsHalted (watch now last ∷ os) c h u =
      ground (arith, check_slave_states-state now last (after os c), after-IsHalted os c h u)
  after-IsHalted (traffic p ∷ os) c h u = after-IsHalted os c h u
