-- ===== src/Controller/Requests.antt =====
-- The public methods of src/ec_controller/ec_controller.cpp that change the life cycle, as data.
use mo_driver_pc_ether_cat.Common.{
  ◌≡◌, refl, ap, sym, subst, ◌∙◌, Bool, arith, Bool-cases, inl, inr,
}
use mo_driver_pc_ether_cat.Types.{EcMasterConfig}
use mo_driver_pc_ether_cat.Soem.{Soem}
use mo_driver_pc_ether_cat.Axis.{Floats}
use mo_driver_pc_ether_cat.Controller
use mo_driver_pc_ether_cat.Controller.{dispatch}
use mo_driver_pc_ether_cat.Controller.Actions.{Controller}
use mo_driver_pc_ether_cat.Controller.States.{ControllerState, MasterAction, same_state, is_allowed}
use mo_driver_pc_ether_cat.Controller.Machine.{next, dispatch-next}
use mo_driver_pc_ether_cat.Controller.Invariant.{IsWellFormed}
use mo_driver_pc_ether_cat.Controller.Preserved.{dispatch-IsWellFormed}
use mo_driver_pc_ether_cat.Controller.Wrappers.{wrappers-dispatch}

-- The calls that change the life cycle.
pub data Request : Type 0 where
  initialize_adapter : EcMasterConfig → Request
  scan enter_maintenance prepare_run start_operation back_to_maintenance stop : Request
  request_fault request_emergency_stop : Request

-- The action that a method dispatches.
unfoldable pub action_of : Request → MasterAction
action_of (initialize_adapter config) = MasterAction.initialize_adapter
action_of scan = MasterAction.scan_slaves
action_of enter_maintenance = MasterAction.enter_maintenance
action_of prepare_run = MasterAction.prepare_run
action_of start_operation = MasterAction.start_operation
action_of back_to_maintenance = MasterAction.back_to_maintenance
action_of stop = MasterAction.stop
action_of request_fault = MasterAction.request_fault
action_of request_emergency_stop = MasterAction.request_emergency_stop

module _ {B F : Type 0} ⦃soem : Soem B⦄ ⦃fl : Floats F⦄ where
  -- The controller after the call of a method.
  unfoldable pub control : Request → Controller B F → Controller B F
  control (initialize_adapter config) c = (Controller.initialize_adapter config c).1
  control scan c = (Controller.scan c).1
  control enter_maintenance c = (Controller.enter_maintenance c).1
  control prepare_run c = (Controller.prepare_run c).1
  control start_operation c = (Controller.start_operation c).1
  control back_to_maintenance c = (Controller.back_to_maintenance c).1
  control stop c = Controller.stop c
  control request_fault c = Controller.request_fault c
  control request_emergency_stop c = Controller.request_emergency_stop c

module _ {B F : Type 0} ⦃soem : Soem B⦄ ⦃fl : Floats F⦄ where
  -- Each method is the dispatch of its action, on a controller that differs in the configuration
  -- at most.
  pub control-dispatch :
      (r : Request) (c : Controller B F)
      → (config : EcMasterConfig) × (control r c
          ≡ (dispatch (action_of r) (record c { config = config })).1)
  unfolding control action_of Controller.initialize_adapter Controller.request_fault
      Controller.request_emergency_stop dispatch is_allowed
  control-dispatch (initialize_adapter config) c =
      elim (Bool-cases (same_state c.state ControllerState.uninitialized)) [
        | inl e ↦ (config, ground (arith, e))
        | inr e ↦ (c.config, ground (arith, e))
      ]
  control-dispatch scan c = (c.config, ap (λ r. r.1) (wrappers-dispatch c).0)
  control-dispatch enter_maintenance c = (c.config, ap (λ r. r.1) (wrappers-dispatch c).1)
  control-dispatch prepare_run c = (c.config, ap (λ r. r.1) (wrappers-dispatch c).2)
  control-dispatch start_operation c = (c.config, ap (λ r. r.1) (wrappers-dispatch c).3)
  control-dispatch back_to_maintenance c = (c.config, ap (λ r. r.1) (wrappers-dispatch c).4)
  control-dispatch stop c = (c.config, (wrappers-dispatch c).5)
  control-dispatch request_fault c = (c.config, refl)
  control-dispatch request_emergency_stop c = (c.config, refl)

  -- Each method is a step of the documented machine.
  pub control-next :
      (r : Request) (c : Controller B F)
      → (ok : Bool) × ((control r c).state ≡ next c.state (action_of r) ok)
  control-next r c =
      let (config, e) = control-dispatch r c in
      let c' : Controller B F = record c { config = config } in
      ((dispatch (action_of r) c').0, ap (λ d. d.state) e ∙ dispatch-next (action_of r) c')

  reconfigured :
      (config : EcMasterConfig) (c : Controller B F)
      → IsWellFormed c
      → IsWellFormed (record c { config = config })
  reconfigured config c w = ground arith

  -- Each method keeps a well-formed controller well-formed, whatever it returns.
  pub control-IsWellFormed :
      (r : Request) (c : Controller B F) → IsWellFormed c → IsWellFormed (control r c)
  control-IsWellFormed r c w =
      let (config, e) = control-dispatch r c in
      let c' : Controller B F = record c { config = config } in
      subst IsWellFormed (sym e) (dispatch-IsWellFormed (action_of r) c' (reconfigured config c w))
