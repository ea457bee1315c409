-- ===== src/Controller/States.antt =====
-- The states and actions of src/ec_controller/ec_controller.h, and the table kAllowedActions.
use mo_driver_pc_ether_cat.Common.{Bool, true, false, ◌||◌, List, [], ◌∷◌}

pub data ControllerState : Type 0 where
  uninitialized adapter_ready scanned maintenance ready_to_run operational fault emergency_stop :
      ControllerState

pub data MasterAction : Type 0 where
  initialize_adapter scan_slaves enter_maintenance prepare_run start_operation : MasterAction
  back_to_maintenance stop request_fault request_emergency_stop : MasterAction

-- The place in the declaration, by which enumerators are compared.
abbrev pub same_state : ControllerState → ControllerState → Bool
same_state ControllerState.uninitialized ControllerState.uninitialized = true
same_state ControllerState.adapter_ready ControllerState.adapter_ready = true
same_state ControllerState.scanned ControllerState.scanned = true
same_state ControllerState.maintenance ControllerState.maintenance = true
same_state ControllerState.ready_to_run ControllerState.ready_to_run = true
same_state ControllerState.operational ControllerState.operational = true
same_state ControllerState.fault ControllerState.fault = true
same_state ControllerState.emergency_stop ControllerState.emergency_stop = true
same_state _ _ = false

abbrev pub same_action : MasterAction → MasterAction → Bool
same_action MasterAction.initialize_adapter MasterAction.initialize_adapter = true
same_action MasterAction.scan_slaves MasterAction.scan_slaves = true
same_action MasterAction.enter_maintenance MasterAction.enter_maintenance = true
same_action MasterAction.prepare_run MasterAction.prepare_run = true
same_action MasterAction.start_operation MasterAction.start_operation = true
same_action MasterAction.back_to_maintenance MasterAction.back_to_maintenance = true
same_action MasterAction.stop MasterAction.stop = true
same_action MasterAction.request_fault MasterAction.request_fault = true
same_action MasterAction.request_emergency_stop MasterAction.request_emergency_stop = true
same_action _ _ = false

unfoldable pub allowed_actions : ControllerState → List MasterAction
allowed_actions ControllerState.uninitialized = MasterAction.initialize_adapter ∷ []
allowed_actions ControllerState.adapter_ready = MasterAction.scan_slaves ∷ MasterAction.stop ∷ []
allowed_actions ControllerState.scanned = MasterAction.enter_maintenance ∷ MasterAction.stop ∷ []
allowed_actions ControllerState.maintenance = MasterAction.prepare_run ∷ MasterAction.stop ∷ []
allowed_actions ControllerState.ready_to_run =
    MasterAction.start_operation ∷ MasterAction.back_to_maintenance ∷ MasterAction.stop ∷ []
allowed_actions ControllerState.operational =
    MasterAction.back_to_maintenance ∷ MasterAction.stop ∷ []
allowed_actions ControllerState.fault = MasterAction.stop ∷ []
allowed_actions ControllerState.emergency_stop = MasterAction.stop ∷ []

-- std::find over the actions of a state.
unfoldable pub lists_action : List MasterAction → MasterAction → Bool
lists_action [] a = false
lists_action (b ∷ bs) a = same_action b a || lists_action bs a

unfoldable pub is_allowed : ControllerState → MasterAction → Bool
unfolding allowed_actions lists_action
is_allowed s a = lists_action (allowed_actions s) a
