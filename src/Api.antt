-- ===== src/Api.antt =====
-- src/core/mo_ecat_master.cpp: the public class, its private `Impl` and the callbacks. The trace of
-- the state lists the calls of the two callbacks, the last one first.
pub mod Gates
pub mod Lifecycle
pub mod Service
pub mod Public
pub mod Feedback
pub mod Reports
pub mod Objects
pub mod Messages
use mo_driver_pc_ether_cat.Common.{
  ℕ, Bool, true, false, Option, none, some, List, [], ◌∷◌, if◌then◌else◌,
}
use mo_driver_pc_ether_cat.Common.Text.{Text}
use mo_driver_pc_ether_cat.Types.{
  MasterState, MasterMode, TransitionStage, PrepareStage, MasterRuntimeState, runtime, LogSinkMode,
  EcMasterConfig,
}
use mo_driver_pc_ether_cat.Runtime.{is_run, is_valid_runtime_state}
use mo_driver_pc_ether_cat.Soem.{Soem}
use mo_driver_pc_ether_cat.Axis.{Floats}
use mo_driver_pc_ether_cat.Controller
use mo_driver_pc_ether_cat.Controller.Actions.{Controller}
use mo_driver_pc_ether_cat.Controller.States.{ControllerState}

unfoldable pub to_master_state : ControllerState → MasterState
to_master_state ControllerState.uninitialized = MasterState.uninitialized
to_master_state ControllerState.adapter_ready = MasterState.adapter_ready
to_master_state ControllerState.scanned = MasterState.scanned
to_master_state ControllerState.maintenance = MasterState.maintenance
to_master_state ControllerState.ready_to_run = MasterState.ready_to_run
to_master_state ControllerState.operational = MasterState.operational
to_master_state ControllerState.fault = MasterState.fault
to_master_state ControllerState.emergency_stop = MasterState.emergency_stop

unfoldable pub to_master_runtime_state : ControllerState → MasterRuntimeState
to_master_runtime_state ControllerState.uninitialized =
    runtime MasterMode.init TransitionStage.stable PrepareStage.none
to_master_runtime_state ControllerState.adapter_ready =
    runtime MasterMode.prepare TransitionStage.stable PrepareStage.adapter_ready
to_master_runtime_state ControllerState.scanned =
    runtime MasterMode.prepare TransitionStage.stable PrepareStage.topology_discovered
to_master_runtime_state ControllerState.maintenance =
    runtime MasterMode.prepare TransitionStage.stable PrepareStage.pre_op_maintenance
to_master_runtime_state ControllerState.ready_to_run =
    runtime MasterMode.prepare TransitionStage.stable PrepareStage.safe_op_ready
to_master_runtime_state ControllerState.operational =
    runtime MasterMode.run TransitionStage.stable PrepareStage.none
to_master_runtime_state ControllerState.fault =
    runtime MasterMode.fault TransitionStage.stable PrepareStage.none
to_master_runtime_state ControllerState.emergency_stop =
    runtime MasterMode.emergency_stop TransitionStage.stable PrepareStage.none

-- A call of on_state_changed or of on_runtime_state_changed.
pub data Event : Type 0 where
  state_changed : MasterState → MasterState → Event
  runtime_state_changed : MasterRuntimeState → Event

-- The sinks of the logger that ConfigureLogSink sets.
pub record LogSinks : Type 0 where
  pub console_enabled : Bool
  pub log_file : Text
  pub callback : Bool

-- Impl, the callbacks that the user has set, and what they have been told.
pub record Impl (B F : Type 0) : Type 0 where
  pub controller : Controller B F
  pub last_state_check_time : ℕ
  pub runtime_state_override : Option MasterRuntimeState
  pub sinks : LogSinks
  pub on_state_changed : Bool
  pub on_runtime_state_changed : Bool
  pub trace : List Event

unfoldable pub configure_log_sink : EcMasterConfig → LogSinks
configure_log_sink config = elim config.log_sink [
  | LogSinkMode.none ↦ record { console_enabled = false; log_file = []; callback = false }
  | LogSinkMode.file ↦ record {
    console_enabled = false;
    log_file = config.log_path;
    callback = false;
  }
  | LogSinkMode.callback ↦ record { console_enabled = false; log_file = []; callback = true }
  | LogSinkMode.file_and_callback ↦ record {
    console_enabled = false;
    log_file = config.log_path;
    callback = true;
  }
]

-- The fault state in place of a state that is not legal.
abbrev pub or_fallback : TransitionStage → MasterRuntimeState → MasterRuntimeState
or_fallback t s =
    if is_valid_runtime_state s then s else runtime MasterMode.fault t PrepareStage.none

abbrev pub entering : MasterMode → PrepareStage → MasterRuntimeState
entering mode stage = runtime mode TransitionStage.entering stage

module _ {B F : Type 0} where
  abbrev pub get_state : Impl B F → MasterState
  get_state i = to_master_state i.controller.state

  unfoldable pub current_runtime_state : Impl B F → MasterRuntimeState
  unfolding to_master_runtime_state
  current_runtime_state i = elim i.runtime_state_override [
    | some s ↦ or_fallback TransitionStage.stable s
    | none ↦ or_fallback TransitionStage.stable (to_master_runtime_state i.controller.state)
  ]

  unfoldable pub notify_runtime_state_changed : Impl B F → Impl B F
  unfolding current_runtime_state
  notify_runtime_state_changed i =
      if i.on_runtime_state_changed
      then record i { trace = runtime_state_changed (current_runtime_state i) ∷ i.trace }
      else i

  unfoldable pub begin_runtime_transition : MasterRuntimeState → Impl B F → Impl B F
  unfolding notify_runtime_state_changed
  begin_runtime_transition state i =
      notify_runtime_state_changed
        (record i { runtime_state_override = some (or_fallback TransitionStage.entering state) })

  unfoldable pub end_runtime_transition : Impl B F → Impl B F
  unfolding notify_runtime_state_changed
  end_runtime_transition i =
      notify_runtime_state_changed (record i { runtime_state_override = none })

  -- A transition round a call of the controller.
  unfoldable pub during :
      MasterRuntimeState → (Controller B F → Bool × Controller B F) → Impl B F → Bool × Impl B F
  unfolding begin_runtime_transition end_runtime_transition
  during state call i =
      let begun = begin_runtime_transition state i in
      let (ok, c) = call begun.controller in
      (ok, end_runtime_transition (record begun { controller = c }))

module _ {B F : Type 0} ⦃soem : Soem B⦄ ⦃fl : Floats F⦄ where
  unfoldable pub initialize_adapter : EcMasterConfig → Impl B F → Bool × Impl B F
  unfolding during configure_log_sink
  initialize_adapter config i =
      during (entering MasterMode.prepare PrepareStage.adapter_ready)
        (Controller.initialize_adapter config) (record i { sinks = configure_log_sink config })

  unfoldable pub scan : Impl B F → Bool × Impl B F
  unfolding during
  scan = during (entering MasterMode.prepare PrepareStage.topology_discovered) Controller.scan

  unfoldable pub enter_maintenance : Impl B F → Bool × Impl B F
  unfolding during
  enter_maintenance =
      during (entering MasterMode.prepare PrepareStage.pre_op_maintenance)
        Controller.enter_maintenance

  unfoldable pub prepare_run : Impl B F → Bool × Impl B F
  unfolding during
  prepare_run =
      during (entering MasterMode.prepare PrepareStage.safe_op_ready) Controller.prepare_run

  unfoldable pub start_operation : Impl B F → Bool × Impl B F
  unfolding during
  start_operation = during (entering MasterMode.run PrepareStage.none) Controller.start_operation

  unfoldable pub back_to_maintenance : Impl B F → Bool × Impl B F
  unfolding during current_runtime_state
  back_to_maintenance i =
      during
        (if is_run (current_runtime_state i).mode
          then runtime MasterMode.run TransitionStage.exiting PrepareStage.none
          else entering MasterMode.prepare PrepareStage.pre_op_maintenance)
        Controller.back_to_maintenance i

  -- Stop, RequestFault and RequestEmergencyStop return nothing; `true` stands for the return.
  unfoldable pub stop : Impl B F → Impl B F
  unfolding during current_runtime_state
  stop i =
      (during (record (current_runtime_state i) { transition = TransitionStage.exiting })
        (λ c. (true, Controller.stop c)) i).1

  unfoldable pub request_fault : Impl B F → Impl B F
  unfolding during
  request_fault i =
      (during (entering MasterMode.fault PrepareStage.none)
        (λ c. (true, Controller.request_fault c)) i).1

  unfoldable pub request_emergency_stop : Impl B F → Impl B F
  unfolding during
  request_emergency_stop i =
      (during (entering MasterMode.emergency_stop PrepareStage.none)
        (λ c. (true, Controller.request_emergency_stop c)) i).1

  -- The destructor: DisableLogCallback, and the members after it.
  unfoldable pub destroy : Impl B F → Impl B F
  unfolding Controller.destroy
  destroy i = record i {
    sinks = record (i.sinks) { callback = false };
    controller = Controller.destroy i.controller;
  }
