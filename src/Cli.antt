-- ===== src/Cli.antt =====
-- examples/cli/ecat_application.cpp: the command line program round the public class. A command
-- line is `none` where nothing could be read.
pub mod Words
pub mod Numbers
pub mod Log
pub mod Params
pub mod Commands
pub mod Traffic
pub mod Orders
pub mod Handlers
pub mod Obedience
pub mod Histories
pub mod Exits
pub mod Halting
pub mod Library
pub mod Main
pub mod Printed
pub mod Returns
pub mod Stdin
pub mod Lines
pub mod Earned
pub mod Outcomes
use mo_driver_pc_ether_cat.Common.{ℕ, Bool, true, false, ◌||◌, Option, none, some, if◌then◌else◌}
use mo_driver_pc_ether_cat.Common.Text.{Text, codes, text_eq, starts_with}
use mo_driver_pc_ether_cat.Types.{MasterState, EcMasterConfig}
use mo_driver_pc_ether_cat.Soem.{Soem}
use mo_driver_pc_ether_cat.Axis.{Floats}
use mo_driver_pc_ether_cat.Api
use mo_driver_pc_ether_cat.Api.{Impl, get_state}
use mo_driver_pc_ether_cat.Api.Service.{service}
use mo_driver_pc_ether_cat.Cli.Words.{words}
use mo_driver_pc_ether_cat.Cli.Log.{
  App, Message, log_info, log_error, eof_detected, exit_requested, only_stop_allowed, command,
  scan_failed, maintenance_failed, prepare_failed, start_failed, back_failed, not_allowed,
  unknown_command,
}
use mo_driver_pc_ether_cat.Cli.Commands.{
  on_help, on_inspect, on_log_level, on_diagnose, on_param, on_pdo,
}

-- examples/cli/command_reader.h
pub data ReadResult : Type 0 where
  ok timeout eof error : ReadResult

module _ {B F : Type 0} ⦃soem : Soem B⦄ ⦃fl : Floats F⦄ where
  unfoldable pub initialize : EcMasterConfig → App B F → Bool × App B F
  unfolding Api.initialize_adapter
  initialize config app =
      let (good, i) = Api.initialize_adapter config app.master in (good, record app { master = i })

  unfoldable pub shutdown : App B F → App B F
  unfolding Api.stop
  shutdown app = record app { master = Api.stop app.master }

  -- LOG_INFO << "Command: ..."; a call of the class; LOG_ERROR << `failure` where it returns false.
  unfoldable pub call : Text → (Impl B F → Bool × Impl B F) → Message → App B F → App B F
  call text method failure app =
      let told = log_info (command text) app in
      let (good, i) = method told.master in
      let called : App B F = record told { master = i } in
      if good then called else log_error failure called

  unfoldable pub call_stop : App B F → App B F
  unfolding shutdown
  call_stop app = shutdown (log_info (command (codes "stop")) app)

  unfoldable pub handle_adapter_ready_state : Option Text → App B F → App B F
  unfolding call call_stop
  handle_adapter_ready_state none app = app
  handle_adapter_ready_state (some c) app =
      if text_eq c (codes "scan")
      then call c Api.scan scan_failed app
      else if text_eq c (codes "stop")
      then call_stop app
      else if text_eq c (codes "help")
      then on_help app
      else log_error (not_allowed c MasterState.adapter_ready) app

  unfoldable pub handle_scanned_state : Option Text → App B F → App B F
  unfolding call call_stop
  handle_scanned_state none app = app
  handle_scanned_state (some c) app =
      if text_eq c (codes "config")
      then call c Api.enter_maintenance maintenance_failed app
      else if text_eq c (codes "stop")
      then call_stop app
      else if text_eq c (codes "help")
      then on_help app
      else log_error (not_allowed c MasterState.scanned) app

  unfoldable pub handle_maintenance_state : (fuel : ℕ) → Option Text → App B F → Option (App B F)
  unfolding call call_stop on_diagnose on_param on_inspect on_pdo
  handle_maintenance_state fuel none app = some app
  handle_maintenance_state fuel (some c) app =
      if text_eq c (codes "diagnose")
      then some (on_diagnose (log_info (command c) app))
      else if starts_with (codes "param") c
      then some (on_param (words c) app)
      else if text_eq c (codes "inspect")
      then some (on_inspect (log_info (command c) app))
      else if starts_with (codes "pdo") c
      then on_pdo fuel (words c) app
      else if text_eq c (codes "prepare")
      then some (call c Api.prepare_run prepare_failed app)
      else if text_eq c (codes "stop")
      then some (call_stop app)
      else if text_eq c (codes "help")
      then some (on_help app)
      else some (log_error (unknown_command c) app)

  unfoldable pub handle_ready_to_run_state : Option Text → App B F → App B F
  unfolding call call_stop
  handle_ready_to_run_state none app = app
  handle_ready_to_run_state (some c) app =
      if text_eq c (codes "start")
      then call c Api.start_operation start_failed app
      else if text_eq c (codes "back")
      then call c Api.back_to_maintenance back_failed app
      else if text_eq c (codes "stop")
      then call_stop app
      else if text_eq c (codes "help")
      then on_help app
      else log_error (not_allowed c MasterState.ready_to_run) app

  unfoldable pub handle_operational_state : Option Text → App B F → App B F
  unfolding call_stop
  handle_operational_state none app = app
  handle_operational_state (some c) app = if text_eq c (codes "stop") then call_stop app else app

  unfoldable pub handle_error_state : Option Text → App B F → App B F
  unfolding call_stop
  handle_error_state none app = app
  handle_error_state (some c) app =
      if text_eq c (codes "stop") then call_stop app else log_error only_stop_allowed app

  -- The `switch` of Run.
  unfoldable pub handle_in : (fuel : ℕ) → MasterState → Option Text → App B F → Option (App B F)
  unfolding handle_adapter_ready_state handle_scanned_state handle_maintenance_state
      handle_ready_to_run_state handle_operational_state handle_error_state
  handle_in fuel MasterState.adapter_ready line app = some (handle_adapter_ready_state line app)
  handle_in fuel MasterState.scanned line app = some (handle_scanned_state line app)
  handle_in fuel MasterState.maintenance line app = handle_maintenance_state fuel line app
  handle_in fuel MasterState.ready_to_run line app = some (handle_ready_to_run_state line app)
  handle_in fuel MasterState.operational line app = some (handle_operational_state line app)
  handle_in fuel MasterState.fault line app = some (handle_error_state line app)
  handle_in fuel MasterState.emergency_stop line app = some (handle_error_state line app)
  handle_in fuel MasterState.uninitialized line app = some app

  abbrev pub handle : (fuel : ℕ) → Option Text → App B F → Option (App B F)
  handle fuel line app = handle_in fuel (get_state app.master) line app

  -- The second half of Run: one round of Service, then the command.
  unfoldable pub serve :
      (fuel cycle_time check_time : ℕ) → Option Text → App B F → Option (Bool × App B F)
  unfolding handle_in service
  serve fuel cycle_time check_time line app =
      elim (handle fuel line (record app { master = service cycle_time check_time app.master })) [
        | none ↦ none
        | some served ↦ some (true, served)
      ]

  -- Run, with the result of the reader and the text it has read, at the times of the service;
  -- `none` where a walk over PDO objects uses up its fuel.
  unfoldable pub run :
      (fuel cycle_time check_time : ℕ) → ReadResult → Text → App B F → Option (Bool × App B F)
  unfolding serve on_log_level
  run fuel cycle_time check_time ReadResult.eof c app = some (false, log_info eof_detected app)
  run fuel cycle_time check_time ReadResult.ok c app =
      if text_eq c (codes "exit") || text_eq c (codes "quit")
      then some (false, log_info exit_requested app)
      else if starts_with (codes "loglevel") c
      then some (true, on_log_level (words c) app)
      else serve fuel cycle_time check_time (some c) app
  run fuel cycle_time check_time _ c app = serve fuel cycle_time check_time none app
