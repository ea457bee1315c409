-- ===== src/Cli/Commands.antt =====
-- The commands of examples/cli/ecat_application.cpp that do more than one call of the public class.
use mo_driver_pc_ether_cat.Common.{
  ℕ, zero, suc, ◌==◌, Option, none, some, List, [], ◌∷◌, ◌++◌, if◌then◌else◌, replicate, length,
}
use mo_driver_pc_ether_cat.Common.Int.{ℤ, pos}
use mo_driver_pc_ether_cat.Common.Bytes.{le_bytes, of_le_bytes}
use mo_driver_pc_ether_cat.Common.Text.{Text, codes, text_eq, to_text, is_empty, prefixed}
use mo_driver_pc_ether_cat.Types.{MasterState, SlaveInfo, MasterSnapshot}
use mo_driver_pc_ether_cat.Soem.{Soem}
use mo_driver_pc_ether_cat.Api.Service.{get_snapshot}
use mo_driver_pc_ether_cat.Api.Objects.{get_slave_count, read_sdo, write_sdo, dump_pdo_mapping}
use mo_driver_pc_ether_cat.Cli.Numbers.{stoi}
use mo_driver_pc_ether_cat.Cli.Params.{
  Param, bad_usage, bad_argument, bad_index, bad_subindex, accepted, parse_param,
}
use mo_driver_pc_ether_cat.Cli.Log.{
  App, CliLogLevel, set_cli_log_level, log_info, log_error, help, no_slave, diagnosing, statusword,
  statusword_failed, usage, index_out_of_range, subindex_out_of_range, invalid_param, writing,
  write_ok, write_failed, inspection, reading_pdos, pdo_mapping, invalid_slave_id, not_available,
  unknown_level, level_set,
}

-- The timeout that the program gives an SDO, in milliseconds.
abbrev pub sdo_timeout : ℕ
sdo_timeout = 1000

unfoldable pub state_to_string : MasterState → Text
state_to_string MasterState.uninitialized = codes "Uninitialized"
state_to_string MasterState.adapter_ready = codes "AdapterReady"
state_to_string MasterState.scanned = codes "Scanned"
state_to_string MasterState.maintenance = codes "Maintenance"
state_to_string MasterState.ready_to_run = codes "ReadyToRun"
state_to_string MasterState.operational = codes "Operational"
state_to_string MasterState.fault = codes "Fault"
state_to_string MasterState.emergency_stop = codes "EmergencyStop"

-- The lines of one slave in the report of OnInspect.
unfoldable pub inspect_slave : SlaveInfo → Text
inspect_slave s =
    codes "  Slave "
    ++ to_text s.slave_id
    ++ codes ": "
    ++ s.name
    ++ codes " ("
    ++ prefixed s.vendor_id
    ++ codes ", "
    ++ prefixed s.product_id
    ++ codes ", "
    ++ prefixed s.revision_id
    ++ codes ")\n    config_address="
    ++ prefixed s.config_address
    ++ codes ", alias_address="
    ++ to_text s.alias_address
    ++ codes ", supports_dc="
    ++ (if s.supports_dc then codes "yes" else codes "no")
    ++ codes ", ec_state="
    ++ to_text s.state
    ++ codes ", al_status_code="
    ++ to_text s.al_status_code
    ++ codes ", output_bytes="
    ++ to_text s.output_bytes
    ++ codes ", input_bytes="
    ++ to_text s.input_bytes
    ++ codes "\n"

inspect_slaves : List SlaveInfo → Text
unfolding inspect_slave
inspect_slaves [] = []
inspect_slaves (s ∷ slaves) = inspect_slave s ++ inspect_slaves slaves

unfoldable pub inspect_text : MasterSnapshot → Text
unfolding state_to_string inspect_slaves
inspect_text snapshot =
    codes "Master state: "
    ++ state_to_string snapshot.state
    ++ codes "\nSlave count: "
    ++ to_text (length snapshot.slaves)
    ++ codes "\n"
    ++ inspect_slaves snapshot.slaves

module _ {B F : Type 0} where
  abbrev pub on_help : App B F → App B F
  on_help app = log_info help app

  unfoldable pub on_inspect : App B F → App B F
  on_inspect app = log_info (inspection (inspect_text (get_snapshot app.master))) app

  unfoldable pub on_log_level : List Text → App B F → App B F
  unfolding set_cli_log_level
  on_log_level (program ∷ name ∷ []) app =
      let set : CliLogLevel → App B F =
        λ level. log_info (level_set name) (set_cli_log_level level app) in
      if text_eq name (codes "debug")
      then set CliLogLevel.debug
      else if text_eq name (codes "info")
      then set CliLogLevel.info
      else if text_eq name (codes "warn")
      then set CliLogLevel.warn
      else if text_eq name (codes "error")
      then set CliLogLevel.error
      else log_error (unknown_level name) app
  on_log_level _ app = log_error (usage (codes "loglevel debug|info|warn|error")) app

module _ {B F : Type 0} ⦃soem : Soem B⦄ where
  -- The status word of one slave, read as two bytes.
  unfoldable pub diagnose_slave : ℕ → App B F → App B F
  unfolding read_sdo of_le_bytes
  diagnose_slave i app =
      let (ok, bytes, m) = read_sdo (pos i) 0x6041 0 (replicate 2 0) sdo_timeout app.master in
      let app' : App B F = record app { master = m } in
      if ok
      then log_info (statusword i (of_le_bytes bytes)) app'
      else log_error (statusword_failed i) app'

  -- for (i = i; i <= count; ++i), by the number of slaves left.
  unfoldable pub each_slave : (ℕ → App B F → App B F) → (left i : ℕ) → App B F → App B F
  each_slave f zero i app = app
  each_slave f (suc left) i app = each_slave f left (suc i) (f i app)

  unfoldable pub on_diagnose : App B F → App B F
  unfolding diagnose_slave each_slave
  on_diagnose app =
      let count = get_slave_count app.master in
      if count == 0
      then log_info no_slave app
      else each_slave diagnose_slave count 1 (log_info (diagnosing count) app)

  unfoldable pub write_slave : (index subindex value : ℕ) → ℕ → App B F → App B F
  unfolding write_sdo le_bytes
  write_slave index subindex value i app =
      let (ok, m) = write_sdo (pos i) index subindex (le_bytes 4 value) sdo_timeout app.master in
      let app' : App B F = record app { master = m } in
      if ok then log_info (write_ok i) app' else log_error (write_failed i) app'

  unfoldable pub write_all : (index subindex value : ℕ) → App B F → App B F
  unfolding write_slave each_slave
  write_all index subindex value app =
      each_slave (write_slave index subindex value) (get_slave_count app.master) 1
        (log_info (writing index subindex value) app)

  -- The rest of OnParam, by what its first half has found.
  unfoldable pub on_parsed : Param → App B F → App B F
  unfolding write_all
  on_parsed bad_usage app = log_error (usage (codes "param <index> <subindex> <value>")) app
  on_parsed bad_argument app = log_error invalid_param app
  on_parsed (bad_index text) app = log_error (index_out_of_range text) app
  on_parsed (bad_subindex text) app = log_error (subindex_out_of_range text) app
  on_parsed (accepted index subindex value) app = write_all index subindex value app

  unfoldable pub on_param : List Text → App B F → App B F
  unfolding parse_param on_parsed
  on_param args app = on_parsed (parse_param args) app

  -- The loop of OnPdo over all slaves; `none` where a walk uses up its fuel.
  unfoldable pub pdo_all : (fuel left i : ℕ) → App B F → Option (App B F)
  unfolding dump_pdo_mapping
  pdo_all fuel zero i app = some app
  pdo_all fuel (suc left) i app = elim (dump_pdo_mapping fuel (pos i) app.master) [
    | none ↦ none
    | some (mapping, m) ↦
        pdo_all fuel left (suc i)
          (log_info (pdo_mapping (pos i) mapping) (record app { master = m }))
  ]

  unfoldable pub pdo_one : (fuel : ℕ) → ℤ → App B F → Option (App B F)
  unfolding dump_pdo_mapping
  pdo_one fuel target_id app = elim (dump_pdo_mapping fuel target_id app.master) [
    | none ↦ none
    | some (mapping, m) ↦ some (
        if is_empty mapping
        then log_error (not_available target_id) (record app { master = m })
        else log_info (pdo_mapping target_id mapping) (record app { master = m }))
  ]

  unfoldable pub on_pdo : (fuel : ℕ) → List Text → App B F → Option (App B F)
  unfolding pdo_all pdo_one
  on_pdo fuel (program ∷ []) app =
      pdo_all fuel (get_slave_count app.master) 1 (log_info reading_pdos app)
  on_pdo fuel (program ∷ id ∷ []) app = elim (stoi id) [
    | none ↦ some (log_error (invalid_slave_id id) app)
    | some target_id ↦ pdo_one fuel target_id app
  ]
  on_pdo fuel _ app = some (log_error (usage (codes "pdo [slave_id]")) app)
