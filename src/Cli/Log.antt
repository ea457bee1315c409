-- ===== src/Cli/Log.antt =====
-- examples/cli/cli_logger.h, and the state of the program of examples/cli/ecat_application.h with the
-- lines it has written. The time stamp of a line is left out.
use mo_driver_pc_ether_cat.Common.{ℕ, Bool, List, ◌∷◌, Option, ltb, if◌then◌else◌}
use mo_driver_pc_ether_cat.Common.Int.{ℤ}
use mo_driver_pc_ether_cat.Common.Text.{Text, codes}
use mo_driver_pc_ether_cat.Types.{MasterState}
use mo_driver_pc_ether_cat.Sdo.{Listing}
use mo_driver_pc_ether_cat.Api.{Impl}

pub data CliLogLevel : Type 0 where
  debug info warn error : CliLogLevel

-- static_cast<int>(level)
abbrev pub rank : CliLogLevel → ℕ
rank CliLogLevel.debug = 0
rank CliLogLevel.info = 1
rank CliLogLevel.warn = 2
rank CliLogLevel.error = 3

unfoldable pub cli_log_level_name : CliLogLevel → Text
cli_log_level_name CliLogLevel.debug = codes "DEBUG"
cli_log_level_name CliLogLevel.info = codes "INFO"
cli_log_level_name CliLogLevel.warn = codes "WARN"
cli_log_level_name CliLogLevel.error = codes "ERROR"

-- The messages of the program, by what they tell; the wording round it is left out.
pub data Message : Type 0 where
  eof_detected exit_requested help only_stop_allowed : Message
  command : Text → Message
  scan_failed maintenance_failed prepare_failed start_failed back_failed : Message
  not_allowed : Text → MasterState → Message
  unknown_command : Text → Message
  no_slave : Message
  diagnosing : ℕ → Message
  statusword : (slave value : ℕ) → Message
  statusword_failed : ℕ → Message
  usage : Text → Message
  index_out_of_range subindex_out_of_range : Text → Message
  invalid_param : Message
  writing : (index subindex value : ℕ) → Message
  write_ok write_failed : ℕ → Message
  inspection : Text → Message
  reading_pdos : Message
  pdo_mapping : ℤ → List (Option Listing) → Message
  invalid_slave_id : Text → Message
  not_available : ℤ → Message
  unknown_level level_set : Text → Message
  initialize_failed running shutting_down : Message
  from_library : (source text : Text) → Message

pub record Line : Type 0 where
  pub level : CliLogLevel
  pub message : Message

-- The application: the master, the threshold of the log, and the lines written, the last one first.
pub record App (B F : Type 0) : Type 0 where
  pub master : Impl B F
  pub threshold : CliLogLevel
  pub lines : List Line

-- Where a line goes: std::cerr for an error, std::cout for the rest.
unfoldable pub is_to_cerr : Line → Bool
is_to_cerr line = elim line.level [ CliLogLevel.error ↦ Bool.true | _ ↦ Bool.false ]

module _ {B F : Type 0} where
  unfoldable pub set_cli_log_level : CliLogLevel → App B F → App B F
  set_cli_log_level level app = record app { threshold = level }

  -- A CliLogStream: its destructor writes the line.
  unfoldable pub log : CliLogLevel → Message → App B F → App B F
  log level message app =
      if ltb (rank level) (rank app.threshold)
      then app
      else record app { lines = record { level = level; message = message } ∷ app.lines }

  abbrev pub log_info : Message → App B F → App B F
  log_info = log CliLogLevel.info

  abbrev pub log_error : Message → App B F → App B F
  log_error = log CliLogLevel.error
