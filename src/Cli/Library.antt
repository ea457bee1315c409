-- ===== src/Cli/Library.antt =====
-- The lines of the library on the screen: the callback of examples/cli/main.cpp.
use mo_driver_pc_ether_cat.Common.{◌≡◌, refl, ◌||◌, if◌then◌else◌}
use mo_driver_pc_ether_cat.Common.Text.{Text, codes, text_eq}
use mo_driver_pc_ether_cat.Logger.{LogLevel}
use mo_driver_pc_ether_cat.Api.Messages.{level_to_string}
use mo_driver_pc_ether_cat.Cli.Log.{App, CliLogLevel, log, log_info, log_error, from_library}

-- The level on the screen of a line of the library.
abbrev pub shown_as : LogLevel → CliLogLevel
shown_as LogLevel.debug = CliLogLevel.debug
shown_as LogLevel.info = CliLogLevel.info
shown_as LogLevel.warn = CliLogLevel.warn
shown_as LogLevel.error = CliLogLevel.error
shown_as LogLevel.fatal = CliLogLevel.error

module _ {B F : Type 0} where
  -- The callback that main gives the library as on_log_message.
  unfoldable pub on_log_message : (level source message : Text) → App B F → App B F
  on_log_message level source message app =
      if text_eq level (codes "error") || text_eq level (codes "fatal")
      then log_error (from_library source message) app
      else if text_eq level (codes "warn")
      then log CliLogLevel.warn (from_library source message) app
      else if text_eq level (codes "debug")
      then log CliLogLevel.debug (from_library source message) app
      else log_info (from_library source message) app

  -- Every level that the library names is shown as itself, and a fatal line as an error.
  pub on_log_message-level_to_string :
      (l : LogLevel) (source message : Text) (app : App B F)
      → on_log_message (level_to_string l) source message app
        ≡ log (shown_as l) (from_library source message) app
  unfolding on_log_message level_to_string
  on_log_message-level_to_string LogLevel.debug source message app = refl
  on_log_message-level_to_string LogLevel.info source message app = refl
  on_log_message-level_to_string LogLevel.warn source message app = refl
  on_log_message-level_to_string LogLevel.error source message app = refl
  on_log_message-level_to_string LogLevel.fatal source message app = refl
