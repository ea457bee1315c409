-- ===== src/Api/Messages.antt =====
-- LevelToString of src/core/mo_ecat_master.cpp: the level as on_log_message gets it.
use mo_driver_pc_ether_cat.Common.Text.{Text, codes}
use mo_driver_pc_ether_cat.Logger.{LogLevel}

unfoldable pub level_to_string : LogLevel → Text
level_to_string LogLevel.debug = codes "debug"
level_to_string LogLevel.info = codes "info"
level_to_string LogLevel.warn = codes "warn"
level_to_string LogLevel.error = codes "error"
level_to_string LogLevel.fatal = codes "fatal"
