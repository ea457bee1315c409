-- ===== src/Logger/Stream.antt =====
-- The streams of src/utils/logger.h: LogStream, NullLogStream and the macros LOG_DEBUG to LOG_FATAL.
use mo_driver_pc_ether_cat.Common.{ℕ, Option, none, some, [], ◌++◌, leb, if◌then◌else◌}
use mo_driver_pc_ether_cat.Common.Text.{Text}
use mo_driver_pc_ether_cat.Logger.{LogLevel, level_number, Logger, log}

-- A LogStream, by its level and its buffer. Where a record comes from is left out.
pub record LogStream : Type 0 where
  pub level : LogLevel
  pub buffer : Text

-- MO_ECAT_LOG_LEVEL, where the build does not set it.
abbrev pub default_log_level : ℕ
default_log_level = 1

-- The stream of a macro, by the level that the program was compiled with; `none` is a
-- NullLogStream.
unfoldable pub stream_of : (compiled : ℕ) → LogLevel → Option LogStream
stream_of compiled level =
    if leb compiled (level_number level) then some (record { level = level; buffer = [] }) else none

-- stream << text
unfoldable pub put : Text → Option LogStream → Option LogStream
put text none = none
put text (some s) = some (record s { buffer = s.buffer ++ text })

-- The end of the statement, where the stream is destroyed.
unfoldable pub end_stream : Option LogStream → Logger → Logger
unfolding log
end_stream none l = l
end_stream (some s) l = log (record { level = s.level; message = s.buffer }) l
