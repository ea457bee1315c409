-- ===== src/Logger.antt =====
-- src/utils/logger.{h,cpp}: the asynchronous logger. Its callers and its worker thread are
-- interleaved: a step is what one of them does under a lock. The source file of a record, the time
-- stamp and the format of a line are left out.
pub mod Order
pub mod Format
pub mod Stream
use mo_driver_pc_ether_cat.Common.{
  ℕ, Bool, true, false, not, ◌&&◌, ◌||◌, List, [], ◌∷◌, ◌++◌, ltb, if◌then◌else◌,
}
use mo_driver_pc_ether_cat.Common.Text.{Text, is_empty}

pub data LogLevel : Type 0 where
  debug info warn error fatal : LogLevel

abbrev pub level_number : LogLevel → ℕ
level_number LogLevel.debug = 0
level_number LogLevel.info = 1
level_number LogLevel.warn = 2
level_number LogLevel.error = 3
level_number LogLevel.fatal = 4

-- a >= b
abbrev pub at_least : LogLevel → LogLevel → Bool
at_least a b = not (ltb (level_number a) (level_number b))

pub record LogRecord : Type 0 where
  pub level : LogLevel
  pub message : Text

-- The settings of the sinks.
pub record Sinks : Type 0 where
  pub has_console : Bool
  pub console_level : LogLevel
  pub has_file : Bool
  pub file_level : LogLevel
  pub has_callback : Bool
  pub callback_level : LogLevel

-- `batch` is the worker's; `written` lists the records that WriteToSinks has been given, and the
-- last four are what it has put out, oldest first.
pub record Logger : Type 0 where
  pub queue : List LogRecord
  pub batch : List LogRecord
  pub shutdown : Bool
  pub stopped : Bool
  pub sinks : Sinks
  pub written : List LogRecord
  pub cout : List LogRecord
  pub cerr : List LogRecord
  pub file : List LogRecord
  pub called : List LogRecord

abbrev pub new_logger : Logger
new_logger = record {
  queue = [];
  batch = [];
  shutdown = false;
  stopped = false;
  sinks = record {
    has_console = true;
    console_level = LogLevel.info;
    has_file = false;
    file_level = LogLevel.debug;
    has_callback = false;
    callback_level = LogLevel.debug;
  };
  written = [];
  cout = [];
  cerr = [];
  file = [];
  called = [];
}

abbrev pub to_console : Sinks → LogLevel → Bool
to_console s level = s.has_console && at_least level s.console_level

abbrev pub to_file : Sinks → LogLevel → Bool
to_file s level = s.has_file && at_least level s.file_level

abbrev pub to_callback : Sinks → LogLevel → Bool
to_callback s level = s.has_callback && at_least level s.callback_level

-- Log is two steps of its caller: the look at the sinks, and the entry into the queue.
abbrev pub wanted : Sinks → LogLevel → Bool
wanted s level = to_console s level || (to_file s level || to_callback s level)

unfoldable pub enqueue : LogRecord → Logger → Logger
enqueue r l = if l.shutdown then l else record l { queue = l.queue ++ r ∷ [] }

-- Log, when no setting changes between its two locks.
unfoldable pub log : LogRecord → Logger → Logger
unfolding enqueue
log r l = if wanted l.sinks r.level then enqueue r l else l

unfoldable pub write_to_sinks : LogRecord → Logger → Logger
write_to_sinks r l =
    let s = l.sinks in
    record l {
      written = l.written ++ r ∷ [];
      cout =
          if to_console s r.level && not (at_least r.level LogLevel.warn)
          then l.cout ++ r ∷ []
          else l.cout;
      cerr =
          if to_console s r.level && at_least r.level LogLevel.warn
          then l.cerr ++ r ∷ []
          else l.cerr;
      file = if to_file s r.level then l.file ++ r ∷ [] else l.file;
      called = if to_callback s r.level then l.called ++ r ∷ [] else l.called;
    }

-- One step of WorkerLoop: the next record of the batch, or, when it is used up, the wait for the
-- queue, which ends with a swap, with the end of the thread, or not yet.
unfoldable pub worker_step : Logger → Logger
unfolding write_to_sinks
worker_step l = if l.stopped then l else (elim l.batch [
  | r ∷ rs ↦ record (write_to_sinks r l) { batch = rs }
  | [] ↦
      if is_empty l.queue
      then (if l.shutdown then record l { stopped = true } else l)
      else record l { batch = l.queue; queue = [] }
])

-- The destructor up to the join.
unfoldable pub destroy : Logger → Logger
destroy l = record l { shutdown = true }

unfoldable pub set_console_level : LogLevel → Sinks → Sinks
set_console_level level s = record s { console_level = level }

unfoldable pub set_file_level : LogLevel → Sinks → Sinks
set_file_level level s = record s { file_level = level }

unfoldable pub set_console_enabled : Bool → Sinks → Sinks
set_console_enabled enabled s = record s { has_console = enabled }

unfoldable pub set_log_level : LogLevel → Sinks → Sinks
set_log_level level s = record s { console_level = level; file_level = level }

unfoldable pub set_callback_sink : LogLevel → Bool → Sinks → Sinks
set_callback_sink level given s = record s { callback_level = level; has_callback = given }

-- SetLogFile; whether the directory can be made and whether the file can be opened is up to the
-- file system.
unfoldable pub set_log_file : (made opened : Bool) → Text → Sinks → Sinks
set_log_file made opened path s =
    if is_empty path
    then record s { has_file = false }
    else if made
    then record s { has_file = opened }
    else s
