-- ===== src/Tests/Logging.antt =====
-- The logger at concrete histories.
use mo_driver_pc_ether_cat.Common.{◌≡◌, refl, true, List, [], ◌∷◌}
use mo_driver_pc_ether_cat.Common.Text.{codes}
use mo_driver_pc_ether_cat.Logger.{
  LogLevel, LogRecord, Logger, new_logger, log, enqueue, write_to_sinks, worker_step, destroy,
  set_console_level,
}
use mo_driver_pc_ether_cat.Logger.Order.{LogStep, call, work, set, end, after_steps}

abbrev line : LogLevel → LogRecord
line level = record { level = level; message = codes "x" }

-- Three records, of which one is below the level of the console, and an end while one is waiting.
abbrev session : List LogStep
session =
    work
    ∷ work
    ∷ work
    ∷ end
    ∷ call (line LogLevel.debug)
    ∷ call (line LogLevel.error)
    ∷ work
    ∷ set (set_console_level LogLevel.warn)
    ∷ work
    ∷ call (line LogLevel.info)
    ∷ []

ended : (after_steps session).stopped ≡ true
unfolding after_steps log enqueue worker_step write_to_sinks destroy set_console_level
ended = refl

abbrev ending : Logger
ending = record new_logger {
  shutdown = true;
  batch = line LogLevel.info ∷ [];
  queue = line LogLevel.error ∷ line LogLevel.warn ∷ [];
}
