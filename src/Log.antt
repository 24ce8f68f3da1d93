-- ===== src/Log.antt =====
-- The class Logger of include/tradier/common/debug.hpp and src/common/debug.cpp. Its lock makes each
-- change of the queue one step. What a call writes to std::cerr is a list of lines; the date and the
-- number of the thread are those of the record `Stamp`. A wake-up that the log thread misses, after
-- which the call that stops it waits for ever, is left out.
pub mod Reports
pub mod Queue
pub mod Masking
use libtradier.Base.{
  ℕ, ◌+◌, ◌/◌, ◌%◌, Bool, true, false, ◌||◌, not, List, [], ◌∷◌, ◌++◌, ltb, ◌==◌, if◌then◌else◌,
  length, take,
}
use libtradier.Text.{Text, txt, decimal}
use libtradier.Int.{next64}

pub data Level : Type 0 where
  silent error warn info debug trace : Level

-- The numbers of the enumeration; `silent` is NONE.
unfoldable pub rank : Level → ℕ
rank silent = 0
rank error = 1
rank warn = 2
rank info = 3
rank debug = 4
rank trace = 5

unfoldable pub level_to_string : Level → Text
level_to_string silent = txt "NONE "
level_to_string error = txt "ERROR"
level_to_string warn = txt "WARN "
level_to_string info = txt "INFO "
level_to_string debug = txt "DEBUG"
level_to_string trace = txt "TRACE"

pub record Logger : Type 0 where
  pub level : Level
  pub enabled : Bool
  pub async_logging : Bool
  pub stop_logging : Bool
  pub log_queue : List Text
  pub dropped_messages : ℕ

unfoldable pub new_logger : Logger
new_logger = record {
  level = silent;
  enabled = false;
  async_logging = false;
  stop_logging = false;
  log_queue = [];
  dropped_messages = 0;
}

-- std::put_time with "%H:%M:%S", the milliseconds, and the text of the thread's id
pub record Stamp : Type 0 where
  pub time : Text
  pub millis : ℕ
  pub thread : Text

-- std::setfill('0') << std::setw(3), of a number below 1000
unfoldable pub three_digits : ℕ → Text
three_digits n = (b'0' + n / 100 % 10) ∷ (b'0' + n / 10 % 10) ∷ (b'0' + n % 10) ∷ []

unfoldable pub log_line : Level → Text → Stamp → Text
unfolding three_digits level_to_string
log_line level message stamp =
    txt "["
    ++ (stamp.time
        ++ (txt "."
            ++ (three_digits stamp.millis
                ++ (txt "] ["
                    ++ (level_to_string level
                        ++ (txt "] [T:" ++ (take 4 stamp.thread ++ (txt "] " ++ message))))))))

abbrev pub max_queue_size : ℕ
max_queue_size = 10000

unfoldable pub overflow_notice : ℕ → List Text
overflow_notice dropped =
    if dropped % 1000 == 0
    then (txt "[LOG_ERROR] Dropped "
        ++ (decimal dropped ++ txt " log messages due to queue overflow"))
      ∷ []
    else []

-- The part of log() behind the line's text
unfoldable pub emit : Text → Logger → Logger × List Text
unfolding overflow_notice
emit line logger =
    if logger.async_logging
    then (if ltb (length logger.log_queue) max_queue_size
        then (record logger { log_queue = logger.log_queue ++ line ∷ [] }, [])
        else (
          record logger { dropped_messages = next64 logger.dropped_messages },
          overflow_notice (next64 logger.dropped_messages),
        ))
    else (logger, line ∷ [])

unfoldable pub log : Level → Text → Stamp → Logger → Logger × List Text
unfolding rank emit log_line
log level message stamp logger =
    if not logger.enabled || ltb (rank logger.level) (rank level)
    then (logger, [])
    else emit (log_line level message stamp) logger

unfoldable pub set_level : Level → Logger → Logger
set_level level logger = record logger { level = level }

unfoldable pub set_enabled : Bool → Logger → Logger
set_enabled enabled logger = record logger { enabled = enabled }

-- enableAsyncLogging; to switch it off waits for the log thread, which stops before the next line.
unfoldable pub enable_async_logging : Bool → Logger → Logger
enable_async_logging true logger =
    if logger.async_logging
    then logger
    else record logger { async_logging = true; stop_logging = false }
enable_async_logging false logger =
    if logger.async_logging
    then record logger { async_logging = false; stop_logging = true }
    else logger

unfoldable pub reset_dropped_message_count : Logger → Logger
reset_dropped_message_count logger = record logger { dropped_messages = 0 }

unfoldable pub get_queue_size : Logger → ℕ
get_queue_size logger = if logger.async_logging then length logger.log_queue else 0

unfoldable pub write_front : Logger → List Text → Logger × List Text
write_front logger [] = (logger, [])
write_front logger (line ∷ lines) = (record logger { log_queue = lines }, line ∷ [])

-- A turn of the inner loop of processLogQueue
unfoldable pub process_line : Logger → Logger × List Text
unfolding write_front
process_line logger =
    if not logger.async_logging || logger.stop_logging
    then (logger, [])
    else write_front logger logger.log_queue

unfoldable pub configure_production_logging : Logger → Logger
unfolding enable_async_logging set_level set_enabled
configure_production_logging logger =
    enable_async_logging true (set_level info (set_enabled true logger))

unfoldable pub configure_debug_logging : Logger → Logger
unfolding enable_async_logging set_level set_enabled
configure_debug_logging logger =
    enable_async_logging false (set_level debug (set_enabled true logger))

unfoldable pub enable_debug_logging : Level → Logger → Logger
unfolding set_level set_enabled
enable_debug_logging level logger = set_level level (set_enabled true logger)

unfoldable pub disable_debug_logging : Logger → Logger
unfolding set_enabled
disable_debug_logging logger = set_enabled false logger

-- LoggerSession: what its constructor keeps of the logger
pub record LoggerSession : Type 0 where
  pub original_level : Level
  pub was_enabled : Bool

unfoldable pub open_session : Level → Logger → LoggerSession × Logger
unfolding set_level set_enabled
open_session level logger = (
  record { original_level = logger.level; was_enabled = logger.enabled },
  set_enabled true (set_level level logger),
)

-- Its destructor
unfoldable pub close_session : LoggerSession → Logger → Logger
unfolding set_level set_enabled
close_session session logger =
    set_enabled session.was_enabled (set_level session.original_level logger)
