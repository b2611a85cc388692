-- ===== src/Boot/Logging.antt =====
-- How the log is set up: `env_t` of src/main.cc and src/plugin.cc.
use psych.Prelude.{zero, suc, Bool, Option, none, some, ◌++◌, if◌then◌else◌}
use psych.Prelude.Bytes.{Bytes, codes, equal}
use psych.Prelude.Int.{ℤ, pos}

-- The logging destinations that are chosen, and the priorities of the engine's log.
pub data Destination : Type 0 where
  log_none log_only_to_file log_to_both_file_and_system_debug_log : Destination

pub data Priority : Type 0 where
  msg_info msg_low msg_medium msg_fatal : Priority

-- `DetermineLogMode`: what the switch `enable-logging` says comes before the build's default.
unfoldable pub determine_log_mode : (is_debug : Bool) → Bytes → Destination
determine_log_mode is_debug enable_logging =
    if equal enable_logging (codes "file")
    then log_only_to_file
    else if is_debug
    then log_to_both_file_and_system_debug_log
    else log_none

-- The command line of the plug-in, given the environment variable's value, if it is set.
unfoldable pub plugin_command_line : Option Bytes → Bytes
plugin_command_line none = codes "psychPlugin"
plugin_command_line (some value) = codes "psychPlugin" ++ codes " " ++ value

-- The severities are numbered from LOG_INFO, 0, to LOG_FATAL, 3.
unfoldable pub log_priority : ℤ → Priority
log_priority (pos (suc zero)) = msg_low
log_priority (pos (suc (suc zero))) = msg_medium
log_priority (pos (suc (suc (suc zero)))) = msg_fatal
log_priority severity = msg_info
