-- ===== src/Tests/Booting.antt =====
-- The start and the end of the process: src/main.cc and src/plugin.cc.
use psych.Prelude.{◌≡◌, true, false, some, none, [], ◌∷◌, refl, arith}
use psych.Prelude.Int.{pos, negsuc}
use psych.Prelude.Bytes.{codes, equal}
use psych.Boot.Logging.{
  determine_log_mode, plugin_command_line, log_priority, log_only_to_file, log_none, msg_fatal,
  msg_info,
}
use psych.Boot.Guards.{
  SystemEnv, main_calls, init_logging, register_log_provider, wsa_startup, wsa_cleanup, run_psych,
  time_begin_period, time_end_period, start_winsock, stop_winsock, period, start_timecaps,
  stop_timecaps,
}
use psych.Boot.Balance.{play, timer, log_state, log_provider, play-main_calls}

abbrev windows : SystemEnv
windows = record {
  starts = true;
  version = (2, 2);
  periods = some (1, 1000000);
  takes_period = λ p. true;
}

frames :
    main_calls windows
    ≡ init_logging
      ∷ register_log_provider
      ∷ wsa_startup
      ∷ time_begin_period 1
      ∷ run_psych
      ∷ time_end_period 1
      ∷ wsa_cleanup
      ∷ []
unfolding main_calls start_winsock stop_winsock start_timecaps stop_timecaps period
frames = refl

-- an old socket library, and no timer device
framed_less :
    main_calls (record windows { version = (1, 1); periods = none })
    ≡ init_logging ∷ register_log_provider ∷ wsa_startup ∷ wsa_cleanup ∷ run_psych ∷ []
unfolding main_calls start_winsock stop_winsock start_timecaps stop_timecaps
framed_less = refl

file_wins : determine_log_mode true (codes "file") ≡ log_only_to_file
unfolding determine_log_mode equal
file_wins = refl

release_is_silent : determine_log_mode false (codes "stderr") ≡ log_none
unfolding determine_log_mode equal
release_is_silent = refl

debugged : plugin_command_line (some (codes "--v=3")) ≡ codes "psychPlugin --v=3"
unfolding plugin_command_line
debugged = refl

fatal : log_priority (pos 3) ≡ msg_fatal
unfolding log_priority
fatal = refl

verbose : log_priority (negsuc 2) ≡ msg_info
unfolding log_priority
verbose = refl

play-main_calls_example :
    play (λ h. some h) windows (main_calls windows) (timer 5 ∷ [])
    ≡ some (log_provider ∷ log_state ∷ timer 5 ∷ [])
play-main_calls_example =
    play-main_calls (λ h. some h) windows (timer 5 ∷ []) (λ caps e. ground arith) (λ h. refl)
