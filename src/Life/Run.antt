-- ===== src/Life/Run.antt =====
-- The application: `psych_t::Run` of src/psych.cc, and the destructor behind it in `main`.
use psych.Prelude.{Bool, true, false, Option, none, some, List, [], ◌∷◌, ◌≡◌, ◌⊎◌}
use psych.Prelude.Bytes.{Bytes}
use psych.Config.{Config}
use psych.Setup.Dom.{Read, read, failed, raised}
use psych.Setup.Json.{Json, parse_config}
use psych.Setup.Validate.{validate}
use psych.Life.Reverse.{if_held}
use psych.Life.Stages.{Part, connections, Attempt, stages, init, clear, without, destroy}

-- How Run ends: with a status and the members that are still set, or, before Init, with a failed
-- CHECK.
pub data End : Type 0 where
  exit_success exit_failure : List Part → End
  check_failed : End

module _ (json : Json) where
  -- What the system gives: the configuration file, what the vendored reader makes of it, and how the
  -- stages of Init go with a configuration.
  pub record RunEnv : Type 0 where
    pub file : Option Bytes
    pub read_json : Bytes → Option json.Value
    pub attempt : Config → Part → Attempt

  -- The main loop, which leaves the members as they are, stands before Destroy.
  abbrev pub after_start : List Part × Bool → End
  after_start (held, true) = exit_success (destroy held)
  after_start (held, false) = exit_failure held

  -- from the configuration on
  unfoldable pub run_config : RunEnv → Read Config → End
  run_config env (read c) = after_start (init (env.attempt c) (stages true c.is_snmp_enabled))
  run_config env failed = exit_failure []
  run_config env raised = check_failed

  abbrev pub run_value : RunEnv → Config → Option json.Dict → End
  run_value env c none = check_failed
  run_value env c (some dict) = run_config env (parse_config json dict c)

  -- The tree that is read has to be there, and to be a dictionary.
  abbrev pub run_tree : RunEnv → Config → Option json.Value → End
  run_tree env c none = check_failed
  run_tree env c (some value) = run_value env c (json.as_dict value)

  -- the text of the file
  abbrev pub run_file : RunEnv → Config → Option Bytes → End
  run_file env c none = exit_failure []
  run_file env c (some text) = run_tree env c (env.read_json text)

  -- `Run`, on a configuration as its constructor has left it, or any other
  unfoldable pub run_application : RunEnv → Config → End
  unfolding run_config
  run_application env c = run_file env c env.file

  -- all that Run and the destructor may come to
  Outcome : RunEnv → Config → End → Type 0
  Outcome env c end =
      ((dict : json.Dict) × (c' : Config) × (parse_config json dict c ≡ read c')
        × (validate c' ≡ true)
        × ((init (env.attempt c') (stages true c'.is_snmp_enabled)).1 ≡ true)
        × (end ≡ exit_success (connections ∷ [])))
      ⊎ ((held : List Part) × (end ≡ exit_failure held)
          × (without (clear held) held ≡ if_held held connections))
      ⊎ ((text : Bytes) × (env.file ≡ some text) × (end ≡ check_failed))
