-- ===== src/Snmp/Start.antt =====
-- The start of the agent against Net-SNMP: `snmp_agent_t::Run` of src/snmp_agent.cc behind its count,
-- and `init_psychMIB` of src/psychMIB.cc.
use psych.Prelude.{Bool, true, false, List, [], ◌∷◌, ◌++◌, if◌then◌else◌, is_empty}
use psych.Prelude.Bytes.{Bytes}
use psych.Config.{Config}
use psych.Snmp.Registered.{
  Registration, plugin_table, plugin_performance_table, session_table, session_performance_table,
}

-- a call of Net-SNMP, or the start of the thread with its sockets
pub data AgentCall : Type 0 where
  set_socket enable_filelog : Bytes → AgentCall
  set_agent_role init_agent init_snmp init_master_agent spawn_thread : AgentCall
  register_table : Registration → AgentCall

-- What Net-SNMP and the system answer. A socket that cannot be made fails an assertion.
pub record AgentEnv : Type 0 where
  pub inits_agent : Bool
  pub registers : Registration → Bool
  pub inits_master : Bool
  pub makes_pump : Bool
  pub makes_thread : Bool

-- The calls of a step and whether it succeeds; a later step is taken where it does.
abbrev pub and_next : List AgentCall × Bool → List AgentCall × Bool → List AgentCall × Bool
and_next (calls, false) later = (calls, false)
and_next (calls, true) (calls', ok) = (calls ++ calls', ok)

-- the tables of `init_psychMIB`, in order
unfoldable pub register_tables : (Registration → Bool) → List Registration → List AgentCall × Bool
register_tables registers [] = ([], true)
register_tables registers (t ∷ rest) =
    and_next (register_table t ∷ [], registers t) (register_tables registers rest)

unfoldable pub init_psych_mib : (Registration → Bool) → List AgentCall × Bool
unfolding register_tables
init_psych_mib registers =
    register_tables registers
      (plugin_table ∷ plugin_performance_table ∷ session_table ∷ session_performance_table ∷ [])

-- a sub-agent has a role and may have a socket
unfoldable pub agentx_options : Config → List AgentCall
agentx_options config =
    if config.is_agentx_subagent
    then (if is_empty config.agentx_socket then [] else set_socket config.agentx_socket ∷ [])
      ++ set_agent_role ∷ []
    else []

unfoldable pub filelog_option : Config → List AgentCall
filelog_option config =
    if is_empty config.snmp_filelog then [] else enable_filelog config.snmp_filelog ∷ []

-- any other agent is a master
unfoldable pub connect_master : AgentEnv → Config → List AgentCall × Bool
connect_master env config =
    if config.is_agentx_subagent then ([], true) else (init_master_agent ∷ [], env.inits_master)

unfoldable pub spawn : AgentEnv → List AgentCall × Bool
spawn env = if env.makes_pump then (spawn_thread ∷ [], env.makes_thread) else ([], false)

unfoldable pub start_agent : AgentEnv → Config → List AgentCall × Bool
unfolding init_psych_mib agentx_options filelog_option connect_master spawn
start_agent env config =
    and_next (agentx_options config ++ filelog_option config ++ init_agent ∷ [], env.inits_agent)
      (and_next (init_psych_mib env.registers)
        (and_next (init_snmp ∷ [], true) (and_next (connect_master env config) (spawn env))))
