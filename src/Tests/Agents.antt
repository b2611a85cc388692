-- ===== src/Tests/Agents.antt =====
-- The SNMP agents of two plug-ins: src/snmp_agent.cc.
use psych.Prelude.{◌≡◌, true, false, some, [], ◌∷◌, refl}
use psych.Config.{default_config}
use psych.Snmp.Registered.{plugin_table}
use psych.Snmp.Start.{
  AgentEnv, set_agent_role, init_agent, register_table, start_agent, init_psych_mib,
  register_tables, agentx_options, filelog_option, connect_master, spawn,
}
use psych.Snmp.Agent.{run_all, clear_all, no_agents, clear_all-run_all}

abbrev willing : AgentEnv
willing = record {
  inits_agent = true;
  registers = λ t. true;
  inits_master = true;
  makes_pump = true;
  makes_thread = true;
}

starts : (start_agent willing default_config).1 ≡ true
unfolding start_agent init_psych_mib register_tables connect_master spawn
starts = refl

-- the registration of the first table fails
stops :
    start_agent (record willing { registers = λ t. false }) default_config
    ≡ (set_agent_role ∷ init_agent ∷ register_table plugin_table ∷ [], false)
unfolding start_agent init_psych_mib register_tables agentx_options filelog_option
stops = refl

-- the agent that spawned the thread is cleared first
clear_all-run_all_example :
    clear_all (0 ∷ 1 ∷ []) (run_all willing default_config (0 ∷ 1 ∷ []) no_agents)
    ≡ record { ref_count = 0; holder = some 0; is_running = true; is_up = false }
clear_all-run_all_example =
    clear_all-run_all willing default_config 0 (1 ∷ []) (0 ∷ []) 1 starts refl
