-- ===== src/Tests/Living.antt =====
-- The start and the end of a plug-in: src/psych.cc.
use psych.Prelude.{◌≡◌, true, false, List, [], ◌∷◌, refl, arith}
use psych.Prelude.Int.{pos}
use psych.Prelude.Bytes.{codes, atol, skip_space, digits_value}
use psych.Config.{default_config}
use psych.Life.Multipass.{pipelining, maxconnects, multi_options}
use psych.Life.Stages.{
  Part, multipass, rfa, event_queue, log, provider, connections, streams, event_pump, event_thread,
  snmp_agent, tcl, timer, Attempt, made, not_made, stages, init, clear, release, without,
  plugin_init,
}
use psych.Life.Instances.{
  Event, no_instances, constructed, destructed, construct, destruct, remove, play_all,
}
use psych.Life.Instances.Survivors.{survivors, Increasing, play_all-survivors}
use psych.Life.Curl.{lives, unused, init_curl, init_curl_again}

-- every stage succeeds but that of the timer
abbrev no_timer : Part → Attempt
no_timer timer = not_made
no_timer p = made

-- what has been made before the timer, in the plug-in with an agent
abbrev before_timer : List Part
before_timer =
    multipass ∷ rfa ∷ event_queue ∷ log ∷ provider ∷ connections ∷ streams ∷ event_pump
    ∷ event_thread ∷ snmp_agent ∷ tcl ∷ []

-- The failed start leaves the connections and the registration of the Tcl API.
left_behind : plugin_init no_timer true ≡ (connections ∷ tcl ∷ [], false)
unfolding plugin_init init stages clear release without
left_behind = refl

init_curl_again_example :
    ((lives (λ k. true) 1 unused).is_up ≡ false)
    × ((init_curl true (lives (λ k. true) 1 unused)).0.is_up ≡ false)
    × ((init_curl true (lives (λ k. true) 1 unused)).1 ≡ true)
init_curl_again_example = init_curl_again (λ k. true) 0 (omega arith)

pipelined :
    multi_options (record default_config { enable_http_pipelining = codes "1" })
    ≡ pipelining (pos 1) ∷ maxconnects (pos 6) ∷ []
unfolding multi_options atol skip_space digits_value
pipelined = refl

-- a plug-in at an address that is used again
abbrev lifetimes : List Event
lifetimes = constructed 100 ∷ constructed 200 ∷ destructed 100 ∷ constructed 100 ∷ []

reused : play_all lifetimes no_instances ≡ record {
  count = 3;
  global_list = record { address = 200; number = 1 } ∷ record { address = 100; number = 2 } ∷ [];
}
unfolding play_all construct destruct remove
reused = refl

play_all-survivors_example :
    (play_all lifetimes no_instances ≡ record { count = 3; global_list = survivors 0 lifetimes })
    × Increasing 0 (survivors 0 lifetimes)
play_all-survivors_example = play_all-survivors lifetimes (omega arith)
