-- ===== src/Snmp/Agent.antt =====
-- `snmp_agent_t` of src/snmp_agent.cc: the agents of all plug-ins share a count and one thread, which
-- the first of them spawns and holds.
use psych.Config.{Config}
use psych.Snmp.Start.{AgentEnv, start_agent}
use psych.Prelude.{
  ℕ, suc, ◌+◌, ◌-◌, ◌<◌, Bool, true, false, Option, none, some, List, [], ◌∷◌, ◌≡◌, refl, ap, ◌∙◌,
  arith, ltb, ◌==◌, if◌then◌else◌, not, length, ◌++◌, Bool-cases, inl, inr,
}

-- `ref_count_`, the agent that holds the sockets and the thread, whether the thread runs, and whether
-- Net-SNMP is up. The count is never below 0, and no process has 2^31 agents.
pub record Agents : Type 0 where
  pub ref_count : ℕ
  pub holder : Option ℕ
  pub is_running : Bool
  pub is_up : Bool

abbrev count_up : Agents → Agents
count_up s = record s { ref_count = s.ref_count + 1 }

-- `Run` of an agent, and what it returns; the count stays up where a step fails
unfoldable pub run : AgentEnv → Config → ℕ → Agents → Agents × Bool
unfolding start_agent
run env config i s =
    if ltb 0 s.ref_count
    then (count_up s, true)
    else if (start_agent env config).1
    then (
      record { ref_count = s.ref_count + 1; holder = some i; is_running = true; is_up = true },
      true,
    )
    else (count_up s, false)

-- the end of the thread, which only the agent that holds the sockets can signal and join
abbrev pub join_thread : ℕ → Agents → Option ℕ → Agents
join_thread i s none = s
join_thread i s (some j) = if i == j then record s { holder = none; is_running = false } else s

-- `snmp_shutdown`
abbrev pub shut_down : Agents → Agents
shut_down s = record s { is_up = false }

abbrev pub count_down : Agents → Agents
count_down s = record s { ref_count = s.ref_count - 1 }

-- `Clear` of an agent
unfoldable pub clear_agent : ℕ → Agents → Agents
clear_agent i s =
    if s.ref_count == 0
    then s
    else if s.ref_count == 1
    then shut_down (join_thread i (count_down s) s.holder)
    else count_down s

-- Agents that start, and agents that are cleared, one after the other.
unfoldable pub run_all : AgentEnv → Config → List ℕ → Agents → Agents
unfolding run
run_all env config [] s = s
run_all env config (i ∷ rest) s = run_all env config rest (run env config i s).0

unfoldable pub clear_all : List ℕ → Agents → Agents
unfolding clear_agent
clear_all [] s = s
clear_all (i ∷ rest) s = clear_all rest (clear_agent i s)

abbrev pub no_agents : Agents
no_agents = record { ref_count = 0; holder = none; is_running = false; is_up = false }

-- with the thread of an agent
abbrev served : ℕ → ℕ → Agents
served i n = record { ref_count = n; holder = some i; is_running = true; is_up = true }

run_later :
    (env : AgentEnv) (config : Config) (i : ℕ) (rest : List ℕ) (n : ℕ)
    → 0 < n
    → run_all env config rest (served i n) ≡ served i (n + length rest)
unfolding run_all run
run_later env config i [] n h = ap (served i) (omega arith)
run_later env config i (j ∷ rest) n h =
    let more : ltb 0 n ≡ true = ground arith in
    rw more (run_later env config i rest (n + 1) (omega arith) ∙ ap (served i) (omega arith))

run_first :
    (env : AgentEnv) (config : Config) (i : ℕ)
    → (start_agent env config).1 ≡ true
    → (run env config i no_agents).0 ≡ served i 1
unfolding run
run_first env config i ok = rw ok refl

clear_earlier :
    (i : ℕ) (order : List ℕ) (n : ℕ)
    → n ≡ suc (length order)
    → clear_all order (served i n) ≡ served i 1
unfolding clear_all clear_agent
clear_earlier i [] n h = ap (served i) h
clear_earlier i (j ∷ order) n h =
    let some_left : (n == 0) ≡ false = ground arith in
    let not_last : (n == 1) ≡ false = ground arith in
    rw (some_left, not_last) (clear_earlier i order (n - 1) (omega arith))

clear_all-append :
    (xs ys : List ℕ) (s : Agents) → clear_all (xs ++ ys) s ≡ clear_all ys (clear_all xs s)
unfolding clear_all
clear_all-append [] ys s = refl
clear_all-append (x ∷ xs) ys s = clear_all-append xs ys (clear_agent x s)

last_lem :
    (i last : ℕ)
    → clear_all (last ∷ []) (served i 1) ≡ record {
      ref_count = 0;
      holder = if last == i then none else some i;
      is_running = not (last == i);
      is_up = false;
    }
unfolding clear_all clear_agent
last_lem i last = elim (Bool-cases (last == i)) [
  | inl same ↦ rw same refl
  | inr other ↦ rw other refl
]

-- If the first agent's start succeeds, then when as many agents are cleared as have started, Net-SNMP
-- is shut down; but the thread has ended only if the agent that started first is the last to be
-- cleared, and runs on otherwise.
pub clear_all-run_all :
    (env : AgentEnv) (config : Config) (i : ℕ) (rest order : List ℕ) (last : ℕ)
    → (start_agent env config).1 ≡ true
    → length order ≡ length rest
    → clear_all (order ++ last ∷ []) (run_all env config (i ∷ rest) no_agents) ≡ record {
      ref_count = 0;
      holder = if last == i then none else some i;
      is_running = not (last == i);
      is_up = false;
    }
unfolding run_all
clear_all-run_all env config i rest order last ok same =
    ap (λ s. clear_all (order ++ last ∷ []) (run_all env config rest s)) (run_first env config i ok)
    ∙ ap (clear_all (order ++ last ∷ [])) (run_later env config i rest 1 (omega arith))
    ∙ clear_all-append order (last ∷ []) (served i (1 + length rest))
    ∙ ap (clear_all (last ∷ [])) (clear_earlier i order (1 + length rest) (omega arith))
    ∙ last_lem i last
