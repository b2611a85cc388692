-- ===== src/Snmp/Pipe.antt =====
-- The loopback sockets with which `snmp_agent_t` of src/snmp_agent.cc breaks the loop of its thread:
-- `Run` makes them, `Clear` sends the signal and closes them.
use psych.Prelude.{
  ℕ, ◌+◌, Bool, true, false, Option, none, some, List, [], ◌∷◌, ◌++◌, ◌≡◌, refl, ap, arith, ◌==◌,
  if◌then◌else◌,
}

-- What the system answers: sockets, where it makes them, and whether the other calls succeed.
pub record SocketEnv : Type 0 where
  pub listener : Option ℕ
  pub binds : Bool
  pub names : Bool
  pub listens : Bool
  pub writer : Option ℕ
  pub connects : Bool
  pub reader : Option ℕ
  pub unblocks : Bool
  pub closes : Bool

-- what is done with a socket
pub data SocketCall : Type 0 where
  opened closed signalled : ℕ → SocketCall

abbrev pub on_socket : (ℕ → SocketCall) → Option ℕ → List SocketCall
on_socket call none = []
on_socket call (some s) = call s ∷ []

abbrev pub is_valid : Option ℕ → Bool
is_valid none = false
is_valid (some s) = true

-- the steps of `Run`, in order: what the assertion behind each says, and what it does with a socket
abbrev pub pipe_steps : SocketEnv → List (Bool × List SocketCall)
pipe_steps env =
    (is_valid env.listener, on_socket opened env.listener)
    ∷ (env.binds, [])
    ∷ (env.names, [])
    ∷ (env.listens, [])
    ∷ (is_valid env.writer, on_socket opened env.writer)
    ∷ (env.connects, [])
    ∷ (is_valid env.reader, on_socket opened env.reader)
    ∷ (env.unblocks, [])
    ∷ (env.closes, on_socket closed env.listener)
    ∷ []

-- one step, given what is done behind it; an assertion that fails ends the process, in a build that
-- has assertions
abbrev pub assert_step :
    Bool → Bool → List SocketCall → List SocketCall × Bool → List SocketCall × Bool
assert_step is_debug ok calls (calls', goes_on) =
    if is_debug
    then (if ok then (calls ++ calls', goes_on) else ([], false))
    else (calls ++ calls', goes_on)

unfoldable pub run_steps : Bool → List (Bool × List SocketCall) → List SocketCall × Bool
run_steps is_debug [] = ([], true)
run_steps is_debug ((ok, calls) ∷ rest) = assert_step is_debug ok calls (run_steps is_debug rest)

-- the pipe in `Run`: its calls, and whether the process goes on
unfoldable pub open_pipe : Bool → SocketEnv → List SocketCall × Bool
unfolding run_steps
open_pipe is_debug env = run_steps is_debug (pipe_steps env)

-- the pipe in `Clear`, around the end of the thread
unfoldable pub clear_pipe : SocketEnv → List SocketCall
clear_pipe env =
    on_socket signalled env.writer ++ on_socket closed env.reader ++ on_socket closed env.writer

abbrev all_calls : List (Bool × List SocketCall) → List SocketCall
all_calls [] = []
all_calls ((ok, calls) ∷ rest) = calls ++ all_calls rest

abbrev all_ok : List (Bool × List SocketCall) → Bool
all_ok [] = true
all_ok ((ok, calls) ∷ rest) = if ok then all_ok rest else false

-- how often a socket is opened, and closed
abbrev pub openings : ℕ → List SocketCall → ℕ
openings s [] = 0
openings s (opened t ∷ calls) = (if s == t then 1 else 0) + openings s calls
openings s (closed t ∷ calls) = openings s calls
openings s (signalled t ∷ calls) = openings s calls

abbrev pub closings : ℕ → List SocketCall → ℕ
closings s [] = 0
closings s (opened t ∷ calls) = closings s calls
closings s (closed t ∷ calls) = (if s == t then 1 else 0) + closings s calls
closings s (signalled t ∷ calls) = closings s calls

run_steps-all :
    (is_debug : Bool) (steps : List (Bool × List SocketCall))
    → (run_steps is_debug steps).1 ≡ true
    → (run_steps is_debug steps).0 ≡ all_calls steps
unfolding run_steps
run_steps-all is_debug [] h = refl
run_steps-all true ((true, calls) ∷ rest) h = ap (λ l. calls ++ l) (run_steps-all true rest h)
run_steps-all true ((false, calls) ∷ rest) h = absurd (cc h)
run_steps-all false ((ok, calls) ∷ rest) h = ap (λ l. calls ++ l) (run_steps-all false rest h)

balance :
    (env : SocketEnv) (s : ℕ) (l w r : Option ℕ)
    → env.listener ≡ l
    → env.writer ≡ w
    → env.reader ≡ r
    → openings s (all_calls (pipe_steps env) ++ clear_pipe env)
      ≡ closings s (all_calls (pipe_steps env) ++ clear_pipe env)
unfolding clear_pipe
balance env s none none none a b c = rw (a, b, c) refl
balance env s none none (some r) a b c = rw (a, b, c) refl
balance env s none (some w) none a b c = rw (a, b, c) refl
balance env s none (some w) (some r) a b c = rw (a, b, c) (omega arith)
balance env s (some l) none none a b c = rw (a, b, c) refl
balance env s (some l) none (some r) a b c = rw (a, b, c) (omega arith)
balance env s (some l) (some w) none a b c = rw (a, b, c) (omega arith)
balance env s (some l) (some w) (some r) a b c = rw (a, b, c) (omega arith)

run_steps-ok :
    (is_debug : Bool) (steps : List (Bool × List SocketCall))
    → (run_steps is_debug steps).1 ≡ (if is_debug then all_ok steps else true)
unfolding run_steps
run_steps-ok true [] = refl
run_steps-ok false [] = refl
run_steps-ok true ((true, calls) ∷ rest) = run_steps-ok true rest
run_steps-ok true ((false, calls) ∷ rest) = refl
run_steps-ok false ((ok, calls) ∷ rest) = run_steps-ok false rest

-- A build with assertions goes on just when every call succeeds; one without goes on whatever happens.
-- Unless an assertion ends the process, each socket is closed as often as it is opened when the agent
-- is cleared, in a build with assertions and in one without.
clear_pipe-open_pipe :
    (is_debug : Bool) (env : SocketEnv) (s : ℕ)
    → ((open_pipe is_debug env).1 ≡ (if is_debug then all_ok (pipe_steps env) else true))
      × ((open_pipe is_debug env).1 ≡ true
          → openings s ((open_pipe is_debug env).0 ++ clear_pipe env)
            ≡ closings s ((open_pipe is_debug env).0 ++ clear_pipe env))
unfolding open_pipe
clear_pipe-open_pipe is_debug env s = (
  run_steps-ok is_debug (pipe_steps env),
  λ h.
      rw (run_steps-all is_debug (pipe_steps env) h)
        (balance env s env.listener env.writer env.reader refl refl refl),
)
