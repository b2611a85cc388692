-- ===== src/Rfa/Log.antt =====
-- The client of RFA's own log: `LogEventProvider` of src/rfa_logging.cc.
use psych.Prelude.{
  ℕ, zero, suc, Bool, true, false, Option, none, some, List, [], ◌∷◌, ◌++◌, ◌≡◌, ◌↔◌, refl,
}
use mathlib.Core.List.{reverse}
use psych.Prelude.Int.{ℤ}
use psych.Prelude.Bytes.{Bytes, codes}
use psych.Config.Print.{quoted, text_member, print_int}

-- What a call of RFA that makes an object comes to.
pub data Made : Type 0 where
  object null raised : Made

-- What RFA answers to `acquire`, `createApplicationLoggerMonitor` and `registerLoggerClient`.
pub record LogEnv : Type 0 where
  pub acquires : Made
  pub creates : Made
  pub registers : Made

-- The members that are set: `logger_`, `monitor_`, `handle_`.
pub record LogClient : Type 0 where
  pub logger : Bool
  pub monitor : Bool
  pub handle : Bool

-- what is taken from RFA, and given back to it
pub data Taken : Type 0 where
  logger monitor handle : Taken

-- how Register ends
pub data Registered : Type 0 where
  succeeded failed threw : Registered

-- The constructor.
abbrev pub new_client : LogClient
new_client = record { logger = false; monitor = false; handle = false }

-- the steps of `Register` from the last on: what is taken, the members, and how it ends
unfoldable pub register_client : Made → LogClient → List Taken × LogClient × Registered
register_client object c = (handle ∷ [], record c { handle = true }, succeeded)
register_client null c = ([], record c { handle = false }, failed)
register_client raised c = ([], c, threw)

abbrev pub after : Taken → List Taken × LogClient × Registered → List Taken × LogClient × Registered
after t (taken, c, end) = (t ∷ taken, c, end)

unfoldable pub create_monitor : LogEnv → Made → LogClient → List Taken × LogClient × Registered
unfolding register_client
create_monitor env object c =
    after monitor (register_client env.registers (record c { monitor = true }))
create_monitor env null c = ([], record c { monitor = false }, failed)
create_monitor env raised c = ([], c, threw)

unfoldable pub acquire_logger : LogEnv → Made → LogClient → List Taken × LogClient × Registered
unfolding create_monitor
acquire_logger env object c =
    after logger (create_monitor env env.creates (record c { logger = true }))
acquire_logger env null c = ([], record c { logger = false }, failed)
acquire_logger env raised c = ([], c, threw)

-- `Register` of a client that holds nothing
unfoldable pub register : LogEnv → List Taken × LogClient × Registered
unfolding acquire_logger
register env = acquire_logger env env.acquires new_client

abbrev pub given : Bool → Taken → List Taken
given true t = t ∷ []
given false t = []

-- `Unregister`, and what it gives back; `none` is a handle without a monitor, which is read through a
-- null pointer
abbrev pub unregister_client : Bool → Bool → Option (List Taken)
unregister_client true true = some (handle ∷ [])
unregister_client true false = none
unregister_client false m = some []

abbrev pub unregister_rest : LogClient → Option (List Taken) → Option (List Taken × LogClient)
unregister_rest c none = none
unregister_rest c (some first) =
    some (first ++ (given c.monitor monitor ++ given c.logger logger), new_client)

unfoldable pub unregister : LogClient → Option (List Taken × LogClient)
unregister c = unregister_rest c (unregister_client c.handle c.monitor)

abbrev Undone : LogEnv → List Taken × LogClient × Registered → Type 0
Undone env (taken, c, end) =
    (unregister c ≡ some (reverse taken, new_client))
    × (unregister new_client ≡ some ([], new_client))
    × ((end ≡ succeeded)
        ↔ ((env.acquires ≡ object) × (env.creates ≡ object) × (env.registers ≡ object)))

-- all that RFA may answer
register-Undone :
    (a c r : Made)
    → let env : LogEnv = record { acquires = a; creates = c; registers = r } in
      Undone env (register env)
unfolding register unregister
register-Undone object object object = (refl, refl, (λ h. (refl, refl, refl), λ h. refl))
register-Undone object object null = (refl, refl, (λ h. cc, λ h. cc))
register-Undone object object raised = (refl, refl, (λ h. cc, λ h. cc))
register-Undone object null r = (refl, refl, (λ h. cc, λ h. cc))
register-Undone object raised r = (refl, refl, (λ h. cc, λ h. cc))
register-Undone null c r = (refl, refl, (λ h. cc, λ h. cc))
register-Undone raised c r = (refl, refl, (λ h. cc, λ h. cc))

-- However Register ends, Unregister reads no null pointer, gives back all that Register has taken, in
-- the reverse order, and leaves nothing for the Unregister of the destructor; and Register succeeds
-- just when RFA makes all three objects.
pub unregister-register :
    (env : LogEnv)
    → let (taken, c, end) = register env in
      (unregister c ≡ some (reverse taken, new_client))
      × (unregister new_client ≡ some ([], new_client))
      × ((end ≡ succeeded)
          ↔ ((env.acquires ≡ object) × (env.creates ≡ object) × (env.registers ≡ object)))
unregister-register env = register-Undone env.acquires env.creates env.registers

-- `static const char* severity[]`; `none` is a read past its end
unfoldable pub severity_text : ℕ → Option Bytes
severity_text zero = some (codes "Success")
severity_text (suc zero) = some (codes "Information")
severity_text (suc (suc zero)) = some (codes "Warning")
severity_text (suc (suc (suc zero))) = some (codes "Error")
severity_text severity = none

-- what an event of the log has
pub record LoggerNotifyEvent : Type 0 where
  pub severity : ℕ
  pub component_name : Bytes
  pub log_id : ℤ
  pub message_text : Bytes

print_with : LoggerNotifyEvent → Option Bytes → Option Bytes
unfolding quoted text_member print_int
print_with e none = none
print_with e (some severity) = some (
    codes "LoggerNotifyEvent: { \"Severity\": "
    ++ (quoted severity
        ++ (text_member (codes "Component") e.component_name
            ++ (text_member (codes "LogId") (print_int e.log_id)
                ++ (text_member (codes "Text") e.message_text ++ codes " }")))))

-- `operator<<` of src/rfa_logging.cc
unfoldable pub print_logger_notify_event : LoggerNotifyEvent → Option Bytes
unfolding print_with severity_text
print_logger_notify_event e = print_with e (severity_text e.severity)
