-- ===== src/Snmp/Objects.antt =====
-- What the tables of src/psychMIB.cc read: the plug-in instances of the global list, their
-- providers and their sessions. Times are microseconds since the Unix epoch.
use psych.Prelude.{ℕ, Option, List, Stats}
use psych.Prelude.Int.{ℤ}
use psych.Prelude.Bytes.{Bytes}
use psych.Config.{Config}
use psych.Store.{Session, StreamState, DataState}
use psych.Query.Loop.{Timing}

-- `session_t` and its `last_activity_`
pub record SessionObject : Type 0 where
  pub session : Session
  pub last_activity : ℤ

-- `provider_t`
pub record ProviderObject : Type 0 where
  pub stats : Stats
  pub last_activity : ℤ
  pub sessions : List SessionObject

-- `psych_t`; the provider is null until Init has made it, and after Clear
pub record Plugin : Type 0 where
  pub plugin_id : Bytes
  pub instance : ℕ
  pub config : Config
  pub stats : Stats
  pub last_activity : ℤ
  pub tcl_time : Timing
  pub refresh_time : Timing
  pub provider : Option ProviderObject

-- A value as `snmp_set_var_typed_value` gets it. The numbers of the two states are RFA's.
pub data Value : Type 0 where
  octets : Bytes → Value
  counter : ℕ → Value
  stream_value : StreamState → Value
  data_value : DataState → Value
