-- ===== src/Store.antt =====
-- The objects that the provider and its sessions share: src/provider.hh and src/session.hh.
-- An ItemToken* is the serial number of the token among those that the session's OMM provider has
-- generated. A std::shared_ptr to an item stream is an index into `streams`; a weak pointer has
-- expired when the stream is not `alive`. `wire` lists what RFA has accepted from `submit`.
use psych.Prelude.{ℕ, Bool, true, false, Option, List, [], Stats, no_stats}
use psych.Prelude.Bytes.{Bytes}
use psych.Config.{SessionConfig, Config}
use psych.Messages.{RespMsg}

-- `RespStatus::getStreamState`
pub data StreamState : Type 0 where
  stream_open stream_closed : StreamState
  stream_other : ℕ → StreamState

-- `RespStatus::getDataState`
pub data DataState : Type 0 where
  data_ok data_suspect : DataState
  data_other : ℕ → DataState

-- The counters of `session_t`, the positions of their enum.
pub record Submission : Type 0 where
  pub msg : RespMsg
  pub token : Option ℕ

-- `session_t`
pub record Session : Type 0 where
  pub config : SessionConfig
  pub instance_id : ℕ
  pub has_session : Bool
  pub has_omm_provider : Bool
  pub error_item_handle : Bool
  pub item_handle : Bool
  pub rwf_major : ℕ
  pub rwf_minor : ℕ
  pub is_muted : Bool
  pub stream_state : StreamState
  pub data_state : DataState
  pub stats : Stats
  pub generated : ℕ
  pub wire : List Submission

-- `item_stream_t`: one token for each session
pub record ItemStream : Type 0 where
  pub rfa_name : Bytes
  pub token : List (Option ℕ)
  pub alive : Bool

-- `provider_t`; `directory` maps a symbol name to its stream
pub record Provider : Type 0 where
  pub config : Config
  pub min_rwf_major : ℕ
  pub min_rwf_minor : ℕ
  pub sessions : List Session
  pub streams : List ItemStream
  pub directory : List (Bytes × ℕ)
  pub stats : Stats

-- The constructor of `session_t`.
abbrev pub new_session : ℕ → SessionConfig → Session
new_session i c = record {
  config = c;
  instance_id = i;
  has_session = false;
  has_omm_provider = false;
  error_item_handle = false;
  item_handle = false;
  rwf_major = 0;
  rwf_minor = 0;
  is_muted = true;
  stream_state = stream_other 0;
  data_state = data_other 0;
  stats = no_stats;
  generated = 0;
  wire = [];
}
