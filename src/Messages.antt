-- ===== src/Messages.antt =====
-- The RFA messages that psych submits, as what they encode: the refresh of `psych_t::SendRefresh` in
-- src/psych.cc, and the service directory of src/provider.cc. Constants of the RFA headers are
-- constructors here.
use psych.Prelude.{ℕ, List, Option}
use psych.Prelude.Int.{ℤ}
use psych.Prelude.Bytes.{Bytes}

-- `rfa::rdm::MMT_…`
pub data ModelType : Type 0 where
  login market_price directory : ModelType

-- What `SingleWriteIterator` encodes for one field: a string, a time, a date, a real with exponent
-- -6, or a blank.
pub data FieldValue : Type 0 where
  ascii rmtes : Bytes → FieldValue
  time_of_day : ℕ → ℕ → ℕ → FieldValue
  date : ℕ → ℕ → ℕ → FieldValue
  real : ℤ → FieldValue
  blank : FieldValue

pub record FieldEntry : Type 0 where
  pub fid : ℤ
  pub value : FieldValue

pub record MarketPrice : Type 0 where
  pub name : Bytes
  pub service_name : Bytes
  pub rwf_major : ℕ
  pub rwf_minor : ℕ
  pub fields : List FieldEntry
  pub permission : Option Bytes

-- `rfa::rdm::ENAME_…`
pub data ElementName : Type 0 where
  ename_name ename_vendor ename_capabilities : ElementName
  ename_dictionaries_used ename_qos ename_svc_state : ElementName

-- real time and tick by tick is the only quality that psych announces
pub data Quality : Type 0 where
  real_time_tick_by_tick : Quality

pub data ElementData : Type 0 where
  text : Bytes → ElementData
  uint : ℕ → ElementData
  models : List ModelType → ElementData
  texts : List Bytes → ElementData
  qualities : List Quality → ElementData

pub record Element : Type 0 where
  pub name : ElementName
  pub value : ElementData

pub data FilterId : Type 0 where
  service_info service_state : FilterId

pub record FilterEntry : Type 0 where
  pub filter_id : FilterId
  pub elements : List Element

-- the map of `GetServiceDirectory`: one service name with its filter list
pub record ServiceMap : Type 0 where
  pub rwf_major : ℕ
  pub rwf_minor : ℕ
  pub service_name : Bytes
  pub filters : List FilterEntry

pub data RespMsg : Type 0 where
  directory_refresh : ServiceMap → RespMsg
  market_price_refresh : MarketPrice → RespMsg

abbrev pub model_type : RespMsg → ModelType
model_type (directory_refresh m) = directory
model_type (market_price_refresh m) = market_price
