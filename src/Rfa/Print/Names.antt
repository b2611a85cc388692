-- ===== src/Rfa/Print/Names.antt =====
-- The names of the values of RFA's enumerations: the switches of src/rfaostream.hh. `other` is a value
-- that has no case.
use psych.Prelude.Bytes.{Bytes, codes}

pub data NameType : Type 0 where
  instrument_name_unspecified instrument_name_ric instrument_name_max_reserved other : NameType

unfoldable pub name_type_text : NameType → Bytes
name_type_text instrument_name_unspecified = codes "INSTRUMENT_NAME_UNSPECIFIED"
name_type_text instrument_name_ric = codes "INSTRUMENT_NAME_RIC"
name_type_text instrument_name_max_reserved = codes "INSTRUMENT_NAME_MAX_RESERVED"
name_type_text other = codes "(Unknown)"

pub data DataState : Type 0 where
  unspecified ok_state suspect other : DataState

unfoldable pub data_state_text : DataState → Bytes
data_state_text unspecified = codes "UnspecifiedEnum"
data_state_text ok_state = codes "OkEnum"
data_state_text suspect = codes "SuspectEnum"
data_state_text other = codes "(Unknown)"

pub data StatusCode : Type 0 where
  none_code not_found timeout_code not_authorized invalid_argument usage_error preempted
        just_in_time_filtering_started tick_by_tick_resumed failover_started failover_completed
        gap_detected no_resources too_many_items already_open source_unknown not_open
        non_updating_item unsupported_view_type invalid_view full_view_provided
        unable_to_request_as_batch other :
      StatusCode

unfoldable pub status_code_text : StatusCode → Bytes
status_code_text none_code = codes "NoneEnum"
status_code_text not_found = codes "NotFoundEnum"
status_code_text timeout_code = codes "TimeoutEnum"
status_code_text not_authorized = codes "NotAuthorizedEnum"
status_code_text invalid_argument = codes "InvalidArgumentEnum"
status_code_text usage_error = codes "UsageErrorEnum"
status_code_text preempted = codes "PreemptedEnum"
status_code_text just_in_time_filtering_started = codes "JustInTimeFilteringStartedEnum"
status_code_text tick_by_tick_resumed = codes "TickByTickResumedEnum"
status_code_text failover_started = codes "FailoverStartedEnum"
status_code_text failover_completed = codes "FailoverCompletedEnum"
status_code_text gap_detected = codes "GapDetectedEnum"
status_code_text no_resources = codes "NoResourcesEnum"
status_code_text too_many_items = codes "TooManyItemsEnum"
status_code_text already_open = codes "AlreadyOpenEnum"
status_code_text source_unknown = codes "SourceUnknownEnum"
status_code_text not_open = codes "NotOpenEnum"
status_code_text non_updating_item = codes "NonUpdatingItemEnum"
status_code_text unsupported_view_type = codes "UnsupportedViewTypeEnum"
status_code_text invalid_view = codes "InvalidViewEnum"
status_code_text full_view_provided = codes "FullViewProvidedEnum"
status_code_text unable_to_request_as_batch = codes "UnableToRequestAsBatchEnum"
status_code_text other = codes "(Unknown)"

pub data StreamState : Type 0 where
  unspecified_stream_state open_state non_streaming closed_recover closed_state redirected other :
      StreamState

unfoldable pub stream_state_text : StreamState → Bytes
stream_state_text unspecified_stream_state = codes "UnspecifiedStreamStateEnum"
stream_state_text open_state = codes "OpenEnum"
stream_state_text non_streaming = codes "NonStreamingEnum"
stream_state_text closed_recover = codes "ClosedRecoverEnum"
stream_state_text closed_state = codes "ClosedEnum"
stream_state_text redirected = codes "RedirectedEnum"
stream_state_text other = codes "(Unknown)"

pub data MsgModelType : Type 0 where
  mmt_login mmt_directory mmt_dictionary mmt_market_price mmt_market_by_order mmt_market_by_price
        mmt_market_maker mmt_symbol_list mmt_history other :
      MsgModelType

unfoldable pub model_type_text : MsgModelType → Bytes
model_type_text mmt_login = codes "MMT_LOGIN"
model_type_text mmt_directory = codes "MMT_DIRECTORY"
model_type_text mmt_dictionary = codes "MMT_DICTIONARY"
model_type_text mmt_market_price = codes "MMT_MARKET_PRICE"
model_type_text mmt_market_by_order = codes "MMT_MARKET_BY_ORDER"
model_type_text mmt_market_by_price = codes "MMT_MARKET_BY_PRICE"
model_type_text mmt_market_maker = codes "MMT_MARKET_MAKER"
model_type_text mmt_symbol_list = codes "MMT_SYMBOL_LIST"
model_type_text mmt_history = codes "MMT_HISTORY"
model_type_text other = codes "(Unknown)"

pub data RespType : Type 0 where
  refresh status update other : RespType

unfoldable pub resp_type_text : RespType → Bytes
resp_type_text refresh = codes "RefreshEnum"
resp_type_text status = codes "StatusEnum"
resp_type_text update = codes "UpdateEnum"
resp_type_text other = codes "(Unknown)"

pub data MsgType : Type 0 where
  req_msg generic_msg post_msg ack_msg other : MsgType

unfoldable pub msg_type_text : MsgType → Bytes
msg_type_text req_msg = codes "ReqMsg"
msg_type_text generic_msg = codes "GenericMsg"
msg_type_text post_msg = codes "PostMsg"
msg_type_text ack_msg = codes "AckMsg"
msg_type_text other = codes "(Unknown)"

pub data EventType : Type 0 where
  event_queue_status_event compl_event market_data_item_event market_data_dict_event
        market_data_svc_event market_data_managed_pub_channel_req_event
        market_data_managed_pub_item_req_event pub_error_event market_data_item_cont_reply_event
        session_event market_data_cbr_name_event entitlements_authentication_event connection_event
        market_data_managed_active_items_pub_event market_data_managed_inactive_items_pub_event
        market_data_managed_pub_mirroring_mode_event market_data_managed_item_cont_req_pub_event
        market_data_managed_active_client_session_pub_event
        market_data_managed_inactive_client_session_pub_event omm_active_client_session_event
        omm_inactive_client_session_event omm_solicited_item_event omm_cmd_error_event
        logger_notify_event other :
      EventType

unfoldable pub event_type_text : EventType → Bytes
event_type_text event_queue_status_event = codes "EventQueueStatusEventEnum"
event_type_text compl_event = codes "ComplEventEnum"
event_type_text market_data_item_event = codes "MarketDataItemEventEnum"
event_type_text market_data_dict_event = codes "MarketDataDictEventEnum"
event_type_text market_data_svc_event = codes "MarketDataSvcEventEnum"
event_type_text market_data_managed_pub_channel_req_event =
    codes "MarketDataManagedPubChannelReqEventEnum"
event_type_text market_data_managed_pub_item_req_event =
    codes "MarketDataManagedPubItemReqEventEnum"
event_type_text pub_error_event = codes "PubErrorEventEnum"
event_type_text market_data_item_cont_reply_event = codes "MarketDataItemContReplyEventEnum"
event_type_text session_event = codes "SessionEventEnum"
event_type_text market_data_cbr_name_event = codes "MarketDataCBR_NameEventEnum"
event_type_text entitlements_authentication_event = codes "EntitlementsAuthenticationEventEnum"
event_type_text connection_event = codes "ConnectionEventEnum"
event_type_text market_data_managed_active_items_pub_event =
    codes "MarketDataManagedActiveItemsPubEventEnum"
event_type_text market_data_managed_inactive_items_pub_event =
    codes "MarketDataManagedInactiveItemsPubEventEnum"
event_type_text market_data_managed_pub_mirroring_mode_event =
    codes "MarketDataManagedPubMirroringModeEventEnum"
event_type_text market_data_managed_item_cont_req_pub_event =
    codes "MarketDataManagedItemContReqPubEventEnum"
event_type_text market_data_managed_active_client_session_pub_event =
    codes "MarketDataManagedActiveClientSessionPubEventEnum"
event_type_text market_data_managed_inactive_client_session_pub_event =
    codes "MarketDataManagedInactiveClientSessionPubEventEnum"
event_type_text omm_active_client_session_event = codes "OMMActiveClientSessionEventEnum"
event_type_text omm_inactive_client_session_event = codes "OMMInactiveClientSessionEventEnum"
event_type_text omm_solicited_item_event = codes "OMMSolicitedItemEventEnum"
event_type_text omm_cmd_error_event = codes "OMMCmdErrorEventEnum"
event_type_text logger_notify_event = codes "LoggerNotifyEventEnum"
event_type_text other = codes "(Unknown)"
