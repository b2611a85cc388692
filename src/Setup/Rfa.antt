-- ===== src/Setup/Rfa.antt =====
-- The <Snmp> and <Rfa> nodes: `ParseSnmpNode` to `ParseVendorNode` of src/config.cc.
use psych.Prelude.{true, [], ◌∷◌, ◌++◌, if◌then◌else◌, is_empty}
use psych.Prelude.Bytes.{codes, equal}
use psych.Config.{SessionConfig, Config, empty_session}
use psych.Setup.Dom.{Dom, Read, read, failed, ◌>>=◌, each, override}

module _ (dom : Dom) where
  -- `ParseAgentXNode`
  unfoldable pub parse_agentx_node : dom.Node → Config → Read Config
  unfolding equal
  parse_agentx_node node c =
      let subagent = dom.attribute node (codes "subagent") in
      read (record c {
        is_agentx_subagent =
            if is_empty subagent then c.is_agentx_subagent else equal subagent (codes "true");
        agentx_socket = override (dom.attribute node (codes "socket")) c.agentx_socket;
      })

  -- `ParseSnmpNode`
  unfoldable pub parse_snmp_node : dom.Node → Config → Read Config
  unfolding parse_agentx_node
  parse_snmp_node node c = do
    c' ←
        each parse_agentx_node (dom.elements node (codes "agentX")) (record c {
          snmp_filelog = override (dom.attribute node (codes "filelog")) c.snmp_filelog;
        })
    read (record c' { is_snmp_enabled = true })

  -- `ParseServiceNode`
  unfoldable pub parse_service_node : dom.Node → Config → Read Config
  parse_service_node node c =
      let name = dom.attribute node (codes "name") in
      if is_empty name then failed else read (record c { service_name = name })

  -- `ParseDacsNode`
  unfoldable pub parse_dacs_node : dom.Node → Config → Read Config
  parse_dacs_node node c =
      read (record c { dacs_id = override (dom.attribute node (codes "id")) c.dacs_id })

  -- `ParsePublisherNode`
  unfoldable pub parse_publisher_node : dom.Node → SessionConfig → Read SessionConfig
  parse_publisher_node node s =
      read (record s { publisher_name = dom.attribute node (codes "name") })

  -- `ParseServerNode`, and the server behind those before it
  unfoldable pub parse_server_node : dom.Node → SessionConfig → Read SessionConfig
  parse_server_node node s =
      if is_empty (dom.text node)
      then failed
      else read (record s { rssl_servers = s.rssl_servers ++ dom.text node ∷ [] })

  -- `ParseConnectionNode`
  unfoldable pub parse_connection_node : dom.Node → SessionConfig → Read SessionConfig
  unfolding parse_server_node
  parse_connection_node node s =
      let name = dom.attribute node (codes "name") in
      if is_empty name
      then failed
      else each parse_server_node (dom.elements node (codes "server")) (record s {
        connection_name = name;
        rssl_default_port = dom.attribute node (codes "defaultPort");
      })

  -- `ParseLoginNode`
  unfoldable pub parse_login_node : dom.Node → SessionConfig → Read SessionConfig
  parse_login_node node s = read (record s {
    application_id = dom.attribute node (codes "applicationId");
    instance_id = dom.attribute node (codes "instanceId");
    user_name = dom.attribute node (codes "userName");
    position = dom.attribute node (codes "position");
  })

  -- `ParseSessionNode`
  unfoldable pub parse_session_node : dom.Node → Config → Read Config
  unfolding parse_publisher_node parse_connection_node parse_login_node
  parse_session_node node c =
      let name = dom.attribute node (codes "name") in
      if is_empty name then failed else do
        s ←
            each parse_publisher_node (dom.elements node (codes "publisher"))
              (record empty_session { session_name = name })
        s' ← each parse_connection_node (dom.elements node (codes "connection")) s
        s'' ← each parse_login_node (dom.elements node (codes "login")) s'
        read (record c { sessions = c.sessions ++ s'' ∷ [] })

  -- `ParseMonitorNode`, `ParseEventQueueNode` and `ParseVendorNode`
  unfoldable pub parse_monitor_node : dom.Node → Config → Read Config
  parse_monitor_node node c =
      read (record c { monitor_name = override (dom.attribute node (codes "name")) c.monitor_name })

  unfoldable pub parse_event_queue_node : dom.Node → Config → Read Config
  parse_event_queue_node node c = read (record c {
    event_queue_name = override (dom.attribute node (codes "name")) c.event_queue_name;
  })

  unfoldable pub parse_vendor_node : dom.Node → Config → Read Config
  parse_vendor_node node c =
      read (record c { vendor_name = override (dom.attribute node (codes "name")) c.vendor_name })

  -- `ParseRfaNode`
  unfoldable pub parse_rfa_node : dom.Node → Config → Read Config
  unfolding parse_service_node parse_dacs_node parse_session_node parse_monitor_node
      parse_event_queue_node parse_vendor_node
  parse_rfa_node node c = do
    c1 ← each parse_service_node (dom.elements node (codes "service")) (record c {
      key = override (dom.attribute node (codes "key")) c.key;
      maximum_data_size =
          override (dom.attribute node (codes "maximumDataSize")) c.maximum_data_size;
    })
    c2 ← each parse_dacs_node (dom.elements node (codes "DACS")) c1
    c3 ← each parse_session_node (dom.elements node (codes "session")) c2
    c4 ← each parse_monitor_node (dom.elements node (codes "monitor")) c3
    c5 ← each parse_event_queue_node (dom.elements node (codes "eventQueue")) c4
    each parse_vendor_node (dom.elements node (codes "vendor")) c5
