-- ===== src/Cc3220sf/Handlers.antt =====
-- cc3220sf.c, the handlers that the SimpleLink driver, the Wi-Fi connection manager and the firmware
-- update call. Each turns what it is told into an event of the device thread.
use tisdk_cc32xx_issues.Prelude.{
  Bool, true, false, not, ℕ, ◌+◌, ◌/◌, ◌∷◌, ◌++◌, [], List, length, drop, take, ltb, ℤ,
  if◌then◌else◌,
}
use tisdk_cc32xx_issues.Cc3220sf.Types.{
  Device, DevEvent, Host, Request, RequestType, ip_lost, ip_leased, ip_released, disconnect,
  sta_added, sta_removed, prof_added, provisioning_started, provisioning_success,
  provisioning_stopped, provisioning_connect_failed, provisioning_connect_success,
  provisioning_timeout, provisioning_ip_acquired, provisioning_ip_failed,
  provisioning_confirm_failed, fw_download_start, fw_download_done, fw_download_error, fatal_error,
  post_wlan_data, notify_netdev, ota_commit, other_request,
}
use tisdk_cc32xx_issues.Cc3220sf.Run.{
  D, ◌>>=◌, ◌>>◌, return, modify, get, call, send_event, ret, blocked,
}

-- The values of ProvisioningStatus that SimpleLinkWlanEventHandler names
pub data ProvStatus : Type 0 where
  prov_general_error prov_error_abort prov_error_abort_invalid_param : ProvStatus
  prov_error_abort_http_server_disabled prov_error_abort_profile_list_full : ProvStatus
  prov_error_abort_already_started fail_network_not_found fail_connection_failed : ProvStatus
  success_ip_not_acquired success_feedback_failed confirmation_success auto_started : ProvStatus
  prov_stopped smart_config_synced smart_config_sync_timeout : ProvStatus
  confirmation_wlan_connect confirmation_ip_acquired : ProvStatus
  external_configuration_ready other_status : ProvStatus

-- SlWlanEvent_t: the SSID and the BSSID of a connection, and the reason code of a disconnection
pub data WlanEvent : Type 0 where
  wlan_connect : List ℕ → List ℕ → WlanEvent
  wlan_disconnect : ℕ → WlanEvent
  wlan_sta_added wlan_sta_removed profile_added link_quality_trigger other_wlan : WlanEvent
  wlan_provisioning_status : ProvStatus → WlanEvent

abbrev pub send : DevEvent → Device → Device
send e d = send_event e d

unfoldable pub provisioning_handler : ProvStatus → Device → Device
unfolding send_event
provisioning_handler fail_network_not_found d = send provisioning_confirm_failed d
provisioning_handler fail_connection_failed d = send provisioning_connect_failed d
provisioning_handler success_ip_not_acquired d = send provisioning_ip_failed d
provisioning_handler success_feedback_failed d = send provisioning_confirm_failed d
provisioning_handler confirmation_success d = send provisioning_success d
provisioning_handler auto_started d = send provisioning_started d
provisioning_handler prov_stopped d = send provisioning_stopped d
provisioning_handler smart_config_sync_timeout d = send provisioning_timeout d
provisioning_handler confirmation_wlan_connect d = send provisioning_connect_success d
provisioning_handler confirmation_ip_acquired d = send provisioning_ip_acquired d
provisioning_handler _ d = d

-- memcpy over the front of a buffer
abbrev pub copy_over : List ℕ → List ℕ → List ℕ
copy_over bytes buffer = bytes ++ drop (length bytes) buffer

-- SimpleLinkWlanEventHandler
unfoldable pub wlan_event_handler : WlanEvent → Device → Device
unfolding send_event provisioning_handler
wlan_event_handler (wlan_connect ssid bssid) d = send DevEvent.connected (record d {
  ssid_connection = copy_over ssid d.ssid_connection;
  bssid_connection = take 6 bssid;
})
wlan_event_handler (wlan_disconnect reason) d = send disconnect (record d { reason_code = reason })
wlan_event_handler wlan_sta_added d = send sta_added d
wlan_event_handler wlan_sta_removed d = send sta_removed d
wlan_event_handler profile_added d = send prof_added d
wlan_event_handler (wlan_provisioning_status s) d = provisioning_handler s d
wlan_event_handler _ d = d

-- SimpleLinkFatalErrorEventHandler: every kind of error is logged and sent on alike.
unfoldable pub fatal_error_event_handler : Device → Device
unfolding send_event
fatal_error_event_handler d = send fatal_error d

-- SlNetAppEvent_t: the addresses of the station, the gateway and the name server
pub data NetAppEvent : Type 0 where
  ipv4_acquired ipv6_acquired : ℕ → ℕ → ℕ → NetAppEvent
  ipv4_lost ipv6_lost dhcpv4_leased dhcpv4_released other_net_app : NetAppEvent

-- SimpleLinkNetAppEventHandler: an IPv6 address is read as an IPv4 one.
abbrev pub take_addresses : ℕ → ℕ → ℕ → Device → Device
take_addresses ip gateway dns d = record d { station_ip = ip; gateway_ip = gateway; dns_ip = dns }

unfoldable pub net_app_event_handler : NetAppEvent → Device → Device
unfolding send_event
net_app_event_handler (ipv4_acquired ip gateway dns) d =
    take_addresses ip gateway dns (send DevEvent.ip_acquired d)
net_app_event_handler (ipv6_acquired ip gateway dns) d =
    take_addresses ip gateway dns (send DevEvent.ip_acquired d)
net_app_event_handler ipv4_lost d = take_addresses 0 0 0 (send ip_lost d)
net_app_event_handler ipv6_lost d = take_addresses 0 0 0 (send ip_lost d)
net_app_event_handler dhcpv4_leased d = send ip_leased d
net_app_event_handler dhcpv4_released d = send ip_released d
net_app_event_handler other_net_app d = d

-- otaNotif_e
pub data OtaNotification : Type 0 where
  image_pending_commit image_download image_progress image_downloaded : OtaNotification
  getlink_error download_error install_error commit_error other_notification : OtaNotification

-- SimpleLinkOtaEventHandler
unfoldable pub ota_event_handler : Host → OtaNotification → D (Unit {0})
unfolding send_event
ota_event_handler host image_pending_commit = do call host ota_commit; return tt
ota_event_handler host image_download = modify (send fw_download_start)
ota_event_handler host image_downloaded = modify (send fw_download_done)
ota_event_handler host download_error = modify (send fw_download_error)
ota_event_handler host _ = return tt

-- WifiConnEventId_e with the data that a handler reads: the MAC address that sl_NetCfgGet returns,
-- and BSSID, management and control RSSI of a result
pub data WifiConnEvent : Type 0 where
  powered_up : List ℕ → WifiConnEvent
  powered_down stats_pause stats_resume other_wifi_conn : WifiConnEvent
  stats_result : List ℕ → ℤ → ℤ → WifiConnEvent

-- NETWORK_EVENT_PAUSE and NETWORK_EVENT_RESUME
abbrev pub network_event_pause : ℕ
network_event_pause = 6

abbrev pub network_event_resume : ℕ
network_event_resume = 7

-- SlWifiConnEventHandler
unfoldable pub wifi_conn_event_handler : Host → WifiConnEvent → D (Unit {0})
unfolding send_event
wifi_conn_event_handler host (powered_up mac) =
    modify (λ d. send DevEvent.running (record d { mac_address = mac }))
wifi_conn_event_handler host powered_down = modify (send DevEvent.stopped)
wifi_conn_event_handler host stats_pause = do
  call host (notify_netdev network_event_pause)
  return tt
wifi_conn_event_handler host stats_resume = do
  call host (notify_netdev network_event_resume)
  return tt
wifi_conn_event_handler host (stats_result bssid mgmt ctrl) = do
  d ← get
  call host (
      post_wlan_data bssid mgmt ctrl d.total_fatal_errors d.total_recoveries d.total_disconnects
        (d.connected_time / 1000))
  return tt
wifi_conn_event_handler host other_wifi_conn = return tt

-- The Status of SlNetAppResponse_t; no response carries data.
pub data Response : Type 0 where
  response_pending response_500_internal_server_error : Response

-- malloc of a block that the descriptor will own
unfoldable pub alloc : Host → ℕ → D Bool
alloc host size d =
    if host.has_block d.allocated size
    then ret true (record d { allocated = d.allocated + size })
    else ret false d

-- A part of the request, with no block for an empty one
unfoldable pub alloc_part : Host → List ℕ → D Bool
unfolding alloc
alloc_part host [] = return true
alloc_part host (b ∷ bytes) = alloc host (length (b ∷ bytes))

-- mq_send to the queue of one request, which waits while it is full. The message is the pointer to the
-- request, and mq_send is given 1 as its length: `through_queue` is the request that the pointer stands
-- for with which mq_receive comes back.
unfoldable pub post_request : Host → Request → D (Unit {0})
post_request host r d =
    if ltb (length d.http_q) 1
    then ret tt (record d { http_q = d.http_q ++ host.through_queue r ∷ [] })
    else blocked d

-- The allocations and the queue of SimpleLinkNetAppRequestEventHandler: an early return leaves the
-- blocks that it has.
unfoldable pub queue_request : Host → Request → D Response
unfolding alloc alloc_part post_request
queue_request host r = do
  has_item ← alloc host host.request_size
  if not has_item then return response_500_internal_server_error else (do
    has_metadata ← alloc_part host r.metadata
    if not has_metadata then return response_500_internal_server_error else (do
      has_payload ← alloc_part host r.payload
      if not has_payload
          then return response_500_internal_server_error
          else (do post_request host r; return response_pending)))

-- A request of another type is refused before anything is allocated.
unfoldable pub queue_http_request : Host → Request → RequestType → D Response
unfolding queue_request
queue_http_request host r other_request = return response_500_internal_server_error
queue_http_request host r _ = queue_request host r

-- SimpleLinkNetAppRequestEventHandler
unfoldable pub net_app_request_handler : Host → Request → D Response
unfolding queue_http_request
net_app_request_handler host r = queue_http_request host r r.request_type
