-- ===== src/SlWifiConn/Handlers.antt =====
-- slwificonn.c, the callbacks of the SimpleLink driver and of the timer. Each turns what it is told
-- into an event of the state machine.
use tisdk_cc32xx_issues.Prelude.{
  ℕ, ◌+◌, ◌++◌, ◌∷◌, List, Bool, ◌&&◌, map, length, drop, take, ◌==◌, if◌then◌else◌,
}
use tisdk_cc32xx_issues.SlWifiConn.Types.{
  Event, prov_success, prov_stopped, prov_ext_config_ready, prov_cloud_confirm_ready, timeout,
  error, reset_request, Sdk,
}
use tisdk_cc32xx_issues.SlWifiConn.Effects.{M, ◌>>=◌, ◌>>◌, return, modify, get, when}
use tisdk_cc32xx_issues.SlWifiConn.Deferred.{signal_event}

-- The values of ProvisioningStatus that SLProvisioningStatusHandler names
pub data ProvisioningStatus : Type 0 where
  general_error error_abort error_abort_invalid_param : ProvisioningStatus
  error_abort_http_server_disabled error_abort_profile_list_full : ProvisioningStatus
  error_abort_provisioning_already_started : ProvisioningStatus
  fail_network_not_found fail_connection_failed : ProvisioningStatus
  success_ip_not_acquired success_feedback_failed : ProvisioningStatus
  confirmation_success confirmation_ip_acquired auto_started : ProvisioningStatus
  stopped external_configuration_ready other_status : ProvisioningStatus

-- SlWlanEventProvisioningStatus_t; `connected` says that WlanStatus is SL_WLAN_STATUS_CONNECTED.
pub record ProvisioningInfo : Type 0 where
  pub status : ProvisioningStatus
  pub role : ℕ
  pub connected : Bool

-- SlWlanEvent_t
pub data WlanEvent : Type 0 where
  connect : List ℕ → List ℕ → WlanEvent
  disconnect : WlanEvent
  provisioning_status : ProvisioningInfo → WlanEvent
  other_wlan : WlanEvent

-- SlNetAppEvent_t
pub data NetAppEvent : Type 0 where
  ipv4_acquired ipv6_acquired : List ℕ → NetAppEvent
  ipv4_lost no_ipv4_collision_detected : NetAppEvent
  ipv6_lost no_global_ipv6_collision_detected no_local_ipv6_collision_detected : NetAppEvent
  other_net_app : NetAppEvent

-- SlDeviceEvent_t
pub data DeviceEvent : Type 0 where
  device_reset_request other_device : DeviceEvent

unfoldable pub signal : Sdk → Event → M (Unit {0})
signal sdk e = do signal_event sdk e; return tt

abbrev pub ignore : M (Unit {0})
ignore = return tt

-- SL_WLAN_PROVISIONING_STOPPED
unfoldable pub provisioning_stopped_event : Sdk → ProvisioningInfo → Event
provisioning_stopped_event sdk p =
    if sdk.role_sta == p.role && p.connected then Event.connected else prov_stopped

-- SLProvisioningStatusHandler
unfoldable pub provisioning_status_handler :
    Sdk → ProvisioningStatus → ProvisioningInfo → M (Unit {0})
unfolding provisioning_stopped_event
provisioning_status_handler sdk general_error p = signal sdk error
provisioning_status_handler sdk error_abort p = signal sdk error
provisioning_status_handler sdk error_abort_invalid_param p = signal sdk error
provisioning_status_handler sdk error_abort_http_server_disabled p = signal sdk error
provisioning_status_handler sdk error_abort_profile_list_full p = signal sdk error
provisioning_status_handler sdk error_abort_provisioning_already_started p = signal sdk error
provisioning_status_handler sdk confirmation_success p = signal sdk prov_success
provisioning_status_handler sdk confirmation_ip_acquired p = do
  w ← get
  when (w.ctx.prov_flags == sdk.flag_external_confirmation) (signal sdk prov_cloud_confirm_ready)
provisioning_status_handler sdk stopped p = signal sdk (provisioning_stopped_event sdk p)
provisioning_status_handler sdk external_configuration_ready p = signal sdk prov_ext_config_ready
provisioning_status_handler sdk _ p = ignore

-- memcpy to connectionSSID, and the 0 behind it
abbrev pub write_ssid : List ℕ → List ℕ → List ℕ
write_ssid ssid buffer = ssid ++ 0 ∷ drop (length ssid + 1) buffer

-- SLWlanEventHandler
unfoldable pub wlan_event_handler : Sdk → WlanEvent → M (Unit {0})
wlan_event_handler sdk (connect bssid ssid) = do
  modify (λ c. record c {
    connection_bssid = take 6 bssid;
    connection_ssid = write_ssid ssid c.connection_ssid;
  })
  signal sdk Event.connected
wlan_event_handler sdk disconnect = signal sdk Event.disconnect
wlan_event_handler sdk (provisioning_status p) = do
  w ← get
  when w.prov_registered (provisioning_status_handler sdk p.status p)
wlan_event_handler sdk other_wlan = ignore

-- memset to 0
abbrev pub zeroed : List ℕ → List ℕ
zeroed = map (λ _. 0)

unfoldable pub ip_v4_lost : Sdk → M (Unit {0})
ip_v4_lost sdk = do
  modify (λ c. record c { ip_acquired_v4 = zeroed c.ip_acquired_v4 })
  signal sdk Event.ip_lost

unfoldable pub ip_v6_lost : Sdk → M (Unit {0})
ip_v6_lost sdk = do
  modify (λ c. record c { ip_acquired_v6 = zeroed c.ip_acquired_v6 })
  signal sdk Event.ip_lost

-- The switch of SLNetAppEventHandler
unfoldable pub net_app_event : Sdk → NetAppEvent → M (Unit {0})
net_app_event sdk (ipv4_acquired info) = do
  modify (λ c. record c { ip_acquired_v4 = info })
  signal sdk Event.ip_acquired
net_app_event sdk (ipv6_acquired info) = do
  modify (λ c. record c { ip_acquired_v6 = info })
  signal sdk Event.ip_acquired
net_app_event sdk ipv4_lost = ip_v4_lost sdk
net_app_event sdk no_ipv4_collision_detected = ip_v4_lost sdk
net_app_event sdk ipv6_lost = ip_v6_lost sdk
net_app_event sdk no_global_ipv6_collision_detected = ip_v6_lost sdk
net_app_event sdk no_local_ipv6_collision_detected = ip_v6_lost sdk
net_app_event sdk other_net_app = ignore

-- SLNetAppEventHandler
unfoldable pub net_app_event_handler : Sdk → NetAppEvent → M (Unit {0})
net_app_event_handler sdk e = do w ← get; when (w.ctx.role == sdk.role_sta) (net_app_event sdk e)

-- SLGeneralEventHandler
unfoldable pub general_event_handler : Sdk → DeviceEvent → M (Unit {0})
general_event_handler sdk device_reset_request = signal sdk reset_request
general_event_handler sdk other_device = ignore

-- The expiry of the timer, and AsyncEvtTimerHandler
unfoldable pub async_evt_timer_handler : Sdk → M (Unit {0})
async_evt_timer_handler sdk = do modify (λ c. record c { timer = 0 }); signal sdk timeout
