-- ===== src/SlWifiConn/Enter.antt =====
-- slwificonn.c, the Enter* functions: what is done on the way into a state.
use tisdk_cc32xx_issues.Prelude.{
  ℕ, List, ◌*◌, ◌%◌, Bool, true, false, not, ◌&&◌, Option, none, some, ℤ, pos, eq_ℤ, to_u8, ltb,
  ◌==◌, if◌then◌else◌,
}
use tisdk_cc32xx_issues.SlWifiConn.Types.{
  State, Event, event_max, ProvMode, one_shot, NetIfEvent, mac_connect, Ctx, Sdk,
  external_provisioning_start_req, wlan_set_ap_ssid, wlan_set_ap_security_type,
  wlan_set_ap_password, wlan_provisioning_start, wlan_provisioning_stop, net_cfg_get,
}
use tisdk_cc32xx_issues.SlWifiConn.Effects.{
  M, ◌>>=◌, ◌>>◌, return, modify, get, assert, when, call, set_state, start_async_evt_timer,
  stop_async_evt_timer, notify_net_if, notify_wifi_app,
}
use tisdk_cc32xx_issues.SlWifiConn.Nwp.{suspend_nwp, reset_nwp}
use tisdk_cc32xx_issues.SlWifiConn.Deferred.{
  deferred_event_enqueue, deferred_event_process, non_persistent_profile_process,
}

abbrev set_ap_ssid : Sdk → Option (List ℕ) → M (Unit {0})
set_ap_ssid sdk none = return tt
set_ap_ssid sdk (some ssid) = do call sdk (wlan_set_ap_ssid ssid); return tt

-- SetApParams
unfoldable pub set_ap_params : Sdk → M ℤ
unfolding call
set_ap_params sdk = do
  w ← get
  set_ap_ssid sdk w.settings.ap_ssid
  call sdk (wlan_set_ap_security_type w.settings.ap_sec_type)
  when (not (w.settings.ap_sec_type == sdk.sec_type_open))
      (do call sdk (wlan_set_ap_password w.settings.ap_password); return tt)
  when (sdk.role_ap == w.ctx.role) (do r ← reset_nwp sdk; modify (λ c. record c { role = to_u8 r }))
  return (pos 0)

-- The doubling of the idle interval in EnterIDLE: a uint16_t product, held to the maximum
unfoldable pub next_idle_interval : ℕ → ℕ → ℕ
next_idle_interval interval maximum =
    let doubled = interval * 2 % 65536 in if ltb maximum doubled then maximum else doubled

-- EnterIDLE
unfoldable pub enter_idle : Sdk → M (Unit {0})
unfolding start_async_evt_timer set_state next_idle_interval
enter_idle sdk = do
  suspend_nwp sdk true
  w ← get
  start_async_evt_timer w.ctx.idle_interval
  modify (λ c. record c {
    idle_interval = next_idle_interval c.idle_interval w.settings.idle_max_interval;
  })
  set_state State.idle

-- EnterWAIT_FOR_CONN
unfoldable pub enter_wait_for_conn : Sdk → ℕ → Bool → M (Unit {0})
unfolding start_async_evt_timer set_state
enter_wait_for_conn sdk timeout wlan_disconnect = do
  deferred_event_process sdk
  non_persistent_profile_process sdk wlan_disconnect
  start_async_evt_timer timeout
  set_state State.wait_for_conn

-- The end of an outage in EnterCONNECTED
unfoldable pub clear_error_tracking : Ctx → Ctx
clear_error_tracking c =
    if ltb 0 c.fatal_error_count
    then record c { fatal_error_count = 0; recovery_delay_level = 0 }
    else c

-- EnterCONNECTED
unfoldable pub enter_connected : Sdk → Bool → M (Unit {0})
unfolding stop_async_evt_timer clear_error_tracking notify_net_if start_async_evt_timer set_state
enter_connected sdk notify = do
  stop_async_evt_timer
  modify clear_error_tracking
  when notify (notify_net_if sdk NetIfEvent.ip_acquired)
  w ← get
  modify (λ c. record c { idle_interval = w.settings.idle_min_interval })
  when (w.ctx.stats_enabled && ltb 0 w.ctx.stats_interval)
      (start_async_evt_timer w.ctx.stats_interval)
  set_state State.connected

-- EnterWAIT_FOR_IP
unfoldable pub enter_wait_for_ip : Sdk → M (Unit {0})
unfolding notify_net_if call start_async_evt_timer set_state
enter_wait_for_ip sdk = do
  notify_net_if sdk mac_connect
  w ← get
  let mode = sdk.ipv4_mode w.calls
  let ip = sdk.ipv4_ip w.calls
  r ← call sdk net_cfg_get
  if eq_ℤ r (pos 0) && (mode == sdk.addr_static && ip == 0)
      then enter_connected sdk false
      else do start_async_evt_timer w.settings.ip_timeout; set_state State.wait_for_ip

-- SL_WLAN_PROVISIONING_CMD_START_MODE_EXTERNAL_CONFIGURATION
abbrev pub cmd_external_configuration : ℕ
cmd_external_configuration = 10

abbrev after_start : ProvMode → ProvMode
after_start one_shot = ProvMode.off
after_start m = m

-- EnterPROVISIONING, the branch that provisions through the network processor
unfoldable pub start_nwp_provisioning : Sdk → M ℤ
unfolding call set_state
start_nwp_provisioning sdk = do
  v ← get
  set_ap_params sdk
  w ← get
  r ← call sdk (
      wlan_provisioning_start v.ctx.prov_cmd sdk.role_sta w.settings.provisioning_timeout
        w.ctx.prov_flags)
  assert (eq_ℤ r (pos 0))
  set_state State.provisioning
  modify (λ c. record c { prov_mode = after_start c.prov_mode })
  return r

-- EnterPROVISIONING, external configuration: the C function returns a variable that it has not set.
unfoldable pub start_external_provisioning : Sdk → M ℤ
unfolding notify_wifi_app set_state
start_external_provisioning sdk = do
  notify_wifi_app sdk external_provisioning_start_req
  set_state State.ext_provisioning
  w ← get
  return (sdk.unset w.calls)

-- EnterPROVISIONING
unfoldable pub enter_provisioning : Sdk → M ℤ
unfolding start_external_provisioning start_async_evt_timer
enter_provisioning sdk = do
  w ← get
  r ←
      (if w.ctx.prov_cmd == cmd_external_configuration
        then start_external_provisioning sdk
        else start_nwp_provisioning sdk)
  start_async_evt_timer w.settings.provisioning_timeout
  return r

abbrev is_event_max : Event → Bool
is_event_max event_max = true
is_event_max _ = false

-- The deferral at the head of EnterPROV_STOPPING: none for SLWIFICONN_EVENT_MAX
unfoldable pub defer_unless_max : Event → M ℤ
defer_unless_max event =
    if is_event_max event
    then return (pos 0)
    else deferred_event_enqueue (record { event = event; params = none })

-- EnterPROV_STOPPING
unfoldable pub enter_prov_stopping : Sdk → Event → M ℤ
unfolding stop_async_evt_timer call set_state
enter_prov_stopping sdk event = do
  stop_async_evt_timer
  r ← defer_unless_max event
  assert (eq_ℤ r (pos 0))
  s ← call sdk wlan_provisioning_stop
  set_state State.prov_stopping
  return s
