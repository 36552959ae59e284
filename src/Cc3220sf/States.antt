-- ===== src/Cc3220sf/States.antt =====
-- cc3220sf.c, the states of the device: one function for each, which returns the next state. A state
-- that waits takes an event from the queue first.
use tisdk_cc32xx_issues.Prelude.{
  ℕ, zero, suc, ◌+◌, ◌%◌, not, ◌∷◌, [], leb, ltb, drop, if◌then◌else◌, is_neg,
}
use tisdk_cc32xx_issues.Cc3220sf.Types.{
  DevState, Host, no_status, init, start, check_profiles, wait_4_start, stop, wait_connect_ap,
  wait_ip, start_network, start_http, notify_up, idle, sleep, wait_fw_install, wait_provision,
  wifi_conn_enable, wifi_conn_disable, wifi_conn_deinit, net_app_start, net_app_stop,
  http_init_handlers, set_ap_ssid, ota_install, notify_netdev,
}
use tisdk_cc32xx_issues.Cc3220sf.Run.{
  D, ◌>>=◌, ◌>>◌, return, modify, set_status, get, when, call, sleep_for, u32, ret, blocked,
}
use tisdk_cc32xx_issues.Cc3220sf.Events.{recv_event}

-- NETWORK_EVENT_CONNECTED and NETWORK_EVENT_DISCONNECTED
abbrev pub network_event_connected : ℕ
network_event_connected = 2

abbrev pub network_event_disconnected : ℕ
network_event_disconnected = 5

-- GENERAL_TIMEOUT
abbrev pub general_timeout : ℕ
general_timeout = 2000

-- The loop of sm_init ends when RUNNING is clear. The bit is written by the device thread alone,
-- which does not do so in the loop.
unfoldable pub wait_stopped : D (Unit {0})
wait_stopped d = if d.wlan_status.running then blocked d else ret tt d

unfoldable pub sm_init : Host → D DevState
unfolding wait_stopped sleep_for
sm_init host = do
  modify (λ d. record d { pstate = init })
  d ← get
  when d.wlan_status.running (do call host wifi_conn_disable; sleep_for host 1000; wait_stopped)
  modify
      (λ d. record d { mac_address = 0 ∷ 0 ∷ 0 ∷ 0 ∷ 0 ∷ 0 ∷ []; station_ip = 0; gateway_ip = 0 })
  return start

unfoldable pub sm_start : Host → D DevState
unfolding recv_event
sm_start host = do
  recv_event host
  modify (λ d. record d { pstate = start })
  d ← get
  if d.wlan_status.fw_install
      then (do
        call host ota_install
        call host wifi_conn_deinit
        modify (λ d. record d { timer = 0 })
        return wait_fw_install)
      else (do
        when (not d.wlan_status.running) (do call host wifi_conn_enable; return tt)
        modify (λ d. record d { nstate = check_profiles; timer = 0 })
        return wait_4_start)

unfoldable pub sm_wait_4_start : Host → D DevState
unfolding recv_event
sm_wait_4_start host = do
  recv_event host
  d ← get
  if d.wlan_status.running
      then (do modify (λ d. record d { timer = 0 }); return d.nstate)
      else if leb general_timeout d.timer
      then (do modify (λ d. record d { nstate = init; timer = 0; sleep_time = 1000 }); return sleep)
      else return wait_4_start

-- The loop of sm_stop: at most `to` more sleeps
unfoldable pub stop_loop : Host → ℕ → D (Unit {0})
unfolding recv_event sleep_for
stop_loop host zero d = ret tt d
stop_loop host (suc to) d =
    let rest = stop_loop host to in
    if d.wlan_status.running then (do sleep_for host 500; recv_event host; rest) d else ret tt d

unfoldable pub sm_stop : Host → D DevState
unfolding recv_event stop_loop
sm_stop host = do
  recv_event host
  call host net_app_stop
  call host wifi_conn_disable
  modify (λ d. record d { pstate = stop })
  stop_loop host 10
  set_status (λ s. record no_status { fw_install = s.fw_install })
  return init

unfoldable pub sm_check_profiles : D DevState
sm_check_profiles = do modify (λ d. record d { timer = 0 }); return start_network

-- The access point is named after the last three bytes of the MAC address.
unfoldable pub sm_start_network : Host → D DevState
sm_start_network host = do
  modify (λ d. record d { pstate = start_network })
  d ← get
  if d.do_provisioning
      then (do
        call host (set_ap_ssid (drop 3 d.mac_address))
        call host wifi_conn_disable
        return wait_provision)
      else return wait_connect_ap

unfoldable pub sm_wait_connect_ap : Host → D DevState
unfolding recv_event
sm_wait_connect_ap host = do
  recv_event host
  modify (λ d. record d { pstate = wait_connect_ap })
  d ← get
  if d.wlan_status.connected
      then (do modify (λ d. record d { timer = 0 }); return wait_ip)
      else if ltb 10000 d.timer
      then (do modify (λ d. record d { last_error = host.timed_out }); return DevState.error)
      else return wait_connect_ap

unfoldable pub sm_wait_ip : Host → D DevState
unfolding recv_event
sm_wait_ip host = do
  recv_event host
  modify (λ d. record d { pstate = wait_ip })
  d ← get
  if d.wlan_status.ip_acquired
      then return start_http
      else if ltb 5000 d.timer
      then (do modify (λ d. record d { last_error = host.timed_out }); return DevState.error)
      else return wait_ip

-- netdev_wlan_cc3220sf_sm_start_httpserver: a second failure is only logged.
unfoldable pub sm_start_http : Host → D DevState
sm_start_http host = do
  call host http_init_handlers
  ret_val ← call host net_app_start
  when (is_neg ret_val) (do call host net_app_start; return tt)
  modify (λ d. record d { nstate = idle })
  return notify_up

-- netdev_wlan_cc3220sf_sm_notifyup
unfoldable pub sm_notify_up : Host → D DevState
sm_notify_up host = do
  modify (λ d. record d { timer = 0 })
  d ← get
  when (ltb 0 d.fatal_error_count) (
      modify (λ d.
        let total = (d.total_recoveries + 1) % u32 in
        record d { total_recoveries = total; reg_recover = total; fatal_error_count = 0 }))
  modify (λ d. record d { connected_time = 0 })
  call host (notify_netdev network_event_connected)
  d ← get
  return d.nstate
