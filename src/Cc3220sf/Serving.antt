-- ===== src/Cc3220sf/Serving.antt =====
-- cc3220sf.c, the states of a device that is connected, and those that wait: serving requests and
-- events, going down, sleeping, and waiting for an installation or for provisioning.
use tisdk_cc32xx_issues.Prelude.{
  true, ℕ, ◌+◌, ◌-◌, ◌/◌, not, ◌∷◌, [], leb, ltb, length, pos, if◌then◌else◌,
}
use tisdk_cc32xx_issues.Cc3220sf.Types.{
  DevCall, Device, DevEvent, DevState, Host, Request, RequestType, stop, notify_down, idle, sleep,
  http_message, handle_event, wait_fw_install, wait_provision, wifi_conn_enable,
  wifi_conn_request_reset, wifi_conn_enable_provisioning, http_get_handler, http_post_handler,
  ota_restart, notify_netdev, post_wlan_data, wlan_get_connection, http_get, http_delete, http_post,
  http_put, fatal_error,
}
use tisdk_cc32xx_issues.Cc3220sf.Run.{
  D, ◌>>=◌, ◌>>◌, return, modify, set_status, get, when, call, sleep_for, blocked,
}
use tisdk_cc32xx_issues.Cc3220sf.Events.{recv_event}
use tisdk_cc32xx_issues.Cc3220sf.States.{network_event_disconnected}

-- What idle publishes
abbrev pub connection_stats : Device → DevCall
connection_stats d =
    post_wlan_data d.bssid_connection (pos 0) (pos 0) d.total_fatal_errors d.total_recoveries
      d.total_disconnects (d.connected_time / 1000)

unfoldable pub sm_idle : Host → D DevState
sm_idle host = do
  d ← get
  if ltb 0 (length d.http_q)
      then return http_message
      else if ltb 0 (length d.event_q)
      then return handle_event
      else (do
        when (leb 30000 d.timer)
            (do call host (connection_stats d); modify (λ d. record d { timer = 0 }))
        return idle)

-- The three places from which the device goes down
abbrev pub go_down : D DevState
go_down = do modify (λ d. record d { timer = 0; nstate = stop }); return notify_down

-- The test behind the cases of sm_handle_event
unfoldable pub stay_or_reboot : D DevState
stay_or_reboot = do d ← get; if d.wlan_status.reboot_required then go_down else return idle

unfoldable pub answer_event : Host → DevEvent → D DevState
unfolding stay_or_reboot
answer_event host DevEvent.fw_install = go_down
answer_event host fatal_error = do call host wifi_conn_request_reset; go_down
answer_event host _ = stay_or_reboot

unfoldable pub sm_handle_event : Host → D DevState
unfolding recv_event answer_event
sm_handle_event host = do event ← recv_event host; answer_event host event

-- The handler that a request goes to
unfoldable pub answer_request : Host → Request → RequestType → D (Unit {0})
answer_request host r http_get = do call host (http_get_handler r); return tt
answer_request host r http_delete = do call host (http_get_handler r); return tt
answer_request host r http_post = do call host (http_post_handler r); return tt
answer_request host r http_put = do call host (http_post_handler r); return tt
answer_request host r _ = return tt

-- The three blocks of a queued request; there is none for an empty part.
unfoldable pub request_bytes : Host → Request → ℕ
request_bytes host r = host.request_size + length r.metadata + length r.payload

unfoldable pub free_request : Host → Request → Device → Device
unfolding request_bytes
free_request host r d = record d { allocated = d.allocated - request_bytes host r }

-- mq_receive waits while the queue is empty.
unfoldable pub sm_http_message : Host → D DevState
unfolding answer_request free_request
sm_http_message host d = elim d.http_q [
  | [] ↦ blocked d
  | r ∷ rs ↦
      (do
        modify (λ d. record d { http_q = rs })
        answer_request host r r.request_type
        modify (free_request host r)
        return idle)
        d
]

unfoldable pub sm_check_connection : Host → D DevState
sm_check_connection host = do
  call host wlan_get_connection
  modify (λ d. record d { timer = 0 })
  return idle

-- netdev_wlan_cc3220sf_sm_notifydown
unfoldable pub sm_notify_down : Host → D DevState
sm_notify_down host = do
  call host (notify_netdev network_event_disconnected)
  modify (λ d. record d { timer = 0; sleep_time = 2000 })
  d ← get
  return d.nstate

unfoldable pub sm_sleep : D DevState
sm_sleep = do d ← get; if leb d.sleep_time d.timer then return d.nstate else return sleep

unfoldable pub sm_error : D DevState
sm_error = do
  modify (λ d. record d { pstate = DevState.error; nstate = stop; sleep_time = 2000; timer = 0 })
  return sleep

unfoldable pub sm_wait_fw_install : Host → D DevState
unfolding recv_event
sm_wait_fw_install host = do
  recv_event host
  d ← get
  when (ltb 5000 d.timer) (do call host ota_restart; return tt)
  return wait_fw_install

unfoldable pub start_provisioning : Host → D (Unit {0})
unfolding sleep_for
start_provisioning host = do
  call host wifi_conn_enable_provisioning
  set_status (λ s. record s { prov_mode = true })
  sleep_for host 500
  call host wifi_conn_enable
  return tt

-- netdev_wlan_cc3220sf_sm_wait_provisioning
unfoldable pub sm_wait_provision : Host → D DevState
unfolding recv_event start_provisioning
sm_wait_provision host = do
  recv_event host
  d ← get
  when (not d.wlan_status.prov_mode) (start_provisioning host)
  return wait_provision
