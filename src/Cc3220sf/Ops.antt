-- ===== src/Cc3220sf/Ops.antt =====
-- cc3220sf.c, the operations of the device that its table exports, but for `start` and `probe`.
use tisdk_cc32xx_issues.Prelude.{
  ℕ, ◌+◌, ◌%◌, Bool, true, ◌&&◌, ◌||◌, ◌∷◌, [], List, Option, none, some, ℤ, pos, ltb,
  if◌then◌else◌, ◌==◌,
}
use tisdk_cc32xx_issues.Cc3220sf.Types.{
  Device, DevEvent, DevState, Host, Status, init, start, check_profiles, wait_4_start, stop,
  wait_connect_ap, wait_ip, start_network, start_http, notify_up, notify_down, idle, sleep,
  check_connection, http_message, handle_event, wait_fw_install, wait_provision,
  wifi_conn_enable_stats, wifi_conn_disable_stats,
}
use tisdk_cc32xx_issues.Cc3220sf.Run.{
  D, ◌>>=◌, ◌>>◌, return, modify, get, when, call, send_event, u32,
}
use tisdk_cc32xx_issues.Cc3220sf.States.{
  sm_init, sm_start, sm_wait_4_start, sm_stop, sm_check_profiles, sm_start_network,
  sm_wait_connect_ap, sm_wait_ip, sm_start_http, sm_notify_up,
}
use tisdk_cc32xx_issues.Cc3220sf.Serving.{
  sm_idle, sm_handle_event, sm_http_message, sm_check_connection, sm_notify_down, sm_sleep,
  sm_error, sm_wait_fw_install, sm_wait_provision,
}

-- The switch of netdev_wlan_cc3220sf_exec
unfoldable pub dispatch : Host → DevState → D DevState
dispatch host init = sm_init host
dispatch host start = sm_start host
dispatch host wait_4_start = sm_wait_4_start host
dispatch host stop = sm_stop host
dispatch host check_profiles = sm_check_profiles
dispatch host wait_connect_ap = sm_wait_connect_ap host
dispatch host wait_ip = sm_wait_ip host
dispatch host start_network = sm_start_network host
dispatch host start_http = sm_start_http host
dispatch host notify_up = sm_notify_up host
dispatch host notify_down = sm_notify_down host
dispatch host idle = sm_idle host
dispatch host sleep = sm_sleep
dispatch host DevState.error = sm_error
dispatch host check_connection = sm_check_connection host
dispatch host http_message = sm_http_message host
dispatch host handle_event = sm_handle_event host
dispatch host wait_fw_install = sm_wait_fw_install host
dispatch host wait_provision = sm_wait_provision host
dispatch host _ = return DevState.error

-- netdev_wlan_cc3220sf_exec
unfoldable pub exec : Host → ℕ → D ℤ
unfolding dispatch
exec host delay = do
  modify (λ d. record d { timer = (d.timer + delay) % u32 })
  d ← get
  s ← dispatch host d.state
  modify (λ d. record d { state = s })
  d ← get
  when d.wlan_status.connected
      (modify (λ d. record d { connected_time = (d.connected_time + delay) % u32 }))
  return (pos 0)

-- netdev_wlan_cc3220sf_ipconfig: each result is one word.
pub record IpConfig : Type 0 where
  pub address : ℕ
  pub netmask : ℕ
  pub gateway : ℕ
  pub dns : ℕ
  pub ntp : ℕ

-- `ntohl` is SlNetUtil_ntohl.
unfoldable pub ipconfig : (ℕ → ℕ) → Device → IpConfig
ipconfig ntohl d =
    if d.wlan_status.ip_acquired
    then record {
      address = ntohl d.station_ip;
      netmask = 16777215;
      gateway = ntohl d.gateway_ip;
      dns = ntohl d.dns_ip;
      ntp = ntohl d.gateway_ip;
    }
    else record { address = 0; netmask = 0; gateway = 0; dns = 0; ntp = 0 }

-- netdev_wlan_cc3220sf_get_macaddress: the address with its length, or STATUS_FAIL
unfoldable pub all_zero : List ℕ → Bool
all_zero [] = true
all_zero (b ∷ bs) = b == 0 && all_zero bs

unfoldable pub get_macaddress : Device → Option (List ℕ)
unfolding all_zero
get_macaddress d = if all_zero d.mac_address then none else some d.mac_address

-- netdev_wlan_cc3220sf_is_linkup
unfoldable pub is_linkup : Device → Bool
is_linkup d = d.wlan_status.connected && d.wlan_status.ip_acquired

-- netdev_wlan_cc3220sf_to_wlanRole, with the numbers of wlannet.h
unfoldable pub to_wlan_role : Host → ℕ → ℕ
to_wlan_role host mode =
    if mode == 2 then host.role_ap else if mode == 3 then host.role_p2p else host.role_sta

-- netdev_wlan_cc3220sf_ioctl
unfoldable pub ioctl : Host → ℕ → ℕ → D ℤ
unfolding to_wlan_role send_event
ioctl host code param = do
  d ← get
  if code == 16
      then (do
        modify (λ d. record d { wlan_mode = to_wlan_role host param })
        when (param == 4) (modify (λ d. record d { do_provisioning = true })))
      else if code == 49
      then modify (send_event DevEvent.fw_upgrade)
      else if code == 50
      then modify (send_event DevEvent.fw_install)
      else if code == 51
      then (do
        if ltb 0 param
            then call host (wifi_conn_enable_stats 10)
            else call host wifi_conn_disable_stats
        return tt)
      else return tt
  return (pos 0)

-- NETWORK_STATUS_e, the values that the device reports
abbrev pub status_offline : ℕ
status_offline = 0

abbrev pub status_waitap : ℕ
status_waitap = 2

abbrev pub status_connected : ℕ
status_connected = 3

abbrev pub status_ready : ℕ
status_ready = 5

-- netdev_wlan_cc3220sf_get_status: what the connection says
unfoldable pub link_status : Status → ℕ
link_status s =
    if s.ip_acquired
    then status_ready
    else if s.connected
    then status_connected
    else if s.running
    then status_waitap
    else status_offline

-- What provisioning says over it
unfoldable pub provisioning_status : Status → ℕ
provisioning_status s =
    if s.prov_success
    then 21
    else if s.prov_ip_acquired
    then 19
    else if s.prov_connect
    then 18
    else 17

unfoldable pub get_status : Device → ℕ
unfolding link_status provisioning_status
get_status d =
    let s = d.wlan_status in
    let base = if s.prov_mode then provisioning_status s else link_status s in
    if s.fw_dl_start || (s.fw_dl_done || s.fw_dl_error)
    then (if s.fw_dl_error then 50 else if s.fw_dl_done then 49 else 48)
    else base
