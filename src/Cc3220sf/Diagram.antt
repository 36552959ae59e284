-- ===== src/Cc3220sf/Diagram.antt =====
-- cc3220sf.c, the diagram of the states of the device, apart from the code, and what a state asks of
-- the descriptor when it is entered.
use tisdk_cc32xx_issues.Prelude.{Bool, true, false, ◌≡◌, ◌<◌, ◌⊎◌, length}
use tisdk_cc32xx_issues.Cc3220sf.Types.{
  Device, DevState, init, start, check_profiles, wait_4_start, stop, wait_connect_ap, wait_ip,
  start_network, start_http, notify_up, notify_down, ready, idle, sleep, check_connection,
  get_statistics, start_prov, http_message, handle_event, wait_fw_install, wait_provision,
}

abbrev pub may_follow : DevState → DevState → Bool
may_follow init start = true
may_follow start wait_4_start = true
may_follow start wait_fw_install = true
may_follow wait_4_start wait_4_start = true
may_follow wait_4_start check_profiles = true
may_follow wait_4_start sleep = true
may_follow stop init = true
may_follow check_profiles start_network = true
may_follow start_network wait_provision = true
may_follow start_network wait_connect_ap = true
may_follow wait_connect_ap wait_connect_ap = true
may_follow wait_connect_ap wait_ip = true
may_follow wait_connect_ap DevState.error = true
may_follow wait_ip wait_ip = true
may_follow wait_ip start_http = true
may_follow wait_ip DevState.error = true
may_follow start_http notify_up = true
may_follow notify_up idle = true
may_follow idle idle = true
may_follow idle http_message = true
may_follow idle handle_event = true
may_follow http_message idle = true
may_follow handle_event idle = true
may_follow handle_event notify_down = true
may_follow notify_down stop = true
may_follow sleep sleep = true
may_follow sleep stop = true
may_follow sleep init = true
may_follow DevState.error sleep = true
may_follow wait_fw_install wait_fw_install = true
may_follow wait_provision wait_provision = true
may_follow _ _ = false

-- `init` waits for ever if the network processor runs, `http_message` if there is no request, and the
-- states that go on to `nstate` need one that fits. The last four are never entered.
abbrev pub Fits : DevState → Device → Type 0
Fits init d = d.wlan_status.running ≡ false
Fits sleep d = (d.nstate ≡ stop) ⊎ ((d.nstate ≡ init) × (d.wlan_status.running ≡ false))
Fits notify_down d = d.nstate ≡ stop
Fits notify_up d = d.nstate ≡ idle
Fits wait_4_start d = d.nstate ≡ check_profiles
Fits http_message d = 0 < length d.http_q
Fits ready d = ⊥
Fits check_connection d = ⊥
Fits get_statistics d = ⊥
Fits start_prov d = ⊥
Fits _ d = Unit
