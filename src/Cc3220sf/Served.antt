-- ===== src/Cc3220sf/Served.antt =====
-- cc3220sf.c, every state of the device against the diagram, and the descriptor that it leaves to the
-- next state.
use tisdk_cc32xx_issues.Prelude.{not, ℕ, zero, suc, ◌≡◌, true, arith, ◌∷◌}
use tisdk_cc32xx_issues.Cc3220sf.Types.{
  wifi_conn_enable, wifi_conn_disable, net_app_stop, wifi_conn_enable_provisioning, Device,
  DevState, Host, init, start, wait_4_start, stop, wait_connect_ap, wait_ip, start_network,
  start_http, notify_up, notify_down, idle, sleep, http_message, handle_event, wait_fw_install,
  wait_provision,
}
use tisdk_cc32xx_issues.Cc3220sf.Run.{
  when, call, return, ◌>>◌, sleep_for, Run, ret, resetting, blocked,
}
use tisdk_cc32xx_issues.Cc3220sf.Events.{recv_event}
use tisdk_cc32xx_issues.Cc3220sf.States.{
  sm_init, sm_start, sm_wait_4_start, sm_stop, sm_start_network, sm_wait_connect_ap, sm_wait_ip,
  sm_start_http, sm_notify_up, stop_loop,
}
use tisdk_cc32xx_issues.Cc3220sf.Serving.{
  start_provisioning, sm_idle, sm_handle_event, sm_http_message, sm_notify_down, sm_sleep, sm_error,
  sm_wait_fw_install, sm_wait_provision, answer_event, stay_or_reboot, answer_request, free_request,
}
use tisdk_cc32xx_issues.Cc3220sf.After.{
  Kept-trans, After, After-bind, After-if, After-when, IsCounted, Kept, recv_event-Kept,
  sleep_for-Kept,
}
use tisdk_cc32xx_issues.Cc3220sf.Diagram.{Fits, may_follow}

-- What a state leaves: `s` is the state, `t` the next one.
pub record Moved (s t : DevState) (d : Device) : Type 0 where
  pub fits : Fits t d
  pub follows : may_follow s t ≡ true
  pub is_counted : IsCounted d

After-Kept-trans {ℓ} :
    {A : Type ℓ} (d e : Device) (o : Run A)
    → Kept d e
    → After (λ _ f. Kept e f) o
    → After (λ _ f. Kept d f) o
After-Kept-trans d e (ret a f) k l = Kept-trans d e f k l
After-Kept-trans d e (resetting f) k l = l
After-Kept-trans d e (blocked f) k l = l

stop_loop-Kept :
    (host : Host) (to : ℕ) (d : Device)
    → IsCounted d
    → After (λ _ e. Kept d e) (stop_loop host to d)
unfolding stop_loop
stop_loop-Kept host zero d h = ground arith
stop_loop-Kept host (suc to) d h =
    After-if (λ _ e. Kept d e) d.wlan_status.running _ (ret tt d)
      (After-bind (λ _ e. Kept d e) _ (sleep_for host 500 d) (sleep_for-Kept host 500 d h)
        (λ _ e k.
          After-bind (λ _ f. Kept d f) _ (recv_event host e) (recv_event-Kept host e k.is_counted)
            (λ _ f l.
              After-Kept-trans d f _ (Kept-trans d e f k l)
                (stop_loop-Kept host to f l.is_counted))))
      (ground arith)

-- The descriptor at the sleep of start_provisioning
abbrev provisioning_asked : Device → Device
provisioning_asked d = record d {
  wlan_status = record d.wlan_status { prov_mode = true };
  calls = wifi_conn_enable_provisioning ∷ d.calls;
}

start_provisioning-IsCounted :
    (host : Host) (d : Device)
    → IsCounted d
    → After (λ _ e. IsCounted e) (start_provisioning host d)
unfolding start_provisioning
start_provisioning-IsCounted host d h =
    After-bind {P = λ _ e. Kept (provisioning_asked d) e} (λ _ e. IsCounted e)
      (λ _. call host wifi_conn_enable >> return (tt {0}))
      (sleep_for host 500 (provisioning_asked d))
      (sleep_for-Kept host 500 (provisioning_asked d) (ground arith)) (λ _ e k. ground arith)

-- The descriptor at the loop of sm_stop
abbrev stop_asked : Device → Device
stop_asked d = record d { pstate = stop; calls = wifi_conn_disable ∷ net_app_stop ∷ d.calls }

module _ (host : Host) (d : Device) (h : IsCounted d) where
  pub sm_init-Moved : Fits init d → After (Moved init) (sm_init host d)
  unfolding sm_init
  sm_init-Moved f = ground arith

  pub sm_start-Moved : After (Moved start) (sm_start host d)
  unfolding sm_start
  sm_start-Moved =
      After-bind (Moved start) _ (recv_event host d) (recv_event-Kept host d h)
        (λ _ e k. ground arith)

  pub sm_wait_4_start-Moved :
      Fits wait_4_start d → After (Moved wait_4_start) (sm_wait_4_start host d)
  unfolding sm_wait_4_start
  sm_wait_4_start-Moved f =
      After-bind (Moved wait_4_start) _ (recv_event host d) (recv_event-Kept host d h)
        (λ _ e k. ground arith)

  pub sm_stop-Moved : After (Moved stop) (sm_stop host d)
  unfolding sm_stop
  sm_stop-Moved = After-bind (Moved stop) _ (recv_event host d) (recv_event-Kept host d h) (λ _ e k.
      After-bind (Moved stop) _ (stop_loop host 10 (stop_asked e))
        (stop_loop-Kept host 10 (stop_asked e) (ground arith)) (λ _ f l. ground arith))

  pub sm_wait_connect_ap-Moved : After (Moved wait_connect_ap) (sm_wait_connect_ap host d)
  unfolding sm_wait_connect_ap
  sm_wait_connect_ap-Moved =
      After-bind (Moved wait_connect_ap) _ (recv_event host d) (recv_event-Kept host d h)
        (λ _ e k. ground arith)

  pub sm_wait_ip-Moved : After (Moved wait_ip) (sm_wait_ip host d)
  unfolding sm_wait_ip
  sm_wait_ip-Moved =
      After-bind (Moved wait_ip) _ (recv_event host d) (recv_event-Kept host d h)
        (λ _ e k. ground arith)

  pub sm_start_network-Moved : After (Moved start_network) (sm_start_network host d)
  unfolding sm_start_network
  sm_start_network-Moved = ground arith

  pub sm_start_http-Moved : After (Moved start_http) (sm_start_http host d)
  unfolding sm_start_http
  sm_start_http-Moved = ground arith

  pub sm_notify_up-Moved : Fits notify_up d → After (Moved notify_up) (sm_notify_up host d)
  unfolding sm_notify_up
  sm_notify_up-Moved f = ground arith

  pub sm_idle-Moved : After (Moved idle) (sm_idle host d)
  unfolding sm_idle
  sm_idle-Moved = ground arith

  pub sm_handle_event-Moved : After (Moved handle_event) (sm_handle_event host d)
  unfolding sm_handle_event answer_event stay_or_reboot
  sm_handle_event-Moved =
      After-bind (Moved handle_event) _ (recv_event host d) (recv_event-Kept host d h)
        (λ event e k. ground arith)

  pub sm_http_message-Moved :
      Fits http_message d → After (Moved http_message) (sm_http_message host d)
  unfolding sm_http_message answer_request free_request
  sm_http_message-Moved f = ground arith

  pub sm_notify_down-Moved : Fits notify_down d → After (Moved notify_down) (sm_notify_down host d)
  unfolding sm_notify_down
  sm_notify_down-Moved f = ground arith

  pub sm_sleep-Moved : Fits sleep d → After (Moved sleep) (sm_sleep d)
  unfolding sm_sleep
  sm_sleep-Moved f = ground arith

  pub sm_error-Moved : After (Moved DevState.error) (sm_error d)
  unfolding sm_error
  sm_error-Moved = ground arith

  pub sm_wait_fw_install-Moved : After (Moved wait_fw_install) (sm_wait_fw_install host d)
  unfolding sm_wait_fw_install
  sm_wait_fw_install-Moved =
      After-bind (Moved wait_fw_install) _ (recv_event host d) (recv_event-Kept host d h)
        (λ _ e k. ground arith)

  pub sm_wait_provision-Moved : After (Moved wait_provision) (sm_wait_provision host d)
  unfolding sm_wait_provision
  sm_wait_provision-Moved =
      After-bind (Moved wait_provision) _ (recv_event host d) (recv_event-Kept host d h) (λ _ e k.
        After-bind (Moved wait_provision) _
          (when (not e.wlan_status.prov_mode) (start_provisioning host) e)
          (After-when (λ _ f. IsCounted f) (not e.wlan_status.prov_mode) (start_provisioning host) e
            (start_provisioning-IsCounted host e k.is_counted) k.is_counted)
          (λ _ f l. ground arith))
