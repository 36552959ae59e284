-- ===== src/Cc3220sf/Steps.antt =====
-- cc3220sf.c, netdev_wlan_cc3220sf_exec: one step of the device thread.
use tisdk_cc32xx_issues.Prelude.{
  pos, if◌then◌else◌, ℕ, ◌≡◌, ◌≤◌, true, arith, length, refl, ◌+◌, ◌%◌,
}
use tisdk_cc32xx_issues.Cc3220sf.Types.{
  Device, DevState, Host, init, start, check_profiles, wait_4_start, stop, wait_connect_ap, wait_ip,
  start_network, start_http, notify_up, notify_down, ready, idle, sleep, check_connection,
  get_statistics, start_prov, http_message, handle_event, wait_fw_install, wait_provision,
}
use tisdk_cc32xx_issues.Cc3220sf.Run.{u32}
use tisdk_cc32xx_issues.Cc3220sf.States.{sm_check_profiles}
use tisdk_cc32xx_issues.Cc3220sf.Ops.{dispatch, exec}
use tisdk_cc32xx_issues.Cc3220sf.After.{After, After-bind, IsCounted}
use tisdk_cc32xx_issues.Cc3220sf.Diagram.{Fits, may_follow}
use tisdk_cc32xx_issues.Cc3220sf.Served.{
  Moved, sm_init-Moved, sm_start-Moved, sm_wait_4_start-Moved, sm_stop-Moved,
  sm_wait_connect_ap-Moved, sm_wait_ip-Moved, sm_start_network-Moved, sm_start_http-Moved,
  sm_notify_up-Moved, sm_idle-Moved, sm_handle_event-Moved, sm_http_message-Moved,
  sm_notify_down-Moved, sm_sleep-Moved, sm_error-Moved, sm_wait_fw_install-Moved,
  sm_wait_provision-Moved,
}

-- The descriptor fits its state, and its counters and queues are in order.
pub record IsSound (d : Device) : Type 0 where
  pub state_fits : Fits d.state d
  pub counted : IsCounted d

pub Fits-kept :
    (s : DevState) (d e : Device)
    → e.nstate ≡ d.nstate
    → e.wlan_status ≡ d.wlan_status
    → length d.http_q ≤ length e.http_q
    → Fits s d
    → Fits s e
Fits-kept init d e n w q f = rw w f
Fits-kept sleep d e n w q f = rw (n, w) f
Fits-kept notify_down d e n w q f = rw n f
Fits-kept notify_up d e n w q f = rw n f
Fits-kept wait_4_start d e n w q f = rw n f
Fits-kept http_message d e n w q f = omega arith
Fits-kept _ d e n w q f = f

dispatch-Moved :
    (host : Host) (s : DevState) (d : Device)
    → IsCounted d
    → Fits s d
    → After (Moved s) (dispatch host s d)
unfolding dispatch
dispatch-Moved host init d h f = sm_init-Moved host d h f
dispatch-Moved host start d h f = sm_start-Moved host d h
dispatch-Moved host wait_4_start d h f = sm_wait_4_start-Moved host d h f
dispatch-Moved host stop d h f = sm_stop-Moved host d h
dispatch-Moved host check_profiles d h f = unfold sm_check_profiles in ground arith
dispatch-Moved host wait_connect_ap d h f = sm_wait_connect_ap-Moved host d h
dispatch-Moved host wait_ip d h f = sm_wait_ip-Moved host d h
dispatch-Moved host start_network d h f = sm_start_network-Moved host d h
dispatch-Moved host start_http d h f = sm_start_http-Moved host d h
dispatch-Moved host notify_up d h f = sm_notify_up-Moved host d h f
dispatch-Moved host notify_down d h f = sm_notify_down-Moved host d h f
dispatch-Moved host idle d h f = sm_idle-Moved host d h
dispatch-Moved host sleep d h f = sm_sleep-Moved host d h f
dispatch-Moved host DevState.error d h f = sm_error-Moved host d h
dispatch-Moved host http_message d h f = sm_http_message-Moved host d h f
dispatch-Moved host handle_event d h f = sm_handle_event-Moved host d h
dispatch-Moved host wait_fw_install d h f = sm_wait_fw_install-Moved host d h
dispatch-Moved host wait_provision d h f = sm_wait_provision-Moved host d h
dispatch-Moved host ready d h f = absurd f
dispatch-Moved host check_connection d h f = absurd f
dispatch-Moved host get_statistics d h f = absurd f
dispatch-Moved host start_prov d h f = absurd f

-- What a step of the device thread leads to
pub record Stepped (d e : Device) : Type 0 where
  pub is_sound : IsSound e
  pub in_diagram : may_follow d.state e.state ≡ true

abbrev ticked : ℕ → Device → Device
ticked delay d = record d { timer = (d.timer + delay) % u32 }

-- What exec stores behind the switch
abbrev finished : ℕ → DevState → Device → Device
finished delay s e = record e {
  state = s;
  connected_time =
      if e.wlan_status.connected then (e.connected_time + delay) % u32 else e.connected_time;
}

-- From a sound descriptor, a run of the device thread does not wait for ever: it returns 0 or has
-- asked for the reset of the chip. When it returns, the state has moved along an edge of the diagram and
-- the descriptor is sound again; when it resets, the spare registers hold the totals.
pub exec-Stepped :
    (host : Host) (delay : ℕ) (d : Device)
    → IsSound d
    → After (λ r e. (r ≡ pos 0) × Stepped d e) (exec host delay d)
unfolding exec
exec-Stepped host delay d h =
    After-bind (λ r e. (r ≡ pos 0) × Stepped d e) _ (dispatch host d.state (ticked delay d))
      (dispatch-Moved host d.state (ticked delay d) (ground arith)
        (Fits-kept d.state d (ticked delay d) refl refl (omega arith) h.state_fits))
      (λ s e m. ground (arith, Fits-kept s e (finished delay s e) refl refl (omega arith) m.fits))
