-- ===== src/SlWifiConn/States.antt =====
-- slwificonn.c, the handlers of the eight states. Each returns the code that the C handler returns:
-- negative for an event that the state does not support.
pub mod Attempts
unfoldable pub use Attempts.*
use tisdk_cc32xx_issues.Prelude.{◌||◌, Bool, true, false, ℤ, pos, negsuc, eq_ℤ, ◌==◌, if◌then◌else◌}
use tisdk_cc32xx_issues.SlWifiConn.Types.{
  State, Event, enable, prov_success, prov_stopped, prov_ext_config_ready, prov_cloud_confirm_ready,
  enable_provisioning, add_profile, ext_prov_completed, timeout, error, reset_request, event_max,
  ProvMode, one_shot, ProvStatus, NetIfEvent, mac_connect, external_provisioning_start_req,
  external_provisioning_stop_req, cloud_confirmation_start_req, cloud_confirmation_stop_req,
  provisioning_started, Sdk, wlan_disconnect, wlan_profile_del_all,
}
use tisdk_cc32xx_issues.SlWifiConn.Effects.{
  M, ◌>>=◌, ◌>>◌, return, modify, get, assert, when, call, set_state, start_async_evt_timer,
  stop_async_evt_timer, notify_net_if, notify_wifi_app, notify_provisioning_status,
}
use tisdk_cc32xx_issues.SlWifiConn.Nwp.{resume_nwp, reset_nwp, set_role}
use tisdk_cc32xx_issues.SlWifiConn.Deferred.{deferred_event_process}
use tisdk_cc32xx_issues.SlWifiConn.Stats.{collect_and_notify_stats}
use tisdk_cc32xx_issues.SlWifiConn.Enter.{
  enter_idle, enter_wait_for_conn, enter_wait_for_ip, enter_connected, enter_provisioning,
  enter_prov_stopping,
}

-- smState_OFF
unfoldable pub sm_state_off : Sdk → Event → M ℤ
sm_state_off sdk enable = enable_from_off sdk
sm_state_off sdk Event.disable = done
sm_state_off sdk enable_provisioning = done
sm_state_off sdk add_profile = done
sm_state_off sdk Event.disconnect = done
sm_state_off sdk Event.connected = done
sm_state_off sdk _ = unsupported

-- smState_IDLE
unfoldable pub sm_state_idle : Sdk → Event → M ℤ
unfolding wait_for_ip_again
sm_state_idle sdk enable_provisioning = resume_and_connect sdk
sm_state_idle sdk add_profile = resume_and_connect sdk
sm_state_idle sdk timeout = resume_and_connect sdk
sm_state_idle sdk Event.connected = wait_for_ip_again
sm_state_idle sdk _ = unsupported

abbrev pub prov_is_off : ProvMode → Bool
prov_is_off ProvMode.off = true
prov_is_off _ = false

-- The call through g_fEnterPROVISIONING, and the notification that follows
unfoldable pub call_enter_provisioning : Sdk → M ℤ
unfolding notify_wifi_app
call_enter_provisioning sdk = do
  w ← get
  assert w.prov_registered
  r ← enter_provisioning sdk
  v ← get
  when (eq_ℤ r (pos 0)) (notify_wifi_app sdk (provisioning_started v.ctx.prov_cmd))
  return r

-- smState_WAIT_FOR_CONN, the TIMEOUT event
unfoldable pub connect_timed_out : Sdk → M ℤ
connect_timed_out sdk = do
  w ← get
  if w.ctx.wlan_connect_used
      then (do enter_wait_for_conn sdk w.settings.connect_timeout true; done)
      else if prov_is_off w.ctx.prov_mode
      then (do enter_idle sdk; done)
      else call_enter_provisioning sdk

-- smState_WAIT_FOR_CONN
unfoldable pub sm_state_wait_for_conn : Sdk → Event → M ℤ
sm_state_wait_for_conn sdk add_profile = try_to_connect sdk
sm_state_wait_for_conn sdk Event.connected = do enter_wait_for_ip sdk; done
sm_state_wait_for_conn sdk Event.ip_acquired = do enter_connected sdk true; done
sm_state_wait_for_conn sdk timeout = connect_timed_out sdk
sm_state_wait_for_conn sdk _ = unsupported

-- smState_WAIT_FOR_IP: TIMEOUT disconnects and falls through to DISCONNECT.
unfoldable pub sm_state_wait_for_ip : Sdk → Event → M ℤ
unfolding call
sm_state_wait_for_ip sdk add_profile = done
sm_state_wait_for_ip sdk Event.ip_acquired = do enter_connected sdk true; done
sm_state_wait_for_ip sdk timeout = do call sdk wlan_disconnect; disconnect_and_reconnect sdk
sm_state_wait_for_ip sdk Event.disconnect = disconnect_and_reconnect sdk
sm_state_wait_for_ip sdk _ = unsupported

-- smState_CONNECTED, the RESET_REQUEST event. The code that it returns is the result of ResetNWP.
unfoldable pub reset_while_connected : Sdk → M ℤ
unfolding stop_async_evt_timer notify_net_if
reset_while_connected sdk = do
  stop_async_evt_timer
  notify_net_if sdk NetIfEvent.disconnect
  r ← reset_nwp sdk
  assert (is_reset_result sdk r)
  try_to_reconnect sdk
  return r

-- smState_CONNECTED, the TIMEOUT event of the statistics
unfoldable pub stats_timed_out : Sdk → M ℤ
stats_timed_out sdk = do
  w ← get
  when w.ctx.stats_enabled (do collect_and_notify_stats sdk; return tt)
  done

-- smState_CONNECTED
unfoldable pub sm_state_connected : Sdk → Event → M ℤ
unfolding stop_async_evt_timer wait_for_ip_again
sm_state_connected sdk Event.ip_acquired = done
sm_state_connected sdk add_profile = done
sm_state_connected sdk Event.disconnect = do stop_async_evt_timer; disconnect_and_reconnect sdk
sm_state_connected sdk Event.ip_lost = wait_for_ip_again
sm_state_connected sdk reset_request = reset_while_connected sdk
sm_state_connected sdk timeout = stats_timed_out sdk
sm_state_connected sdk _ = unsupported

abbrev pub allow_one_shot : ProvMode → ProvMode
allow_one_shot ProvMode.off = one_shot
allow_one_shot m = m

-- smState_PROVISIONING: the result of EnterPROV_STOPPING is dropped.
unfoldable pub sm_state_provisioning : Sdk → Event → M ℤ
unfolding stop_async_evt_timer set_state notify_provisioning_status notify_wifi_app
sm_state_provisioning sdk prov_success = do
  stop_async_evt_timer
  set_state State.prov_stopping
  done
sm_state_provisioning sdk Event.disable = do enter_prov_stopping sdk Event.disable; done
sm_state_provisioning sdk add_profile = do enter_prov_stopping sdk event_max; done
sm_state_provisioning sdk timeout = do enter_prov_stopping sdk timeout; done
sm_state_provisioning sdk error = do
  modify (λ c. record c { prov_mode = allow_one_shot c.prov_mode })
  enter_prov_stopping sdk error
  done
sm_state_provisioning sdk prov_stopped = do
  stop_async_evt_timer
  notify_provisioning_status sdk ProvStatus.failed
  enter_idle sdk
  done
sm_state_provisioning sdk prov_ext_config_ready = do
  notify_wifi_app sdk external_provisioning_start_req
  set_state State.ext_provisioning
  done
sm_state_provisioning sdk prov_cloud_confirm_ready = do
  notify_wifi_app sdk cloud_confirmation_start_req
  set_state State.ext_provisioning
  done
sm_state_provisioning sdk _ = unsupported

-- smState_EXT_PROVISIONING, the TIMEOUT event
unfoldable pub ext_provisioning_timed_out : Sdk → M ℤ
unfolding notify_wifi_app notify_provisioning_status
ext_provisioning_timed_out sdk = do
  w ← get
  notify_wifi_app sdk (
      if w.ctx.prov_flags == sdk.flag_external_confirmation
      then cloud_confirmation_stop_req
      else external_provisioning_stop_req)
  notify_provisioning_status sdk ProvStatus.failed
  enter_prov_stopping sdk timeout
  done

-- smState_EXT_PROVISIONING, the RESET_REQUEST event
unfoldable pub reset_ext_provisioning : Sdk → M ℤ
unfolding notify_wifi_app set_state
reset_ext_provisioning sdk = do
  notify_wifi_app sdk external_provisioning_stop_req
  r ← reset_nwp sdk
  assert (is_reset_result sdk r)
  set_state State.provisioning
  return r

-- smState_EXT_PROVISIONING
unfoldable pub sm_state_ext_provisioning : Sdk → Event → M ℤ
sm_state_ext_provisioning sdk ext_prov_completed = do
  enter_prov_stopping sdk ext_prov_completed
  done
sm_state_ext_provisioning sdk add_profile = do enter_prov_stopping sdk ext_prov_completed; done
sm_state_ext_provisioning sdk timeout = ext_provisioning_timed_out sdk
sm_state_ext_provisioning sdk reset_request = reset_ext_provisioning sdk
sm_state_ext_provisioning sdk _ = unsupported

-- smState_PROV_STOPPING, the PROV_STOPPED event
unfoldable pub provisioning_has_stopped : Sdk → M ℤ
unfolding notify_provisioning_status
provisioning_has_stopped sdk = do
  notify_provisioning_status sdk ProvStatus.stopped
  r ← deferred_event_process sdk
  if eq_ℤ r sdk.obj_not_set then try_to_connect sdk else done

-- smState_PROV_STOPPING: EXT_PROV_COMPLETED falls through to ADD_PROFILE.
unfoldable pub sm_state_prov_stopping : Sdk → Event → M ℤ
unfolding notify_provisioning_status notify_net_if
sm_state_prov_stopping sdk Event.connected = do
  notify_provisioning_status sdk ProvStatus.succeed
  notify_net_if sdk mac_connect
  enter_connected sdk true
  done
sm_state_prov_stopping sdk prov_stopped = provisioning_has_stopped sdk
sm_state_prov_stopping sdk ext_prov_completed = do set_role sdk sdk.role_sta; try_to_connect sdk
sm_state_prov_stopping sdk add_profile = try_to_connect sdk
sm_state_prov_stopping sdk error = do enter_provisioning sdk; done
sm_state_prov_stopping sdk timeout = do enter_idle sdk; done
sm_state_prov_stopping sdk _ = unsupported
