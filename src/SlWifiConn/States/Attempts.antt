-- ===== src/SlWifiConn/States/Attempts.antt =====
-- slwificonn.c, the transitions that several states share: the next attempt to connect.
use tisdk_cc32xx_issues.Prelude.{◌||◌, Bool, true, false, ℤ, pos, negsuc, eq_ℤ}
use tisdk_cc32xx_issues.SlWifiConn.Types.{State, NetIfEvent, Sdk, wlan_profile_del_all}
use tisdk_cc32xx_issues.SlWifiConn.Effects.{
  M, ◌>>=◌, ◌>>◌, return, modify, get, assert, when, call, set_state, start_async_evt_timer,
  stop_async_evt_timer, notify_net_if,
}
use tisdk_cc32xx_issues.SlWifiConn.Nwp.{resume_nwp}
use tisdk_cc32xx_issues.SlWifiConn.Enter.{enter_wait_for_conn}

abbrev pub done : M ℤ
done = return (pos 0)

abbrev pub unsupported : M ℤ
unsupported = return (negsuc 0)

-- The transitions with a timeout of the settings
unfoldable pub try_to_connect : Sdk → M ℤ
try_to_connect sdk = do w ← get; enter_wait_for_conn sdk w.settings.connect_timeout false; done

unfoldable pub try_to_reconnect : Sdk → M ℤ
try_to_reconnect sdk = do w ← get; enter_wait_for_conn sdk w.settings.reconnect_timeout false; done

unfoldable pub wait_for_ip_again : M ℤ
unfolding stop_async_evt_timer start_async_evt_timer set_state
wait_for_ip_again = do
  stop_async_evt_timer
  w ← get
  start_async_evt_timer w.settings.ip_timeout
  set_state State.wait_for_ip
  done

unfoldable pub resume_and_connect : Sdk → M ℤ
resume_and_connect sdk = do resume_nwp sdk true; try_to_connect sdk

unfoldable pub disconnect_and_reconnect : Sdk → M ℤ
unfolding notify_net_if
disconnect_and_reconnect sdk = do notify_net_if sdk NetIfEvent.disconnect; try_to_reconnect sdk

abbrev pub is_reset_result : Sdk → ℤ → Bool
is_reset_result sdk r = eq_ℤ r (pos 0) || eq_ℤ r sdk.prov_in_progress

-- smState_OFF, the ENABLE event
unfoldable pub enable_from_off : Sdk → M ℤ
unfolding call
enable_from_off sdk = do
  w ← get
  modify (λ c. record c { idle_interval = w.settings.idle_min_interval })
  when w.ctx.delete_all_profiles (do
    r ← call sdk wlan_profile_del_all
    assert (eq_ℤ r (pos 0))
    modify (λ c. record c { delete_all_profiles = false }))
  resume_and_connect sdk
