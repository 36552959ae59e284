-- ===== src/SlWifiConn/Init.antt =====
-- slwificonn.c, SlWifiConn_init: the context is allocated, the network processor is started in
-- station role, and the stored profiles are counted.
use tisdk_cc32xx_issues.Prelude.{
  ℕ, zero, suc, ◌+◌, ◌-◌, [], Bool, true, false, not, none, ℤ, pos, eq_ℤ, is_neg, to_u8, ◌==◌,
  if◌then◌else◌, replicate,
}
use tisdk_cc32xx_issues.SlWifiConn.Types.{
  off, ProvMode, Ctx, Sdk, sl_start, wlan_policy_set_pm, wlan_profile_get, wlan_provisioning_stop,
}
use tisdk_cc32xx_issues.SlWifiConn.Effects.{M, ret, ◌>>=◌, ◌>>◌, return, modify, get, when, call}
use tisdk_cc32xx_issues.SlWifiConn.Nwp.{
  init_nwp_conn_policy, suspend_nwp, set_role, reset_nwp_profile_for_provisioning,
}
use tisdk_cc32xx_issues.SlWifiConn.Machine.{deinit}

-- The context that calloc and the assignments behind it leave
unfoldable pub new_ctx : Bool → Ctx
new_ctx wifi_app_cb = record {
  state = off;
  event_q = [];
  deferred_q = [];
  timer = 0;
  wifi_app_cb = wifi_app_cb;
  role = 0;
  prov_mode = ProvMode.off;
  prov_cmd = 0;
  prov_flags = 0;
  delete_all_profiles = false;
  idle_interval = 0;
  connection_ssid = replicate 33 0;
  connection_bssid = replicate 6 0;
  ip_acquired_v4 = [];
  ip_acquired_v6 = [];
  non_persistent_profile = none;
  wlan_connect_used = false;
  disabled_policy = 0;
  enabled_policy = 0;
  stats_enabled = false;
  stats_interval = 10;
  fatal_error_count = 0;
  recovery_delay_level = 0;
}

-- sl_Start found provisioning in progress: it is stopped.
unfoldable pub stop_provisioning : Sdk → M ℤ
unfolding call
stop_provisioning sdk = do
  r ← call sdk wlan_provisioning_stop
  s ← (if eq_ℤ r (pos 0) then init_nwp_conn_policy sdk else return r)
  modify (λ c. record c { role = sdk.role_sta })
  return s

-- sl_Start returned a role or an error, kept in a uint8_t.
unfoldable pub take_role : Sdk → ℤ → M ℤ
take_role sdk started = do
  modify (λ c. record c { role = to_u8 started })
  r ← init_nwp_conn_policy sdk
  w ← get
  when (eq_ℤ r (pos 0))
      (when (not (w.ctx.role == sdk.role_sta)) (do set_role sdk sdk.role_sta; return tt))
  return r

-- The scan of the profile slots: `left` of the eight are to be read.
unfoldable pub count_profiles : Sdk → ℕ → ℕ → M ℕ
unfolding call
count_profiles sdk zero found = return found
count_profiles sdk (suc left) found = do
  status ← call sdk (wlan_profile_get (8 - suc left))
  count_profiles sdk left (if is_neg status then found else found + 1)

unfoldable pub store_profile_count : ℕ → M (Unit {0})
store_profile_count n w = ret tt (record w { profile_count = pos n })

-- SlWifiConn_init, the first sl_Start and the role
unfoldable pub start_nwp : Sdk → M ℤ
unfolding call
start_nwp sdk = do
  started ← call sdk sl_start
  if eq_ℤ started sdk.prov_in_progress then stop_provisioning sdk else take_role sdk started

-- SlWifiConn_init, the reset of the profiles if that is asked for
unfoldable pub delete_profiles_if : Sdk → Bool → M (Unit {0})
unfolding call
delete_profiles_if sdk true = do
  reset_nwp_profile_for_provisioning sdk
  call sdk sl_start
  return tt
delete_profiles_if sdk false = return tt

-- SlWifiConn_init, the profile count, the power policy and the error counters
unfoldable pub prepare_module : Sdk → M (Unit {0})
unfolding call store_profile_count
prepare_module sdk = do
  found ← count_profiles sdk 8 0
  store_profile_count found
  call sdk wlan_policy_set_pm
  modify (λ c. record c { fatal_error_count = 0; recovery_delay_level = 0 })
  suspend_nwp sdk false
  return tt

-- SlWifiConn_init, the end: after an error the module is released.
unfoldable pub finish_init : Sdk → ℤ → M ℤ
finish_init sdk r = do when (is_neg r) (do deinit sdk; return tt); return r

-- SlWifiConn_init, from the first sl_Start to the end
unfoldable pub start_module : Sdk → Bool → M ℤ
start_module sdk delete_profiles = do
  r ← start_nwp sdk
  delete_profiles_if sdk delete_profiles
  prepare_module sdk
  finish_init sdk r

-- SlWifiConn_init
unfoldable pub conn_init : Sdk → Bool → Bool → M ℤ
unfolding new_ctx
conn_init sdk wifi_app_cb delete_profiles w =
    if w.live
    then ret sdk.already_started w
    else if not (sdk.has_memory w.calls)
    then ret sdk.malloc_error w
    else start_module sdk delete_profiles (record w { live = true; ctx = new_ctx wifi_app_cb })
