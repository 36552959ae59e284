-- ===== src/SlWifiConn/Moves.antt =====
-- slwificonn.c, the module as a whole: the state machine's thread, the expiry of the timer, the
-- callbacks of the driver and the calls of other threads take turns, one function at a time.
use tisdk_cc32xx_issues.Prelude.{ℕ, Bool, Option, ltb, if◌then◌else◌}
use tisdk_cc32xx_issues.SlWifiConn.Types.{ProvMode, Settings, Sdk}
use tisdk_cc32xx_issues.SlWifiConn.Effects.{M, blocked, ◌>>◌, return}
use tisdk_cc32xx_issues.SlWifiConn.Machine.{process_round}
use tisdk_cc32xx_issues.SlWifiConn.Handlers.{
  WlanEvent, NetAppEvent, DeviceEvent, wlan_event_handler, net_app_event_handler,
  general_event_handler, async_evt_timer_handler,
}
use tisdk_cc32xx_issues.SlWifiConn.Api.{
  conn_deinit, set_delete_all_profiles, conn_enable, conn_disable, conn_enable_provisioning,
  conn_external_provisioning_completed, register_net_if_callback, set_configuration, conn_set_role,
  conn_reset, conn_request_reset, conn_enable_stats, conn_disable_stats,
}
use tisdk_cc32xx_issues.SlWifiConn.AddProfile.{NewProfile, conn_add_profile}

-- Who moves, and with what arguments
pub data Move : Type 0 where
  process expire : Move
  wlan : WlanEvent → Move
  net_app : NetAppEvent → Move
  device : DeviceEvent → Move
  deinit delete_all enable disable ext_completed reset request_reset disable_stats : Move
  enable_provisioning : Option ProvMode → ℕ → ℕ → Move
  add_profile : NewProfile → Move
  register_net_if : Bool → Move
  configure : Option Settings → Move
  set_role enable_stats : ℕ → Move

abbrev drop {ℓ} : {A : Type ℓ} → M A → M (Unit {0})
drop m = do m; return tt

-- The timer expires only while it runs.
unfoldable pub expire_timer : Sdk → M (Unit {0})
expire_timer sdk w = if ltb 0 w.ctx.timer then async_evt_timer_handler sdk w else blocked

unfoldable pub run_move : Sdk → Move → M (Unit {0})
unfolding expire_timer
run_move sdk process = drop (process_round sdk)
run_move sdk expire = expire_timer sdk
run_move sdk (wlan e) = wlan_event_handler sdk e
run_move sdk (net_app e) = net_app_event_handler sdk e
run_move sdk (device e) = general_event_handler sdk e
run_move sdk deinit = drop (conn_deinit sdk)
run_move sdk delete_all = set_delete_all_profiles
run_move sdk enable = drop (conn_enable sdk)
run_move sdk disable = drop (conn_disable sdk)
run_move sdk ext_completed = drop (conn_external_provisioning_completed sdk)
run_move sdk reset = drop (conn_reset sdk)
run_move sdk request_reset = drop (conn_request_reset sdk)
run_move sdk disable_stats = drop (conn_disable_stats sdk)
run_move sdk (enable_provisioning m c f) = drop (conn_enable_provisioning sdk m c f)
run_move sdk (add_profile p) = drop (conn_add_profile sdk p)
run_move sdk (register_net_if b) = drop (register_net_if_callback b)
run_move sdk (configure s) = drop (set_configuration sdk s)
run_move sdk (set_role r) = drop (conn_set_role sdk r)
run_move sdk (enable_stats n) = drop (conn_enable_stats sdk n)
