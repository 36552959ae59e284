-- ===== src/SlWifiConn/Watched.antt =====
-- slwificonn.c, the watchdog across the handlers of the states.
use tisdk_cc32xx_issues.Prelude.{◌<◌, ◌≡◌, false, arith}
use tisdk_cc32xx_issues.SlWifiConn.Types.{State, Event, World, Sdk}
use tisdk_cc32xx_issues.SlWifiConn.Quiet.{
  After, is_timeout, deferred_event_process-Quiet, reset_nwp-Quiet, resume_nwp-Quiet,
  set_role-Quiet, collect_and_notify_stats-Kept,
}
use tisdk_cc32xx_issues.SlWifiConn.Watchdog.{
  IsSound, HasWatchdog, IsWatched, enter_idle-IsWatched, enter_wait_for_conn-IsWatched,
  enter_connected-IsWatched, enter_wait_for_ip-IsWatched, enter_provisioning-IsWatched,
  enter_prov_stopping-IsWatched,
}
use tisdk_cc32xx_issues.SlWifiConn.States.{
  sm_state_off, sm_state_idle, sm_state_wait_for_conn, sm_state_wait_for_ip, sm_state_connected,
  sm_state_provisioning, sm_state_prov_stopping, sm_state_ext_provisioning, try_to_connect,
  try_to_reconnect, resume_and_connect, disconnect_and_reconnect, enable_from_off,
  connect_timed_out, call_enter_provisioning, reset_while_connected, stats_timed_out,
  ext_provisioning_timed_out, reset_ext_provisioning, provisioning_has_stopped,
}

-- The watchdog while an event is handled: a TIMEOUT that has been taken may have been the last.
abbrev pub WatchedBut : Event → World → Type 0
WatchedBut e w = IsSound w × (is_timeout e ≡ false → HasWatchdog w)

module _ (sdk : Sdk) where
  try_to_connect-IsWatched :
      (w : World)
      → IsSound w
      → 0 < w.ctx.idle_interval
      → After (λ _ v. IsWatched v) (try_to_connect sdk w)
  unfolding try_to_connect
  try_to_connect-IsWatched w s i = grind (arith, enter_wait_for_conn-IsWatched)

  try_to_reconnect-IsWatched :
      (w : World)
      → IsSound w
      → 0 < w.ctx.idle_interval
      → After (λ _ v. IsWatched v) (try_to_reconnect sdk w)
  unfolding try_to_reconnect
  try_to_reconnect-IsWatched w s i = grind (arith, enter_wait_for_conn-IsWatched)

  resume_and_connect-IsWatched :
      (w : World)
      → IsSound w
      → 0 < w.ctx.idle_interval
      → After (λ _ v. IsWatched v) (resume_and_connect sdk w)
  unfolding resume_and_connect
  resume_and_connect-IsWatched w s i = grind (arith, resume_nwp-Quiet, try_to_connect-IsWatched)

  disconnect_and_reconnect-IsWatched :
      (w : World)
      → IsSound w
      → 0 < w.ctx.idle_interval
      → After (λ _ v. IsWatched v) (disconnect_and_reconnect sdk w)
  unfolding disconnect_and_reconnect
  disconnect_and_reconnect-IsWatched w s i = grind (arith, try_to_reconnect-IsWatched)

  enable_from_off-IsWatched :
      (w : World) → IsSound w → After (λ _ v. IsWatched v) (enable_from_off sdk w)
  unfolding enable_from_off
  enable_from_off-IsWatched w s = grind (arith, resume_and_connect-IsWatched)

  call_enter_provisioning-IsWatched :
      (w : World)
      → IsSound w
      → 0 < w.ctx.idle_interval
      → After (λ _ v. IsWatched v) (call_enter_provisioning sdk w)
  unfolding call_enter_provisioning
  call_enter_provisioning-IsWatched w s i = grind (arith, enter_provisioning-IsWatched)

  connect_timed_out-IsWatched :
      (w : World)
      → IsSound w
      → w.ctx.state ≡ State.wait_for_conn
      → After (λ _ v. IsWatched v) (connect_timed_out sdk w)
  unfolding connect_timed_out
  connect_timed_out-IsWatched w s e = grind (
    arith, enter_wait_for_conn-IsWatched, enter_idle-IsWatched, call_enter_provisioning-IsWatched,
  )

  reset_while_connected-IsWatched :
      (w : World)
      → IsSound w
      → 0 < w.ctx.idle_interval
      → After (λ _ v. IsWatched v) (reset_while_connected sdk w)
  unfolding reset_while_connected
  reset_while_connected-IsWatched w s e = grind (arith, reset_nwp-Quiet, try_to_reconnect-IsWatched)

  stats_timed_out-IsWatched :
      (w : World)
      → IsSound w
      → w.ctx.state ≡ State.connected
      → After (λ _ v. IsWatched v) (stats_timed_out sdk w)
  unfolding stats_timed_out
  stats_timed_out-IsWatched w s e = grind (arith, collect_and_notify_stats-Kept)

  ext_provisioning_timed_out-IsWatched :
      (w : World)
      → IsSound w
      → w.ctx.state ≡ State.ext_provisioning
      → After (λ _ v. IsWatched v) (ext_provisioning_timed_out sdk w)
  unfolding ext_provisioning_timed_out
  ext_provisioning_timed_out-IsWatched w s e = grind (arith, enter_prov_stopping-IsWatched)

  reset_ext_provisioning-IsWatched :
      (w : World)
      → IsSound w
      → HasWatchdog w
      → w.ctx.state ≡ State.ext_provisioning
      → After (λ _ v. IsWatched v) (reset_ext_provisioning sdk w)
  unfolding reset_ext_provisioning
  reset_ext_provisioning-IsWatched w s d e = grind (arith, reset_nwp-Quiet)

  provisioning_has_stopped-IsWatched :
      (w : World)
      → IsSound w
      → w.ctx.state ≡ State.prov_stopping
      → After (λ _ v. IsWatched v) (provisioning_has_stopped sdk w)
  unfolding provisioning_has_stopped
  provisioning_has_stopped-IsWatched w s e =
      grind (arith, deferred_event_process-Quiet, try_to_connect-IsWatched)

  pub sm_state_off-IsWatched :
      (e : Event) (w : World)
      → WatchedBut e w
      → w.ctx.state ≡ State.off
      → After (λ _ v. IsWatched v) (sm_state_off sdk e w)
  unfolding sm_state_off
  sm_state_off-IsWatched Event.enable w h s = enable_from_off-IsWatched w h.0
  sm_state_off-IsWatched e w h s = ground arith

  pub sm_state_idle-IsWatched :
      (e : Event) (w : World)
      → WatchedBut e w
      → w.ctx.state ≡ State.idle
      → After (λ _ v. IsWatched v) (sm_state_idle sdk e w)
  unfolding sm_state_idle
  sm_state_idle-IsWatched Event.enable w h s = ground arith
  sm_state_idle-IsWatched e w h s = grind (arith, resume_and_connect-IsWatched)

  pub sm_state_wait_for_conn-IsWatched :
      (e : Event) (w : World)
      → WatchedBut e w
      → w.ctx.state ≡ State.wait_for_conn
      → After (λ _ v. IsWatched v) (sm_state_wait_for_conn sdk e w)
  unfolding sm_state_wait_for_conn
  sm_state_wait_for_conn-IsWatched Event.enable w h s = ground arith
  sm_state_wait_for_conn-IsWatched e w h s = grind (
    arith, try_to_connect-IsWatched, enter_wait_for_ip-IsWatched, enter_connected-IsWatched,
    connect_timed_out-IsWatched,
  )

  pub sm_state_wait_for_ip-IsWatched :
      (e : Event) (w : World)
      → WatchedBut e w
      → w.ctx.state ≡ State.wait_for_ip
      → After (λ _ v. IsWatched v) (sm_state_wait_for_ip sdk e w)
  unfolding sm_state_wait_for_ip
  sm_state_wait_for_ip-IsWatched Event.enable w h s = ground arith
  sm_state_wait_for_ip-IsWatched e w h s =
      grind (arith, enter_connected-IsWatched, disconnect_and_reconnect-IsWatched)

  pub sm_state_connected-IsWatched :
      (e : Event) (w : World)
      → WatchedBut e w
      → w.ctx.state ≡ State.connected
      → After (λ _ v. IsWatched v) (sm_state_connected sdk e w)
  unfolding sm_state_connected
  sm_state_connected-IsWatched Event.enable w h s = ground arith
  sm_state_connected-IsWatched e w h s = grind (
    arith, reset_while_connected-IsWatched, stats_timed_out-IsWatched,
    disconnect_and_reconnect-IsWatched,
  )

  pub sm_state_provisioning-IsWatched :
      (e : Event) (w : World)
      → WatchedBut e w
      → w.ctx.state ≡ State.provisioning
      → After (λ _ v. IsWatched v) (sm_state_provisioning sdk e w)
  unfolding sm_state_provisioning
  sm_state_provisioning-IsWatched Event.enable w h s = ground arith
  sm_state_provisioning-IsWatched e w h s =
      grind (arith, enter_prov_stopping-IsWatched, enter_idle-IsWatched)

  pub sm_state_ext_provisioning-IsWatched :
      (e : Event) (w : World)
      → WatchedBut e w
      → w.ctx.state ≡ State.ext_provisioning
      → After (λ _ v. IsWatched v) (sm_state_ext_provisioning sdk e w)
  unfolding sm_state_ext_provisioning
  sm_state_ext_provisioning-IsWatched Event.enable w h s = ground arith
  sm_state_ext_provisioning-IsWatched e w h s = grind (
    arith, enter_prov_stopping-IsWatched, ext_provisioning_timed_out-IsWatched,
    reset_ext_provisioning-IsWatched,
  )

  pub sm_state_prov_stopping-IsWatched :
      (e : Event) (w : World)
      → WatchedBut e w
      → w.ctx.state ≡ State.prov_stopping
      → After (λ _ v. IsWatched v) (sm_state_prov_stopping sdk e w)
  unfolding sm_state_prov_stopping
  sm_state_prov_stopping-IsWatched Event.enable w h s = ground arith
  sm_state_prov_stopping-IsWatched e w h s = grind (
    arith, enter_connected-IsWatched, provisioning_has_stopped-IsWatched, set_role-Quiet,
    try_to_connect-IsWatched, enter_provisioning-IsWatched, enter_idle-IsWatched,
  )
