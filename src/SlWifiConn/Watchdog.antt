-- ===== src/SlWifiConn/Watchdog.antt =====
-- slwificonn.c, the watchdog timer: the states that it guards, and the entries of the states.
use tisdk_cc32xx_issues.Prelude.{ℕ, ◌≤◌, ◌<◌, ◌≡◌, ◌⊎◌, Bool, true, false, arith}
use tisdk_cc32xx_issues.SlWifiConn.Types.{State, Event, World, Sdk, Settings}
use tisdk_cc32xx_issues.SlWifiConn.Quiet.{
  After, has_timeout, suspend_nwp-Quiet, deferred_event_process-Quiet,
  non_persistent_profile_process-Quiet, set_ap_params-Quiet, defer_unless_max-Quiet,
}
use tisdk_cc32xx_issues.SlWifiConn.Enter.{
  enter_idle, enter_wait_for_conn, enter_connected, enter_wait_for_ip, enter_provisioning,
  start_nwp_provisioning, enter_prov_stopping,
}
use tisdk_cc32xx_issues.SlWifiConn.States.{prov_is_off}
use tisdk_cc32xx_issues.SlWifiConn.Machine.{is_prov_state}
use tisdk_cc32xx_issues.SlWifiConn.Api.{is_off}

-- Every timeout is positive, and doubling an idle interval does not overflow.
pub record SettingsOk (s : Settings) : Type 0 where
  pub connect : 0 < s.connect_timeout
  pub ip : 0 < s.ip_timeout
  pub reconnect : 0 < s.reconnect_timeout
  pub provisioning : 0 < s.provisioning_timeout
  pub idle_min : 0 < s.idle_min_interval
  pub idle_max : 0 < s.idle_max_interval
  pub idle_min_small : s.idle_min_interval < 32768
  pub idle_max_small : s.idle_max_interval < 32768

-- The states that the code guards by the timer: IDLE, WAIT_FOR_CONN, WAIT_FOR_IP, PROVISIONING and
-- EXT_PROVISIONING. PROV_STOPPING is not one of them: it waits for PROV_STOPPED with the timer stopped.
abbrev pub is_timed : State → Bool
is_timed State.off = false
is_timed State.connected = false
is_timed State.prov_stopping = false
is_timed _ = true

-- What holds of the globals at any time, the watchdog apart
pub record IsSound (w : World) : Type 0 where
  pub settings : SettingsOk w.settings
  pub entry : is_prov_state w.ctx.state ≡ true → w.prov_registered ≡ true
  pub mode : prov_is_off w.ctx.prov_mode ≡ false → w.prov_registered ≡ true
  pub level : w.ctx.recovery_delay_level ≤ 4
  pub interval : is_off w.ctx.state ≡ false → 0 < w.ctx.idle_interval
  pub interval_max : w.ctx.idle_interval < 32768

-- In a timed state the timer runs, or its TIMEOUT is in the queue.
abbrev pub HasWatchdog : World → Type 0
HasWatchdog w =
    (is_timed w.ctx.state ≡ false) ⊎ ((0 < w.ctx.timer) ⊎ (has_timeout w.ctx.event_q ≡ true))

pub record IsWatched (w : World) : Type 0 where
  pub sound : IsSound w
  pub watchdog : HasWatchdog w

module _ (sdk : Sdk) where
  pub enter_idle-IsWatched :
      (w : World)
      → IsSound w
      → is_off w.ctx.state ≡ false
      → After (λ _ v. IsWatched v) (enter_idle sdk w)
  unfolding enter_idle
  enter_idle-IsWatched w s h = grind (arith, suspend_nwp-Quiet)

  pub enter_wait_for_conn-IsWatched :
      (t : ℕ) (b : Bool) (w : World)
      → IsSound w
      → 0 < w.ctx.idle_interval
      → 0 < t
      → After (λ _ v. IsWatched v) (enter_wait_for_conn sdk t b w)
  unfolding enter_wait_for_conn
  enter_wait_for_conn-IsWatched t b w s i h =
      grind (arith, deferred_event_process-Quiet, non_persistent_profile_process-Quiet)

  pub enter_connected-IsWatched :
      (b : Bool) (w : World) → IsSound w → After (λ _ v. IsWatched v) (enter_connected sdk b w)
  unfolding enter_connected
  enter_connected-IsWatched b w s = ground arith

  pub enter_wait_for_ip-IsWatched :
      (w : World)
      → IsSound w
      → 0 < w.ctx.idle_interval
      → After (λ _ v. IsWatched v) (enter_wait_for_ip sdk w)
  unfolding enter_wait_for_ip
  enter_wait_for_ip-IsWatched w s i = grind (arith, enter_connected-IsWatched)

  pub enter_provisioning-IsWatched :
      (w : World)
      → IsSound w
      → 0 < w.ctx.idle_interval
      → w.prov_registered ≡ true
      → After (λ _ v. IsWatched v) (enter_provisioning sdk w)
  unfolding enter_provisioning start_nwp_provisioning
  enter_provisioning-IsWatched w s i r = grind (arith, set_ap_params-Quiet)

  pub enter_prov_stopping-IsWatched :
      (e : Event) (w : World)
      → IsSound w
      → 0 < w.ctx.idle_interval
      → w.prov_registered ≡ true
      → After (λ _ v. IsWatched v) (enter_prov_stopping sdk e w)
  unfolding enter_prov_stopping
  enter_prov_stopping-IsWatched e w s i r =
      ground (arith, defer_unless_max-Quiet sdk e (record w { ctx = record (w.ctx) { timer = 0 } }))
