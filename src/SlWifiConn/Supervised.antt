-- ===== src/SlWifiConn/Supervised.antt =====
-- slwificonn.c, the module from SlWifiConn_init on: the watchdog, the handlers of the states and the
-- level of the recovery delay.
use tisdk_cc32xx_issues.Prelude.{◌≡◌, ◌≤◌, Bool, true, false, ℤ, arith}
use tisdk_cc32xx_issues.SlWifiConn.Types.{World, Sdk}
use tisdk_cc32xx_issues.SlWifiConn.Effects.{ret}
use tisdk_cc32xx_issues.SlWifiConn.Machine.{has_entry}
use tisdk_cc32xx_issues.SlWifiConn.Init.{conn_init}
use tisdk_cc32xx_issues.SlWifiConn.Watchdog.{SettingsOk, HasWatchdog, IsWatched}
use tisdk_cc32xx_issues.SlWifiConn.Started.{conn_init-IsWatched}
use tisdk_cc32xx_issues.SlWifiConn.Reach.{Reached, Reached-IsWatched, After-ret}

has_entry_of_IsWatched : (w : World) → IsWatched w → has_entry w ≡ true
unfolding has_entry
has_entry_of_IsWatched w h = ground arith

-- From what SlWifiConn_init leaves, if every timeout of the settings is positive and the idle
-- intervals are below 32768, and every later configuration keeps to that, the threads of the module
-- reach, one function at a time, only globals where in any state but OFF, CONNECTED and PROV_STOPPING
-- the timer runs or a TIMEOUT is in the queue of events, where the state has its handler, and where the
-- level of the recovery delay is in range. In PROV_STOPPING the timer may be stopped.
pub Reached-HasWatchdog :
    (sdk : Sdk) (cb delete_profiles : Bool) (w : World) (r : ℤ) {u v : World}
    → SettingsOk w.settings
    → w.live ≡ false
    → sdk.has_memory w.calls ≡ true
    → conn_init sdk cb delete_profiles w ≡ ret r u
    → Reached sdk u v
    → HasWatchdog v × (has_entry v ≡ true) × (v.ctx.recovery_delay_level ≤ 4)
Reached-HasWatchdog sdk cb b w r {u} {v} s l m e reached =
    let started : IsWatched u =
      After-ret (λ _ x. IsWatched x) (conn_init sdk cb b w) r u e
        (conn_init-IsWatched sdk cb b w s l m) in
    let watched = Reached-IsWatched sdk u started reached in
    (watched.watchdog, has_entry_of_IsWatched v watched, watched.sound.level)
