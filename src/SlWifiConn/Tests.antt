-- ===== src/SlWifiConn/Tests.antt =====
-- slwificonn.c, runs of the model at concrete inputs.
use tisdk_cc32xx_issues.Prelude.{
  ◌≡◌, ◌≤◌, refl, ◌∷◌, [], true, false, none, some, pos, negsuc, arith,
}
use tisdk_cc32xx_issues.SlWifiConn.Types.{State, Event, World, SecParams, sleep, sl_start, sl_stop}
use tisdk_cc32xx_issues.SlWifiConn.Effects.{ret}
use tisdk_cc32xx_issues.SlWifiConn.Profile.{saved_args, pack_profile}
use tisdk_cc32xx_issues.SlWifiConn.Nwp.{restart_nwp, recovery_delay, count_fatal_error}
use tisdk_cc32xx_issues.SlWifiConn.Deferred.{deferred_event_process}
use tisdk_cc32xx_issues.SlWifiConn.Machine.{process_event, has_entry}
use tisdk_cc32xx_issues.SlWifiConn.Moves.{Move}
use tisdk_cc32xx_issues.SlWifiConn.Quiet.{After}
use tisdk_cc32xx_issues.SlWifiConn.Watchdog.{HasWatchdog}
use tisdk_cc32xx_issues.SlWifiConn.Reach.{Reached, start, next}
use tisdk_cc32xx_issues.SlWifiConn.Supervised.{Reached-HasWatchdog}
use tisdk_cc32xx_issues.SlWifiConn.Diagram.{may_lead}
use tisdk_cc32xx_issues.SlWifiConn.Followed.{process_event-unsupported, process_event-leads}
use tisdk_cc32xx_issues.SlWifiConn.Disabled.{IsDisabled, process_event-IsDisabled}
use tisdk_cc32xx_issues.SlWifiConn.Backoff.{restart_nwp_calls}
use tisdk_cc32xx_issues.SlWifiConn.Fifo.{worked_off, deferred_event_process-worked_off}
use tisdk_cc32xx_issues.SlWifiConn.RoundTrip.{saved_args-pack_profile}
use tisdk_cc32xx_issues.SlWifiConn.Sample.{test_sdk, before_init, code, initialised, connecting}

connecting-Reached : Reached test_sdk initialised connecting
unfolding code
connecting-Reached = next Move.process (next Move.enable start tt refl refl) tt refl refl

Reached-HasWatchdog_example :
    HasWatchdog connecting
    × (has_entry connecting ≡ true)
    × (connecting.ctx.recovery_delay_level ≤ 4)
unfolding code
Reached-HasWatchdog_example =
    Reached-HasWatchdog test_sdk true false before_init (pos 0) (omega arith) refl refl refl
      connecting-Reached

connecting_waits : (connecting.ctx.state ≡ State.wait_for_conn) × (connecting.ctx.timer ≡ 3)
unfolding code
connecting_waits = (refl, refl)

process_event-unsupported_example :
    process_event test_sdk Event.ip_lost connecting ≡ ret (negsuc 0) connecting
unfolding code
process_event-unsupported_example =
    process_event-unsupported test_sdk Event.ip_lost connecting refl refl refl

process_event-leads_example :
    After
      (λ _ v. may_lead connecting.ctx.state Event.add_profile v.ctx.state ≡ true)
      (process_event test_sdk Event.add_profile connecting)
unfolding code
process_event-leads_example = process_event-leads test_sdk Event.add_profile connecting refl refl

abbrev linked : World
linked = record connecting { ctx = record (connecting.ctx) { state = State.connected } }

process_event-IsDisabled_example :
    After (λ _ v. IsDisabled test_sdk linked v) (process_event test_sdk Event.disable linked)
unfolding code
process_event-IsDisabled_example = process_event-IsDisabled test_sdk linked refl refl refl

abbrev being_provisioned : World
being_provisioned = record connecting {
  prov_registered = true;
  ctx = record (connecting.ctx) { state = State.provisioning };
}

restart_nwp_calls_example :
    After
      (λ _ v.
        (v.calls
          ≡ sleep 2
            ∷ sl_start
            ∷ sleep (recovery_delay (count_fatal_error connecting.ctx))
            ∷ sl_stop
            ∷ connecting.calls)
        × (5 ≤ recovery_delay (count_fatal_error connecting.ctx))
        × (recovery_delay (count_fatal_error connecting.ctx) ≤ 30)
        × (recovery_delay connecting.ctx ≤ recovery_delay (count_fatal_error connecting.ctx))
        × (v.ctx.recovery_delay_level ≤ 4))
      (restart_nwp test_sdk connecting)
unfolding code
restart_nwp_calls_example = restart_nwp_calls test_sdk connecting (omega arith)

abbrev with_deferred : World
with_deferred = record connecting {
  ctx = record (connecting.ctx) {
    deferred_q =
        record { event = Event.disable; params = none }
        ∷ record { event = Event.timeout; params = none }
        ∷ [];
  };
}

deferred_event_process-worked_off_example :
    deferred_event_process test_sdk with_deferred
    ≡ ret (pos 0) (worked_off test_sdk with_deferred.ctx.deferred_q with_deferred)
unfolding code
deferred_event_process-worked_off_example =
    deferred_event_process-worked_off test_sdk with_deferred refl (refl, (refl, tt)) (omega arith)

abbrev wpa_key : SecParams
wpa_key = record { sec_type = 2; key = 9 ∷ 8 ∷ [] }

saved_args-pack_profile_example :
    saved_args test_sdk
      (pack_profile test_sdk (test_sdk.junk []) (1 ∷ 2 ∷ 3 ∷ []) none (some wpa_key) none 6)
    ≡ record { ssid = 1 ∷ 2 ∷ 3 ∷ []; bssid = none; sec = some wpa_key; ext = none }
saved_args-pack_profile_example =
    saved_args-pack_profile test_sdk (test_sdk.junk []) (1 ∷ 2 ∷ 3 ∷ []) none wpa_key none 6
      (omega arith) (omega arith)

abbrev with_stats : World
with_stats = record connecting {
  ctx = record (connecting.ctx) { state = State.connected; stats_enabled = true };
}
