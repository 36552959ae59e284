-- ===== src/Cc3220sf/Recovery.antt =====
-- cc3220sf.c, a device that hears nothing from its access point: the state behind each run, until the
-- device starts again.
use tisdk_cc32xx_issues.Prelude.{ℕ, ◌+◌, ◌*◌, ◌≤◌, ◌≡◌, false, [], leb, if◌then◌else◌}
use tisdk_cc32xx_issues.Cc3220sf.Types.{
  Device, DevState, Host, wait_connect_ap, sleep, stop, init, start,
}
use tisdk_cc32xx_issues.Cc3220sf.Run.{Run}
use tisdk_cc32xx_issues.Cc3220sf.Timeouts.{IsWaitingAp, TimedOut, IsAsleep}

-- The state after `n` runs of 100 ms
abbrev pub state_after : ℕ → DevState
state_after n =
    if leb n 100
    then wait_connect_ap
    else if leb n 101
    then DevState.error
    else if leb n 121
    then sleep
    else if leb n 122
    then stop
    else if leb n 123
    then init
    else start

-- What is known of the device after `n` runs
data Phase (host : Host) (n : ℕ) (d : Device) : Type 0 where
  waits_ap : n ≤ 100 → IsWaitingAp (n * 100) d → Phase host n d
  is_error : n ≡ 101 → TimedOut host d → d.event_q ≡ [] → Phase host n d
  sleeps : (t : ℕ) → n ≡ t + 102 → t ≤ 19 → IsAsleep host (t * 100) d → Phase host n d
  stops : n ≡ 122 → d.state ≡ stop → d.event_q ≡ [] → Phase host n d
  inits : n ≡ 123 → d.state ≡ init → d.wlan_status.running ≡ false → Phase host n d
  starts : n ≡ 124 → d.state ≡ start → Phase host n d
