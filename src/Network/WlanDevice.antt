-- ===== src/Network/WlanDevice.antt =====
-- The Wi-Fi device of cc3220sf.c under the main thread of netdevice.c: NetDevWlanCC3220SF, the table
-- of its operations, against what the thread asks of a device.
use tisdk_cc32xx_issues.Prelude.{subst, ℕ, ◌≡◌, ℤ, pos, negsuc, arith, refl}
use tisdk_cc32xx_issues.Cc3220sf.Types.{Device, Host}
use tisdk_cc32xx_issues.Cc3220sf.Run.{Run, ret, resetting, blocked}
use tisdk_cc32xx_issues.Cc3220sf.Ops.{exec, ioctl}
use tisdk_cc32xx_issues.Cc3220sf.Start.{
  StartStatus, status_ok, status_fail, probe, start_device, stop_device,
}
use tisdk_cc32xx_issues.Cc3220sf.Moves.{Move, run_move}
use tisdk_cc32xx_issues.Cc3220sf.After.{After}
use tisdk_cc32xx_issues.Cc3220sf.Steps.{IsSound, Stepped, exec-Stepped}
use tisdk_cc32xx_issues.Cc3220sf.Reach.{Ends, IsPowered, start_device-IsSound, run_move-IsSound}
use tisdk_cc32xx_issues.Network.Device.{
  OpRun, op_ret, op_resets, op_waits, NetDev, DeviceOps, main_stub,
}
use tisdk_cc32xx_issues.Network.ThreadLaws.{OpServes, DeviceLaws, Serves, main_stub-Serves}

abbrev of_start : Run StartStatus → OpRun Device
of_start (ret status_ok d) = op_ret (pos 0) d
of_start (ret status_fail d) = op_ret (negsuc 0) d
of_start (resetting d) = op_resets d
of_start (blocked d) = op_waits d

abbrev of_exec : Run ℤ → OpRun Device
of_exec (ret r d) = op_ret r d
of_exec (resetting d) = op_resets d
of_exec (blocked d) = op_waits d

abbrev device_after : Run ℤ → Device
device_after (ret r d) = d
device_after (resetting d) = d
device_after (blocked d) = d

-- NetDevWlanCC3220SF. STATUS_OK is 0 and STATUS_FAIL is not; the calls of what notify stores are
-- recorded by the device itself.
unfoldable pub net_dev_wlan : Host → DeviceOps Device
unfolding probe start_device exec stop_device ioctl
net_dev_wlan host = record {
  probe =
      λ nd d. (pos 0, (record nd { delay = 100; priority = 5; stack_size = 4096 }, probe host d));
  start = λ d. of_start (start_device host d);
  notify = λ d. d;
  exec = λ delay d. of_exec (exec host delay d);
  stop = stop_device;
  ioctl = λ code param d. device_after (ioctl host code param d);
}

-- A device that has been probed
pub record IsProbed (host : Host) (d : Device) : Type 0 where
  pub was : Device
  pub powered : IsPowered was
  pub probed : d ≡ probe host was

-- What the other threads do while the main thread sleeps
pub data Later (host : Host) (d : Device) : Device → Type 0 where
  here : Later host d d
  next : {u v : Device} (m : Move) → Later host d u → Ends v (run_move host m u) → Later host d v

Later-IsSound : (host : Host) (d e : Device) → IsSound d → Later host d e → IsSound e
Later-IsSound host d e h here = h
Later-IsSound host d e h (next {u} m l r) =
    run_move-IsSound host u e (Later-IsSound host d u h l) m r

of_exec-OpServes :
    (d : Device) (o : Run ℤ)
    → After (λ r e. (r ≡ pos 0) × Stepped d e) o
    → OpServes IsSound (of_exec o)
of_exec-OpServes d (ret r e) h = (rw h.0 refl, h.1.is_sound)
of_exec-OpServes d (resetting e) h = tt
of_exec-OpServes d (blocked e) h = h

of_start-Ends : (o : Run StartStatus) (e : Device) → of_start o ≡ op_ret (pos 0) e → Ends e o
of_start-Ends (ret status_ok d) e h = ground arith
of_start-Ends (ret status_fail d) e h = ground arith
of_start-Ends (resetting d) e h = ground arith
of_start-Ends (blocked d) e h = ground arith

net_dev_wlan-laws : (host : Host) → DeviceLaws (net_dev_wlan host) (IsProbed host) IsSound
unfolding net_dev_wlan
net_dev_wlan-laws host = record {
  started_ok = λ d e p s. start_device-IsSound host p.was e p.powered (
      subst (λ b. Ends e (start_device host b)) p.probed (of_start-Ends (start_device host d) e s));
  exec_ok = λ delay d h. of_exec-OpServes d (exec host delay d) (exec-Stepped host delay d h);
}

-- Once the Wi-Fi device has been probed and its start has returned 0, its main thread never leaves its
-- loop and no round of it waits for ever, whatever the other threads do to the device between two
-- rounds: after any number of rounds the thread still runs, on a sound device, or waits for the reset
-- of the chip that it asked for.
pub main_stub-net_dev_wlan :
    (host : Host) (between : ℕ → Device → Device) (n : ℕ) (nd : NetDev) (d e : Device)
    → ((k : ℕ) (c : Device) → Later host c (between k c))
    → IsProbed host d
    → (net_dev_wlan host).start d ≡ op_ret (pos 0) e
    → Serves IsSound (main_stub (net_dev_wlan host) between n nd d)
main_stub-net_dev_wlan host between n nd d e later p s =
    main_stub-Serves (net_dev_wlan host) (IsProbed host) IsSound (net_dev_wlan-laws host) between
      (λ k c h. Later-IsSound host c (between k c) h (later k c)) n nd d e p s
