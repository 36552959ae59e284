-- ===== src/Cc3220sf/Reach.antt =====
-- cc3220sf.c, what the threads of the device reach after probe and start.
use tisdk_cc32xx_issues.Prelude.{pos, ℤ, subst, ℕ, ◌≡◌, ◌<◌, false, arith}
use tisdk_cc32xx_issues.Cc3220sf.Types.{Device, DevEvent, Host}
use tisdk_cc32xx_issues.Cc3220sf.Run.{bind, return, Run, ret, resetting, blocked, u32}
use tisdk_cc32xx_issues.Cc3220sf.Ops.{exec, ioctl}
use tisdk_cc32xx_issues.Cc3220sf.Start.{
  probe, start_device, stop_device, must_return_0, check_profile_count,
}
use tisdk_cc32xx_issues.Cc3220sf.Handlers.{
  fatal_error_event_handler, ota_event_handler, wifi_conn_event_handler, net_app_request_handler,
  post_request,
}
use tisdk_cc32xx_issues.Cc3220sf.Moves.{
  resume_request, Move, run, wlan, net_app, ota, wifi_conn, request, control, fatal, stop_running,
  run_move,
}
use tisdk_cc32xx_issues.Cc3220sf.After.{After}
use tisdk_cc32xx_issues.Cc3220sf.Steps.{IsSound, Stepped, exec-Stepped}
use tisdk_cc32xx_issues.Cc3220sf.Quiet.{
  Leaves, Quiet-IsSound, send_event-Quiet, wlan_event_handler-Quiet, net_app_event_handler-Quiet,
  ota_event_handler-Quiet, wifi_conn_event_handler-Quiet, ioctl-Quiet,
  net_app_request_handler-Quiet, post_request-Quiet,
}

-- The descriptor with which a function returns, or in which it waits; after a request for a reset
-- there is none.
abbrev pub Ends {ℓ} : {A : Type ℓ} → Device → Run A → Type 0
Ends e (ret a d) = d ≡ e
Ends e (resetting d) = ⊥
Ends e (blocked d) = d ≡ e

-- What the threads reach from the descriptor `d` of a device that is not yet probed
pub data Reached (host : Host) (d : Device) : Device → Type 0 where
  started : {e : Device} → Ends e (start_device host (probe host d)) → Reached host d e
  next :
      {u v : Device} (m : Move) → Reached host d u → Ends v (run_move host m u) → Reached host d v

-- The descriptor before probe: the spare registers and the static counters are 32-bit words.
pub record IsPowered (d : Device) : Type 0 where
  pub reg_fatal_bound : d.reg_fatal < u32
  pub reg_recover_bound : d.reg_recover < u32
  pub reg_discon_bound : d.reg_discon < u32
  pub timer_bound : d.timer < u32
  pub time_bound : d.connected_time < u32

Leaves-IsSound {ℓ} :
    {A : Type ℓ} (d : Device) (o : Run A)
    → IsSound d
    → Leaves d o
    → (e : Device) → Ends e o
    → IsSound e
Leaves-IsSound d (ret a f) h q e l = subst IsSound l (Quiet-IsSound d f q h)
Leaves-IsSound d (resetting f) h q e l = absurd l
Leaves-IsSound d (blocked f) h q e l = subst IsSound l (Quiet-IsSound d f q h)

pub start_device-IsSound :
    (host : Host) (d e : Device)
    → IsPowered d
    → Ends e (start_device host (probe host d))
    → IsSound e
unfolding start_device probe must_return_0 check_profile_count
start_device-IsSound host d e p = ground arith

-- A result that a move drops
Ends-drop {ℓ} :
    {A : Type ℓ} (e : Device) (o : Run A) → Ends e (bind o (λ _. return (tt {0}))) → Ends e o
Ends-drop e (ret a d) l = l
Ends-drop e (resetting d) l = l
Ends-drop e (blocked d) l = l

After-IsSound :
    (d e : Device) (o : Run ℤ) → After (λ r f. (r ≡ pos 0) × Stepped d f) o → Ends e o → IsSound e
After-IsSound d e (ret a f) h l = subst IsSound l h.1.is_sound
After-IsSound d e (resetting f) h l = absurd l
After-IsSound d e (blocked f) h l = absurd h

module _ (host : Host) (u v : Device) (h : IsSound u) where
  pub run_move-IsSound : (m : Move) → Ends v (run_move host m u) → IsSound v
  unfolding run_move
  run_move-IsSound (run delay) l =
      After-IsSound u v (exec host delay u) (exec-Stepped host delay u h)
        (Ends-drop v (exec host delay u) l)
  run_move-IsSound (wlan e) l = subst IsSound l (Quiet-IsSound u _ (wlan_event_handler-Quiet e u) h)
  run_move-IsSound (net_app e) l =
      subst IsSound l (Quiet-IsSound u _ (net_app_event_handler-Quiet e u) h)
  run_move-IsSound (ota n) l =
      Leaves-IsSound u (ota_event_handler host n u) h (ota_event_handler-Quiet host n u) v l
  run_move-IsSound (wifi_conn e) l =
      Leaves-IsSound u (wifi_conn_event_handler host e u) h (wifi_conn_event_handler-Quiet host e u)
        v l
  run_move-IsSound (request r) l =
      Leaves-IsSound u (net_app_request_handler host r u) h (net_app_request_handler-Quiet host r u)
        v (Ends-drop v (net_app_request_handler host r u) l)
  run_move-IsSound (resume_request r) l =
      Leaves-IsSound u (post_request host r u) h (post_request-Quiet host r u) v l
  run_move-IsSound (control code param) l =
      Leaves-IsSound u (ioctl host code param u) h (ioctl-Quiet host code param u) v
        (Ends-drop v (ioctl host code param u) l)
  run_move-IsSound fatal l =
      unfold fatal_error_event_handler in
      subst IsSound l (Quiet-IsSound u _ (send_event-Quiet DevEvent.fatal_error u) h)
  run_move-IsSound stop_running l =
      unfold stop_device in
      subst IsSound l (Quiet-IsSound u (record u { is_running = false }) (ground arith) h)

pub Reached-IsSound :
    (host : Host) (d : Device) {e : Device} → IsPowered d → Reached host d e → IsSound e
Reached-IsSound host d p (started l) = start_device-IsSound host d _ p l
Reached-IsSound host d p (next {u} {v} m r l) =
    run_move-IsSound host u v (Reached-IsSound host d p r) m l

-- Whatever the threads reach after probe and start (the device thread, the handlers of the driver,
-- the connection manager and the update, the requests that wait and the calls of the network layer,
-- in any order), the next run of the device thread does not wait for ever: neither the loop of init
-- nor the read of the request queue does. It returns 0, or has asked for the reset of the chip with
-- the totals in the spare registers. When it returns, the state has moved along an edge of the
-- diagram, and what is left fits the new state and has its counters and queues in range.
pub exec-serves :
    (host : Host) (d e : Device) (delay : ℕ)
    → IsPowered d
    → Reached host d e
    → After (λ r f. (r ≡ pos 0) × Stepped e f) (exec host delay e)
exec-serves host d e delay p r = exec-Stepped host delay e (Reached-IsSound host d p r)
