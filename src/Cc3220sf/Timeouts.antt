-- ===== src/Cc3220sf/Timeouts.antt =====
-- cc3220sf.c, runs of the device thread while no event comes.
use tisdk_cc32xx_issues.Prelude.{◌∷◌, ◌%◌, ℕ, zero, suc, ◌+◌, ◌≤◌, ◌<◌, ◌≡◌, false, arith, [], List}
use tisdk_cc32xx_issues.Cc3220sf.Types.{
  wifi_conn_disable, net_app_stop, Device, DevCall, DevState, Host, wait_connect_ap, sleep, stop,
  init, start,
}
use tisdk_cc32xx_issues.Cc3220sf.Run.{
  send_all, sleep_for, D, Run, ret, resetting, blocked, bind, ◌>>◌, return, u32,
}
use tisdk_cc32xx_issues.Cc3220sf.Events.{recv_event}
use tisdk_cc32xx_issues.Cc3220sf.States.{
  stop_loop, sm_stop, sm_init, wait_stopped, sm_wait_connect_ap,
}
use tisdk_cc32xx_issues.Cc3220sf.Serving.{sm_error, sm_sleep}
use tisdk_cc32xx_issues.Cc3220sf.Ops.{exec, dispatch}

-- The device thread runs `n` times, every `delay` ms.
unfoldable pub runs : Host → ℕ → ℕ → D (Unit {0})
unfolding exec
runs host delay zero = return tt
runs host delay (suc n) = exec host delay >> runs host delay n

abbrev pub ReturnsWith {ℓ} : {A : Type ℓ} → (Device → Type 0) → Run A → Type 0
ReturnsWith P (ret a d) = P d
ReturnsWith P (resetting d) = ⊥
ReturnsWith P (blocked d) = ⊥

-- A device that waits for the access point, with no event to come, and its timer
pub record IsWaitingAp (t : ℕ) (d : Device) : Type 0 where
  pub in_wait_ap : d.state ≡ wait_connect_ap
  pub no_event : d.event_q ≡ []
  pub not_connected : d.wlan_status.connected ≡ false
  pub timer_at : d.timer ≡ t

abbrev pub TimedOut : Host → Device → Type 0
TimedOut host d = (d.state ≡ DevState.error) × (d.last_error ≡ host.timed_out)

pub exec-IsWaitingAp :
    (host : Host) (delay t : ℕ) (d : Device)
    → IsWaitingAp t d
    → t + delay ≤ 10000
    → ReturnsWith (λ e. IsWaitingAp (t + delay) e) (exec host delay d)
unfolding exec dispatch sm_wait_connect_ap recv_event
exec-IsWaitingAp host delay t d h l = ground arith

pub exec-TimedOut :
    (host : Host) (delay t : ℕ) (d : Device)
    → IsWaitingAp t d
    → 10000 < t + delay
    → t + delay < u32
    → ReturnsWith (λ e. TimedOut host e × (e.event_q ≡ [])) (exec host delay d)
unfolding exec dispatch sm_wait_connect_ap recv_event
exec-TimedOut host delay t d h l b = ground arith

pub ReturnsWith-bind {ℓ κ} :
    {A : Type ℓ} {B : Type κ} {P : Device → Type 0} (Q : Device → Type 0) (f : A → D B) (o : Run A)
    → ReturnsWith P o
    → ((a : A) (d : Device) → P d → ReturnsWith Q (f a d))
    → ReturnsWith Q (bind o f)
ReturnsWith-bind Q f (ret a d) p h = h a d p
ReturnsWith-bind Q f (resetting d) p h = absurd p
ReturnsWith-bind Q f (blocked d) p h = absurd p

module _ (host : Host) where
  -- A first run, and the rest
  pub runs-suc :
      {P : Device → Type 0} (Q : Device → Type 0) (n : ℕ) (d : Device)
      → ReturnsWith P (exec host 100 d)
      → ((e : Device) → P e → ReturnsWith Q (runs host 100 n e))
      → ReturnsWith Q (runs host 100 (suc n) d)
  unfolding runs
  runs-suc {P} Q n d p h =
      ReturnsWith-bind Q (λ _. runs host 100 n) (exec host 100 d) p (λ _ e q. h e q)

  -- A device that sleeps before it stops
  pub record IsAsleep (t : ℕ) (d : Device) : Type 0 where
    pub in_sleep : d.state ≡ sleep
    pub then_stop : d.nstate ≡ stop
    pub sleeps_2000 : d.sleep_time ≡ 2000
    pub slept : d.timer ≡ t
    pub still_no_event : d.event_q ≡ []

  pub exec-error :
      (d : Device)
      → d.state ≡ DevState.error
      → d.event_q ≡ []
      → ReturnsWith (IsAsleep 0) (exec host 100 d)
  unfolding exec dispatch sm_error
  exec-error d s q = ground arith

  pub exec-IsAsleep :
      (t : ℕ) (d : Device)
      → IsAsleep t d
      → t + 100 < 2000
      → ReturnsWith (IsAsleep (t + 100)) (exec host 100 d)
  unfolding exec dispatch sm_sleep
  exec-IsAsleep t d h l = ground arith

  pub exec-wakes :
      (d : Device)
      → IsAsleep 1900 d
      → ReturnsWith (λ e. (e.state ≡ stop) × (e.event_q ≡ [])) (exec host 100 d)
  unfolding exec dispatch sm_sleep
  exec-wakes d h = ground arith

  module _ (no_arrivals : (c : List DevCall) → host.arrivals c ≡ []) where
    stop_loop-returns :
        (to : ℕ) (d : Device)
        → d.event_q ≡ []
        → ReturnsWith (λ e. e.event_q ≡ []) (stop_loop host to d)
    unfolding stop_loop recv_event sleep_for send_all
    stop_loop-returns zero d q = q
    stop_loop-returns (suc to) d q =
        let e = record d { calls = DevCall.sleep_for 500 ∷ d.calls } in
        ground (arith, no_arrivals e.calls, stop_loop-returns to e q)

    pub exec-stops :
        (d : Device)
        → d.state ≡ stop
        → d.event_q ≡ []
        → ReturnsWith (λ e. (e.state ≡ init) × (e.wlan_status.running ≡ false)) (exec host 100 d)
    unfolding exec dispatch sm_stop recv_event
    exec-stops d s q =
        let e = record d {
          timer = (d.timer + 100) % u32;
          pstate = stop;
          calls = wifi_conn_disable ∷ net_app_stop ∷ d.calls;
        } in
        ground (arith, stop_loop-returns 10 e q)

  pub exec-inits :
      (d : Device)
      → d.state ≡ init
      → d.wlan_status.running ≡ false
      → ReturnsWith (λ e. e.state ≡ start) (exec host 100 d)
  unfolding exec dispatch sm_init wait_stopped
  exec-inits d s r = ground arith
