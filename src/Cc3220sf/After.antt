-- ===== src/Cc3220sf/After.antt =====
-- cc3220sf.c, what holds when a function of the device returns or has asked for a reset, and that it
-- does not wait.
use tisdk_cc32xx_issues.Prelude.{
  if◌then◌else◌, true, false, List, [], ◌∷◌, length-append, ℕ, ◌≡◌, ◌<◌, ◌≤◌, length, arith, Bool,
}
use tisdk_cc32xx_issues.Cc3220sf.Types.{DevCall, Device, DevEvent, Host}
use tisdk_cc32xx_issues.Cc3220sf.Run.{
  when, D, Run, ret, resetting, blocked, bind, u32, event_q_max, send_event, send_all, sleep_for,
}
use tisdk_cc32xx_issues.Cc3220sf.Events.{recv_event, handle_taken, take_event}

-- The counters are in range and the spare registers hold the totals; the queues keep their bounds.
pub record IsCounted (d : Device) : Type 0 where
  pub fatal_bound : d.fatal_error_count < 256
  pub total_fatal_bound : d.total_fatal_errors < u32
  pub total_recover_bound : d.total_recoveries < u32
  pub total_discon_bound : d.total_disconnects < u32
  pub timer_bound : d.timer < u32
  pub time_bound : d.connected_time < u32
  pub fatal_saved : d.reg_fatal ≡ d.total_fatal_errors
  pub recover_saved : d.reg_recover ≡ d.total_recoveries
  pub discon_saved : d.reg_discon ≡ d.total_disconnects
  pub event_q_bound : length d.event_q ≤ event_q_max
  pub http_q_bound : length d.http_q ≤ 1

abbrev pub After {ℓ} : {A : Type ℓ} → (A → Device → Type 0) → Run A → Type 0
After P (ret a d) = P a d
After P (resetting d) = IsCounted d
After P (blocked d) = ⊥

pub After-bind {ℓ κ} :
    {A : Type ℓ} {B : Type κ} {P : A → Device → Type 0} (Q : B → Device → Type 0) (f : A → D B)
    (o : Run A)
    → After P o
    → ((a : A) (d : Device) → P a d → After Q (f a d))
    → After Q (bind o f)
After-bind Q f (ret a d) p h = h a d p
After-bind Q f (resetting d) p h = p
After-bind Q f (blocked d) p h = absurd p

pub After-if {ℓ} :
    {A : Type ℓ} (P : A → Device → Type 0) (b : Bool) (o p : Run A)
    → After P o
    → After P p
    → After P (if b then o else p)
After-if P true o p h k = h
After-if P false o p h k = k

pub After-when :
    (P : Unit {0} → Device → Type 0) (b : Bool) (m : D (Unit {0})) (d : Device)
    → After P (m d)
    → P tt d
    → After P (when b m d)
After-when P true m d h k = h
After-when P false m d h k = k

-- What receiving events leaves as it is
pub record Kept (d e : Device) : Type 0 where
  pub state_kept : e.state ≡ d.state
  pub nstate_kept : e.nstate ≡ d.nstate
  pub timer_kept : e.timer ≡ d.timer
  pub http_q_kept : e.http_q ≡ d.http_q
  pub is_counted : IsCounted e

pub take_event-Kept : (e : DevEvent) (d : Device) → IsCounted d → Kept d (take_event e d)
unfolding take_event
take_event-Kept e d h = ground arith

handle_taken-Kept :
    (host : Host) (e : DevEvent) (d : Device)
    → IsCounted d
    → After (λ _ d'. Kept d d') (handle_taken host e d)
unfolding handle_taken
handle_taken-Kept host e d h = ground (arith, take_event-Kept e d h)

pub recv_event-Kept :
    (host : Host) (d : Device) → IsCounted d → After (λ _ d'. Kept d d') (recv_event host d)
unfolding recv_event
recv_event-Kept host d h = elim d.event_q [
  | [] ↦ ground arith
  | e ∷ es ↦ ground (arith, handle_taken-Kept host e (record d { event_q = es }))
]

pub send_event-Kept : (e : DevEvent) (d : Device) → IsCounted d → Kept d (send_event e d)
unfolding send_event
send_event-Kept e d h = ground (arith, length-append d.event_q (e ∷ []))

pub Kept-trans : (d e f : Device) → Kept d e → Kept e f → Kept d f
Kept-trans d e f h k = ground arith

pub send_all-Kept : (es : List DevEvent) (d : Device) → IsCounted d → Kept d (send_all es d)
unfolding send_all
send_all-Kept [] d h = ground arith
send_all-Kept (e ∷ es) d h =
    let k = send_event-Kept e d h in
    Kept-trans d (send_event e d) _ k (send_all-Kept es (send_event e d) k.is_counted)

pub sleep_for-Kept :
    (host : Host) (ms : ℕ) (d : Device)
    → IsCounted d
    → After (λ _ d'. Kept d d') (sleep_for host ms d)
unfolding sleep_for
sleep_for-Kept host ms d h =
    let d' = record d { calls = DevCall.sleep_for ms ∷ d.calls } in
    ground (arith, send_all-Kept (host.arrivals d'.calls) d')
