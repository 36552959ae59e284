-- ===== src/SlWifiConn/Effects.antt =====
-- slwificonn.c, how a function runs: it reads and writes the globals, calls out, and may stop at an
-- assertion or wait for ever on a full message queue. Also the timer, the message queues and the
-- notifications, which everything else uses.
use tisdk_cc32xx_issues.Prelude.{
  ℕ, ◌++◌, ◌∷◌, [], Bool, true, false, ℤ, pos, ltb, length, if◌then◌else◌,
}
use tisdk_cc32xx_issues.SlWifiConn.Types.{
  State, Event, NetIfEvent, AppEvent, ProvStatus, Call, DeferredEvent, Ctx, World, Sdk, notify_app,
  provisioning_stopped,
}

-- `aborted` is a failed assertion, `blocked` is mq_send on a full queue.
pub data Outcome {ℓ} (A : Type ℓ) : Type ℓ where
  ret : A → World → Outcome A
  aborted : Outcome A
  blocked : Outcome A

abbrev pub M {ℓ} : Type ℓ → Type ℓ
M A = World → Outcome A

abbrev pub return {ℓ} : {A : Type ℓ} → A → M A
return a w = ret a w

infixl 5 ◌>>=◌ ◌>>◌
abbrev pub ◌>>=◌ {ℓ κ} : {A : Type ℓ} {B : Type κ} → M A → (A → M B) → M B
◌>>=◌ m f w = elim (m w) [ ret a w' ↦ f a w' | aborted ↦ aborted | blocked ↦ blocked ]

abbrev pub ◌>>◌ {ℓ κ} : {A : Type ℓ} {B : Type κ} → M A → M B → M B
m >> k = m >>= λ _. k

abbrev pub modify : (Ctx → Ctx) → M (Unit {0})
modify f w = ret tt (record w { ctx = f w.ctx })

abbrev pub get : M World
get w = ret w w

-- assert(b)
abbrev pub assert : Bool → M (Unit {0})
assert true w = ret tt w
assert false w = aborted

abbrev pub when : Bool → M (Unit {0}) → M (Unit {0})
when true m w = m w
when false m w = ret tt w

-- A call out of the module: it is recorded, and the SDK chooses the result.
unfoldable pub call : Sdk → Call → M ℤ
call sdk c w = ret (sdk.reply w.calls c) (record w { calls = c ∷ w.calls })

-- SetState: every value of `State` is below SLWIFICONN_STATE_MAX.
unfoldable pub set_state : State → M (Unit {0})
set_state s = modify (λ c. record c { state = s })

-- mq_maxmsg of the two queues
abbrev pub event_q_max : ℕ
event_q_max = 10

abbrev pub deferred_q_max : ℕ
deferred_q_max = 3

-- mq_send on the event queue
unfoldable pub mq_send_event : Event → M ℤ
mq_send_event e w =
    if ltb (length w.ctx.event_q) event_q_max
    then ret (pos 0) (record w { ctx = record (w.ctx) { event_q = w.ctx.event_q ++ e ∷ [] } })
    else blocked

-- mq_send on the deferred queue
unfoldable pub mq_send_deferred : DeferredEvent → M ℤ
mq_send_deferred d w =
    if ltb (length w.ctx.deferred_q) deferred_q_max
    then ret (pos 0) (record w { ctx = record (w.ctx) { deferred_q = w.ctx.deferred_q ++ d ∷ [] } })
    else blocked

-- StartAsyncEvtTimer: a duration of 0 disarms the timer, as timer_settime does.
unfoldable pub start_async_evt_timer : ℕ → M (Unit {0})
start_async_evt_timer duration = modify (λ c. record c { timer = duration })

-- StopAsyncEvtTimer
unfoldable pub stop_async_evt_timer : M (Unit {0})
stop_async_evt_timer = modify (λ c. record c { timer = 0 })

-- NotifyNetIf, which leaves the critical section for the time of the callback: what other threads do
-- then is not modelled.
unfoldable pub notify_net_if : Sdk → NetIfEvent → M (Unit {0})
unfolding call
notify_net_if sdk e = do w ← get; when w.net_if_cb (do call sdk (Call.notify_net_if e); return tt)

-- NotifyWifiApp, likewise
unfoldable pub notify_wifi_app : Sdk → AppEvent → M (Unit {0})
unfolding call
notify_wifi_app sdk e = do w ← get; when w.ctx.wifi_app_cb (do call sdk (notify_app e); return tt)

-- NotifyProvisioningStatus
unfoldable pub notify_provisioning_status : Sdk → ProvStatus → M (Unit {0})
unfolding notify_wifi_app
notify_provisioning_status sdk s = notify_wifi_app sdk (provisioning_stopped s)
