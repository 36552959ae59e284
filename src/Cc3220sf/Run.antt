-- ===== src/Cc3220sf/Run.antt =====
-- cc3220sf.c, how a function runs: it reads and writes the descriptor, and may wait in a loop or a
-- call, or ask for a reset of the chip and wait for it.
use tisdk_cc32xx_issues.Prelude.{
  List, ℕ, ◌∷◌, ◌++◌, [], Bool, true, false, ℤ, ltb, length, if◌then◌else◌,
}
use tisdk_cc32xx_issues.Cc3220sf.Types.{Device, DevCall, DevEvent, Host, Status}

-- `blocked` waits in a loop or a call for a change of the descriptor that it does not make itself,
-- `resetting` for the reset that it asked for.
pub data Run {ℓ} (A : Type ℓ) : Type ℓ where
  ret : A → Device → Run A
  resetting : Device → Run A
  blocked : Device → Run A

abbrev pub D {ℓ} : Type ℓ → Type ℓ
D A = Device → Run A

abbrev pub return {ℓ} : {A : Type ℓ} → A → D A
return a d = ret a d

abbrev pub bind {ℓ κ} : {A : Type ℓ} {B : Type κ} → Run A → (A → D B) → Run B
bind (ret a d) f = f a d
bind (resetting d) f = resetting d
bind (blocked d) f = blocked d

infixl 5 ◌>>=◌ ◌>>◌
abbrev pub ◌>>=◌ {ℓ κ} : {A : Type ℓ} {B : Type κ} → D A → (A → D B) → D B
◌>>=◌ m f d = bind (m d) f

abbrev pub ◌>>◌ {ℓ κ} : {A : Type ℓ} {B : Type κ} → D A → D B → D B
m >> k = m >>= λ _. k

abbrev pub modify : (Device → Device) → D (Unit {0})
modify f d = ret tt (f d)

abbrev pub set_status : (Status → Status) → D (Unit {0})
set_status f d = ret tt (record d { wlan_status = f d.wlan_status })

abbrev pub get : D Device
get d = ret d d

abbrev pub when : Bool → D (Unit {0}) → D (Unit {0})
when true m d = m d
when false m d = ret tt d

-- A call of another module
abbrev pub call : Host → DevCall → D ℤ
call host c d = ret (host.reply d.calls c) (record d { calls = c ∷ d.calls })

abbrev pub u32 : ℕ
u32 = 4294967296

abbrev pub event_q_max : ℕ
event_q_max = 10

-- netdev_wlan_cc3220sf_send_event, called by any thread. O_NONBLOCK stands in the mq_flags that mq_open is
-- given, and mq_open is taken to heed it there: when the queue is full the event is not taken, and the
-- descriptor stays as it is.
unfoldable pub send_event : DevEvent → Device → Device
send_event e d =
    if ltb (length d.event_q) event_q_max then record d { event_q = d.event_q ++ (e ∷ []) } else d

-- What other threads send, in this order
unfoldable pub send_all : List DevEvent → Device → Device
send_all [] d = d
send_all (e ∷ es) d = send_all es (send_event e d)

-- Task_sleep, during which other threads send what the host says
unfoldable pub sleep_for : Host → ℕ → D (Unit {0})
unfolding send_all
sleep_for host ms d =
    let d' = record d { calls = DevCall.sleep_for ms ∷ d.calls } in
    ret tt (send_all (host.arrivals d'.calls) d')
