-- ===== src/Network/Device.antt =====
-- drivers/network/netdevice.c and netdevice.h: the operations that a network device exports, and the
-- threads that call them.
use tisdk_cc32xx_issues.Prelude.{ℕ, zero, suc, ◌+◌, ◌%◌, ℤ, pos, eq_ℤ, is_neg, ltb, if◌then◌else◌}

-- What an operation leaves of a device of type `D`: it returns, has asked for a reset of the chip, or
-- waits.
pub data OpRun (D : Type 0) : Type 0 where
  op_ret : ℤ → D → OpRun D
  op_resets op_waits : D → OpRun D

-- network_dev_t, the fields that probe may set and the thread's timer
pub record NetDev : Type 0 where
  pub delay : ℕ
  pub timer : ℕ
  pub stack_size : ℕ
  pub priority : ℕ

-- network_dev_operations_t, the operations that change a device
pub record DeviceOps (D : Type 0) : Type 0 where
  pub probe : NetDev → D → ℤ × (NetDev × D)
  pub start : D → OpRun D
  pub notify : D → D
  pub exec : ℕ → D → OpRun D
  pub stop : D → D
  pub ioctl : ℕ → ℕ → D → D

-- How a thread goes on after a number of rounds: it still runs, has left its loop, or waits in an
-- operation.
pub data Thread (D : Type 0) : Type 0 where
  runs_on : NetDev → D → Thread D
  left_loop waits_for_reset waits_in_op : D → Thread D

abbrev pub tick : NetDev → NetDev
tick nd = if ltb 0 nd.delay then record nd { timer = (nd.timer + nd.delay) % 4294967296 } else nd

-- An error ends the loop.
abbrev pub after_exec : {D : Type 0} → DeviceOps D → (D → Thread D) → OpRun D → Thread D
after_exec ops rest (op_ret r e) = if is_neg r then left_loop (ops.stop e) else rest e
after_exec ops rest (op_resets e) = waits_for_reset e
after_exec ops rest (op_waits e) = waits_in_op e

-- The loop of network_dev_threadMainStub for `n` rounds: `between` is what the other threads do to the
-- device while this one sleeps behind a round, with so many rounds left.
unfoldable pub main_loop : {D : Type 0} → DeviceOps D → (ℕ → D → D) → ℕ → NetDev → D → Thread D
main_loop ops between zero nd d = runs_on nd d
main_loop ops between (suc n) nd d =
    let rest = main_loop ops between n (tick nd) in
    after_exec ops (λ e. rest (between n e)) (ops.exec nd.delay d)

-- Only a start with code 0 leads to the loop.
abbrev pub after_start : {D : Type 0} → DeviceOps D → (D → Thread D) → OpRun D → Thread D
after_start ops loop (op_ret r e) =
    if eq_ℤ r (pos 0) then loop (ops.notify e) else left_loop (ops.stop e)
after_start ops loop (op_resets e) = waits_for_reset e
after_start ops loop (op_waits e) = waits_in_op e

-- network_dev_threadMainStub
unfoldable pub main_stub : {D : Type 0} → DeviceOps D → (ℕ → D → D) → ℕ → NetDev → D → Thread D
unfolding main_loop
main_stub ops between n nd d = after_start ops (main_loop ops between n nd) (ops.start d)
