-- ===== src/Network/ThreadLaws.antt =====
-- drivers/network/netdevice.c: what a device promises to its main thread, and what the thread then
-- does.
use tisdk_cc32xx_issues.Prelude.{ℕ, zero, suc, false, pos, is_neg, ◌≡◌}
use tisdk_cc32xx_issues.Network.Device.{
  OpRun, op_ret, op_resets, op_waits, NetDev, DeviceOps, Thread, runs_on, left_loop,
  waits_for_reset, waits_in_op, after_exec, main_loop, main_stub, tick,
}

abbrev pub OpServes : {D : Type 0} → (D → Type 0) → OpRun D → Type 0
OpServes P (op_ret r e) = (is_neg r ≡ false) × P e
OpServes P (op_resets e) = Unit
OpServes P (op_waits e) = ⊥

-- The invariant after a start with code 0 and the notification, which exec keeps, without waiting and
-- without an error
pub record DeviceLaws {D : Type 0} (ops : DeviceOps D) (IsReady IsOk : D → Type 0) : Type 0 where
  pub started_ok : (d e : D) → IsReady d → ops.start d ≡ op_ret (pos 0) e → IsOk (ops.notify e)
  pub exec_ok : (delay : ℕ) (d : D) → IsOk d → OpServes IsOk (ops.exec delay d)

abbrev pub Serves : {D : Type 0} → (D → Type 0) → Thread D → Type 0
Serves P (runs_on nd d) = P d
Serves P (left_loop d) = ⊥
Serves P (waits_for_reset d) = Unit
Serves P (waits_in_op d) = ⊥

after_exec-Serves :
    {D : Type 0} (ops : DeviceOps D) (P : D → Type 0) (rest : D → Thread D) (o : OpRun D)
    → OpServes P o
    → ((e : D) → P e → Serves P (rest e))
    → Serves P (after_exec ops rest o)
after_exec-Serves ops P rest (op_ret r e) h k = rw h.0 (k e h.1)
after_exec-Serves ops P rest (op_resets e) h k = tt
after_exec-Serves ops P rest (op_waits e) h k = h

module _ {D : Type 0} (ops : DeviceOps D) (IsReady IsOk : D → Type 0)
    (laws : DeviceLaws ops IsReady IsOk) (between : ℕ → D → D)
    (kept : (n : ℕ) (d : D) → IsOk d → IsOk (between n d)) where
  main_loop-Serves :
      (n : ℕ) (nd : NetDev) (d : D) → IsOk d → Serves IsOk (main_loop ops between n nd d)
  unfolding main_loop
  main_loop-Serves zero nd d h = h
  main_loop-Serves (suc n) nd d h =
      after_exec-Serves ops IsOk (λ e. main_loop ops between n (tick nd) (between n e))
        (ops.exec nd.delay d) (laws.exec_ok nd.delay d h)
        (λ e k. main_loop-Serves n (tick nd) (between n e) (kept n e k))

  pub main_stub-Serves :
      (n : ℕ) (nd : NetDev) (d e : D)
      → IsReady d
      → ops.start d ≡ op_ret (pos 0) e
      → Serves IsOk (main_stub ops between n nd d)
  unfolding main_stub
  main_stub-Serves n nd d e h s =
      rw s (main_loop-Serves n nd (ops.notify e) (laws.started_ok d e h s))
