-- ===== src/Driver/Reserved.antt =====
-- Which locks the data operations leave held, and how many packets they take from the pool.
use tisdk_cc32xx_issues.Prelude.{
  ℕ, ◌+◌, ◌-◌, ◌%◌, ◌<◌, ◌≤◌, Bool, true, false, not, ◌&&◌, leb, List, [], ◌∷◌, ◌≡◌, ◌++◌, arith,
}
use tisdk_cc32xx_issues.Driver.FlowControl.{
  Flow, FlowLimits, Pass, AtSend, Ending, sent, fatal, api_aborted, lock_error, violated,
  wait_for_tx, take_packets, data_read_flow, alloc_tx_pool_pkts, leave_or_retry, data_write_flow,
}

-- The endings of a call that has returned with an abort or with the error of the global lock, or
-- stopped at VERIFY_PROTOCOL
unfoldable pub keeps_tx_lock : Ending → Bool
keeps_tx_lock fatal = true
keeps_tx_lock api_aborted = true
keeps_tx_lock lock_error = true
keeps_tx_lock violated = true
keeps_tx_lock _ = false

take_packets-tx_lock :
    (limits : FlowLimits) (needed : ℕ) (at : AtSend) (f : Flow)
    → f.tx_lock_held ≡ true
    → (take_packets limits needed at f).flow.tx_lock_held
      ≡ keeps_tx_lock (take_packets limits needed at f).ending
unfolding take_packets keeps_tx_lock
take_packets-tx_lock limits needed at f h = ground arith

-- _SlDrvDataReadOp, called without TxLockObj, holds it at its end exactly if it aborts: when the wait
-- on the pool times out, when a restart is required after the wait or after the global lock, when the
-- global lock is refused, or when VERIFY_PROTOCOL fails. On the other paths the lock is released.
data_read_flow-tx_lock :
    (limits : FlowLimits) (p : Pass) (at : AtSend) (f : Flow)
    → f.tx_lock_held ≡ false
    → (data_read_flow limits p at f).flow.tx_lock_held
      ≡ keeps_tx_lock (data_read_flow limits p at f).ending
unfolding data_read_flow wait_for_tx take_packets keeps_tx_lock
data_read_flow-tx_lock limits p at f h = ground arith

-- _SlDrvDataWriteOp, called without TxLockObj, holds it at its end exactly if it returns SL_API_ABORTED
-- or the error of the global lock, or stops at VERIFY_PROTOCOL, however many passes its loop takes: after
-- a socket error, for a non-blocking socket, between two passes and after the packets are taken, it is
-- released.
pub data_write_flow-tx_lock :
    (limits : FlowLimits) (len : ℕ) (passes : List Pass) (at : AtSend) (f : Flow)
    → f.tx_lock_held ≡ false
    → (data_write_flow limits len passes at f).flow.tx_lock_held
      ≡ keeps_tx_lock (data_write_flow limits len passes at f).ending
unfolding data_write_flow wait_for_tx take_packets leave_or_retry keeps_tx_lock
data_write_flow-tx_lock limits len [] at f h = ground arith
data_write_flow-tx_lock limits len (p ∷ passes) at f h =
    ground (arith, data_write_flow-tx_lock limits len passes at (record f { tx_lock_held = false }))

-- The ending of a pass that has taken its packets
unfoldable pub is_sent : Ending → Bool
is_sent sent = true
is_sent _ = false

-- When _SlDrvDataReadOp goes on to the message, TxPoolCnt is at least FLOW_CONT_MIN, so that the
-- decrement has not wrapped around, if FLOW_CONT_MIN is positive.
pub data_read_flow-pool :
    (limits : FlowLimits) (p : Pass) (at : AtSend) (f : Flow)
    → 0 < limits.flow_cont_min
    → is_sent (data_read_flow limits p at f).ending ≡ true
    → limits.flow_cont_min ≤ (data_read_flow limits p at f).flow.tx_pool_cnt
unfolding data_read_flow wait_for_tx take_packets is_sent
data_read_flow-pool limits p at f = ground arith

-- When _SlDrvDataWriteOp goes on to the message, TxPoolCnt is at least FLOW_CONT_MIN, so that the
-- subtraction has not wrapped around, whatever the length of the payload is.
data_write_flow-pool :
    (limits : FlowLimits) (len : ℕ) (passes : List Pass) (at : AtSend) (f : Flow)
    → is_sent (data_write_flow limits len passes at f).ending ≡ true
    → limits.flow_cont_min ≤ (data_write_flow limits len passes at f).flow.tx_pool_cnt
unfolding data_write_flow wait_for_tx take_packets leave_or_retry is_sent alloc_tx_pool_pkts
data_write_flow-pool limits len [] at f h = ground arith
data_write_flow-pool limits len (p ∷ passes) at f h =
    ground (arith, data_write_flow-pool limits len passes at (record f { tx_lock_held = false }))

-- A pass that finds too few packets for a blocking socket, twice, and is not stopped
abbrev pub is_short : FlowLimits → ℕ → Pass → Bool
is_short limits needed p =
    not p.tx_failure
    && (leb p.pool_at_lock (limits.flow_cont_min + needed)
        && (not p.non_blocking
            && (not p.timed_out
                && (not p.restart_after_wait
                    && leb p.pool_after_wait (limits.flow_cont_min + needed)))))

abbrev pub all_short : FlowLimits → ℕ → List Pass → Bool
all_short limits needed [] = true
all_short limits needed (p ∷ ps) = is_short limits needed p && all_short limits needed ps

-- _SlDrvDataWriteOp for a blocking socket, called without TxLockObj: however many passes find too few
-- packets and are not stopped, the call goes on at the first one that finds enough of them. If the
-- global lock is taken, no restart is required and the packets are still there, the message is sent,
-- with the packets of the payload, in a _u8, out of the pool and TxLockObj released.
pub data_write_flow-sends :
    (limits : FlowLimits) (len : ℕ) (before after : List Pass) (p : Pass) (at : AtSend) (f : Flow)
    → f.tx_lock_held ≡ false
    → all_short limits (alloc_tx_pool_pkts limits len) before ≡ true
    → p.tx_failure ≡ false
    → limits.flow_cont_min + alloc_tx_pool_pkts limits len < p.pool_at_lock
    → at.lock_refused ≡ false
    → at.restart_at_send ≡ false
    → limits.flow_cont_min + alloc_tx_pool_pkts limits len ≤ at.pool_at_send
    → data_write_flow limits len (before ++ (p ∷ after)) at f ≡ record {
      ending = sent;
      flow = record {
        tx_pool_cnt = at.pool_at_send - alloc_tx_pool_pkts limits len % 256;
        tx_lock_held = false;
        global_lock_held = true;
      };
    }
unfolding data_write_flow wait_for_tx take_packets leave_or_retry alloc_tx_pool_pkts
data_write_flow-sends limits len [] after p at f hf hb ht h hl hr hs = ground arith
data_write_flow-sends limits len (q ∷ before) after p at f hf hb ht h hl hr hs =
    ground (
      arith,
      data_write_flow-sends limits len before after p at (record f { tx_lock_held = false }),
    )
