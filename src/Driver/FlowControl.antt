-- ===== src/Driver/FlowControl.antt =====
-- driver.c: the flow control of _SlDrvDataReadOp and _SlDrvDataWriteOp, which take packets from the
-- pool of the network processor under TxLockObj. A thread that locks TxLockObj twice waits for ever.
-- What other threads do while a call waits is an observation: what the call reads when it goes on. The
-- caller is a thread of the application: the spawn task, for which _SlDrvIsSpawnOwnGlobalLock holds,
-- polls in place of the wait.
use tisdk_cc32xx_issues.Prelude.{
  ℕ, ◌+◌, ◌-◌, ◌/◌, ◌%◌, Bool, true, false, List, [], ◌∷◌, ltb, leb, if◌then◌else◌,
}

-- FlowContCB with TxLockObj and GlobalLockObj, as the calling thread has them
pub record Flow : Type 0 where
  pub tx_pool_cnt : ℕ
  pub tx_lock_held : Bool
  pub global_lock_held : Bool

-- FLOW_CONT_MIN and MinTxPayloadSize
pub record FlowLimits : Type 0 where
  pub flow_cont_min : ℕ
  pub min_tx_payload_size : ℕ

-- What one pass reads: the pool when the lock is taken and after a wait, the two socket bit masks,
-- whether sl_SyncObjWait timed out, and SL_IS_RESTART_REQUIRED after the wait.
pub record Pass : Type 0 where
  pub pool_at_lock : ℕ
  pub pool_after_wait : ℕ
  pub tx_failure : Bool
  pub non_blocking : Bool
  pub timed_out : Bool
  pub restart_after_wait : Bool

-- Whether SL_DRV_LOCK_GLOBAL_LOCK_FOREVER takes the global lock, and what is read once it is taken
pub record AtSend : Type 0 where
  pub lock_refused : Bool
  pub pool_at_send : ℕ
  pub restart_at_send : Bool

-- How an operation ends, up to _SlDrvMsgWrite: `sent` goes on with the message, `fatal` has called
-- _SlDrvHandleFatalError, `lock_error` returns the error of the global lock, `violated` is a failed
-- VERIFY_PROTOCOL, `waiting` needs another pass, and `deadlocked` locks TxLockObj twice.
pub data Ending : Type 0 where
  sent : Ending
  fatal : Ending
  api_aborted : Ending
  lock_error : Ending
  soc_error : Ending
  try_again : Ending
  violated : Ending
  waiting : Ending
  deadlocked : Ending

pub record Ended : Type 0 where
  pub ending : Ending
  pub flow : Flow

-- Whether a wait on TxSyncObj lets the operation go on
pub data AfterWait : Type 0 where
  go_on : AfterWait
  stop_fatal : AfterWait
  stop_aborted : AfterWait

-- sl_SyncObjWait(&TxSyncObj, SL_DRIVER_TIMEOUT_SHORT) and the two early returns behind it
unfoldable pub wait_for_tx : Pass → AfterWait
wait_for_tx p =
    if p.timed_out then stop_fatal else if p.restart_after_wait then stop_aborted else go_on

-- From the call that takes the global lock to _SlDrvMsgWrite: `needed` packets are taken, in a _u8. A
-- refused lock returns at once, with TxLockObj held.
unfoldable pub take_packets : FlowLimits → ℕ → AtSend → Flow → Ended
take_packets limits needed at f =
    if at.lock_refused
    then record { ending = lock_error; flow = f }
    else if at.restart_at_send
    then record { ending = api_aborted; flow = record f { global_lock_held = false } }
    else if leb at.pool_at_send (limits.flow_cont_min + needed - 1)
    then record { ending = violated; flow = record f { global_lock_held = true } }
    else record {
      ending = sent;
      flow = record {
        tx_pool_cnt = at.pool_at_send - needed % 256;
        tx_lock_held = false;
        global_lock_held = true;
      };
    }

-- _SlDrvDataReadOp, from the lock of TxLockObj to _SlDrvMsgWrite
unfoldable pub data_read_flow : FlowLimits → Pass → AtSend → Flow → Ended
data_read_flow limits p at f =
    let locked = record f { tx_lock_held = true } in
    if f.tx_lock_held
    then record { ending = deadlocked; flow = f }
    else if leb p.pool_at_lock limits.flow_cont_min
    then elim (wait_for_tx p) [
      | go_on ↦ take_packets limits 1 at locked
      | stop_fatal ↦ record { ending = fatal; flow = locked }
      | stop_aborted ↦ record { ending = api_aborted; flow = locked }
    ]
    else take_packets limits 1 at locked

-- allocTxPoolPkts
unfoldable pub alloc_tx_pool_pkts : FlowLimits → ℕ → ℕ
alloc_tx_pool_pkts limits tx_payload1_len = 1 + (tx_payload1_len - 1) / limits.min_tx_payload_size

-- The test that closes a pass of the loop of _SlDrvDataWriteOp
unfoldable pub leave_or_retry : FlowLimits → ℕ → ℕ → AtSend → Flow → Ended → Ended
leave_or_retry limits needed pool at locked rest =
    if ltb (limits.flow_cont_min + needed) pool then take_packets limits needed at locked else rest

-- _SlDrvDataWriteOp up to _SlDrvMsgWrite: one element of `passes` for each pass of its loop
unfoldable pub data_write_flow : FlowLimits → ℕ → List Pass → AtSend → Flow → Ended
data_write_flow limits len [] at f = record { ending = waiting; flow = f }
data_write_flow limits len (p ∷ passes) at f =
    let locked = record f { tx_lock_held = true } in
    let needed = alloc_tx_pool_pkts limits len in
    let rest = data_write_flow limits len passes at (record f { tx_lock_held = false }) in
    if f.tx_lock_held
    then record { ending = deadlocked; flow = f }
    else if p.tx_failure
    then record { ending = soc_error; flow = record f { tx_lock_held = false } }
    else if leb p.pool_at_lock (limits.flow_cont_min + needed)
    then (if p.non_blocking
        then record { ending = try_again; flow = record f { tx_lock_held = false } }
        else elim (wait_for_tx p) [
          | go_on ↦ leave_or_retry limits needed p.pool_after_wait at locked rest
          | stop_fatal ↦ record { ending = fatal; flow = locked }
          | stop_aborted ↦ record { ending = api_aborted; flow = locked }
        ])
    else leave_or_retry limits needed p.pool_at_lock at locked rest
