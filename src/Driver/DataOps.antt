-- ===== src/Driver/DataOps.antt =====
-- driver.c: _SlDrvDataReadOp and _SlDrvDataWriteOp as a whole. What _SlDrvMsgWrite and
-- _SlDrvWaitForInternalAsyncEvent return, and what other threads do to the pool meanwhile, is a
-- parameter here. Of what _SlDrvHandleFatalError does, the part on the pool is here and the rest in
-- Commands.
use tisdk_cc32xx_issues.Prelude.{
  ℕ, Bool, true, false, List, Option, none, some, ℤ, pos, eq_ℤ, ltb, ◌==◌, if◌then◌else◌,
}
use tisdk_cc32xx_issues.Driver.Pool.{PoolLimits, Pool}
use tisdk_cc32xx_issues.Driver.Release.{release_pool_obj}
use tisdk_cc32xx_issues.Driver.FlowControl.{
  Flow, FlowLimits, Pass, AtSend, Ending, sent, fatal, api_aborted, soc_error, try_again, violated,
  lock_error, deadlocked, waiting, data_read_flow, data_write_flow,
}
use tisdk_cc32xx_issues.Driver.CmdSend.{
  protected_by, is_empty, still_waits, ReadBegin, bad_socket, with_object, data_read_begin,
}
use tisdk_cc32xx_issues.Driver.Reserved.{is_sent}

-- RECV_ID, the three results that the function makes itself, the error of the global lock, SL_DRIVER_TIMEOUT_SHORT, and the opcodes
-- of the two commands' events
pub record ReadCodes : Type 0 where
  pub recv_id : ℕ
  pub bad_socket_code : ℤ
  pub pool_is_empty_code : ℤ
  pub api_aborted_code : ℤ
  pub lock_error_code : ℤ
  pub timeout_short : ℕ
  pub recv_opcode : ℕ
  pub recv_async_opcode : ℕ
  pub recv_from_async_opcode : ℕ

-- What a call meets; `wait` is what the wait for the response returns, by its timeout and opcode.
pub record ReadRun : Type 0 where
  pub spawn_owner : Bool
  pub pass : Pass
  pub at_send : AtSend
  pub write_result : ℤ
  pub non_blocking : Bool
  pub wait : ℕ → ℕ → ℤ
  pub others : Pool → Pool
  pub restart_required : Bool
  pub stopping : Bool
  pub deletes : Bool

-- The call returns, waits for an object or for a lock that it holds itself, or stops at VERIFY_PROTOCOL.
pub data ReadOutcome : Type 0 where
  returned : ℤ → ReadOutcome
  waits_for_obj : ReadOutcome
  waits_for_tx_lock : ReadOutcome
  stopped : ReadOutcome

pub record ReadDone : Type 0 where
  pub outcome : ReadOutcome
  pub pool : Pool
  pub flow : Flow

-- What _SlDrvHandleFatalError does to the pool
unfoldable pub signal_all : PoolLimits → Bool → Pool → Pool
signal_all limits restart_required p = if restart_required then p else record p {
  objs = λ i. if ltb i limits.max_actions then record (p.objs i) { signaled = true } else p.objs i;
}

-- The wait behind _SlDrvMsgWrite
unfoldable pub wait_for_response : ReadCodes → ReadRun → ℕ → ℤ
wait_for_response codes r opcode =
    if eq_ℤ r.write_result (pos 0)
    then (if r.non_blocking
        then r.wait codes.timeout_short (
            if opcode == codes.recv_opcode
            then codes.recv_async_opcode
            else codes.recv_from_async_opcode)
        else r.wait 0 0)
    else r.write_result

-- From the end of the flow control on. Where TxLockObj is locked twice, the call waits for ever; of the
-- endings of data_read_flow, the last clause is for the abort.
unfoldable pub finish_read :
    PoolLimits → ReadCodes → ReadRun → ℕ → ℕ → Pool → Flow → Ending → ReadDone
unfolding wait_for_response release_pool_obj signal_all
finish_read limits codes r opcode i p f sent = record {
  outcome = returned (wait_for_response codes r opcode);
  pool = release_pool_obj limits r.stopping r.deletes i (r.others p);
  flow = record f { global_lock_held = false };
}
finish_read limits codes r opcode i p f fatal = record {
  outcome = returned codes.api_aborted_code;
  pool = signal_all limits r.restart_required p;
  flow = f;
}
finish_read limits codes r opcode i p f violated = record { outcome = stopped; pool = p; flow = f }
finish_read limits codes r opcode i p f lock_error = record {
  outcome = returned codes.lock_error_code;
  pool = p;
  flow = f;
}
finish_read limits codes r opcode i p f deadlocked = record {
  outcome = waits_for_tx_lock;
  pool = p;
  flow = f;
}
finish_read limits codes r opcode i p f _ = record {
  outcome = returned codes.api_aborted_code;
  pool = p;
  flow = f;
}

-- The part behind the object
unfoldable pub read_with :
    PoolLimits → FlowLimits → ReadCodes → ReadRun → ℕ → Flow → ReadBegin → Pool → ReadDone
unfolding data_read_flow finish_read
read_with limits flow_limits codes r opcode f bad_socket p = record {
  outcome = returned codes.bad_socket_code;
  pool = p;
  flow = f;
}
read_with limits flow_limits codes r opcode f (with_object is_empty after) p = record {
  outcome = returned codes.pool_is_empty_code;
  pool = after;
  flow = f;
}
read_with limits flow_limits codes r opcode f (with_object still_waits after) p = record {
  outcome = waits_for_obj;
  pool = after;
  flow = f;
}
read_with limits flow_limits codes r opcode f (with_object (protected_by i) after) p =
    let e = data_read_flow flow_limits r.pass r.at_send f in
    finish_read limits codes r opcode i after e.flow e.ending

-- _SlDrvDataReadOp
unfoldable pub data_read_op :
    PoolLimits → FlowLimits → ReadCodes → ReadRun → ℕ → ℕ → Flow → Pool → ReadDone
unfolding data_read_begin read_with
data_read_op limits flow_limits codes r opcode sd f p =
    read_with limits flow_limits codes r opcode f
      (data_read_begin limits r.spawn_owner codes.recv_id sd p) p

-- The results that _SlDrvDataWriteOp makes itself, and the error of the global lock
pub record WriteCodes : Type 0 where
  pub api_aborted_code : ℤ
  pub socket_error_code : ℤ
  pub try_again_code : ℤ
  pub lock_error_code : ℤ

-- What _SlDrvDataWriteOp returns; none is a loop that still needs passes, a thread that waits for itself,
-- or a stop at VERIFY_PROTOCOL.
unfoldable pub write_result_of : WriteCodes → ℤ → Ending → Option ℤ
write_result_of codes written sent = some written
write_result_of codes written fatal = some codes.api_aborted_code
write_result_of codes written api_aborted = some codes.api_aborted_code
write_result_of codes written soc_error = some codes.socket_error_code
write_result_of codes written try_again = some codes.try_again_code
write_result_of codes written lock_error = some codes.lock_error_code
write_result_of codes written violated = none
write_result_of codes written waiting = none
write_result_of codes written deadlocked = none

-- _SlDrvDataWriteOp
unfoldable pub data_write_op :
    FlowLimits → WriteCodes → ℤ → ℕ → List Pass → AtSend → Flow → Option ℤ × Flow
unfolding data_write_flow write_result_of
data_write_op limits codes written len passes at f =
    let e = data_write_flow limits len passes at f in
    (
      write_result_of codes written e.ending,
      record (e.flow) {
        global_lock_held = (if is_sent e.ending then false else e.flow.global_lock_held);
      },
    )
