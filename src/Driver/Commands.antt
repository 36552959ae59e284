-- ===== src/Driver/Commands.antt =====
-- driver.c: _SlDrvCmdOp with _SlDrvMsgReadCmdCtx, and _SlDrvHandleFatalError: how a command takes the
-- global lock, waits for its response and gives the lock back. What _SlDrvMsgRead and the waits
-- return are parameters.
use tisdk_cc32xx_issues.Prelude.{
  ℕ, ◌+◌, Bool, true, false, not, List, [], ◌∷◌, ◌++◌, ℤ, pos, eq_ℤ, ltb, if◌then◌else◌,
}
use tisdk_cc32xx_issues.Driver.GlobalLock.{
  Codes, DeviceStatus, Lock, LockRequest, global_obj_un_lock, obj_global_lock_wait_forever,
}
use tisdk_cc32xx_issues.Driver.Pool.{Objs}

-- SlDeviceFatal_t: the identifiers of the errors with the data that goes along
pub data FatalEvent : Type 0 where
  device_abort : ℕ → ℕ → FatalEvent
  no_cmd_ack cmd_timeout : ℕ → FatalEvent
  sync_loss driver_abort : FatalEvent

-- The fields of g_pCB; `spawns` counts the calls of sl_Spawn, `stored` the asynchronous messages that
-- are kept for the spawn task, and `notified` has what the handlers of fatal errors were told.
pub record Cb : Type 0 where
  pub lock : Lock
  pub wait_for_cmd_resp : Bool
  pub rx_done_cnt : ℕ
  pub restart_required : Bool
  pub objs : Objs
  pub stored : ℕ
  pub released : ℕ
  pub spawns : ℕ
  pub notified : List FatalEvent

-- _SlDrvHandleFatalError, with `max_actions` objects in the pool
unfoldable pub handle_fatal_error : ℕ → FatalEvent → Cb → Cb
handle_fatal_error max_actions e cb = if cb.restart_required then cb else record cb {
  restart_required = true;
  objs = λ i. if ltb i max_actions then record (cb.objs i) { signaled = true } else cb.objs i;
  notified = cb.notified ++ e ∷ [];
}

-- The class of a message that was read; an asynchronous one may find no buffer to be kept in.
pub data RxClass : Type 0 where
  cmd_resp : RxClass
  async_evt : Bool → RxClass
  other_class : RxClass

-- What a pass of the loop of _SlDrvMsgReadCmdCtx meets: a message that is read; one of the two ways
-- in which _SlDrvMsgRead returns SL_API_ABORTED itself, with the global lock unlocked, as its header
-- cannot be read, or nobody waits for the data that it holds; another error of _SlDrvMsgRead;
-- CmdSyncObj signaled; or the timeout of the wait for it
pub data Pass : Type 0 where
  message_read : RxClass → Pass
  sync_lost no_receiver read_failed signaled timed_out : Pass

-- The loop goes on, leaves the function with SL_API_ABORTED, or ends.
pub data CmdEnd : Type 0 where
  waits aborted completed : Cb → CmdEnd

unfoldable pub unlock : Bool → Cb → Cb
unfolding global_obj_un_lock
unlock lock_required cb =
    if lock_required then record cb { lock = global_obj_un_lock true cb.lock } else cb

-- The two early returns of _SlDrvMsgRead
unfoldable pub abort_read : ℕ → Bool → Cb → Cb
unfolding unlock handle_fatal_error
abort_read max_actions is_sync_lost cb =
    if is_sync_lost
    then handle_fatal_error max_actions sync_loss (unlock true cb)
    else unlock true cb

-- A message that was read
unfoldable pub take_message : RxClass → Cb → Cb
take_message cmd_resp cb = record cb { rx_done_cnt = cb.rx_done_cnt + 1; wait_for_cmd_resp = false }
take_message (async_evt has_buffer) cb =
    if has_buffer
    then record cb { rx_done_cnt = cb.rx_done_cnt + 1; stored = cb.stored + 1 }
    else record cb { rx_done_cnt = cb.rx_done_cnt + 1; released = cb.released + 1 }
take_message other_class cb = record cb { rx_done_cnt = cb.rx_done_cnt + 1 }

-- Behind the loop; `pending` says that there are more messages at the end.
unfoldable pub complete_cmd : Bool → Bool → Cb → Cb
unfolding unlock
complete_cmd lock_required pending cb =
    let woken = if ltb 0 cb.stored then record cb { spawns = cb.spawns + 1 } else cb in
    let unlocked = unlock lock_required woken in
    if pending then record unlocked { spawns = unlocked.spawns + 1 } else unlocked

-- The loop of _SlDrvMsgReadCmdCtx over what its passes meet; `started` is SL_IS_DEVICE_STARTED, and
-- `opcode` the one of the command.
unfoldable pub read_loop : ℕ → Bool → ℕ → Bool → Bool → List Pass → Cb → CmdEnd
unfolding take_message unlock complete_cmd handle_fatal_error abort_read
read_loop max_actions started opcode lock_required pending [] cb =
    if cb.wait_for_cmd_resp then waits cb else completed (complete_cmd lock_required pending cb)
read_loop max_actions started opcode lock_required pending (pass ∷ passes) cb =
    let rest = read_loop max_actions started opcode lock_required pending passes in
    let stopped = record cb { wait_for_cmd_resp = false } in
    if not cb.wait_for_cmd_resp
    then completed (complete_cmd lock_required pending cb)
    else elim pass [
      | message_read c ↦ rest (take_message c cb)
      | sync_lost ↦ aborted (abort_read max_actions true stopped)
      | no_receiver ↦ aborted (abort_read max_actions false stopped)
      | read_failed ↦ aborted (unlock lock_required stopped)
      | signaled ↦ rest cb
      | timed_out ↦ aborted (
          if started
          then handle_fatal_error max_actions (no_cmd_ack opcode) (unlock lock_required stopped)
          else unlock lock_required stopped)
    ]

-- What the calls of a command meet
pub record CmdRun : Type 0 where
  pub max_actions : ℕ
  pub opcode : ℕ
  pub lock_required : Bool
  pub before : DeviceStatus
  pub at_lock : DeviceStatus
  pub lock_result : ℤ
  pub restart_at_send : Bool
  pub write_result : ℤ
  pub passes : List Pass
  pub pending : Bool

-- _SlDrvCmdOp: the command returns a value, or still waits.
pub data CmdResult : Type 0 where
  returned : ℤ → Cb → CmdResult
  still_waits : Cb → CmdResult

unfoldable pub result_of : Codes → CmdEnd → CmdResult
result_of codes (waits cb) = still_waits cb
result_of codes (aborted cb) = returned codes.api_aborted cb
result_of codes (completed cb) = returned (pos 0) cb

-- From the test of SL_IS_RESTART_REQUIRED on
unfoldable pub send_cmd : Codes → CmdRun → Cb → CmdResult
unfolding read_loop unlock result_of
send_cmd codes r cb =
    let sent = record cb { wait_for_cmd_resp = true } in
    if r.restart_at_send
    then returned codes.api_aborted (unlock r.lock_required cb)
    else if eq_ℤ r.write_result (pos 0)
    then result_of codes
        (read_loop r.max_actions r.at_lock.started r.opcode r.lock_required r.pending r.passes sent)
    else returned r.write_result (unlock r.lock_required sent)

-- SL_DRV_LOCK_GLOBAL_LOCK_FOREVER returns the error of the lock.
unfoldable pub cmd_op : Codes → CmdRun → LockRequest → Cb → CmdResult
unfolding obj_global_lock_wait_forever send_cmd
cmd_op codes r request cb =
    let taken =
      obj_global_lock_wait_forever codes r.before r.at_lock r.lock_result request cb.lock in
    let locked = record cb { lock = taken.lock } in
    if not r.lock_required
    then send_cmd codes r cb
    else if eq_ℤ taken.result (pos 0)
    then send_cmd codes r locked
    else returned taken.result locked
