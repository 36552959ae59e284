-- ===== src/Driver/SpawnRead.antt =====
-- driver.c: _SlDrvMsgReadSpawnCtx, with which the spawn task reads a message, for a system that does
-- not poll; and the waits for a sync object, _SlDrvSyncObjWaitForever, _SlDrvSyncObjWaitTimeout and
-- _SlDrvWaitForInternalAsyncEvent.
use tisdk_cc32xx_issues.Prelude.{
  Option, none, some, ℕ, Bool, true, false, not, ◌&&◌, ◌||◌, List, [], ◌∷◌, ◌+◌, ℤ, pos, eq_ℤ, ltb,
  ◌≡◌, arith, if◌then◌else◌,
}
use tisdk_cc32xx_issues.Driver.GlobalLock.{
  Codes, DeviceStatus, LockRequest, global_obj_un_lock, obj_global_lock_wait_forever,
}
use tisdk_cc32xx_issues.Driver.LockHeld.{AreErrors, obj_global_lock-held}
use tisdk_cc32xx_issues.Driver.Commands.{Cb, handle_fatal_error, abort_read, cmd_timeout, unlock}

-- What _SlDrvMsgRead does for the spawn task: the two early returns of its own, another error, or a
-- message, whose class the switch may not know
pub data SpawnPass : Type 0 where
  read_lost_sync read_no_receiver read_error : SpawnPass
  known_class unknown_class : SpawnPass

-- A result and what it leaves
pub record Ended : Type 0 where
  pub result : ℤ
  pub cb : Cb

abbrev unlock_spawn : Cb → Cb
unlock_spawn cb = record cb { lock = global_obj_un_lock false cb.lock }

-- The part behind the read. _SL_ASSERT_ERROR leaves the function with its second argument.
unfoldable pub after_read : ℕ → Codes → SpawnPass → Cb → Ended
unfolding abort_read global_obj_un_lock
after_read n codes read_lost_sync cb = record {
  result = codes.api_aborted;
  cb = abort_read n true cb;
}
after_read n codes read_no_receiver cb = record {
  result = codes.api_aborted;
  cb = abort_read n false cb;
}
after_read n codes read_error cb = record { result = codes.api_aborted; cb = unlock_spawn cb }
after_read n codes known_class cb = record {
  result = pos 0;
  cb = unlock_spawn (record cb { rx_done_cnt = cb.rx_done_cnt + 1 });
}
after_read n codes unknown_class cb = record {
  result = codes.api_aborted;
  cb = record cb { rx_done_cnt = cb.rx_done_cnt + 1 };
}

-- What the calls of _SlDrvMsgReadSpawnCtx meet; `closed` is SL_RET_CODE_INTERFACE_CLOSED.
pub record SpawnRun : Type 0 where
  pub max_actions : ℕ
  pub before : DeviceStatus
  pub at_lock : DeviceStatus
  pub lock_result : ℤ
  pub pending : Bool
  pub pass : SpawnPass
  pub closed : ℤ

-- GLOBAL_LOCK_FLAGS_NONE
abbrev pub no_flags : LockRequest
no_flags = record {
  update_api_in_progress = false;
  provisioning_stop_api = false;
  is_stop_command = false;
  is_fs_silo = false;
}

-- _SlDrvMsgReadSpawnCtx
unfoldable pub msg_read_spawn_ctx : Codes → SpawnRun → Cb → Ended
unfolding obj_global_lock_wait_forever after_read global_obj_un_lock
msg_read_spawn_ctx codes r cb =
    let taken =
      obj_global_lock_wait_forever codes r.before r.at_lock r.lock_result no_flags cb.lock in
    let locked = record cb { lock = taken.lock } in
    if not (eq_ℤ taken.result (pos 0))
    then record { result = taken.result; cb = locked }
    else if not r.pending
    then record { result = pos 0; cb = unlock_spawn locked }
    else if r.at_lock.started || r.at_lock.start_in_progress
    then after_read r.max_actions codes r.pass locked
    else record { result = r.closed; cb = locked }

abbrev pub is_unknown : SpawnPass → Bool
is_unknown unknown_class = true
is_unknown _ = false

-- A message is pending, and the device is neither started nor starting, or the message has a class
-- that the switch does not know.
abbrev pub keeps_lock : Codes → SpawnRun → Cb → Bool
keeps_lock codes r cb =
    let taken =
      obj_global_lock_wait_forever codes r.before r.at_lock r.lock_result no_flags cb.lock in
    let reads = r.at_lock.started || r.at_lock.start_in_progress in
    eq_ℤ taken.result (pos 0) && (r.pending && (not reads || is_unknown r.pass))

-- Called without the global lock, _SlDrvMsgReadSpawnCtx gives the lock back on every way out but two:
-- if a message is pending while the device is neither started nor starting, and if the message has a
-- class that the switch does not know, it returns with the lock held. The error codes of the driver
-- are taken not to be 0.
pub msg_read_spawn_ctx-lock :
    (codes : Codes) (r : SpawnRun) (cb : Cb)
    → AreErrors codes
    → cb.lock.held ≡ false
    → (msg_read_spawn_ctx codes r cb).cb.lock.held ≡ keeps_lock codes r cb
unfolding msg_read_spawn_ctx after_read abort_read unlock handle_fatal_error global_obj_un_lock
msg_read_spawn_ctx-lock codes r cb errors h =
    ground
      (arith, obj_global_lock-held codes r.before r.at_lock r.lock_result no_flags cb.lock errors h)

-- _SlDrvSyncObjWaitForever: `os` is what sl_SyncObjWait returns.
unfoldable pub sync_obj_wait_forever : Codes → ℤ → Cb → ℤ
sync_obj_wait_forever codes os cb = if cb.restart_required then codes.api_aborted else os

-- _SlDrvSyncObjWaitTimeout
unfoldable pub sync_obj_wait_timeout : ℕ → Codes → ℤ → ℕ → Cb → Ended
unfolding handle_fatal_error
sync_obj_wait_timeout n codes os opcode cb =
    if not (eq_ℤ os (pos 0))
    then record { result = codes.api_aborted; cb = handle_fatal_error n (cmd_timeout opcode) cb }
    else if cb.restart_required
    then record { result = codes.api_aborted; cb = cb }
    else record { result = pos 0; cb = cb }

-- A pass of the loop of _SlDrvWaitForInternalAsyncEvent in the spawn task
pub record AsyncPass : Type 0 where
  pub expired : Bool
  pub is_signaled : Bool

-- That loop: with a timeout of 0 it has no end of its own; none is a loop that still runs.
unfoldable pub spawn_wait : ℕ → Codes → ℕ → ℕ → List AsyncPass → Cb → Option Ended
unfolding handle_fatal_error
spawn_wait n codes timeout opcode [] cb = none
spawn_wait n codes timeout opcode (p ∷ ps) cb =
    let rest = spawn_wait n codes timeout opcode ps cb in
    if ltb 0 timeout && p.expired
    then some
        (record { result = codes.api_aborted; cb = handle_fatal_error n (cmd_timeout opcode) cb })
    else if p.is_signaled
    then some (record { result = pos 0; cb = cb })
    else rest

-- _SlDrvWaitForInternalAsyncEvent; `os` is what the wait of another task returns.
unfoldable pub wait_for_internal_async_event :
    ℕ → Codes → Bool → ℕ → ℕ → ℤ → List AsyncPass → Cb → Option Ended
unfolding spawn_wait sync_obj_wait_timeout sync_obj_wait_forever
wait_for_internal_async_event n codes is_spawn_owner timeout opcode os passes cb =
    if is_spawn_owner
    then spawn_wait n codes timeout opcode passes cb
    else if ltb 0 timeout
    then some (sync_obj_wait_timeout n codes os opcode cb)
    else some (record { result = sync_obj_wait_forever codes os cb; cb = cb })
