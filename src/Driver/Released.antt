-- ===== src/Driver/Released.antt =====
-- driver.c: the global lock on the ways out of a command.
use tisdk_cc32xx_issues.Prelude.{ℕ, ◌≡◌, Bool, true, false, List, [], ◌∷◌, arith}
use tisdk_cc32xx_issues.Driver.GlobalLock.{
  Codes, LockRequest, obj_global_lock_wait_forever, global_obj_un_lock,
}
use tisdk_cc32xx_issues.Driver.LockHeld.{AreErrors, obj_global_lock-held}
use tisdk_cc32xx_issues.Driver.Commands.{
  Cb, Pass, CmdEnd, CmdRun, CmdResult, waits, aborted, completed, returned, still_waits, unlock,
  take_message, complete_cmd, read_loop, handle_fatal_error, result_of, send_cmd, cmd_op, RxClass,
  message_read, abort_read, signaled,
}

abbrev EndsUnlocked : CmdEnd → Type 0
EndsUnlocked (waits cb) = cb.lock.held ≡ true
EndsUnlocked (aborted cb) = cb.lock.held ≡ false
EndsUnlocked (completed cb) = cb.lock.held ≡ false

abbrev pub ReturnsUnlocked : CmdResult → Type 0
ReturnsUnlocked (returned v cb) = cb.lock.held ≡ false
ReturnsUnlocked (still_waits cb) = cb.lock.held ≡ true

take_message-held : (c : RxClass) (cb : Cb) → (take_message c cb).lock ≡ cb.lock
unfolding take_message
take_message-held c cb = ground arith

read_loop-EndsUnlocked :
    (n opcode : ℕ) (started pending : Bool) (passes : List Pass) (cb : Cb)
    → cb.lock.held ≡ true
    → EndsUnlocked (read_loop n started opcode true pending passes cb)
unfolding read_loop unlock complete_cmd handle_fatal_error abort_read global_obj_un_lock
read_loop-EndsUnlocked n opcode started pending [] cb h = ground arith
read_loop-EndsUnlocked n opcode started pending (message_read c ∷ passes) cb h = ground (
  arith,
  take_message-held c cb,
  read_loop-EndsUnlocked n opcode started pending passes (take_message c cb),
)
read_loop-EndsUnlocked n opcode started pending (signaled ∷ passes) cb h =
    ground (arith, read_loop-EndsUnlocked n opcode started pending passes cb)
read_loop-EndsUnlocked n opcode started pending (pass ∷ passes) cb h = ground arith

send_cmd-ReturnsUnlocked :
    (codes : Codes) (r : CmdRun) (cb : Cb)
    → r.lock_required ≡ true
    → cb.lock.held ≡ true
    → ReturnsUnlocked (send_cmd codes r cb)
unfolding send_cmd unlock result_of global_obj_un_lock
send_cmd-ReturnsUnlocked codes r cb q h = ground (
  arith,
  read_loop-EndsUnlocked r.max_actions r.opcode r.at_lock.started r.pending r.passes
      (record cb { wait_for_cmd_resp = true }),
)

-- A command that takes the global lock, started by a thread that does not hold it, returns with the
-- lock unlocked on every way out: the lock is refused, a restart is required, the message cannot
-- be written, the read of a message fails or loses synchronisation, the response does not come in
-- time, or it comes. While the command waits for its response, it holds the lock. The error codes of
-- the driver are taken not to be 0.
pub cmd_op-ReturnsUnlocked :
    (codes : Codes) (r : CmdRun) (request : LockRequest) (cb : Cb)
    → AreErrors codes
    → r.lock_required ≡ true
    → cb.lock.held ≡ false
    → ReturnsUnlocked (cmd_op codes r request cb)
unfolding cmd_op
cmd_op-ReturnsUnlocked codes r request cb errors q h =
    let taken =
      obj_global_lock_wait_forever codes r.before r.at_lock r.lock_result request cb.lock in
    ground (
      arith,
      obj_global_lock-held codes r.before r.at_lock r.lock_result request cb.lock errors h,
      send_cmd-ReturnsUnlocked codes r (record cb { lock = taken.lock }) q,
    )
