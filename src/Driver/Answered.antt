-- ===== src/Driver/Answered.antt =====
-- driver.c: a command whose response arrives, behind any number of asynchronous events.
use tisdk_cc32xx_issues.Prelude.{
  ℕ, ◌+◌, Bool, true, false, List, [], ◌∷◌, length, pos, ◌≡◌, refl, sym, subst, arith,
  if◌then◌else◌,
}
use tisdk_cc32xx_issues.Driver.GlobalLock.{
  Codes, Lock, LockRequest, global_obj_un_lock, obj_global_lock_wait_forever,
}
use tisdk_cc32xx_issues.Driver.Commands.{
  Cb, Pass, message_read, cmd_resp, async_evt, completed, unlock, take_message, complete_cmd,
  read_loop, CmdRun, CmdResult, returned, still_waits, result_of, send_cmd, cmd_op,
}

-- Events, each of which finds a buffer or none, then the response, then anything else
abbrev pub answered_by : List Bool → List Pass → List Pass
answered_by [] more = message_read cmd_resp ∷ more
answered_by (b ∷ bs) more = message_read (async_evt b) ∷ answered_by bs more

-- How many events find a buffer, and how many find none
unfoldable pub count_of : Bool → List Bool → ℕ
count_of kept [] = 0
count_of true (b ∷ bs) = if b then count_of true bs + 1 else count_of true bs
count_of false (b ∷ bs) = if b then count_of false bs else count_of false bs + 1

-- What the messages leave behind
taken : List Bool → Cb → Cb
unfolding take_message
taken [] cb = take_message cmd_resp cb
taken (b ∷ bs) cb = taken bs (take_message (async_evt b) cb)

record IsTaken (bs : List Bool) (cb after : Cb) : Type 0 where
  stored_all : after.stored ≡ cb.stored + count_of true bs
  released_all : after.released ≡ cb.released + count_of false bs
  rx_all : after.rx_done_cnt ≡ cb.rx_done_cnt + length bs + 1
  no_wait : after.wait_for_cmd_resp ≡ false

taken-IsTaken : (bs : List Bool) (cb : Cb) → IsTaken bs cb (taken bs cb)
unfolding taken take_message count_of
taken-IsTaken [] cb = record {
  stored_all = omega arith;
  released_all = omega arith;
  rx_all = omega arith;
  no_wait = refl;
}
taken-IsTaken (true ∷ bs) cb =
    let h = taken-IsTaken bs (take_message (async_evt true) cb) in
    record {
      stored_all = omega (arith, h.stored_all);
      released_all = omega (arith, h.released_all);
      rx_all = omega (arith, h.rx_all);
      no_wait = h.no_wait;
    }
taken-IsTaken (false ∷ bs) cb =
    let h = taken-IsTaken bs (take_message (async_evt false) cb) in
    record {
      stored_all = omega (arith, h.stored_all);
      released_all = omega (arith, h.released_all);
      rx_all = omega (arith, h.rx_all);
      no_wait = h.no_wait;
    }

module _ (max : ℕ) (started : Bool) (opcode : ℕ) (lock_required pending : Bool) where
  read_loop-done :
      (passes : List Pass) (cb : Cb)
      → cb.wait_for_cmd_resp ≡ false
      → read_loop max started opcode lock_required pending passes cb
        ≡ completed (complete_cmd lock_required pending cb)
  unfolding read_loop
  read_loop-done [] cb h = rw h refl
  read_loop-done (pass ∷ passes) cb h = rw h refl

  read_loop-taken :
      (bs : List Bool) (more : List Pass) (cb : Cb)
      → read_loop max started opcode lock_required pending
          (answered_by bs more)
          (record cb { wait_for_cmd_resp = true })
        ≡ completed
            (complete_cmd lock_required pending (taken bs (record cb { wait_for_cmd_resp = true })))
  unfolding read_loop taken take_message
  read_loop-taken [] more cb =
      read_loop-done more (take_message cmd_resp (record cb { wait_for_cmd_resp = true })) refl
  read_loop-taken (true ∷ bs) more cb = read_loop-taken bs more (take_message (async_evt true) cb)
  read_loop-taken (false ∷ bs) more cb = read_loop-taken bs more (take_message (async_evt false) cb)

-- A command's end: `bs` says which of the events before the response found a buffer.
unfoldable pub IsAnswered : List Bool → Cb → CmdResult → Type 0
IsAnswered bs cb (still_waits after) = ⊥
IsAnswered bs cb (returned code after) =
    (code ≡ pos 0)
    × (after.lock.held ≡ false)
    × (after.wait_for_cmd_resp ≡ false)
    × (after.stored ≡ cb.stored + count_of true bs)
    × (after.released ≡ cb.released + count_of false bs)
    × (after.rx_done_cnt ≡ cb.rx_done_cnt + length bs + 1)

complete_cmd-IsAnswered :
    (bs : List Bool) (cb after : Cb) (pending : Bool)
    → IsTaken bs cb after
    → IsAnswered bs cb (returned (pos 0) (complete_cmd true pending after))
unfolding complete_cmd unlock global_obj_un_lock IsAnswered
complete_cmd-IsAnswered bs cb after true h = ground (arith, h)
complete_cmd-IsAnswered bs cb after false h = ground (arith, h)

send_cmd-IsAnswered :
    (codes : Codes) (r : CmdRun) (cb : Cb) (bs : List Bool) (more : List Pass)
    → r.lock_required ≡ true
    → r.restart_at_send ≡ false
    → r.write_result ≡ pos 0
    → r.passes ≡ answered_by bs more
    → IsAnswered bs cb (send_cmd codes r cb)
unfolding send_cmd result_of IsAnswered
send_cmd-IsAnswered codes r cb bs more hl hr hw hp =
    rw
      (
        hr,
        hw,
        hp,
        hl,
        read_loop-taken r.max_actions r.at_lock.started r.opcode true r.pending bs more cb,
      )
      (complete_cmd-IsAnswered bs (record cb { wait_for_cmd_resp = true })
        (taken bs (record cb { wait_for_cmd_resp = true })) r.pending
        (taken-IsTaken bs (record cb { wait_for_cmd_resp = true })))

IsAnswered-lock :
    (bs : List Bool) (cb : Cb) (l : Lock) (res : CmdResult)
    → IsAnswered bs (record cb { lock = l }) res
    → IsAnswered bs cb res
unfolding IsAnswered
IsAnswered-lock bs cb l (still_waits after) h = h
IsAnswered-lock bs cb l (returned code after) h = h

cmd_op-locked :
    (codes : Codes) (r : CmdRun) (request : LockRequest) (cb : Cb)
    → (obj_global_lock_wait_forever codes r.before r.at_lock r.lock_result request cb.lock).result
      ≡ pos 0
    → r.lock_required ≡ true
    → cmd_op codes r request cb
      ≡ send_cmd codes r (record cb {
        lock =
            (obj_global_lock_wait_forever codes r.before r.at_lock r.lock_result request
              cb.lock).lock;
      })
unfolding cmd_op
cmd_op-locked codes r request cb ht hl = rw (hl, ht) refl

-- _SlDrvCmdOp with the global lock, where the lock is taken, no restart is required and the message is
-- written: if any number of asynchronous events arrive, then the response, the command returns 0
-- without the lock. Each event is kept for the spawn task if there is a buffer for it, and else releases
-- the command that waits for it, and RxDoneCnt counts them all.
pub cmd_op-IsAnswered :
    (codes : Codes) (r : CmdRun) (request : LockRequest) (cb : Cb) (bs : List Bool)
    (more : List Pass)
    → (obj_global_lock_wait_forever codes r.before r.at_lock r.lock_result request cb.lock).result
      ≡ pos 0
    → r.lock_required ≡ true
    → r.restart_at_send ≡ false
    → r.write_result ≡ pos 0
    → r.passes ≡ answered_by bs more
    → IsAnswered bs cb (cmd_op codes r request cb)
cmd_op-IsAnswered codes r request cb bs more ht hl hr hw hp =
    let t = obj_global_lock_wait_forever codes r.before r.at_lock r.lock_result request cb.lock in
    subst (IsAnswered bs cb) (sym (cmd_op-locked codes r request cb ht hl)) (
      IsAnswered-lock bs cb t.lock (send_cmd codes r (record cb { lock = t.lock }))
        (send_cmd-IsAnswered codes r (record cb { lock = t.lock }) bs more hl hr hw hp))
