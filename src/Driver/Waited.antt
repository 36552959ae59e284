-- ===== src/Driver/Waited.antt =====
-- driver.c: _SlDrvWaitForPoolObj behind its wait for the sync object of a pending action.
use tisdk_cc32xx_issues.Prelude.{ℕ, ◌+◌, Bool, true, false, not, List, ℤ, if◌then◌else◌, arith}
use tisdk_cc32xx_issues.Driver.Pool.{
  PoolLimits, Pool, Started, is_busy, move_to_active, move_to_pending, refuse,
}
use tisdk_cc32xx_issues.Driver.Partition.{
  IsTaken, IsPlaced, move_to_active-IsPlaced, move_to_pending-IsPlaced,
}

-- How the call goes on: SL_RET_CODE_STOP_IN_PROGRESS, the error code with which the sync object could
-- not be deleted, or another round of the loop.
pub data Resumed : Type 0 where
  stop_in_progress : Pool → Resumed
  delete_failed : ℤ → Pool → Resumed
  went_on : Started → Resumed

-- The condition of the loop once more, and the body or the end after it
unfoldable pub next_round : PoolLimits → Bool → ℕ → ℕ → ℕ → Pool → Started
next_round limits spawn_owner action_id socket_id i p =
    if not (is_busy limits action_id socket_id p)
    then move_to_active limits action_id socket_id i p
    else if spawn_owner
    then refuse limits i p
    else move_to_pending i p

-- The object `i` has been signaled: `stopping` is SL_IS_DEVICE_STOP_IN_PROGRESS, `deleted` says that
-- sl_SyncObjDelete returned no error and `status` is the error otherwise.
unfoldable pub after_wait : PoolLimits → Bool → Bool → Bool → ℤ → ℕ → ℕ → ℕ → Pool → Resumed
after_wait limits spawn_owner stopping deleted status action_id socket_id i p =
    if not stopping
    then went_on
        (next_round limits spawn_owner action_id socket_id i (record p { protected = true }))
    else if deleted
    then stop_in_progress
        (record p { protected = false; num_of_deleted_sync_obj = p.num_of_deleted_sync_obj + 1 })
    else delete_failed status p

either :
    (P : Started → Type 0) (busy : Bool) (a b c : Started)
    → P a
    → P c
    → P (if not busy then a else if false then b else c)
either P false a b c pa pc = pa
either P true a b c pa pc = pc

next_round-IsPlaced :
    (limits : PoolLimits) (a s x : ℕ) (p : Pool) (fr ac pe : List ℕ)
    → IsTaken limits p x fr ac pe
    → IsPlaced limits x fr ac pe (next_round limits false a s x p)
unfolding next_round
next_round-IsPlaced limits a s x p fr ac pe h =
    either (IsPlaced limits x fr ac pe) (is_busy limits a s p) (move_to_active limits a s x p)
      (refuse limits x p) (move_to_pending x p) (move_to_active-IsPlaced limits a s x p fr ac pe h)
      (move_to_pending-IsPlaced limits x p fr ac pe h)

-- Where the call leaves the object `x`: in no list, if the driver is being stopped, and otherwise
-- where a round of the loop puts it
unfoldable pub IsResumed : PoolLimits → ℕ → List ℕ → List ℕ → List ℕ → Resumed → Type 0
IsResumed limits x fr ac pe (stop_in_progress p) = IsTaken limits p x fr ac pe
IsResumed limits x fr ac pe (delete_failed status p) = IsTaken limits p x fr ac pe
IsResumed limits x fr ac pe (went_on s) = IsPlaced limits x fr ac pe s

locked-IsTaken :
    (limits : PoolLimits) (b : Bool) (n x : ℕ) (p : Pool) (fr ac pe : List ℕ)
    → IsTaken limits p x fr ac pe
    → IsTaken limits (record p { protected = b; num_of_deleted_sync_obj = n }) x fr ac pe
locked-IsTaken limits b n x p fr ac pe h = ground (arith, h)

-- _SlDrvWaitForPoolObj behind its wait, in a thread other than the spawn task, where the object `x`
-- is in no list, as _SlDrvReleasePoolObj leaves what it takes out of the pending list: the call
-- returns the index of `x`, now at the head of the active list, or waits again with `x` at the head
-- of the pending list, and the three lists share no object. While the driver is being stopped, it
-- leaves the three lists as they were, whether the sync object could be deleted or not.
pub after_wait-IsResumed :
    (limits : PoolLimits) (stopping deleted : Bool) (status : ℤ) (a s x : ℕ) (p : Pool)
    (fr ac pe : List ℕ)
    → IsTaken limits p x fr ac pe
    → IsResumed limits x fr ac pe (after_wait limits false stopping deleted status a s x p)
unfolding after_wait IsResumed
after_wait-IsResumed limits true true status a s x p fr ac pe h =
    locked-IsTaken limits false (p.num_of_deleted_sync_obj + 1) x p fr ac pe h
after_wait-IsResumed limits true false status a s x p fr ac pe h = h
after_wait-IsResumed limits false deleted status a s x p fr ac pe h =
    next_round-IsPlaced limits a s x (record p { protected = true }) fr ac pe
      (locked-IsTaken limits true p.num_of_deleted_sync_obj x p fr ac pe h)
