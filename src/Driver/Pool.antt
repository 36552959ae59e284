-- ===== src/Driver/Pool.antt =====
-- driver.c: the pool of action objects, whose free, active and pending ones are chained in three
-- lists through their NextIndex. The constants of driver.h are parameters.
use tisdk_cc32xx_issues.Prelude.{
  ℕ, zero, suc, Bool, true, false, not, ◌&&◌, ◌||◌, ℤ, ltb, ◌==◌, if◌then◌else◌,
}
use tisdk_cc32xx_issues.Driver.GlobalLock.{inc}

-- _SlPoolObj_t: `has_resp_args` says that pRespArgs is not NULL, `signaled` is the SyncObj.
pub record PoolObj : Type 0 where
  pub next_index : ℕ
  pub action_id : ℕ
  pub additional_data : ℕ
  pub has_resp_args : Bool
  pub signaled : Bool

-- MAX_CONCURRENT_ACTIONS, SL_MAX_SOCKETS, SELECT_ID, MULTI_SELECT_MASK as a set of bits, and the
-- conjunction with SL_BSD_SOCKET_ID_MASK
pub record PoolLimits : Type 0 where
  pub max_actions : ℕ
  pub max_sockets : ℕ
  pub select_id : ℕ
  pub multi_select : ℕ → Bool
  pub socket_id : ℕ → ℕ

abbrev pub Objs : Type 0
Objs = ℕ → PoolObj

-- The fields of g_pCB: the bits of ActiveActionsBitmap are a set, `protected` says that the thread
-- holds ProtectionLockObj.
pub record Pool : Type 0 where
  pub objs : Objs
  pub free_pool_idx : ℕ
  pub active_pool_idx : ℕ
  pub pending_pool_idx : ℕ
  pub active_bits : ℕ → Bool
  pub protected : Bool
  pub num_of_deleted_sync_obj : ℕ
  pub api_in_progress_cnt : ℤ

abbrev pub set_next : ℕ → ℕ → Objs → Objs
set_next i n objs j = if j == i then record (objs j) { next_index = n } else objs j

abbrev pub set_bit : ℕ → Bool → (ℕ → Bool) → ℕ → Bool
set_bit i b bits j = if j == i then b else bits j

-- The loop of _SlDrvRemoveFromList, on fuel
unfoldable pub unlink_loop : PoolLimits → ℕ → Objs → ℕ → ℕ → Objs
unlink_loop limits zero objs item idx = objs
unlink_loop limits (suc fuel) objs item idx =
    let rest = unlink_loop limits fuel objs item (objs idx).next_index in
    if ltb idx limits.max_actions
    then (if (objs idx).next_index == item then set_next idx (objs item).next_index objs else rest)
    else objs

-- What a list operation leaves: the objects and the head of the list
pub record Unlinked : Type 0 where
  pub objs : Objs
  pub head : ℕ

-- _SlDrvRemoveFromList
unfoldable pub remove_from_list : PoolLimits → Objs → ℕ → ℕ → Unlinked
remove_from_list limits objs head item =
    if (objs head).next_index == limits.max_actions
    then record { objs = objs; head = limits.max_actions }
    else if head == item
    then record { objs = objs; head = (objs item).next_index }
    else record { objs = unlink_loop limits limits.max_actions objs item head; head = head }

-- How _SlDrvWaitForPoolObj goes on: no object is free, the spawn task may not wait, the object waits
-- in the pending list, or it is active and its index is returned.
pub data Start : Type 0 where
  pool_is_empty : Start
  refused : Start
  pending : ℕ → Start
  active : ℕ → Start

pub record Started : Type 0 where
  pub start : Start
  pub pool : Pool

-- The condition of the loop of _SlDrvWaitForPoolObj: the socket, or the action, is taken.
unfoldable pub is_busy : PoolLimits → ℕ → ℕ → Pool → Bool
is_busy limits action_id socket_id p =
    (ltb socket_id limits.max_sockets && p.active_bits socket_id)
    || ((p.active_bits action_id && limits.multi_select action_id)
        && (socket_id == limits.max_sockets))

-- _SlDrvWaitForPoolObj, the end: the object becomes active.
unfoldable pub move_to_active : PoolLimits → ℕ → ℕ → ℕ → Pool → Started
move_to_active limits action_id socket_id i p = record {
  start = active i;
  pool = record p {
    active_bits =
        set_bit (if ltb socket_id limits.max_sockets then socket_id else action_id) true
          p.active_bits;
    objs = set_next i p.active_pool_idx p.objs;
    active_pool_idx = i;
    protected = false;
    api_in_progress_cnt = inc p.api_in_progress_cnt;
  };
}

-- The body of the loop up to the wait
unfoldable pub move_to_pending : ℕ → Pool → Started
move_to_pending i p = record {
  start = pending i;
  pool = record p {
    objs = set_next i p.pending_pool_idx p.objs;
    pending_pool_idx = i;
    protected = false;
  };
}

-- The error of the spawn task, which gives the object back
unfoldable pub refuse : PoolLimits → ℕ → Pool → Started
refuse limits i p = record {
  start = refused;
  pool = record p {
    objs = λ j.
        if j == i
        then record (p.objs j) { action_id = 0; additional_data = limits.max_sockets }
        else p.objs j;
    free_pool_idx = i;
    protected = false;
  };
}

-- The object of the head of the free list, filled in
unfoldable pub take_free : PoolLimits → ℕ → ℕ → Pool → Pool
take_free limits action_id socket_id p =
    let i = p.free_pool_idx in
    record p {
      protected = true;
      free_pool_idx =
          if ltb (p.objs i).next_index limits.max_actions
          then (p.objs i).next_index
          else limits.max_actions;
      objs = λ j.
          if j == i
          then record (p.objs j) {
            action_id = action_id;
            additional_data =
                if ltb socket_id limits.max_sockets then socket_id else (p.objs j).additional_data;
          }
          else p.objs j;
    }

-- _SlDrvWaitForPoolObj up to its end or to the first wait; `spawn_owner` is
-- _SlDrvIsSpawnOwnGlobalLock.
unfoldable pub wait_for_pool_obj : PoolLimits → Bool → ℕ → ℕ → Pool → Started
wait_for_pool_obj limits spawn_owner action_id socket_id p =
    let i = p.free_pool_idx in
    let taken = take_free limits action_id socket_id p in
    if not (ltb i limits.max_actions)
    then record { start = pool_is_empty; pool = record p { protected = false } }
    else if not (is_busy limits action_id socket_id taken)
    then move_to_active limits action_id socket_id i taken
    else if spawn_owner
    then refuse limits i taken
    else move_to_pending i taken

-- The loop of _SlDrvReleasePoolObj over the pending list: does `q` wait for what `o` has?
unfoldable pub waits_for : PoolLimits → PoolObj → PoolObj → Bool
waits_for limits q o =
    (q.action_id == o.action_id)
    && ((limits.max_sockets == limits.socket_id q.additional_data)
        || (ltb (limits.socket_id o.additional_data) limits.max_sockets
            && (limits.socket_id q.additional_data == limits.socket_id o.additional_data)))

abbrev pub signal_obj : ℕ → Objs → Objs
signal_obj i objs j = if j == i then record (objs j) { signaled = true } else objs j

-- That loop, on fuel
unfoldable pub wake_loop : PoolLimits → ℕ → ℕ → ℕ → Pool → Pool
wake_loop limits zero i idx p = p
wake_loop limits (suc fuel) i idx p =
    let rest = wake_loop limits fuel i (p.objs idx).next_index p in
    let unlinked = remove_from_list limits p.objs p.pending_pool_idx idx in
    if ltb idx limits.max_actions
    then (if waits_for limits (p.objs idx) (p.objs i)
        then record p { objs = signal_obj idx unlinked.objs; pending_pool_idx = unlinked.head }
        else rest)
    else p
