-- ===== src/Driver/Release.antt =====
-- driver.c: _SlDrvReleasePoolObj, which gives an action object back to the pool.
use tisdk_cc32xx_issues.Prelude.{
  ℕ, ◌+◌, Bool, true, false, not, ◌&&◌, ◌||◌, ltb, ◌==◌, if◌then◌else◌,
}
use tisdk_cc32xx_issues.Driver.GlobalLock.{dec}
use tisdk_cc32xx_issues.Driver.Pool.{
  PoolObj, PoolLimits, Objs, Pool, set_next, set_bit, remove_from_list, wake_loop,
}

-- The bit of ActiveActionsBitmap that belongs to an object
unfoldable pub bit_of : PoolLimits → PoolObj → ℕ
bit_of limits o =
    if ltb (limits.socket_id o.additional_data) limits.max_sockets
    then limits.socket_id o.additional_data
    else o.action_id

-- The two tests that return early: the bit is off, and the object is no select.
unfoldable pub is_stale : PoolLimits → ℕ → Pool → Bool
is_stale limits i p =
    let o = p.objs i in
    not (p.active_bits (bit_of limits o))
    && (ltb (limits.socket_id o.additional_data) limits.max_sockets
        || not (o.action_id == limits.select_id))

abbrev pub erase_obj : PoolLimits → ℕ → Objs → Objs
erase_obj limits i objs j =
    if j == i
    then record (objs j) {
      has_resp_args = false;
      action_id = 0;
      additional_data = limits.max_sockets;
    }
    else objs j

-- _SlDrvReleasePoolObj, from the tests of the bitmap on
unfoldable pub move_to_free : PoolLimits → ℕ → Pool → Pool
move_to_free limits i p =
    let unlinked = remove_from_list limits (erase_obj limits i p.objs) p.active_pool_idx i in
    record p {
      active_bits = set_bit (bit_of limits (p.objs i)) false p.active_bits;
      objs = set_next i p.free_pool_idx unlinked.objs;
      active_pool_idx = unlinked.head;
      free_pool_idx = i;
      protected = false;
      api_in_progress_cnt = dec p.api_in_progress_cnt;
    }

-- _SlDrvReleasePoolObj: `stopping` is SL_IS_DEVICE_STOP_IN_PROGRESS. While the device stops, an error
-- of sl_SyncObjDelete, that is `deletes` is false, leaves the function before anything has changed.
unfoldable pub release_pool_obj : PoolLimits → Bool → Bool → ℕ → Pool → Pool
release_pool_obj limits stopping deletes i p =
    let woken =
      wake_loop limits limits.max_actions i p.pending_pool_idx (record p { protected = true }) in
    if stopping
    then (if deletes
        then record p { protected = false; num_of_deleted_sync_obj = p.num_of_deleted_sync_obj + 1 }
        else p)
    else if is_stale limits i woken
    then woken
    else move_to_free limits i woken
