-- ===== src/Driver/PoolTests.antt =====
-- driver.c, runs of the model of the action pool at concrete inputs.
use tisdk_cc32xx_issues.Prelude.{
  ℕ, ◌+◌, true, false, [], ◌∷◌, pos, ◌==◌, ◌≡◌, refl, arith, if◌then◌else◌,
}
use tisdk_cc32xx_issues.Driver.Pool.{PoolObj, PoolLimits, Pool, wait_for_pool_obj, waits_for}
use tisdk_cc32xx_issues.Driver.Release.{bit_of, is_stale, release_pool_obj}
use tisdk_cc32xx_issues.Driver.ReleaseAll.{
  release_all_active_pending_pool_obj, release_all_active_pending_pool_obj-lists,
}
use tisdk_cc32xx_issues.Driver.Waited.{after_wait, IsResumed, after_wait-IsResumed}
use tisdk_cc32xx_issues.Driver.Lookup.{
  Actions, handled_obj, is_receiving, is_expecting, opcode_for, find_loop, find_active_obj,
}
use tisdk_cc32xx_issues.Driver.Expected.{IsFirst, find_active_obj-IsFirst}
use tisdk_cc32xx_issues.Driver.Partition.{
  IsPartition, IsTaken, IsPlaced, wait_for_pool_obj-IsPlaced,
}
use tisdk_cc32xx_issues.Driver.Unlocked.{release_pool_obj-protected}
use tisdk_cc32xx_issues.Driver.Returned.{first_waiting, release_pool_obj-IsPartition}

abbrev pub small_limits : PoolLimits
small_limits = record {
  max_actions = 4;
  max_sockets = 16;
  select_id = 30;
  multi_select = λ j. j == 20;
  socket_id = λ d. d;
}

-- Object 0 is active on socket 3, object 1 waits for it, 2 and 3 are free.
abbrev obj_at : ℕ → PoolObj
obj_at j = record {
  next_index = if j == 2 then 3 else 4;
  action_id = if j == 0 then 21 else if j == 1 then 21 else 0;
  additional_data = if j == 0 then 3 else if j == 1 then 3 else 16;
  has_resp_args = false;
  signaled = false;
}

abbrev pool : Pool
pool = record {
  objs = obj_at;
  free_pool_idx = 2;
  active_pool_idx = 0;
  pending_pool_idx = 1;
  active_bits = λ j. j == 3;
  protected = false;
  num_of_deleted_sync_obj = 0;
  api_in_progress_cnt = pos 1;
}

pool-IsPartition : IsPartition small_limits pool (2 ∷ 3 ∷ []) (0 ∷ []) (1 ∷ [])
pool-IsPartition = record {
  chain_free = refl;
  chain_active = refl;
  chain_pending = refl;
  distinct_free = refl;
  distinct_active = refl;
  distinct_pending = refl;
  free_active = refl;
  free_pending = refl;
  active_pending = refl;
  size = omega arith;
}

wait_for_pool_obj-IsPlaced_example :
    IsPlaced small_limits 2
      (3 ∷ [])
      (0 ∷ [])
      (1 ∷ [])
      (wait_for_pool_obj small_limits false 22 3 pool)
wait_for_pool_obj-IsPlaced_example =
    wait_for_pool_obj-IsPlaced small_limits false 22 3 pool 2 (3 ∷ []) (0 ∷ []) (1 ∷ [])
      pool-IsPartition

release_pool_obj-IsPartition_example :
    IsPartition small_limits
      (release_pool_obj small_limits false true 0 pool)
      (0 ∷ 2 ∷ 3 ∷ [])
      []
      []
unfolding first_waiting waits_for is_stale bit_of
release_pool_obj-IsPartition_example =
    release_pool_obj-IsPartition small_limits true 0 pool (2 ∷ 3 ∷ []) (0 ∷ []) (1 ∷ [])
      pool-IsPartition refl refl

release_pool_obj-protected_example :
    (release_pool_obj small_limits false true 2 pool).protected ≡ true
unfolding is_stale bit_of
release_pool_obj-protected_example = release_pool_obj-protected small_limits false true 2 pool

-- Object 1 has been taken out of the pending list.
abbrev signaled_pool : Pool
signaled_pool = record pool { pending_pool_idx = 4 }

signaled_pool-IsTaken : IsTaken small_limits signaled_pool 1 (2 ∷ 3 ∷ []) (0 ∷ []) []
signaled_pool-IsTaken = record {
  rest = record {
    chain_free = refl;
    chain_active = refl;
    chain_pending = refl;
    distinct_free = refl;
    distinct_active = refl;
    distinct_pending = refl;
    free_active = refl;
    free_pending = refl;
    active_pending = refl;
    size = omega arith;
  };
  in_range = omega arith;
  not_free = refl;
  not_active = refl;
  not_pending = refl;
  room = omega arith;
}

after_wait-IsResumed_example :
    IsResumed small_limits 1
      (2 ∷ 3 ∷ [])
      (0 ∷ [])
      []
      (after_wait small_limits false false true (pos 0) 21 5 1 signaled_pool)
after_wait-IsResumed_example =
    after_wait-IsResumed small_limits false true (pos 0) 21 5 1 signaled_pool (2 ∷ 3 ∷ []) (0 ∷ [])
      [] signaled_pool-IsTaken

abbrev small_actions : Actions
small_actions = record {
  recv_id = 9;
  has_family = λ d. d == 64;
  without_ipv6 = λ c. c;
  is_recv_opcode = λ c. c == 50;
  async_opcode = λ a. a + 100;
}

find_active_obj-IsFirst_example :
    IsFirst small_limits small_actions obj_at 3 121 (0 ∷ []) (handled_obj 0)
unfolding find_active_obj find_loop is_receiving is_expecting opcode_for
find_active_obj-IsFirst_example =
    find_active_obj-IsFirst small_limits small_actions 121 3 pool (0 ∷ []) refl (omega arith)

release_all_active_pending_pool_obj-lists_example :
    (((release_all_active_pending_pool_obj small_limits (λ _. true) pool).objs 1).signaled ≡ true)
    × ((release_all_active_pending_pool_obj small_limits (λ _. true) pool).num_of_deleted_sync_obj
        ≡ 2)
    × ((release_all_active_pending_pool_obj small_limits (λ _. true) pool).protected ≡ false)
release_all_active_pending_pool_obj-lists_example =
    release_all_active_pending_pool_obj-lists small_limits pool (2 ∷ 3 ∷ []) (0 ∷ []) (1 ∷ []) 1
      pool-IsPartition
