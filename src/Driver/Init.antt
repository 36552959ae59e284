-- ===== src/Driver/Init.antt =====
-- driver.c: the action pool as _SlDrvDriverCBInit sets it up, where every object of the operating
-- system could be created.
use tisdk_cc32xx_issues.Prelude.{
  ℕ, zero, suc, ◌+◌, ◌<◌, true, false, List, [], ◌∷◌, length, ◌≡◌, refl, pos, arith,
}
use tisdk_cc32xx_issues.Driver.Pool.{PoolObj, PoolLimits, Pool}
use tisdk_cc32xx_issues.Driver.Chains.{mem, distinct, is_chain}
use tisdk_cc32xx_issues.Driver.Erased.{disjoint-nil}
use tisdk_cc32xx_issues.Driver.Partition.{IsPartition}

-- An object after the loop of _SlDrvDriverCBInit
unfoldable pub init_obj : PoolLimits → ℕ → PoolObj
init_obj limits j = record {
  next_index = j + 1;
  action_id = 0;
  additional_data = limits.max_sockets;
  has_resp_args = false;
  signaled = false;
}

-- The fields of the pool after _SlDrvDriverCBInit
unfoldable pub init_pool : PoolLimits → Pool
init_pool limits = record {
  objs = init_obj limits;
  free_pool_idx = 0;
  active_pool_idx = limits.max_actions;
  pending_pool_idx = limits.max_actions;
  active_bits = λ _. false;
  protected = false;
  num_of_deleted_sync_obj = 0;
  api_in_progress_cnt = pos 0;
}

-- The `n` indices from `k` on
abbrev pub indices : ℕ → ℕ → List ℕ
indices k zero = []
indices k (suc n) = k ∷ indices (suc k) n

mem-indices : (x k n : ℕ) → x < k → mem x (indices k n) ≡ false
mem-indices x k zero h = refl
mem-indices x k (suc n) h = ground (arith, mem-indices x (suc k) n)

distinct-indices : (k n : ℕ) → distinct (indices k n) ≡ true
distinct-indices k zero = refl
distinct-indices k (suc n) = ground (arith, mem-indices k (suc k) n, distinct-indices (suc k) n)

length-indices : (k n : ℕ) → length (indices k n) ≡ n
length-indices k zero = refl
length-indices k (suc n) = omega (arith, length-indices (suc k) n)

is_chain-indices :
    (limits : PoolLimits) (k n : ℕ)
    → k + n ≡ limits.max_actions
    → is_chain limits.max_actions (init_obj limits) k (indices k n) ≡ true
unfolding init_obj
is_chain-indices limits k zero h = ground arith
is_chain-indices limits k (suc n) h = ground (arith, is_chain-indices limits (suc k) n)

-- After _SlDrvDriverCBInit every object of the pool, in the order of its index, is in the free list,
-- the other two lists are empty, and no object is in two places.
pub init_pool-IsPartition :
    (limits : PoolLimits)
    → IsPartition limits (init_pool limits) (indices 0 limits.max_actions) [] []
unfolding init_pool
init_pool-IsPartition limits =
    let all = indices 0 limits.max_actions in
    ground (
      arith,
      is_chain-indices limits 0 limits.max_actions,
      distinct-indices 0 limits.max_actions,
      length-indices 0 limits.max_actions,
      disjoint-nil all,
    )
