-- ===== src/Driver/ReleaseAll.antt =====
-- driver.c: _SlDrvReleaseAllActivePendingPoolObj, which releases every waiting action when the device
-- is stopped, for a build without the socket trigger. The responses in which the status of the stop is
-- stored are not modelled.
use tisdk_cc32xx_issues.Prelude.{
  ℕ, zero, suc, ◌+◌, ◌≤◌, Bool, true, false, not, ◌||◌, List, [], ◌∷◌, length, ltb, ◌≡◌, refl,
  arith, if◌then◌else◌,
}
use tisdk_cc32xx_issues.Driver.Pool.{PoolLimits, Objs, Pool, signal_obj}
use tisdk_cc32xx_issues.Driver.Chains.{mem, is_chain}
use tisdk_cc32xx_issues.Driver.Partition.{IsPartition, is_chain-links}

-- The loops over the active and the pending list, on fuel
unfoldable pub signal_loop : PoolLimits → ℕ → Objs → ℕ → Objs
signal_loop limits zero objs idx = objs
signal_loop limits (suc fuel) objs idx =
    let rest = signal_loop limits fuel (signal_obj idx objs) (objs idx).next_index in
    if ltb idx limits.max_actions then rest else objs

-- What the loop over the free list leaves: whether it has come to its end, and how many sync objects it
-- has deleted
pub record Deleted : Type 0 where
  pub is_done : Bool
  pub count : ℕ

-- That loop, on fuel: `deletes` says whether sl_SyncObjDelete succeeds for an object.
unfoldable pub delete_loop : PoolLimits → ℕ → (ℕ → Bool) → Objs → ℕ → ℕ → Deleted
delete_loop limits zero deletes objs n idx = record { is_done = true; count = n }
delete_loop limits (suc fuel) deletes objs n idx =
    let rest = delete_loop limits fuel deletes objs (n + 1) (objs idx).next_index in
    if not (ltb idx limits.max_actions)
    then record { is_done = true; count = n }
    else if deletes idx
    then rest
    else record { is_done = false; count = n }

-- _SlDrvReleaseAllActivePendingPoolObj. An error of a deletion leaves the function with the protection
-- lock held.
unfoldable pub release_all_active_pending_pool_obj : PoolLimits → (ℕ → Bool) → Pool → Pool
unfolding signal_loop delete_loop
release_all_active_pending_pool_obj limits deletes p =
    let active = signal_loop limits limits.max_actions p.objs p.active_pool_idx in
    let pending = signal_loop limits limits.max_actions active p.pending_pool_idx in
    let deleted =
      delete_loop limits limits.max_actions deletes pending p.num_of_deleted_sync_obj
        p.free_pool_idx in
    record p {
      objs = pending;
      num_of_deleted_sync_obj = deleted.count;
      protected = not deleted.is_done;
    }

signal_obj-links :
    (i j : ℕ) (objs : Objs) → ((signal_obj i objs) j).next_index ≡ (objs j).next_index
signal_obj-links i j objs = ground arith

signal_loop-links :
    (limits : PoolLimits) (fuel : ℕ) (objs : Objs) (idx j : ℕ)
    → ((signal_loop limits fuel objs idx) j).next_index ≡ (objs j).next_index
unfolding signal_loop
signal_loop-links limits zero objs idx j = refl
signal_loop-links limits (suc fuel) objs idx j = ground (
  arith,
  signal_loop-links limits fuel (signal_obj idx objs) (objs idx).next_index j,
  signal_obj-links idx j objs,
)

-- The loop signals exactly the objects of the list.
signal_loop-mem :
    (limits : PoolLimits) (fuel : ℕ) (objs : Objs) (idx j : ℕ) (xs : List ℕ)
    → is_chain limits.max_actions objs idx xs ≡ true
    → length xs ≤ fuel
    → ((signal_loop limits fuel objs idx) j).signaled ≡ (mem j xs || (objs j).signaled)
unfolding signal_loop
signal_loop-mem limits zero objs idx j [] hc hl = ground arith
signal_loop-mem limits zero objs idx j (x ∷ xs) hc hl = ground arith
signal_loop-mem limits (suc fuel) objs idx j [] hc hl = ground arith
signal_loop-mem limits (suc fuel) objs idx j (x ∷ xs) hc hl = ground (
  arith,
  is_chain-links limits.max_actions objs (signal_obj idx objs) (λ k. signal_obj-links idx k objs)
      (objs idx).next_index xs,
  signal_loop-mem limits fuel (signal_obj idx objs) (objs idx).next_index j xs,
)

delete_loop-count :
    (limits : PoolLimits) (fuel : ℕ) (objs : Objs) (n idx : ℕ) (xs : List ℕ)
    → is_chain limits.max_actions objs idx xs ≡ true
    → length xs ≤ fuel
    → delete_loop limits fuel (λ _. true) objs n idx
      ≡ record { is_done = true; count = n + length xs }
unfolding delete_loop
delete_loop-count limits zero objs n idx [] hc hl = ground arith
delete_loop-count limits zero objs n idx (x ∷ xs) hc hl = ground arith
delete_loop-count limits (suc fuel) objs n idx [] hc hl = ground arith
delete_loop-count limits (suc fuel) objs n idx (x ∷ xs) hc hl =
    ground (arith, delete_loop-count limits fuel objs (n + 1) (objs idx).next_index xs)

-- Where the three lists of the pool share no object, and every sync object can be deleted:
-- _SlDrvReleaseAllActivePendingPoolObj signals exactly the objects of the active and the pending list,
-- counts one deletion for each object of the free list, and unlocks the pool.
pub release_all_active_pending_pool_obj-lists :
    (limits : PoolLimits) (p : Pool) (fr ac pe : List ℕ) (j : ℕ)
    → IsPartition limits p fr ac pe
    → (((release_all_active_pending_pool_obj limits (λ _. true) p).objs j).signaled
        ≡ (mem j pe || (mem j ac || (p.objs j).signaled)))
      × ((release_all_active_pending_pool_obj limits (λ _. true) p).num_of_deleted_sync_obj
          ≡ p.num_of_deleted_sync_obj + length fr)
      × ((release_all_active_pending_pool_obj limits (λ _. true) p).protected ≡ false)
unfolding release_all_active_pending_pool_obj
release_all_active_pending_pool_obj-lists limits p fr ac pe j h =
    let max = limits.max_actions in
    let active = signal_loop limits max p.objs p.active_pool_idx in
    let pending = signal_loop limits max active p.pending_pool_idx in
    let same =
      is_chain-links max p.objs active (signal_loop-links limits max p.objs p.active_pool_idx) in
    let same' =
      is_chain-links max active pending (signal_loop-links limits max active p.pending_pool_idx) in
    let counted : delete_loop limits max (λ _. true) pending p.num_of_deleted_sync_obj
          p.free_pool_idx
        ≡ record { is_done = true; count = p.num_of_deleted_sync_obj + length fr } =
      delete_loop-count limits max pending p.num_of_deleted_sync_obj p.free_pool_idx fr
        (ground (arith, h, same p.free_pool_idx fr, same' p.free_pool_idx fr))
        (omega (arith, h.size)) in
    (
      ground (
        arith,
        h,
        same p.pending_pool_idx pe,
        signal_loop-mem limits max p.objs p.active_pool_idx j ac,
        signal_loop-mem limits max active p.pending_pool_idx j pe,
      ),
      ground (arith, counted),
      ground (arith, counted),
    )
