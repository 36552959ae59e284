-- ===== src/Driver/Unlocked.antt =====
-- driver.c: when _SlDrvReleasePoolObj leaves ProtectionLockObj locked.
use tisdk_cc32xx_issues.Prelude.{
  ℕ, zero, suc, Bool, true, not, ◌&&◌, ◌≡◌, refl, arith, if◌then◌else◌,
}
use tisdk_cc32xx_issues.Driver.Pool.{
  PoolObj, PoolLimits, Objs, Pool, unlink_loop, remove_from_list, wake_loop,
}
use tisdk_cc32xx_issues.Driver.Release.{bit_of, is_stale, move_to_free, release_pool_obj}

-- The two objects carry the same action.
pub record SameAction (o o' : PoolObj) : Type 0 where
  pub action : o'.action_id ≡ o.action_id
  pub additional : o'.additional_data ≡ o.additional_data

unlink_loop-SameAction :
    (limits : PoolLimits) (fuel : ℕ) (objs : Objs) (item idx j : ℕ)
    → SameAction (objs j) (unlink_loop limits fuel objs item idx j)
unfolding unlink_loop
unlink_loop-SameAction limits zero objs item idx j = ground arith
unlink_loop-SameAction limits (suc fuel) objs item idx j =
    ground (arith, unlink_loop-SameAction limits fuel objs item (objs idx).next_index j)

remove_from_list-SameAction :
    (limits : PoolLimits) (objs : Objs) (head item j : ℕ)
    → SameAction (objs j) ((remove_from_list limits objs head item).objs j)
unfolding remove_from_list
remove_from_list-SameAction limits objs head item j =
    ground (arith, unlink_loop-SameAction limits limits.max_actions objs item head j)

-- What waking another object leaves alone
pub record IsKept (i : ℕ) (p v : Pool) : Type 0 where
  pub same : SameAction (p.objs i) (v.objs i)
  pub bits : v.active_bits ≡ p.active_bits
  pub lock : v.protected ≡ p.protected

pub wake_loop-IsKept :
    (limits : PoolLimits) (fuel i idx : ℕ) (p : Pool) → IsKept i p (wake_loop limits fuel i idx p)
unfolding wake_loop
wake_loop-IsKept limits zero i idx p = ground arith
wake_loop-IsKept limits (suc fuel) i idx p = ground (
  arith,
  wake_loop-IsKept limits fuel i (p.objs idx).next_index p,
  remove_from_list-SameAction limits p.objs p.pending_pool_idx idx i,
)

pub is_stale-IsKept :
    (limits : PoolLimits) (i : ℕ) (p v : Pool)
    → IsKept i p v
    → is_stale limits i v ≡ is_stale limits i p
unfolding is_stale bit_of
is_stale-IsKept limits i p v h = rw (h.bits, h.same.action, h.same.additional) refl

pub stale_lock :
    (limits : PoolLimits) (i : ℕ) (p : Pool)
    → is_stale limits i (record p { protected = true }) ≡ is_stale limits i p
unfolding is_stale
stale_lock limits i p = refl

-- If no stop is in progress, _SlDrvReleasePoolObj leaves ProtectionLockObj locked exactly if it returns
-- early, because the bit of the object is off in ActiveActionsBitmap and the object is no select. During
-- a stop it leaves it unlocked if the sync object is deleted, and as it was if that fails.
pub release_pool_obj-protected :
    (limits : PoolLimits) (stopping deletes : Bool) (i : ℕ) (p : Pool)
    → (release_pool_obj limits stopping deletes i p).protected
      ≡ (if stopping then not deletes && p.protected else is_stale limits i p)
unfolding release_pool_obj move_to_free
release_pool_obj-protected limits stopping deletes i p =
    let locked = record p { protected = true } in
    let kept = wake_loop-IsKept limits limits.max_actions i p.pending_pool_idx locked in
    let stale =
      is_stale-IsKept limits i locked
        (wake_loop limits limits.max_actions i p.pending_pool_idx locked) kept in
    ground (arith, kept.lock, stale, stale_lock limits i p)
