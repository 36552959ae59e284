-- ===== src/Driver/Fresh.antt =====
-- driver.c: the bit in ActiveActionsBitmap of an object that _SlDrvWaitForPoolObj has made active.
use tisdk_cc32xx_issues.Prelude.{ℕ, Bool, true, false, not, ltb, ◌≡◌, refl, arith, if◌then◌else◌}
use tisdk_cc32xx_issues.Driver.Pool.{
  PoolLimits, Pool, pool_is_empty, refused, pending, active, Started, is_busy, move_to_active,
  move_to_pending, refuse, take_free, wait_for_pool_obj,
}
use tisdk_cc32xx_issues.Driver.Release.{bit_of, is_stale}
use tisdk_cc32xx_issues.Driver.CmdSend.{set_resp_args}

move_to_active-stale :
    (limits : PoolLimits) (a s : ℕ) (p : Pool)
    → ltb s limits.max_sockets ≡ true
    → limits.socket_id s ≡ s
    → is_stale limits p.free_pool_idx
        (move_to_active limits a s p.free_pool_idx (take_free limits a s p)).pool
      ≡ false
unfolding move_to_active take_free is_stale bit_of
move_to_active-stale limits a s p hs hm = ground arith

-- An object that has become active is none that _SlDrvReleasePoolObj leaves as it is.
unfoldable pub IsFresh : PoolLimits → Started → Type 0
IsFresh limits s = elim s.start [
  | active i ↦ is_stale limits i s.pool ≡ false
  | pending i ↦ i ≡ i
  | refused ↦ refused ≡ s.start
  | pool_is_empty ↦ pool_is_empty ≡ s.start
]

on_branches :
    (P : Started → Type 0) (in_range busy owner : Bool) (e a b c : Started)
    → P e
    → P a
    → P b
    → P c
    → P (if not in_range then e else if not busy then a else if owner then b else c)
on_branches P false busy owner e a b c pe pa pb pc = pe
on_branches P true false owner e a b c pe pa pb pc = pa
on_branches P true true true e a b c pe pa pb pc = pb
on_branches P true true false e a b c pe pa pb pc = pc

pub wait_for_pool_obj-IsFresh :
    (limits : PoolLimits) (owner : Bool) (a s : ℕ) (p : Pool)
    → ltb s limits.max_sockets ≡ true
    → limits.socket_id s ≡ s
    → IsFresh limits (wait_for_pool_obj limits owner a s p)
unfolding wait_for_pool_obj move_to_active move_to_pending refuse IsFresh
wait_for_pool_obj-IsFresh limits owner a s p hs hm =
    let x = p.free_pool_idx in
    let t = take_free limits a s p in
    on_branches (IsFresh limits) (ltb x limits.max_actions) (is_busy limits a s t) owner
      (record { start = pool_is_empty; pool = record p { protected = false } })
      (move_to_active limits a s x t) (refuse limits x t) (move_to_pending x t) refl
      (move_to_active-stale limits a s p hs hm) refl refl

pub set_resp_args-stale :
    (limits : PoolLimits) (i : ℕ) (p : Pool)
    → is_stale limits i (set_resp_args true (record { start = active i; pool = p })).1
      ≡ is_stale limits i p
unfolding set_resp_args is_stale bit_of
set_resp_args-stale limits i p = ground arith
