-- ===== src/Driver/Partition.antt =====
-- driver.c: the three lists of the pool across _SlDrvWaitForPoolObj.
use tisdk_cc32xx_issues.Prelude.{
  ℕ, ◌+◌, ◌<◌, ◌≤◌, Bool, true, false, not, List, [], ◌∷◌, length, ltb, ◌≡◌, refl, sym, subst,
  if◌then◌else◌, arith,
}
use tisdk_cc32xx_issues.Driver.Pool.{
  PoolLimits, Objs, Pool, Started, pool_is_empty, refused, pending, active, is_busy, move_to_active,
  move_to_pending, refuse, take_free, wait_for_pool_obj,
}
use tisdk_cc32xx_issues.Driver.Erased.{disjoint-cons}
use tisdk_cc32xx_issues.Driver.Chains.{mem, distinct, disjoint, is_chain, is_chain-set_next}

-- The free, active and pending lists of a pool are the three lists given, and share no object.
pub record IsPartition (limits : PoolLimits) (p : Pool) (fr ac pe : List ℕ) : Type 0 where
  pub chain_free : is_chain limits.max_actions p.objs p.free_pool_idx fr ≡ true
  pub chain_active : is_chain limits.max_actions p.objs p.active_pool_idx ac ≡ true
  pub chain_pending : is_chain limits.max_actions p.objs p.pending_pool_idx pe ≡ true
  pub distinct_free : distinct fr ≡ true
  pub distinct_active : distinct ac ≡ true
  pub distinct_pending : distinct pe ≡ true
  pub free_active : disjoint fr ac ≡ true
  pub free_pending : disjoint fr pe ≡ true
  pub active_pending : disjoint ac pe ≡ true
  pub size : length fr + length ac + length pe ≤ limits.max_actions

-- Two arrays of objects with the same links have the same chains.
pub is_chain-links :
    (max : ℕ) (objs objs' : Objs)
    → ((j : ℕ) → (objs' j).next_index ≡ (objs j).next_index)
    → (head : ℕ) (xs : List ℕ) → is_chain max objs' head xs ≡ is_chain max objs head xs
is_chain-links max objs objs' e head [] = refl
is_chain-links max objs objs' e head (x ∷ xs) =
    ground (arith, e x, is_chain-links max objs objs' e (objs x).next_index xs)

-- Where _SlDrvWaitForPoolObj leaves the object `x` that it took from the head of the free list: the
-- three lists are given as they were behind it.
unfoldable pub IsPlaced : PoolLimits → ℕ → List ℕ → List ℕ → List ℕ → Started → Type 0
IsPlaced limits x fr ac pe s = elim s.start [
  | pool_is_empty ↦ ⊥
  | refused ↦ IsPartition limits s.pool (x ∷ fr) ac pe
  | pending i ↦ (i ≡ x) × IsPartition limits s.pool fr ac (x ∷ pe)
  | active i ↦ (i ≡ x) × IsPartition limits s.pool fr (x ∷ ac) pe
]

take_free-links :
    (limits : PoolLimits) (a s : ℕ) (p : Pool) (j : ℕ)
    → ((take_free limits a s p).objs j).next_index ≡ (p.objs j).next_index
unfolding take_free
take_free-links limits a s p j = ground arith

-- With the object `x` in no list, each of its places in the others is as good.
pub record IsTaken (limits : PoolLimits) (p : Pool) (x : ℕ) (fr ac pe : List ℕ) : Type 0 where
  pub rest : IsPartition limits p fr ac pe
  pub in_range : x < limits.max_actions
  pub not_free : mem x fr ≡ false
  pub not_active : mem x ac ≡ false
  pub not_pending : mem x pe ≡ false
  pub room : length fr + length ac + length pe < limits.max_actions

take_free-IsTaken :
    (limits : PoolLimits) (a s : ℕ) (p : Pool) (x : ℕ) (fr ac pe : List ℕ)
    → IsPartition limits p (x ∷ fr) ac pe
    → IsTaken limits (take_free limits a s p) x fr ac pe
unfolding take_free
take_free-IsTaken limits a s p x [] ac pe h =
    let same =
      is_chain-links limits.max_actions p.objs (take_free limits a s p).objs
        (take_free-links limits a s p) in
    ground (arith, h, same p.active_pool_idx ac, same p.pending_pool_idx pe)
take_free-IsTaken limits a s p x (y ∷ fr) ac pe h =
    let same =
      is_chain-links limits.max_actions p.objs (take_free limits a s p).objs
        (take_free-links limits a s p) in
    ground (
      arith,
      h,
      same p.active_pool_idx ac,
      same p.pending_pool_idx pe,
      same (p.objs p.free_pool_idx).next_index (y ∷ fr),
    )

move_to_active-IsPartition :
    (limits : PoolLimits) (a s x : ℕ) (p : Pool) (fr ac pe : List ℕ)
    → IsTaken limits p x fr ac pe
    → IsPartition limits (move_to_active limits a s x p).pool fr (x ∷ ac) pe
unfolding move_to_active
move_to_active-IsPartition limits a s x p fr ac pe h =
    let frame = is_chain-set_next limits.max_actions x p.active_pool_idx p.objs in
    ground (
      arith,
      h,
      frame p.free_pool_idx fr,
      frame p.active_pool_idx ac,
      frame p.pending_pool_idx pe,
      disjoint-cons x fr ac,
    )

move_to_pending-IsPartition :
    (limits : PoolLimits) (x : ℕ) (p : Pool) (fr ac pe : List ℕ)
    → IsTaken limits p x fr ac pe
    → IsPartition limits (move_to_pending x p).pool fr ac (x ∷ pe)
unfolding move_to_pending
move_to_pending-IsPartition limits x p fr ac pe h =
    let frame = is_chain-set_next limits.max_actions x p.pending_pool_idx p.objs in
    ground (
      arith,
      h,
      frame p.free_pool_idx fr,
      frame p.active_pool_idx ac,
      frame p.pending_pool_idx pe,
      disjoint-cons x fr pe,
      disjoint-cons x ac pe,
    )

refuse-links :
    (limits : PoolLimits) (a s x : ℕ) (p : Pool) (j : ℕ)
    → ((refuse limits x (take_free limits a s p)).pool.objs j).next_index ≡ (p.objs j).next_index
unfolding refuse take_free
refuse-links limits a s x p j = ground arith

refuse-IsPartition :
    (limits : PoolLimits) (a s x : ℕ) (p : Pool) (fr ac pe : List ℕ)
    → IsPartition limits p (x ∷ fr) ac pe
    → IsPartition limits (refuse limits x (take_free limits a s p)).pool (x ∷ fr) ac pe
unfolding refuse take_free
refuse-IsPartition limits a s x p fr ac pe h =
    let same =
      is_chain-links limits.max_actions p.objs (refuse limits x (take_free limits a s p)).pool.objs
        (refuse-links limits a s x p) in
    ground (
      arith,
      h,
      same p.free_pool_idx (x ∷ fr),
      same p.active_pool_idx ac,
      same p.pending_pool_idx pe,
    )

pub move_to_active-IsPlaced :
    (limits : PoolLimits) (a s x : ℕ) (p : Pool) (fr ac pe : List ℕ)
    → IsTaken limits p x fr ac pe
    → IsPlaced limits x fr ac pe (move_to_active limits a s x p)
unfolding move_to_active IsPlaced
move_to_active-IsPlaced limits a s x p fr ac pe h =
    (refl, move_to_active-IsPartition limits a s x p fr ac pe h)

pub move_to_pending-IsPlaced :
    (limits : PoolLimits) (x : ℕ) (p : Pool) (fr ac pe : List ℕ)
    → IsTaken limits p x fr ac pe
    → IsPlaced limits x fr ac pe (move_to_pending x p)
unfolding move_to_pending IsPlaced
move_to_pending-IsPlaced limits x p fr ac pe h =
    (refl, move_to_pending-IsPartition limits x p fr ac pe h)

refuse-IsPlaced :
    (limits : PoolLimits) (a s x : ℕ) (p : Pool) (fr ac pe : List ℕ)
    → IsPartition limits p (x ∷ fr) ac pe
    → IsPlaced limits x fr ac pe (refuse limits x (take_free limits a s p))
unfolding refuse IsPlaced
refuse-IsPlaced limits a s x p fr ac pe h = refuse-IsPartition limits a s x p fr ac pe h

branches :
    (P : Started → Type 0) (in_range busy owner : Bool) (e a b c : Started)
    → in_range ≡ true
    → P a
    → P b
    → P c
    → P (if not in_range then e else if not busy then a else if owner then b else c)
branches P true false owner e a b c h pa pb pc = pa
branches P true true true e a b c h pa pb pc = pb
branches P true true false e a b c h pa pb pc = pc
branches P false busy owner e a b c h pa pb pc = ground arith

at_head-IsPlaced :
    (limits : PoolLimits) (spawn_owner : Bool) (a s : ℕ) (p : Pool) (fr ac pe : List ℕ)
    → IsPartition limits p (p.free_pool_idx ∷ fr) ac pe
    → IsPlaced limits p.free_pool_idx fr ac pe (wait_for_pool_obj limits spawn_owner a s p)
unfolding wait_for_pool_obj
at_head-IsPlaced limits spawn_owner a s p fr ac pe h =
    let x = p.free_pool_idx in
    let t = take_free limits a s p in
    let taken = take_free-IsTaken limits a s p x fr ac pe h in
    branches (IsPlaced limits x fr ac pe) (ltb x limits.max_actions) (is_busy limits a s t)
      spawn_owner (record { start = pool_is_empty; pool = record p { protected = false } })
      (move_to_active limits a s x t) (refuse limits x t) (move_to_pending x t)
      (ground (arith, taken)) (move_to_active-IsPlaced limits a s x t fr ac pe taken)
      (refuse-IsPlaced limits a s x p fr ac pe h)
      (move_to_pending-IsPlaced limits x t fr ac pe taken)

-- _SlDrvWaitForPoolObj, where the three lists of the pool share no object and an object `x` is at
-- the head of the free list: the call never finds the pool empty, takes exactly `x`, and the lists
-- still share no object. `x` is the head of the active list if its index is returned, the head of the
-- pending list if the call waits, and again the head of the free list if the spawn task may not wait.
pub wait_for_pool_obj-IsPlaced :
    (limits : PoolLimits) (spawn_owner : Bool) (a s : ℕ) (p : Pool) (x : ℕ) (fr ac pe : List ℕ)
    → IsPartition limits p (x ∷ fr) ac pe
    → IsPlaced limits x fr ac pe (wait_for_pool_obj limits spawn_owner a s p)
wait_for_pool_obj-IsPlaced limits spawn_owner a s p x fr ac pe h =
    let at_head : p.free_pool_idx ≡ x = ground (arith, h) in
    subst (λ y. IsPlaced limits y fr ac pe (wait_for_pool_obj limits spawn_owner a s p)) at_head
      (at_head-IsPlaced limits spawn_owner a s p fr ac pe
        (subst (λ y. IsPartition limits p (y ∷ fr) ac pe) (sym at_head) h))
