-- ===== src/Driver/Returned.antt =====
-- driver.c: the lists of the pool across _SlDrvReleasePoolObj.
use tisdk_cc32xx_issues.Prelude.{
  ℕ, zero, suc, ◌<◌, ◌≤◌, Bool, true, false, List, [], ◌∷◌, Option, none, some, length, ◌≡◌, refl,
  sym, subst, if◌then◌else◌, arith,
}
use tisdk_cc32xx_issues.Driver.Pool.{
  PoolLimits, Objs, Pool, remove_from_list, waits_for, signal_obj, wake_loop,
}
use tisdk_cc32xx_issues.Driver.Release.{is_stale, erase_obj, move_to_free, release_pool_obj}
use tisdk_cc32xx_issues.Driver.Chains.{mem, erase, is_chain, is_chain-set_next}
use tisdk_cc32xx_issues.Driver.Removed.{
  remove_from_list-chain, remove_from_list-others, disjoint-mem,
}
use tisdk_cc32xx_issues.Driver.Erased.{
  mem-erase_self, distinct-erase, disjoint-erase_left, disjoint-erase_right, length-erase,
  disjoint-right, disjoint-swap,
}
use tisdk_cc32xx_issues.Driver.Partition.{IsPartition, is_chain-links}
use tisdk_cc32xx_issues.Driver.Unlocked.{wake_loop-IsKept, is_stale-IsKept, stale_lock}

-- The first object of a list that waits for what object `i` has
unfoldable pub first_waiting : PoolLimits → Objs → ℕ → List ℕ → Option ℕ
first_waiting limits objs i [] = none
first_waiting limits objs i (q ∷ qs) =
    if waits_for limits (objs q) (objs i) then some q else first_waiting limits objs i qs

abbrev pub without : Option ℕ → List ℕ → List ℕ
without none xs = xs
without (some q) xs = erase q xs

-- What waking `q` does to the pool
unfoldable pub woken : PoolLimits → Pool → Option ℕ → Pool
woken limits p none = p
woken limits p (some q) = record p {
  objs = signal_obj q (remove_from_list limits p.objs p.pending_pool_idx q).objs;
  pending_pool_idx = (remove_from_list limits p.objs p.pending_pool_idx q).head;
}

wake_loop-woken :
    (limits : PoolLimits) (fuel i idx : ℕ) (p : Pool) (xs : List ℕ)
    → is_chain limits.max_actions p.objs idx xs ≡ true
    → length xs ≤ fuel
    → wake_loop limits fuel i idx p ≡ woken limits p (first_waiting limits p.objs i xs)
unfolding wake_loop woken first_waiting
wake_loop-woken limits zero i idx p [] hc hl = ground arith
wake_loop-woken limits zero i idx p (q ∷ qs) hc hl = ground arith
wake_loop-woken limits (suc fuel) i idx p [] hc hl = ground arith
wake_loop-woken limits (suc fuel) i idx p (q ∷ qs) hc hl =
    ground (arith, wake_loop-woken limits fuel i (p.objs idx).next_index p qs)

-- `q` is in the list, if it is one.
abbrev pub is_in : Option ℕ → List ℕ → Bool
is_in none xs = true
is_in (some q) xs = mem q xs

is_in-cons : (q : Option ℕ) (x : ℕ) (xs : List ℕ) → is_in q xs ≡ true → is_in q (x ∷ xs) ≡ true
is_in-cons none x xs h = refl
is_in-cons (some q) x xs h = ground arith

first_waiting-is_in :
    (limits : PoolLimits) (objs : Objs) (i : ℕ) (xs : List ℕ)
    → is_in (first_waiting limits objs i xs) xs ≡ true
unfolding first_waiting
first_waiting-is_in limits objs i [] = refl
first_waiting-is_in limits objs i (x ∷ xs) =
    ground (
      arith,
      first_waiting-is_in limits objs i xs,
      is_in-cons (first_waiting limits objs i xs) x xs,
    )

signal_obj-links :
    (q : ℕ) (objs : Objs) (j : ℕ) → (signal_obj q objs j).next_index ≡ (objs j).next_index
signal_obj-links q objs j = ground arith

woken-IsPartition :
    (limits : PoolLimits) (p : Pool) (q : Option ℕ) (fr ac pe : List ℕ)
    → is_in q pe ≡ true
    → IsPartition limits p fr ac pe
    → IsPartition limits (woken limits p q) fr ac (without q pe)
unfolding woken
woken-IsPartition limits p none fr ac pe hq h = h
woken-IsPartition limits p (some q) fr ac pe hq h =
    let after = remove_from_list limits p.objs p.pending_pool_idx q in
    let same =
      is_chain-links limits.max_actions after.objs (signal_obj q after.objs)
        (signal_obj-links q after.objs) in
    let others =
      λ (a : ℕ) (xs : List ℕ). remove_from_list-others limits p.objs p.pending_pool_idx q a pe xs in
    ground (
      arith,
      h,
      same p.free_pool_idx fr,
      same p.active_pool_idx ac,
      same after.head (erase q pe),
      others p.free_pool_idx fr,
      others p.active_pool_idx ac,
      remove_from_list-chain limits p.objs p.pending_pool_idx q pe,
      distinct-erase q pe,
      disjoint-erase_right q fr pe,
      disjoint-erase_right q ac pe,
      disjoint-swap fr pe,
      disjoint-swap ac pe,
      length-erase q pe,
    )

erase_obj-links :
    (limits : PoolLimits) (i : ℕ) (objs : Objs) (j : ℕ)
    → (erase_obj limits i objs j).next_index ≡ (objs j).next_index
erase_obj-links limits i objs j = ground arith

in_range :
    (max i : ℕ) (objs : Objs) (head : ℕ) (xs : List ℕ)
    → is_chain max objs head xs ≡ true
    → mem i xs ≡ true
    → i < max
in_range max i objs head [] hc hm = ground arith
in_range max i objs head (x ∷ xs) hc hm = ground (arith, in_range max i objs (objs x).next_index xs)

move_to_free-IsPartition :
    (limits : PoolLimits) (i : ℕ) (p : Pool) (fr ac pe : List ℕ)
    → mem i ac ≡ true
    → IsPartition limits p fr ac pe
    → IsPartition limits (move_to_free limits i p) (i ∷ fr) (erase i ac) pe
unfolding move_to_free
move_to_free-IsPartition limits i p fr ac pe hi h =
    let erased = erase_obj limits i p.objs in
    let after = remove_from_list limits erased p.active_pool_idx i in
    let same = is_chain-links limits.max_actions p.objs erased (erase_obj-links limits i p.objs) in
    let others =
      λ (a : ℕ) (xs : List ℕ). remove_from_list-others limits erased p.active_pool_idx i a ac xs in
    let frame = is_chain-set_next limits.max_actions i p.free_pool_idx after.objs in
    ground (
      arith,
      h,
      same p.free_pool_idx fr,
      same p.active_pool_idx ac,
      same p.pending_pool_idx pe,
      others p.free_pool_idx fr,
      others p.pending_pool_idx pe,
      remove_from_list-chain limits erased p.active_pool_idx i ac,
      frame p.free_pool_idx fr,
      frame after.head (erase i ac),
      frame p.pending_pool_idx pe,
      in_range limits.max_actions i p.objs p.active_pool_idx ac,
      mem-erase_self i ac,
      distinct-erase i ac,
      disjoint-right i fr ac,
      disjoint-mem i ac pe,
      disjoint-erase_right i fr ac,
      disjoint-erase_left i ac pe,
      disjoint-swap fr ac,
      length-erase i ac,
    )

-- _SlDrvReleasePoolObj of an object `i` of the active list, where the lists of the pool share no
-- object, no stop is in progress, and the object's bit is on or the object is a select: `i` is at the
-- head of the free list and no longer active, the first object of the pending list that waits for what
-- `i` had, if there is one, is out of that list, and the lists still share no object.
pub release_pool_obj-IsPartition :
    (limits : PoolLimits) (deletes : Bool) (i : ℕ) (p : Pool) (fr ac pe : List ℕ)
    → IsPartition limits p fr ac pe
    → mem i ac ≡ true
    → is_stale limits i p ≡ false
    → IsPartition limits
        (release_pool_obj limits false deletes i p)
        (i ∷ fr)
        (erase i ac)
        (without (first_waiting limits p.objs i pe) pe)
unfolding release_pool_obj
release_pool_obj-IsPartition limits deletes i p fr ac pe h hi hs =
    let locked = record p { protected = true } in
    let q = first_waiting limits p.objs i pe in
    let here : IsPartition limits locked fr ac pe = ground (arith, h) in
    let there =
      woken-IsPartition limits locked q fr ac pe (first_waiting-is_in limits p.objs i pe) here in
    let loop =
      wake_loop-woken limits limits.max_actions i p.pending_pool_idx locked pe (ground (arith, h))
        (ground (arith, h)) in
    let awake = subst (λ v. IsPartition limits v fr ac (without q pe)) (sym loop) there in
    let stale =
      is_stale-IsKept limits i locked
        (wake_loop limits limits.max_actions i p.pending_pool_idx locked)
        (wake_loop-IsKept limits limits.max_actions i p.pending_pool_idx locked) in
    rw (stale, stale_lock limits i p, hs)
      (move_to_free-IsPartition limits i
        (wake_loop limits limits.max_actions i p.pending_pool_idx locked) fr ac (without q pe) hi
        awake)
