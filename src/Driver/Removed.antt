-- ===== src/Driver/Removed.antt =====
-- driver.c: the lists of the pool across _SlDrvRemoveFromList.
use tisdk_cc32xx_issues.Prelude.{ℕ, ◌≤◌, true, false, List, [], ◌∷◌, length, ◌≡◌, arith}
use tisdk_cc32xx_issues.Driver.Pool.{PoolLimits, Objs, set_next, remove_from_list}
use tisdk_cc32xx_issues.Driver.Chains.{
  mem, distinct, disjoint, erase, is_chain, is_chain-set_next, before, unlink_loop-set_next,
}

pub mem-before :
    (item x : ℕ) (xs : List ℕ) → mem item xs ≡ true → mem (before item x xs) (x ∷ xs) ≡ true
mem-before item x [] h = ground arith
mem-before item x (y ∷ ys) h = ground (arith, mem-before item y ys)

pub disjoint-mem :
    (x : ℕ) (xs ys : List ℕ) → disjoint xs ys ≡ true → mem x xs ≡ true → mem x ys ≡ false
disjoint-mem x [] ys h hm = ground arith
disjoint-mem x (y ∷ xs) ys h hm = ground (arith, disjoint-mem x xs ys)

is_chain-before :
    (max item : ℕ) (objs : Objs) (x : ℕ) (xs : List ℕ)
    → is_chain max objs x (x ∷ xs) ≡ true
    → distinct (x ∷ xs) ≡ true
    → mem item xs ≡ true
    → is_chain max (set_next (before item x xs) (objs item).next_index objs) x (x ∷ erase item xs)
      ≡ true
is_chain-before max item objs x [] hc hd hm = ground arith
is_chain-before max item objs x (y ∷ ys) hc hd hm = ground (
  arith,
  is_chain-before max item objs y ys,
  mem-before item y ys,
  is_chain-set_next max x (objs item).next_index objs (objs item).next_index ys,
)

pub remove_from_list-chain :
    (limits : PoolLimits) (objs : Objs) (head item : ℕ) (xs : List ℕ)
    → is_chain limits.max_actions objs head xs ≡ true
    → distinct xs ≡ true
    → mem item xs ≡ true
    → length xs ≤ limits.max_actions
    → is_chain limits.max_actions
        (remove_from_list limits objs head item).objs
        (remove_from_list limits objs head item).head
        (erase item xs)
      ≡ true
unfolding remove_from_list
remove_from_list-chain limits objs head item [] hc hd hm hl = ground arith
remove_from_list-chain limits objs head item (x ∷ []) hc hd hm hl = ground arith
remove_from_list-chain limits objs head item (x ∷ y ∷ ys) hc hd hm hl = ground (
  arith,
  unlink_loop-set_next limits limits.max_actions objs item head (y ∷ ys),
  is_chain-before limits.max_actions item objs head (y ∷ ys),
)

pub remove_from_list-others :
    (limits : PoolLimits) (objs : Objs) (head item h : ℕ) (xs ys : List ℕ)
    → is_chain limits.max_actions objs head xs ≡ true
    → mem item xs ≡ true
    → length xs ≤ limits.max_actions
    → disjoint xs ys ≡ true
    → is_chain limits.max_actions (remove_from_list limits objs head item).objs h ys
      ≡ is_chain limits.max_actions objs h ys
unfolding remove_from_list
remove_from_list-others limits objs head item h [] ys hc hm hl hj = ground arith
remove_from_list-others limits objs head item h (x ∷ []) ys hc hm hl hj = ground arith
remove_from_list-others limits objs head item h (x ∷ y ∷ xs) ys hc hm hl hj = ground (
  arith,
  unlink_loop-set_next limits limits.max_actions objs item head (y ∷ xs),
  mem-before item head (y ∷ xs),
  disjoint-mem (before item head (y ∷ xs)) (x ∷ y ∷ xs) ys,
  is_chain-set_next limits.max_actions (before item head (y ∷ xs)) (objs item).next_index objs h ys,
)
