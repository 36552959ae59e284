-- ===== src/Driver/Chains.antt =====
-- The lists of the pool as lists of indices, and what taking one index out of a list does to them.
use tisdk_cc32xx_issues.Prelude.{
  ℕ, zero, suc, ◌≤◌, Bool, true, false, not, ◌&&◌, List, [], ◌∷◌, length, ltb, ◌==◌, ◌≡◌, refl,
  if◌then◌else◌, arith,
}
use tisdk_cc32xx_issues.Driver.Pool.{PoolLimits, Objs, set_next, unlink_loop}

abbrev pub mem : ℕ → List ℕ → Bool
mem x [] = false
mem x (y ∷ ys) = if x == y then true else mem x ys

abbrev pub distinct : List ℕ → Bool
distinct [] = true
distinct (x ∷ xs) = not (mem x xs) && distinct xs

abbrev pub disjoint : List ℕ → List ℕ → Bool
disjoint [] ys = true
disjoint (x ∷ xs) ys = not (mem x ys) && disjoint xs ys

abbrev pub erase : ℕ → List ℕ → List ℕ
erase x [] = []
erase x (y ∷ ys) = if y == x then ys else y ∷ erase x ys

-- From `head` on, the objects are chained as in the list, and the chain ends with
-- MAX_CONCURRENT_ACTIONS.
abbrev pub is_chain : ℕ → Objs → ℕ → List ℕ → Bool
is_chain max objs head [] = head == max
is_chain max objs head (x ∷ xs) =
    ((head == x) && ltb x max) && is_chain max objs (objs x).next_index xs

pub is_chain-set_next :
    (max i n : ℕ) (objs : Objs) (head : ℕ) (xs : List ℕ)
    → mem i xs ≡ false
    → is_chain max (set_next i n objs) head xs ≡ is_chain max objs head xs
is_chain-set_next max i n objs head [] h = refl
is_chain-set_next max i n objs head (x ∷ xs) h =
    ground (arith, is_chain-set_next max i n objs (objs x).next_index xs)

-- The element in front of `item` in x ∷ xs
abbrev pub before : ℕ → ℕ → List ℕ → ℕ
before item x [] = x
before item x (y ∷ ys) = if y == item then x else before item y ys

pub unlink_loop-set_next :
    (limits : PoolLimits) (fuel : ℕ) (objs : Objs) (item x : ℕ) (xs : List ℕ)
    → is_chain limits.max_actions objs x (x ∷ xs) ≡ true
    → mem item xs ≡ true
    → length xs ≤ fuel
    → unlink_loop limits fuel objs item x ≡ set_next (before item x xs) (objs item).next_index objs
unfolding unlink_loop
unlink_loop-set_next limits fuel objs item x [] hc hm hf = ground arith
unlink_loop-set_next limits zero objs item x (y ∷ ys) hc hm hf = ground arith
unlink_loop-set_next limits (suc fuel) objs item x (y ∷ ys) hc hm hf =
    ground (arith, unlink_loop-set_next limits fuel objs item y ys)
