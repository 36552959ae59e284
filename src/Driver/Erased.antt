-- ===== src/Driver/Erased.antt =====
-- Lemmas on the lists of the pool when one index is taken out of one of them.
use tisdk_cc32xx_issues.Prelude.{ℕ, suc, true, false, List, [], ◌∷◌, length, ◌≡◌, refl, arith}
use tisdk_cc32xx_issues.Driver.Chains.{mem, distinct, disjoint, erase}

pub mem-erase : (x y : ℕ) (xs : List ℕ) → mem x xs ≡ false → mem x (erase y xs) ≡ false
mem-erase x y [] h = refl
mem-erase x y (z ∷ xs) h = ground (arith, mem-erase x y xs)

pub distinct-erase : (y : ℕ) (xs : List ℕ) → distinct xs ≡ true → distinct (erase y xs) ≡ true
distinct-erase y [] h = refl
distinct-erase y (z ∷ xs) h = ground (arith, distinct-erase y xs, mem-erase z y xs)

pub mem-erase_self : (y : ℕ) (xs : List ℕ) → distinct xs ≡ true → mem y (erase y xs) ≡ false
mem-erase_self y [] h = refl
mem-erase_self y (z ∷ xs) h = ground (arith, mem-erase_self y xs)

pub disjoint-erase_left :
    (y : ℕ) (xs ys : List ℕ) → disjoint xs ys ≡ true → disjoint (erase y xs) ys ≡ true
disjoint-erase_left y [] ys h = refl
disjoint-erase_left y (z ∷ xs) ys h = ground (arith, disjoint-erase_left y xs ys)

pub disjoint-erase_right :
    (y : ℕ) (xs ys : List ℕ) → disjoint xs ys ≡ true → disjoint xs (erase y ys) ≡ true
disjoint-erase_right y [] ys h = refl
disjoint-erase_right y (z ∷ xs) ys h =
    ground (arith, disjoint-erase_right y xs ys, mem-erase z y ys)

pub length-erase : (y : ℕ) (xs : List ℕ) → mem y xs ≡ true → length xs ≡ suc (length (erase y xs))
length-erase y [] h = ground arith
length-erase y (z ∷ xs) h = ground (arith, length-erase y xs)

pub disjoint-right :
    (x : ℕ) (xs ys : List ℕ) → disjoint xs ys ≡ true → mem x ys ≡ true → mem x xs ≡ false
disjoint-right x [] ys h hm = refl
disjoint-right x (z ∷ xs) ys h hm = ground (arith, disjoint-right x xs ys)

pub disjoint-cons :
    (x : ℕ) (xs ys : List ℕ)
    → mem x xs ≡ false
    → disjoint xs ys ≡ true
    → disjoint xs (x ∷ ys) ≡ true
disjoint-cons x [] ys hm h = refl
disjoint-cons x (z ∷ xs) ys hm h = ground (arith, disjoint-cons x xs ys)

pub disjoint-nil : (xs : List ℕ) → disjoint xs [] ≡ true
disjoint-nil [] = refl
disjoint-nil (x ∷ xs) = disjoint-nil xs

pub disjoint-swap : (xs ys : List ℕ) → disjoint xs ys ≡ true → disjoint ys xs ≡ true
disjoint-swap [] ys h = disjoint-nil ys
disjoint-swap (x ∷ xs) ys h =
    disjoint-cons x ys xs (ground arith) (disjoint-swap xs ys (ground arith))
