-- ===== src/Driver/Fifo.antt =====
-- driver.c: in which order the spawn task handles the stored events.
use tisdk_cc32xx_issues.Prelude.{
  ◌≤◌, ◌+◌, ℕ, zero, suc, ap, length-append, ◌⊎◌, if◌then◌else◌, Bool, true, false, ◌&&◌, List, [],
  ◌∷◌, ◌++◌, length, ◌≡◌, refl, sym, inl, inr, Bool-cases, ◌∙◌, arith,
}
use tisdk_cc32xx_issues.Driver.SpawnList.{Item, SpawnList, Round, process_loop}
use mathlib.Core.List.{append_assoc, append-nil}

abbrev is_nil : List Item → Bool
is_nil [] = true
is_nil (x ∷ xs) = false

-- The lock is taken in every round, and no command inserts an item meanwhile.
abbrev pub are_quiet : List Round → Bool
are_quiet [] = true
are_quiet (r ∷ rounds) = (r.lock_ok && is_nil r.arrivals) && are_quiet rounds

-- What arrives in the first `k` rounds
abbrev pub arrived : ℕ → List Round → List Item
arrived zero rounds = []
arrived (suc k) [] = []
arrived (suc k) (r ∷ rounds) = r.arrivals ++ arrived k rounds

-- How many rounds take the lock before the first one that does not
abbrev pub locks : List Round → ℕ
locks [] = 0
locks (r ∷ rounds) = if r.lock_ok then suc (locks rounds) else 0

-- What the rounds make of the items `xs`: `k` items are handled, all of `xs` or as many as the lock is
-- taken for, and the rest, with what has arrived meanwhile, is in the list.
unfoldable pub Ordered : List Round → SpawnList → List Item → SpawnList → Type 0
Ordered rounds s xs t =
    (k : ℕ) × (length t.handled ≡ length s.handled + k)
    × (t.handled ++ t.items ≡ (s.handled ++ xs) ++ arrived k rounds)
    × ((length xs ≤ k) ⊎ (k ≡ locks rounds))

regroup :
    (h : List Item) (x : Item) (xs new more : List Item)
    → ((h ++ x ∷ []) ++ (xs ++ new)) ++ more ≡ (h ++ x ∷ xs) ++ (new ++ more)
regroup h x xs new more = simp append_assoc

length-snoc : (h : List Item) (x : Item) → length (h ++ x ∷ []) ≡ length h + 1
length-snoc [] x = refl
length-snoc (y ∷ h) x = omega (arith, length-snoc h x)

more_handled :
    (x : Item) (xs new : List Item) (k m : ℕ)
    → (length (xs ++ new) ≤ k) ⊎ (k ≡ m)
    → (length (x ∷ xs) ≤ suc k) ⊎ (suc k ≡ suc m)
more_handled x xs new k m (inl h) = inl (omega (arith, h, length-append xs new))
more_handled x xs new k m (inr h) = inr (ap suc h)

process_loop-Ordered :
    (rounds : List Round) (xs : List Item) (s : SpawnList)
    → Ordered rounds s xs (process_loop rounds (record s { items = xs }))
unfolding process_loop Ordered
process_loop-Ordered [] xs s = (0, omega arith, sym (append-nil _), inr refl)
process_loop-Ordered (r ∷ rounds) [] s = (0, omega arith, sym (append-nil _), inl (omega arith))
process_loop-Ordered (r ∷ rounds) (x ∷ []) s = elim (Bool-cases r.lock_ok) [
  | inl e ↦ rw e (
    1,
    length-snoc s.handled x,
    ap (λ ys. (s.handled ++ x ∷ []) ++ ys) (sym (append-nil _)),
    inl (omega arith),
  )
  | inr e ↦ rw e (0, omega arith, sym (append-nil _), inr refl)
]
process_loop-Ordered (r ∷ rounds) (x ∷ y ∷ ys) s =
    let popped = record s {
      action_index = x.action_index;
      handler = x.handler;
      handled = s.handled ++ x ∷ [];
    } in
    let rest = process_loop-Ordered rounds ((y ∷ ys) ++ r.arrivals) popped in
    elim (Bool-cases r.lock_ok) [
      | inl e ↦ rw e (
        suc rest.0,
        omega (arith, rest.1, length-snoc s.handled x),
        rest.2 ∙ regroup s.handled x (y ∷ ys) r.arrivals (arrived rest.0 rounds),
        more_handled x (y ∷ ys) r.arrivals rest.0 (locks rounds) rest.3,
      )
      | inr e ↦ rw e (0, omega arith, sym (append-nil _), inr refl)
    ]

is_nil-eq : (xs : List Item) → is_nil xs ≡ true → xs ≡ []
is_nil-eq [] h = refl
is_nil-eq (x ∷ xs) h = absurd (cc)

quiet_round :
    (r : Round) (rounds : List Round)
    → are_quiet (r ∷ rounds) ≡ true
    → (r.lock_ok ≡ true) × (r.arrivals ≡ []) × (are_quiet rounds ≡ true)
quiet_round r rounds h = ground (arith, h, is_nil-eq r.arrivals)

process_loop-quiet :
    (rounds : List Round) (xs : List Item) (s : SpawnList)
    → are_quiet rounds ≡ true
    → length xs ≤ length rounds
    → ((process_loop rounds (record s { items = xs })).handled ≡ s.handled ++ xs)
      × ((process_loop rounds (record s { items = xs })).items ≡ [])
unfolding process_loop
process_loop-quiet [] [] s h hl = (sym (append-nil _), refl)
process_loop-quiet [] (x ∷ xs) s h hl = absurd (omega arith)
process_loop-quiet (r ∷ rounds) [] s h hl = (sym (append-nil _), refl)
process_loop-quiet (r ∷ rounds) (x ∷ []) s h hl =
    let q = quiet_round r rounds h in rw (q.0, q.1) (refl, refl)
process_loop-quiet (r ∷ rounds) (x ∷ y ∷ ys) s h hl =
    let q = quiet_round r rounds h in
    let popped = record s {
      action_index = x.action_index;
      handler = x.handler;
      handled = s.handled ++ x ∷ [];
    } in
    let rest = process_loop-quiet rounds (y ∷ ys) popped q.2 (omega (arith, hl)) in
    rw (q.0, q.1, append-nil (y ∷ ys)) (rest.0 ∙ append_assoc s.handled (x ∷ []) (y ∷ ys), rest.1)

-- Whatever arrives in the rounds of _SlSpawnMsgListProcess: some number `k` of items are handled, at least
-- the whole old list, or as many as there are rounds before the first one that does not get the lock.
-- What has been handled, followed by the list, is what had been handled, the old list and all that
-- arrived in those `k` rounds, in this order.
pub process_loop-order :
    (rounds : List Round) (s : SpawnList) → Ordered rounds s s.items (process_loop rounds s)
process_loop-order rounds s = process_loop-Ordered rounds s.items s

-- If the lock is taken in every round, no event arrives meanwhile, and there is a round for each item,
-- _SlSpawnMsgListProcess handles every item of the list, in its order, and the list is empty.
pub process_loop-all :
    (rounds : List Round) (s : SpawnList)
    → are_quiet rounds ≡ true
    → length s.items ≤ length rounds
    → ((process_loop rounds s).handled ≡ s.handled ++ s.items)
      × ((process_loop rounds s).items ≡ [])
process_loop-all rounds s h hl = process_loop-quiet rounds s.items s h hl
