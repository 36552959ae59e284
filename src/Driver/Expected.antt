-- ===== src/Driver/Expected.antt =====
-- driver.c: which object _SlDrvFindAndSetActiveObj finds in the active list.
use tisdk_cc32xx_issues.Prelude.{
  ℕ, zero, suc, ◌≤◌, Bool, true, false, List, [], ◌∷◌, ◌++◌, length, ltb, ◌≡◌, refl, subst, sym,
  if◌then◌else◌, arith,
}
use tisdk_cc32xx_issues.Driver.Pool.{PoolLimits, Objs, Pool}
use tisdk_cc32xx_issues.Driver.Chains.{is_chain}
use tisdk_cc32xx_issues.Driver.Lookup.{
  Actions, Found, obj_not_set, recv_obj, handled_obj, is_receiving, is_expecting, opcode_for,
  find_loop, find_active_obj, opcode_after, none_waits,
}

-- What a search in the objects of a list may find: nothing, where none waits, or the first that does
pub data IsFirst (limits : PoolLimits) (actions : Actions) (objs : Objs) (sd : ℕ)
    : ℕ → List ℕ → Found → Type 0 where
  nothing :
      (op : ℕ) (xs : List ℕ)
      → none_waits limits actions objs sd op xs ≡ true
      → IsFirst limits actions objs sd op xs obj_not_set
  receives :
      (op : ℕ) (bs : List ℕ) (i : ℕ) (cs : List ℕ)
      → none_waits limits actions objs sd op bs ≡ true
      → is_receiving actions (opcode_after actions objs op (bs ++ i ∷ [])) sd (objs i) ≡ true
      → IsFirst limits actions objs sd op (bs ++ i ∷ cs) (recv_obj i)
  expects :
      (op : ℕ) (bs : List ℕ) (i : ℕ) (cs : List ℕ)
      → none_waits limits actions objs sd op bs ≡ true
      → is_expecting limits actions (opcode_after actions objs op (bs ++ i ∷ [])) sd (objs i) ≡ true
      → IsFirst limits actions objs sd op (bs ++ i ∷ cs) (handled_obj i)

inside : (P : Found → Type 0) (b : Bool) (f g : Found) → b ≡ true → P f → P (if b then f else g)
inside P true f g h pf = pf
inside P false f g h pf = ground arith

outside : (P : Found → Type 0) (b : Bool) (f g : Found) → b ≡ false → P g → P (if b then f else g)
outside P true f g h pg = ground arith
outside P false f g h pg = pg

module _ (limits : PoolLimits) (actions : Actions) (objs : Objs) (sd : ℕ) where
  none_waits-cons :
      (op x : ℕ) (xs : List ℕ)
      → is_receiving actions (opcode_for actions op (objs x)) sd (objs x) ≡ false
      → is_expecting limits actions (opcode_for actions op (objs x)) sd (objs x) ≡ false
      → none_waits limits actions objs sd (opcode_for actions op (objs x)) xs ≡ true
      → none_waits limits actions objs sd op (x ∷ xs) ≡ true
  unfolding none_waits
  none_waits-cons op x xs hr he h = ground arith

  IsFirst-cons :
      (op x : ℕ) (xs : List ℕ) (f : Found)
      → is_receiving actions (opcode_for actions op (objs x)) sd (objs x) ≡ false
      → is_expecting limits actions (opcode_for actions op (objs x)) sd (objs x) ≡ false
      → IsFirst limits actions objs sd (opcode_for actions op (objs x)) xs f
      → IsFirst limits actions objs sd op (x ∷ xs) f
  unfolding opcode_after
  IsFirst-cons op x xs f hr he (nothing _ _ h) =
      nothing op (x ∷ xs) (none_waits-cons op x xs hr he h)
  IsFirst-cons op x xs f hr he (receives _ bs i cs h t) =
      receives op (x ∷ bs) i cs (none_waits-cons op x bs hr he h) t
  IsFirst-cons op x xs f hr he (expects _ bs i cs h t) =
      expects op (x ∷ bs) i cs (none_waits-cons op x bs hr he h) t

  -- One object of the loop, by the results of its two tests
  at_object :
      (op x : ℕ) (xs : List ℕ) (f : Found) (r e : Bool)
      → is_receiving actions (opcode_for actions op (objs x)) sd (objs x) ≡ r
      → is_expecting limits actions (opcode_for actions op (objs x)) sd (objs x) ≡ e
      → IsFirst limits actions objs sd (opcode_for actions op (objs x)) xs f
      → IsFirst limits actions objs sd op
          (x ∷ xs)
          (if r then recv_obj x else if e then handled_obj x else f)
  unfolding opcode_after none_waits
  at_object op x xs f true e hr he h = receives op [] x xs refl hr
  at_object op x xs f false true hr he h = expects op [] x xs refl he
  at_object op x xs f false false hr he h = IsFirst-cons op x xs f hr he h

  find_loop-IsFirst :
      (fuel op idx : ℕ) (xs : List ℕ)
      → is_chain limits.max_actions objs idx xs ≡ true
      → length xs ≤ fuel
      → IsFirst limits actions objs sd op xs (find_loop limits actions fuel objs sd op idx)
  unfolding find_loop none_waits
  find_loop-IsFirst zero op idx [] hc hl = nothing op [] refl
  find_loop-IsFirst zero op idx (x ∷ xs) hc hl = ground arith
  find_loop-IsFirst (suc fuel) op idx [] hc hl =
      outside (IsFirst limits actions objs sd op []) (ltb idx limits.max_actions) _ obj_not_set
        (ground arith) (nothing op [] refl)
  find_loop-IsFirst (suc fuel) op idx (x ∷ xs) hc hl =
      let at_x : idx ≡ x = ground (arith, hc) in
      let now = opcode_for actions op (objs x) in
      subst
        (λ j.
          IsFirst limits actions objs sd op (x ∷ xs)
            (find_loop limits actions (suc fuel) objs sd op j))
        (sym at_x)
        (inside (IsFirst limits actions objs sd op (x ∷ xs)) (ltb x limits.max_actions) _
          obj_not_set (ground (arith, hc))
          (at_object op x xs _ (is_receiving actions now sd (objs x))
            (is_expecting limits actions now sd (objs x)) refl refl
            (find_loop-IsFirst fuel now (objs x).next_index xs (ground (arith, hc))
              (ground (arith, hl)))))

-- _SlDrvFindAndSetActiveObj, where the active list is `xs`: the call finds the first object of the
-- list that waits for the event, and finds none only if no object of the list waits for it. Each
-- object is compared with the opcode that it and the objects in front of it have changed.
pub find_active_obj-IsFirst :
    (limits : PoolLimits) (actions : Actions) (op sd : ℕ) (p : Pool) (xs : List ℕ)
    → is_chain limits.max_actions p.objs p.active_pool_idx xs ≡ true
    → length xs ≤ limits.max_actions
    → IsFirst limits actions p.objs sd op xs (find_active_obj limits actions op sd p)
unfolding find_active_obj
find_active_obj-IsFirst limits actions op sd p xs hc hl =
    find_loop-IsFirst limits actions p.objs sd limits.max_actions op p.active_pool_idx xs hc hl
