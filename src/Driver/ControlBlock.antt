-- ===== src/Driver/ControlBlock.antt =====
-- driver.c: the objects of the operating system that _SlDrvDriverCBInit creates and
-- _SlDrvDriverCBDeinit deletes, for a system of several threads. What the two do to the pool is in Init.
use tisdk_cc32xx_issues.Prelude.{
  ℕ, zero, suc, ◌+◌, ◌-◌, Bool, true, false, ◌≡◌, ap, inl, inr, Bool-cases, arith, if◌then◌else◌,
}

-- How many objects of each kind there are, whether the global lock has been created, whether g_pCB
-- points to the control block, and how many calls of the operating system have been made
pub record Objects : Type 0 where
  pub cmd_sync : ℕ
  pub protection_lock : ℕ
  pub pool_sync : ℕ
  pub tx_lock : ℕ
  pub tx_sync : ℕ
  pub select_lock : ℕ
  pub select_sync : ℕ
  pub global_lock : Bool
  pub has_cb : Bool
  pub os_calls : ℕ

-- OSI_RET_OK_CHECK leaves the function with the error of the call.
pub data Outcome : Type 0 where
  ok : Objects → Outcome
  failed : Objects → Outcome

abbrev pub Step : Type 0
Step = Objects → Outcome

abbrev pub and_then : Outcome → Step → Outcome
and_then (ok o) k = k o
and_then (failed o) k = failed o

infixl 5 ◌>>◌
abbrev pub ◌>>◌ : Step → Step → Step
◌>>◌ m k o = and_then (m o) k

-- A call of the operating system: the `n`-th one succeeds if `os n` says so.
abbrev pub os_call : (ℕ → Bool) → (Objects → Objects) → Step
os_call os f o =
    if os o.os_calls
    then ok (record (f o) { os_calls = o.os_calls + 1 })
    else failed (record o { os_calls = o.os_calls + 1 })

-- The loop over the pool
unfoldable pub create_pool : (ℕ → Bool) → ℕ → Step
create_pool os zero = ok
create_pool os (suc left) =
    os_call os (λ o. record o { pool_sync = o.pool_sync + 1 }) >> create_pool os left

-- _SlDrvDriverCBInit: `multi_select` is the condition of the multiple select.
unfoldable pub driver_cb_init : (ℕ → Bool) → ℕ → Bool → Step
unfolding create_pool
driver_cb_init os max_actions multi_select o =
    (os_call os (λ s. record s { cmd_sync = s.cmd_sync + 1 })
        >> (λ s.
            if s.global_lock then ok s else os_call os (λ t. record t { global_lock = true }) s)
        >> os_call os (λ s. record s { protection_lock = s.protection_lock + 1 })
        >> create_pool os max_actions
        >> os_call os (λ s. record s { tx_lock = s.tx_lock + 1 })
        >> os_call os (λ s. record s { tx_sync = s.tx_sync + 1 })
        >> (λ s.
            if multi_select
            then (os_call os (λ t. record t { select_lock = t.select_lock + 1 })
                  >> os_call os (λ t. record t { select_sync = t.select_sync + 1 }))
                s
            else ok s))
      (record o { has_cb = true })

-- _SlDrvDriverCBDeinit
unfoldable pub driver_cb_deinit : (ℕ → Bool) → Bool → Step
driver_cb_deinit os multi_select =
    os_call os (λ s. record s { tx_lock = s.tx_lock - 1 })
    >> os_call os (λ s. record s { tx_sync = s.tx_sync - 1 })
    >> (λ s.
        if multi_select
        then (os_call os (λ t. record t { select_lock = t.select_lock - 1 })
              >> os_call os (λ t. record t { select_sync = t.select_sync - 1 }))
            s
        else ok s)
    >> os_call os (λ s. record s { cmd_sync = s.cmd_sync - 1 })
    >> os_call os (λ s. record s { protection_lock = s.protection_lock - 1 })
    >> (λ s. ok (record s { has_cb = false }))

-- What is left of a number of objects and calls
abbrev pub Leaves : Objects → ℕ → Objects → Type 0
Leaves o max_actions s =
    (s.cmd_sync ≡ o.cmd_sync)
    × (s.protection_lock ≡ o.protection_lock)
    × (s.tx_lock ≡ o.tx_lock)
    × (s.tx_sync ≡ o.tx_sync)
    × (s.select_lock ≡ o.select_lock)
    × (s.select_sync ≡ o.select_sync)
    × (s.pool_sync ≡ o.pool_sync + max_actions)
    × (s.global_lock ≡ true)
    × (s.has_cb ≡ false)

-- The outcome is a success, and has the property.
abbrev pub Ends : (Objects → Type 0) → Outcome → Type 0
Ends P (ok s) = P s
Ends P (failed s) = ⊥

create_pool-lem :
    (n : ℕ) (o : Objects)
    → create_pool (λ _. true) n o
      ≡ ok (record o { pool_sync = o.pool_sync + n; os_calls = o.os_calls + n })
unfolding create_pool
create_pool-lem zero o =
    ap (λ (k : ℕ × ℕ). ok (record o { pool_sync = k.0; os_calls = k.1 })) (ground arith)
create_pool-lem (suc n) o =
    ground (
      arith,
      create_pool-lem n (record o { pool_sync = o.pool_sync + 1; os_calls = o.os_calls + 1 }),
    )

-- _SlDrvDriverCBInit and then _SlDrvDriverCBDeinit, where every call of the operating system succeeds:
-- every object that the first creates the second deletes, but for the global lock, which is kept,
-- and the sync objects of the pool, one for each action; g_pCB is NULL at the end.
pub driver_cb_deinit-driver_cb_init :
    (max_actions : ℕ) (multi_select : Bool) (o : Objects)
    → Ends (Leaves o max_actions) (
        (driver_cb_init (λ _. true) max_actions multi_select
            >> driver_cb_deinit (λ _. true) multi_select)
          o)
unfolding driver_cb_init driver_cb_deinit
driver_cb_deinit-driver_cb_init max_actions true o = elim (Bool-cases o.global_lock) [
  | inl e ↦ rw (e, create_pool-lem) (ground arith)
  | inr e ↦ rw (e, create_pool-lem) (ground arith)
]
driver_cb_deinit-driver_cb_init max_actions false o = elim (Bool-cases o.global_lock) [
  | inl e ↦ rw (e, create_pool-lem) (ground arith)
  | inr e ↦ rw (e, create_pool-lem) (ground arith)
]
