-- ===== src/Driver/SpawnPool.antt =====
-- driver.c: the buffers of asynchronous events that the spawn task handles, for a system without
-- dynamic memory.
use tisdk_cc32xx_issues.Prelude.{
  ℕ, zero, suc, ◌+◌, ◌<◌, ◌≤◌, ap, ◌∙◌, Bool, true, false, List, [], ◌∷◌, ◌++◌, Option, none, some,
  length, take, set, get_elem?, ◌≡◌, refl, arith,
}
use tisdk_cc32xx_issues.Driver.Classify.{AsyncHandler}
use tisdk_cc32xx_issues.Driver.SpawnList.{Item, Round}

-- g_StatMem.AsyncBufPool, where none is an entry whose ActionIndex is 0xFF, with the fields of AsyncExt
-- and the items that have been handled
pub record SpawnPool : Type 0 where
  pub slots : List (Option Item)
  pub action_index : ℕ
  pub handler : Option AsyncHandler
  pub handled : List Item

-- _SlGetStatSpawnListItem: the first free entry, from the index `i` on
unfoldable pub get_stat_spawn_list_item : ℕ → List (Option Item) → Option ℕ
get_stat_spawn_list_item i [] = none
get_stat_spawn_list_item i (none ∷ slots) = some i
get_stat_spawn_list_item i (some x ∷ slots) = get_stat_spawn_list_item (suc i) slots

-- _SlSpawnMsgListInsert, at the entry that was found; false is
-- SL_RET_CODE_NO_FREE_ASYNC_BUFFERS_ERROR.
unfoldable pub insert_at : Item → Option ℕ → SpawnPool → Bool × SpawnPool
insert_at x none s = (false, s)
insert_at x (some i) s = (true, record s { slots = set s.slots i (some x) })

unfoldable pub pool_insert : ℕ → List ℕ → SpawnPool → Bool × SpawnPool
unfolding get_stat_spawn_list_item insert_at
pool_insert len buffer s =
    insert_at
      (record { action_index = s.action_index; handler = s.handler; buffer = take len buffer })
      (get_stat_spawn_list_item 0 s.slots) s

-- The items that commands insert while a handler runs
unfoldable pub insert_all : List Item → SpawnPool → SpawnPool
unfolding insert_at get_stat_spawn_list_item
insert_all [] s = s
insert_all (x ∷ xs) s = insert_all xs (insert_at x (get_stat_spawn_list_item 0 s.slots) s).1

-- One entry of the loop of _SlSpawnMsgListProcess, which is free after its handler has run
unfoldable pub process_slot : ℕ → Item → List Item → SpawnPool → SpawnPool
unfolding insert_all
process_slot i x arrivals s =
    let after = insert_all arrivals (record s {
      action_index = x.action_index;
      handler = x.handler;
      handled = s.handled ++ x ∷ [];
    }) in
    record after { slots = set after.slots i none }

-- That loop over the entries left, from the index `i` on; each handler that is called is a round.
unfoldable pub process_slots : ℕ → ℕ → List Round → SpawnPool → SpawnPool
unfolding process_slot
process_slots zero i rounds s = s
process_slots (suc left) i rounds s = elim (get_elem? s.slots i) [
  | some (some x) ↦ elim rounds [
    | [] ↦ s
    | r ∷ rest ↦ elim r.lock_ok [
      | true ↦ process_slots left (suc i) rest (process_slot i x r.arrivals s)
      | false ↦ s
    ]
  ]
  | some none ↦ process_slots left (suc i) rounds s
  | none ↦ process_slots left (suc i) rounds s
]

-- _SlSpawnMsgListGetCount
unfoldable pub pool_get_count : List (Option Item) → ℕ
pool_get_count [] = 0
pool_get_count (none ∷ slots) = pool_get_count slots
pool_get_count (some x ∷ slots) = suc (pool_get_count slots)

pool_get_count-length : (slots : List (Option Item)) → pool_get_count slots ≤ length slots
unfolding pool_get_count
pool_get_count-length [] = omega arith
pool_get_count-length (none ∷ slots) = let h = pool_get_count-length slots in omega arith
pool_get_count-length (some x ∷ slots) = let h = pool_get_count-length slots in omega arith

-- What an insertion does to entries that begin at the index `k`
abbrev Inserted : Item → ℕ → List (Option Item) → Option ℕ → Type 0
Inserted x k slots none = pool_get_count slots ≡ length slots
Inserted x k slots (some i) =
    (n : ℕ) × (i ≡ k + n)
    × (pool_get_count (set slots n (some x)) ≡ suc (pool_get_count slots))
    × (pool_get_count slots < length slots)

shift-Inserted :
    (x y : Item) (k : ℕ) (slots : List (Option Item)) (found : Option ℕ)
    → Inserted x (suc k) slots found
    → Inserted x k (some y ∷ slots) found
unfolding pool_get_count
shift-Inserted x y k slots none h = ap suc h
shift-Inserted x y k slots (some i) (n, e, c, l) = (suc n, omega arith, ap suc c, omega arith)

get_stat_spawn_list_item-Inserted :
    (x : Item) (k : ℕ) (slots : List (Option Item))
    → Inserted x k slots (get_stat_spawn_list_item k slots)
unfolding get_stat_spawn_list_item pool_get_count
get_stat_spawn_list_item-Inserted x k [] = refl
get_stat_spawn_list_item-Inserted x k (none ∷ slots) =
    let h = pool_get_count-length slots in (0, omega arith, refl, omega arith)
get_stat_spawn_list_item-Inserted x k (some y ∷ slots) =
    shift-Inserted x y k slots (get_stat_spawn_list_item (suc k) slots)
      (get_stat_spawn_list_item-Inserted x (suc k) slots)

-- What _SlSpawnMsgListInsert returns, with the entries it leaves
abbrev IsCounted : SpawnPool → Bool × SpawnPool → Type 0
IsCounted s (true, after) =
    (pool_get_count after.slots ≡ suc (pool_get_count s.slots))
    × (pool_get_count s.slots < length s.slots)
IsCounted s (false, after) = (after ≡ s) × (pool_get_count s.slots ≡ length s.slots)

insert_at-IsCounted :
    (x : Item) (s : SpawnPool) (found : Option ℕ)
    → Inserted x 0 s.slots found
    → IsCounted s (insert_at x found s)
unfolding insert_at
insert_at-IsCounted x s none h = (refl, h)
insert_at-IsCounted x s (some i) (n, e, c, l) =
    let q : i ≡ n = omega arith in (ap (λ j. pool_get_count (set s.slots j (some x))) q ∙ c, l)

-- An insertion fails, and changes nothing, exactly where every entry is taken; otherwise one more
-- entry is.
pool_insert-IsCounted :
    (len : ℕ) (buffer : List ℕ) (s : SpawnPool) → IsCounted s (pool_insert len buffer s)
unfolding pool_insert
pool_insert-IsCounted len buffer s =
    insert_at-IsCounted
      (record { action_index = s.action_index; handler = s.handler; buffer = take len buffer }) s
      (get_stat_spawn_list_item 0 s.slots)
      (get_stat_spawn_list_item-Inserted
        (record { action_index = s.action_index; handler = s.handler; buffer = take len buffer }) 0
        s.slots)
