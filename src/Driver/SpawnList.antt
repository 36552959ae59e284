-- ===== src/Driver/SpawnList.antt =====
-- driver.c: the list of asynchronous events that a command has read and the spawn task handles, for a
-- system with dynamic memory.
use tisdk_cc32xx_issues.Prelude.{
  ℕ, ◌%◌, ◌^◌, Bool, true, false, ◌&&◌, List, [], ◌∷◌, ◌++◌, Option, length, take, if◌then◌else◌,
}
use tisdk_cc32xx_issues.Driver.Pool.{Pool, signal_obj}
use tisdk_cc32xx_issues.Driver.Classify.{AsyncHandler}
use tisdk_cc32xx_issues.Driver.Generic.{Provisioning, EventTable, Argument, generic_handler}

-- _SlSpawnMsgItem_t
pub record Item : Type 0 where
  pub action_index : ℕ
  pub handler : Option AsyncHandler
  pub buffer : List ℕ

-- spawnMsgList, with the fields of AsyncExt and the items that have been handled
pub record SpawnList : Type 0 where
  pub items : List Item
  pub action_index : ℕ
  pub handler : Option AsyncHandler
  pub handled : List Item

-- _SlSpawnMsgListInsert of `len` bytes of a buffer: what the two allocations return decides whether it
-- returns SL_OS_RET_CODE_OK or SL_RET_CODE_NO_FREE_ASYNC_BUFFERS_ERROR.
unfoldable pub list_insert : Bool → Bool → ℕ → List ℕ → SpawnList → Bool × SpawnList
list_insert item_ok buffer_ok len buffer s =
    if item_ok && buffer_ok
    then (
      true,
      record s {
        items =
            s.items
            ++ record {
              action_index = s.action_index;
              handler = s.handler;
              buffer = take len buffer;
            }
              ∷ [];
      },
    )
    else (false, s)

-- What a round of _SlSpawnMsgListProcess meets: whether the global lock is taken, and the items that
-- commands insert while the handler runs
pub record Round : Type 0 where
  pub lock_ok : Bool
  pub arrivals : List Item

-- The loop of _SlSpawnMsgListProcess. It goes on with the item that was the next one before the handler
-- ran, so that it ends behind the last one of the list, whatever arrives meanwhile.
unfoldable pub process_loop : List Round → SpawnList → SpawnList
process_loop [] s = s
process_loop (r ∷ rounds) s = elim s.items [
  | [] ↦ s
  | x ∷ xs ↦
      let popped = record s {
        items = xs ++ r.arrivals;
        action_index = x.action_index;
        handler = x.handler;
        handled = s.handled ++ x ∷ [];
      } in
      if r.lock_ok then elim xs [ [] ↦ popped | _ ∷ _ ↦ process_loop rounds popped ] else s
]

-- The call of the handler for an item, with the opcode in its buffer
unfoldable pub handle_item :
    Provisioning → EventTable → (List ℕ → ℕ) → Item → Option (AsyncHandler × Argument)
unfolding generic_handler
handle_item prov t opcode x = generic_handler prov t false (opcode x.buffer) x.handler

-- _SlSpawnMsgListGetCount
unfoldable pub list_get_count : SpawnList → ℕ
list_get_count s = length s.items % 2 ^ 16

-- _SlFindAndReleasePendingCmd: the object of the action is signaled if it has arguments for a response,
-- in which the error is stored.
unfoldable pub release_pending_cmd : ℕ → Pool → Pool
release_pending_cmd i p =
    if (p.objs i).has_resp_args then record p { objs = signal_obj i p.objs } else p
