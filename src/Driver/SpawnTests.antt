-- ===== src/Driver/SpawnTests.antt =====
-- driver.c, runs of the model of the entries for asynchronous events without dynamic memory.
use tisdk_cc32xx_issues.Prelude.{ℕ, [], ◌∷◌, none, some, true, ◌≡◌, refl}
use tisdk_cc32xx_issues.Driver.SpawnList.{Item, Round}
use tisdk_cc32xx_issues.Driver.SpawnPool.{
  SpawnPool, get_stat_spawn_list_item, insert_at, insert_all, process_slot, process_slots,
}

abbrev item : ℕ → Item
item k = record { action_index = k; handler = none; buffer = [] }

abbrev three_slots : SpawnPool
three_slots = record {
  slots = some (item 1) ∷ some (item 2) ∷ none ∷ [];
  action_index = 0;
  handler = none;
  handled = [];
}

abbrev quiet : Round
quiet = record { lock_ok = true; arrivals = [] }

-- Two items arrive while the second entry is handled: the later one is handled, the earlier waits.
later_first :
    process_slots 3 0
      (quiet ∷ record { lock_ok = true; arrivals = item 3 ∷ item 4 ∷ [] } ∷ quiet ∷ [])
      three_slots
    ≡ record three_slots {
      slots = some (item 3) ∷ none ∷ none ∷ [];
      action_index = 4;
      handled = item 1 ∷ item 2 ∷ item 4 ∷ [];
    }
unfolding get_stat_spawn_list_item insert_at insert_all process_slot process_slots
later_first = refl
