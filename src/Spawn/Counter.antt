-- ===== src/Spawn/Counter.antt =====
-- spawn.c: the two interrupt counters of g_SlInternalSpawnCB, the call that raises one of them, and
-- the loop of the task that brings the other one level.
use tisdk_cc32xx_issues.Prelude.{
  ℕ, zero, suc, ◌+◌, ◌%◌, Bool, true, false, ◌||◌, ◌==◌, if◌then◌else◌,
}

-- The bits of `flags` that _SlInternalSpawn looks at
pub record SpawnFlags : Type 0 where
  pub from_sl_irq_handler : Bool
  pub from_cmd_ctx : Bool
  pub from_cmd_process : Bool

-- _SlInternalSpawnCB_t: the counters are of type _u8. `signaled` is the binary SyncObj,
-- `messages_read` counts the calls of _SlDrvMsgReadSpawnCtx and `lists_processed` those of
-- _SlSpawnMsgListProcess.
pub record SpawnCb : Type 0 where
  pub signaled : Bool
  pub irq_write_cnt : ℕ
  pub irq_read_cnt : ℕ
  pub irq_func_value : ℕ
  pub messages_read : ℕ
  pub lists_processed : ℕ

-- _SlInternalSpawnTaskEntry, up to its loop
unfoldable pub spawn_task_entry : SpawnCb
spawn_task_entry = record {
  signaled = false;
  irq_write_cnt = 0;
  irq_read_cnt = 0;
  irq_func_value = 0;
  messages_read = 0;
  lists_processed = 0;
}

-- _SlInternalSpawn; it returns 0 always.
unfoldable pub internal_spawn : ℕ → SpawnFlags → SpawnCb → SpawnCb
internal_spawn value flags cb =
    if flags.from_sl_irq_handler || flags.from_cmd_ctx
    then record cb {
      irq_write_cnt = (cb.irq_write_cnt + 1) % 256;
      irq_func_value = value;
      signaled = true;
    }
    else if flags.from_cmd_process
    then record cb { signaled = true }
    else cb

-- The while loop of _SlInternalSpawnWaitForEvent, on fuel
unfoldable pub serve_irqs : ℕ → SpawnCb → SpawnCb
serve_irqs zero cb = cb
serve_irqs (suc fuel) cb = elim (cb.irq_write_cnt == cb.irq_read_cnt) [
  | true ↦ cb
  | false ↦ serve_irqs fuel (record cb {
    messages_read = cb.messages_read + 1;
    irq_read_cnt = (cb.irq_read_cnt + 1) % 256;
  })
]

-- _SlInternalSpawnWaitForEvent, once sl_SyncObjWait has returned
unfoldable pub spawn_wait_for_event : SpawnCb → SpawnCb
spawn_wait_for_event cb =
    serve_irqs 256 (record cb { signaled = false; lists_processed = cb.lists_processed + 1 })

-- `n` calls of _SlInternalSpawn from the interrupt handler
unfoldable pub interrupts : ℕ → SpawnCb → SpawnCb
interrupts zero cb = cb
interrupts (suc n) cb = interrupts n (
    internal_spawn 0
      (record { from_sl_irq_handler = true; from_cmd_ctx = false; from_cmd_process = false }) cb)
