-- ===== src/Spawn/Tests.antt =====
-- spawn.c, runs of the model at concrete inputs.
use tisdk_cc32xx_issues.Prelude.{◌≡◌, refl, arith}
use tisdk_cc32xx_issues.Spawn.Counter.{spawn_task_entry, spawn_wait_for_event, interrupts}
use tisdk_cc32xx_issues.Spawn.Drain.{spawn_wait_for_event-interrupts, spawn_wait_for_event-wraps}

spawn_wait_for_event-interrupts_example :
    ((spawn_wait_for_event (interrupts 3 spawn_task_entry)).messages_read ≡ 3)
    × ((spawn_wait_for_event (interrupts 3 spawn_task_entry)).irq_read_cnt
        ≡ (spawn_wait_for_event (interrupts 3 spawn_task_entry)).irq_write_cnt)
unfolding spawn_task_entry
spawn_wait_for_event-interrupts_example =
    spawn_wait_for_event-interrupts 3 spawn_task_entry (omega arith) (omega arith) refl

spawn_wait_for_event-wraps_example :
    (spawn_wait_for_event (interrupts 256 spawn_task_entry)).messages_read ≡ 0
unfolding spawn_task_entry
spawn_wait_for_event-wraps_example = spawn_wait_for_event-wraps spawn_task_entry (omega arith) refl
