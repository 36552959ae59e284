-- ===== src/Spawn/Drain.antt =====
-- The loop of the spawn task serves every interrupt, as long as fewer than 256 wait.
use tisdk_cc32xx_issues.Prelude.{
  ℕ, zero, suc, ◌+◌, ◌%◌, ◌<◌, ◌≤◌, true, false, ◌≡◌, refl, ap, arith,
}
use tisdk_cc32xx_issues.Spawn.Counter.{
  SpawnCb, internal_spawn, serve_irqs, spawn_wait_for_event, interrupts,
}

-- What the loop leaves when `d` interrupts wait
abbrev served : ℕ → SpawnCb → SpawnCb
served d cb = record cb { messages_read = cb.messages_read + d; irq_read_cnt = cb.irq_write_cnt }

serve_irqs-served :
    (fuel d : ℕ) (cb : SpawnCb)
    → d ≤ fuel
    → d < 256
    → cb.irq_read_cnt < 256
    → cb.irq_write_cnt ≡ (cb.irq_read_cnt + d) % 256
    → serve_irqs fuel cb ≡ served d cb
unfolding serve_irqs
serve_irqs-served zero d cb hd h256 hr hw = ground arith
serve_irqs-served (suc fuel) zero cb hd h256 hr hw = ground arith
serve_irqs-served (suc fuel) (suc d) cb hd h256 hr hw = ground (
  arith,
  serve_irqs-served fuel d (record cb {
    messages_read = cb.messages_read + 1;
    irq_read_cnt = (cb.irq_read_cnt + 1) % 256;
  }),
)

-- What an interrupt does
abbrev interrupted : SpawnCb → SpawnCb
interrupted cb = record cb {
  irq_write_cnt = (cb.irq_write_cnt + 1) % 256;
  irq_func_value = 0;
  signaled = true;
}

interrupts-write :
    (n : ℕ) (cb : SpawnCb)
    → cb.irq_write_cnt < 256
    → (interrupts n cb).irq_write_cnt ≡ (cb.irq_write_cnt + n) % 256
unfolding interrupts internal_spawn
interrupts-write zero cb h = omega arith
interrupts-write (suc n) cb h = omega (arith, interrupts-write n (interrupted cb) (omega arith))

interrupts-kept :
    (n : ℕ) (cb : SpawnCb)
    → ((interrupts n cb).irq_read_cnt ≡ cb.irq_read_cnt)
      × ((interrupts n cb).messages_read ≡ cb.messages_read)
unfolding interrupts internal_spawn
interrupts-kept zero cb = (refl, refl)
interrupts-kept (suc n) cb = interrupts-kept n (interrupted cb)

-- After `n` interrupts, fewer than 256 of which the loop has not served, one return of
-- _SlInternalSpawnWaitForEvent reads exactly `n` messages and leaves both counters equal, if they
-- were equal before.
pub spawn_wait_for_event-interrupts :
    (n : ℕ) (cb : SpawnCb)
    → n < 256
    → cb.irq_write_cnt < 256
    → cb.irq_read_cnt ≡ cb.irq_write_cnt
    → ((spawn_wait_for_event (interrupts n cb)).messages_read ≡ cb.messages_read + n)
      × ((spawn_wait_for_event (interrupts n cb)).irq_read_cnt
          ≡ (spawn_wait_for_event (interrupts n cb)).irq_write_cnt)
unfolding spawn_wait_for_event
spawn_wait_for_event-interrupts n cb hn hw hr =
    let woken = record (interrupts n cb) {
      signaled = false;
      lists_processed = (interrupts n cb).lists_processed + 1;
    } in
    let write = interrupts-write n cb hw in
    let kept = interrupts-kept n cb in
    let all =
      serve_irqs-served 256 n woken (omega arith) hn (omega (arith, kept.0))
        (omega (arith, kept.0, write)) in
    (
      omega (arith, ap (λ c. c.messages_read) all, kept.1),
      omega (arith, ap (λ c. c.irq_read_cnt) all, ap (λ c. c.irq_write_cnt) all),
    )

-- After 256 interrupts, with the counters equal before, a return of _SlInternalSpawnWaitForEvent
-- reads no message: the counter of type _u8 has come round to the value it had.
pub spawn_wait_for_event-wraps :
    (cb : SpawnCb)
    → cb.irq_write_cnt < 256
    → cb.irq_read_cnt ≡ cb.irq_write_cnt
    → (spawn_wait_for_event (interrupts 256 cb)).messages_read ≡ cb.messages_read
unfolding spawn_wait_for_event
spawn_wait_for_event-wraps cb hw hr =
    let woken = record (interrupts 256 cb) {
      signaled = false;
      lists_processed = (interrupts 256 cb).lists_processed + 1;
    } in
    let write = interrupts-write 256 cb hw in
    let kept = interrupts-kept 256 cb in
    let all =
      serve_irqs-served 256 0 woken (omega arith) (omega arith) (omega (arith, kept.0))
        (omega (arith, kept.0, write)) in
    omega (arith, ap (λ c. c.messages_read) all, kept.1)
