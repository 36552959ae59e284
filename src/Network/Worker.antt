-- ===== src/Network/Worker.antt =====
-- netdevice.c: the loop of a worker thread. What its function returns is a parameter.
use tisdk_cc32xx_issues.Prelude.{
  ℕ, ◌+◌, ◌%◌, ◌^◌, not, ◌&&◌, List, [], ◌∷◌, Option, none, some, ℤ, is_neg, ltb, if◌then◌else◌,
}

-- network_thread_t: the delay between two calls, the time that has been slept, and the calls of the
-- function, with those of Task_sleep
pub record WorkerThread : Type 0 where
  pub delay : ℕ
  pub timer : ℕ
  pub calls : ℕ
  pub sleeps : ℕ

-- A round of the loop, where the function returns `ret`
unfoldable pub worker_round : ℤ → WorkerThread → WorkerThread
worker_round ret t =
    if not (is_neg ret) && ltb 0 t.delay
    then record t {
      calls = t.calls + 1;
      sleeps = t.sleeps + 1;
      timer = (t.timer + t.delay) % 2 ^ 32;
    }
    else record t { calls = t.calls + 1 }

-- network_dev_threadWorkerStub over what the function returns: none is a loop that still runs.
unfoldable pub worker_stub : List ℤ → WorkerThread → Option WorkerThread
unfolding worker_round
worker_stub [] t = none
worker_stub (ret ∷ rets) t =
    let rest = worker_stub rets (worker_round ret t) in
    if is_neg ret then some (worker_round ret t) else rest
