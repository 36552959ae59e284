-- ===== src/SlWifiConn/Backoff.antt =====
-- slwificonn.c, the growing delay before the network processor is started again, and the counters
-- behind it.
use tisdk_cc32xx_issues.Prelude.{
  ℕ, zero, suc, ◌+◌, ◌*◌, ◌%◌, ◌^◌, ◌≤◌, ◌<◌, ◌≡◌, ◌∷◌, min, arith, ltb, ◌==◌, if◌then◌else◌,
  get_or,
}
use native.Mathlib.Nat.{pow-suc}
use tisdk_cc32xx_issues.SlWifiConn.Types.{Ctx, World, Sdk, sl_start, sl_stop, sleep}
use tisdk_cc32xx_issues.SlWifiConn.Quiet.{After}
use tisdk_cc32xx_issues.SlWifiConn.Nwp.{
  recovery_delays, count_fatal_error, recovery_delay, restart_nwp,
}
use tisdk_cc32xx_issues.SlWifiConn.Enter.{clear_error_tracking, next_idle_interval}

-- The next level of the delay
abbrev next_level : ℕ → ℕ
next_level l = if ltb l 4 then l + 1 else l

level_delays :
    (l : ℕ)
    → l ≤ 4
    → (5 ≤ get_or recovery_delays (next_level l) 0)
      × (get_or recovery_delays (next_level l) 0 ≤ 30)
      × (get_or recovery_delays l 0 ≤ get_or recovery_delays (next_level l) 0)
level_delays zero h = ground arith
level_delays (suc zero) h = ground arith
level_delays (suc (suc zero)) h = ground arith
level_delays (suc (suc (suc zero))) h = ground arith
level_delays (suc (suc (suc (suc zero)))) h = ground arith
level_delays (suc (suc (suc (suc (suc l))))) h = absurd (omega arith)

next_delay :
    (c : Ctx)
    → c.recovery_delay_level ≤ 4
    → (5 ≤ recovery_delay (count_fatal_error c))
      × (recovery_delay (count_fatal_error c) ≤ 30)
      × (recovery_delay c ≤ recovery_delay (count_fatal_error c))
unfolding count_fatal_error recovery_delay
next_delay c h = level_delays c.recovery_delay_level h

-- The restart that ResetNWP begins with: where it returns, it has stopped the network processor,
-- waited, started it, and waited 2 seconds more. The first wait is at least 5 and at most 30 seconds
-- and not shorter than the delay of the level before, if that level was in range.
pub restart_nwp_calls :
    (sdk : Sdk) (w : World)
    → w.ctx.recovery_delay_level ≤ 4
    → After
        (λ _ v.
          (v.calls
            ≡ sleep 2
              ∷ sl_start
              ∷ sleep (recovery_delay (count_fatal_error w.ctx))
              ∷ sl_stop
              ∷ w.calls)
          × (5 ≤ recovery_delay (count_fatal_error w.ctx))
          × (recovery_delay (count_fatal_error w.ctx) ≤ 30)
          × (recovery_delay w.ctx ≤ recovery_delay (count_fatal_error w.ctx))
          × (v.ctx.recovery_delay_level ≤ 4))
        (restart_nwp sdk w)
unfolding restart_nwp
restart_nwp_calls sdk w h = ground (arith, next_delay w.ctx h)

-- `n` resets in a row
pub resets : ℕ → Ctx → Ctx
resets zero c = c
resets (suc n) c = count_fatal_error (resets n c)

pub resets_counters :
    (n : ℕ) (c : Ctx)
    → c.fatal_error_count ≡ 0
    → c.recovery_delay_level ≡ 0
    → ((resets n c).fatal_error_count ≡ n % 256) × ((resets n c).recovery_delay_level ≡ min n 4)
unfolding resets count_fatal_error
resets_counters zero c f l = ground arith
resets_counters (suc n) c f l = ground (arith, resets_counters n c f l)

-- After `n` resets in a row without a connection, the first of them from cleared counters, a
-- connection clears both counters again, unless `n` is a multiple of 256: then the count has wrapped
-- to 0, and the delay stays at the level that it had.
clear_error_tracking-resets :
    (n : ℕ) (c : Ctx)
    → c.fatal_error_count ≡ 0
    → c.recovery_delay_level ≡ 0
    → let d = clear_error_tracking (resets n c) in
      (d.fatal_error_count ≡ 0) × (d.recovery_delay_level ≡ (if n % 256 == 0 then min n 4 else 0))
unfolding clear_error_tracking
clear_error_tracking-resets n c f l = ground (arith, resets_counters n c f l)

-- The idle intervals that EnterIDLE goes through, the first one given
pub idle_intervals : ℕ → ℕ → ℕ → ℕ
idle_intervals maximum first zero = first
idle_intervals maximum first (suc n) = next_idle_interval (idle_intervals maximum first n) maximum

-- The n-th idle interval is the first one doubled n times and held to the maximum, if both are below
-- 32768 and the first one is not above the maximum.
idle_intervals-min :
    (maximum first n : ℕ)
    → first ≤ maximum
    → maximum < 32768
    → idle_intervals maximum first n ≡ min (first * 2 ^ n) maximum
unfolding idle_intervals next_idle_interval
idle_intervals-min maximum first zero h k = ground arith
idle_intervals-min maximum first (suc n) h k =
    let e : first * 2 ^ suc n ≡ first * 2 ^ n * 2 = rw pow-suc (grind arith) in
    rw (e, idle_intervals-min maximum first n h k) (ground arith)
