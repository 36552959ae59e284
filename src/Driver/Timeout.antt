-- ===== src/Driver/Timeout.antt =====
-- driver.c: the measurement of a timeout with the timestamps of the application, and _SlDrvSleep, which
-- waits for one to expire. Timestamps and ticks are of type _u32.
use tisdk_cc32xx_issues.Prelude.{
  ℕ, ◌+◌, ◌-◌, ◌/◌, ◌%◌, ◌^◌, Bool, true, false, List, [], ◌∷◌, Option, none, some, ltb, leb,
  if◌then◌else◌,
}

-- SL_TIMESTAMP_TICKS_IN_10_MILLISECONDS and SL_TIMESTAMP_MAX_VALUE
pub record Clock : Type 0 where
  pub ticks_in_unit : ℕ
  pub max_value : ℕ

-- _SlTimeoutParams_t: `units_left` is Total10MSecUnits, which is only compared with 0, and stays at 0
-- where the source may go below.
pub record TimeoutInfo : Type 0 where
  pub units_left : ℕ
  pub ts_prev : ℕ
  pub remainder : ℕ

-- _SlDrvStartMeasureTimeout at the time `now`
unfoldable pub start_measure_timeout : ℕ → ℕ → TimeoutInfo
start_measure_timeout msec now = record { units_left = msec / 10; ts_prev = now; remainder = 0 }

-- DeltaTicks
unfoldable pub delta_ticks : Clock → TimeoutInfo → ℕ → ℕ
delta_ticks clock t now =
    if leb t.ts_prev now then now - t.ts_prev else (clock.max_value - t.ts_prev + now) % 2 ^ 32

-- What _SlDrvIsTimeoutExpired returns, and the parameters behind it
pub record Asked : Type 0 where
  pub is_expired : Bool
  pub info : TimeoutInfo

-- _SlDrvIsTimeoutExpired at the time `now`
unfoldable pub is_timeout_expired : Clock → TimeoutInfo → ℕ → Asked
unfolding delta_ticks
is_timeout_expired clock t now =
    let count = (t.remainder + delta_ticks clock t now) % 2 ^ 32 in
    let left = t.units_left - count / clock.ticks_in_unit in
    if ltb clock.ticks_in_unit count
    then (if ltb 0 left
        then record {
          is_expired = false;
          info = record {
            units_left = left;
            ts_prev = now;
            remainder = count % clock.ticks_in_unit;
          };
        }
        else record {
          is_expired = true;
          info = record t { units_left = left; remainder = count % clock.ticks_in_unit };
        })
    else record { is_expired = false; info = t }

-- The loop of _SlDrvSleep over the timestamps that it reads: the one at which it ends
unfoldable pub sleep_loop : Clock → TimeoutInfo → List ℕ → Option ℕ
unfolding is_timeout_expired
sleep_loop clock t [] = none
sleep_loop clock t (now ∷ times) =
    let asked = is_timeout_expired clock t now in
    let rest = sleep_loop clock asked.info times in if asked.is_expired then some now else rest

-- _SlDrvSleep, begun at the time `start`
unfoldable pub sleep : Clock → ℕ → ℕ → List ℕ → Option ℕ
unfolding start_measure_timeout sleep_loop
sleep clock msec start times = sleep_loop clock (start_measure_timeout msec start) times
