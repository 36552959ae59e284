-- ===== src/Driver/Slept.antt =====
-- driver.c: when _SlDrvSleep ends.
use tisdk_cc32xx_issues.Prelude.{
  ℕ, ◌+◌, ◌-◌, ◌*◌, ◌/◌, ◌%◌, ◌^◌, ◌≤◌, ◌<◌, Bool, true, false, ◌&&◌, List, [], ◌∷◌, some, ltb, leb,
  ◌||◌, ◌≡◌, refl, sym, ap, subst, ◌∙◌, inl, inr, Bool-cases, arith,
}
use native.Mathlib.Nat.{div-mul-le_self, lt-div-mul-add, mul-le-mul_right, div-add-mod', add-mul}
use tisdk_cc32xx_issues.Driver.Timeout.{
  Clock, TimeoutInfo, start_measure_timeout, delta_ticks, is_timeout_expired, sleep_loop, sleep,
}

-- The timestamps do not go back, and are below 2 ^ 32.
abbrev pub is_rising : ℕ → List ℕ → Bool
is_rising t [] = true
is_rising t (now ∷ times) = (leb t now && ltb now (2 ^ 32)) && is_rising now times

-- Some timestamp is beyond a bound.
abbrev pub goes_beyond : ℕ → List ℕ → Bool
goes_beyond bound [] = false
goes_beyond bound (now ∷ times) = ltb bound now || goes_beyond bound times

is_rising_le :
    (s t : ℕ) (times : List ℕ) → s ≤ t → is_rising t times ≡ true → is_rising s times ≡ true
is_rising_le s t [] h r = refl
is_rising_le s t (now ∷ times) h r = ground arith

module _ (clock : Clock) (total start : ℕ) (positive : 0 < clock.ticks_in_unit) where
  -- The units that are left, of `total` since `start`, and the ticks beyond a whole unit
  record IsMeasured (t : TimeoutInfo) : Type 0 where
    elapsed :
        t.ts_prev + t.units_left * clock.ticks_in_unit
        ≡ start + total * clock.ticks_in_unit + t.remainder
    spent : t.remainder + start ≤ t.ts_prev

  -- The ticks since `start`, but for the whole units
  abbrev count : TimeoutInfo → ℕ → ℕ
  count t now = t.remainder + (now - t.ts_prev)

  count-lem :
      (t : TimeoutInfo) (now : ℕ)
      → IsMeasured t
      → t.ts_prev ≤ now
      → now < 2 ^ 32
      → (t.remainder + delta_ticks clock t now) % 2 ^ 32 ≡ count t now
  unfolding delta_ticks
  count-lem t now m h hn = ground arith

  whole_units :
      (t : TimeoutInfo) (now : ℕ)
      → (count t now / clock.ticks_in_unit * clock.ticks_in_unit ≤ count t now)
        × (count t now
            < count t now / clock.ticks_in_unit * clock.ticks_in_unit + clock.ticks_in_unit)
  whole_units t now = (div-mul-le_self (count t now) clock.ticks_in_unit, lt-div-mul-add positive)

  is_timeout_expired-early :
      (t : TimeoutInfo) (now : ℕ)
      → IsMeasured t
      → t.ts_prev ≤ now
      → now < 2 ^ 32
      → (is_timeout_expired clock t now).is_expired ≡ true
      → start + total * clock.ticks_in_unit ≤ now
  unfolding is_timeout_expired
  is_timeout_expired-early t now m h hn e =
      let units = count t now / clock.ticks_in_unit in
      let used : t.units_left ≤ units = ground (arith, count-lem t now m h hn) in
      let ticks : t.units_left * clock.ticks_in_unit ≤ units * clock.ticks_in_unit =
        mul-le-mul_right clock.ticks_in_unit used in
      omega (arith, m.elapsed, m.spent, ticks, whole_units t now)

  is_timeout_expired-late :
      (t : TimeoutInfo) (now : ℕ)
      → IsMeasured t
      → t.ts_prev ≤ now
      → now < 2 ^ 32
      → (is_timeout_expired clock t now).is_expired ≡ false
      → now ≤ start + total * clock.ticks_in_unit + clock.ticks_in_unit
  unfolding is_timeout_expired
  is_timeout_expired-late t now m h hn e =
      let units = count t now / clock.ticks_in_unit in
      elim (Bool-cases (ltb clock.ticks_in_unit (count t now))) [
        | inl beyond ↦
            let unused : units + 1 ≤ t.units_left = ground (arith, count-lem t now m h hn) in
            let ticks : (units + 1) * clock.ticks_in_unit ≤ t.units_left * clock.ticks_in_unit =
              mul-le-mul_right clock.ticks_in_unit unused in
            omega (arith, m.elapsed, m.spent, ticks, whole_units t now)
        | inr within ↦ ground (arith, m.elapsed, m.spent)
      ]

  is_timeout_expired-IsMeasured :
      (t : TimeoutInfo) (now : ℕ)
      → IsMeasured t
      → t.ts_prev ≤ now
      → now < 2 ^ 32
      → (is_timeout_expired clock t now).is_expired ≡ false
      → IsMeasured (is_timeout_expired clock t now).info
        × ((is_timeout_expired clock t now).info.ts_prev ≤ now)
  unfolding is_timeout_expired
  is_timeout_expired-IsMeasured t now m h hn e =
      let k = clock.ticks_in_unit in
      let units = count t now / k in
      let Good : TimeoutInfo → Type 0 = λ s. IsMeasured s × (s.ts_prev ≤ now) in
      elim (Bool-cases (ltb k (count t now))) [
        | inl beyond ↦
            let unused : units < t.units_left = ground (arith, count-lem t now m h hn) in
            let next : TimeoutInfo = record {
              units_left = t.units_left - units;
              ts_prev = now;
              remainder = count t now % k;
            } in
            let same : (is_timeout_expired clock t now).info ≡ next =
              ground (arith, count-lem t now m h hn) in
            let left : (t.units_left - units) * k + units * k ≡ t.units_left * k =
              sym (add-mul (t.units_left - units) units k) ∙ ap (λ n. n * k) (omega arith) in
            let split = div-add-mod' (count t now) k in
            subst Good (sym same) (
              record {
                elapsed = omega (arith, m.elapsed, m.spent, left, split);
                spent = omega (arith, m.spent, split);
              },
              omega arith,
            )
        | inr within ↦
            let same : (is_timeout_expired clock t now).info ≡ t =
              ground (arith, count-lem t now m h hn) in
            subst Good (sym same) (m, h)
      ]

  -- In time: not before the units are over, and at the first timestamp more than a unit behind that
  sleep_loop_bounds :
      (t : TimeoutInfo) (times : List ℕ)
      → IsMeasured t
      → is_rising t.ts_prev times ≡ true
      → goes_beyond (start + total * clock.ticks_in_unit + clock.ticks_in_unit) times ≡ true
      → (now : ℕ) × (sleep_loop clock t times ≡ some now)
        × (start + total * clock.ticks_in_unit ≤ now)
  unfolding sleep_loop
  sleep_loop_bounds t [] m h g = absurd (cc)
  sleep_loop_bounds t (now ∷ times) m h g =
      let after = (is_timeout_expired clock t now).info in
      elim (Bool-cases (is_timeout_expired clock t now).is_expired) [
        | inl e ↦
            (now, rw e, is_timeout_expired-early t now m (ground (arith, h)) (ground (arith, h)) e)
        | inr e ↦
            let kept =
              is_timeout_expired-IsMeasured t now m (ground (arith, h)) (ground (arith, h)) e in
            rw e (
              sleep_loop_bounds after times kept.0
                (is_rising_le after.ts_prev now times kept.1 (ground (arith, h)))
                (ground (
                  arith,
                  g,
                  is_timeout_expired-late t now m (ground (arith, h)) (ground (arith, h)) e,
                )))
      ]

-- _SlDrvSleep, where the timestamps that it reads do not go back and stay below 2 ^ 32, and one of
-- them lies more than a unit of 10 milliseconds beyond the duration: the call returns, at a
-- timestamp that is not before the duration, in whole units, is over.
pub sleep_bounds :
    (clock : Clock) (msec start : ℕ) (times : List ℕ)
    → 0 < clock.ticks_in_unit
    → is_rising start times ≡ true
    → goes_beyond (start + msec / 10 * clock.ticks_in_unit + clock.ticks_in_unit) times ≡ true
    → (now : ℕ) × (sleep clock msec start times ≡ some now)
      × (start + msec / 10 * clock.ticks_in_unit ≤ now)
unfolding sleep start_measure_timeout
sleep_bounds clock msec start times positive h g =
    sleep_loop_bounds clock (msec / 10) start positive (start_measure_timeout msec start) times
      (record { elapsed = omega arith; spent = omega arith }) h g
