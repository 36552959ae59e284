-- ===== src/Cc3220sf/FatalErrors.antt =====
-- cc3220sf.c, fatal errors of the network processor, one after the other with no connection between
-- them: how they are counted, and when the chip is reset.
use tisdk_cc32xx_issues.Prelude.{
  inl, inr, Bool-cases, ltb, if◌then◌else◌, leb, ◌&&◌, ℕ, zero, suc, ◌+◌, ◌-◌, ◌%◌, ◌<◌, ◌≤◌, ◌≡◌,
  true, false, arith, [],
}
use tisdk_cc32xx_issues.Cc3220sf.Types.{Device, Host}
use tisdk_cc32xx_issues.Cc3220sf.Run.{
  bind, D, Run, ret, resetting, blocked, ◌>>◌, return, modify, u32, send_event,
}
use tisdk_cc32xx_issues.Cc3220sf.Events.{recv_event, handle_taken, take_event, must_reset}
use tisdk_cc32xx_issues.Cc3220sf.Timeouts.{ReturnsWith, ReturnsWith-bind}
use tisdk_cc32xx_issues.Cc3220sf.Handlers.{fatal_error_event_handler}

-- The driver reports an error, and the device thread takes it, `n` times.
unfoldable pub fatal_errors : Host → ℕ → D (Unit {0})
unfolding fatal_error_event_handler recv_event
fatal_errors host zero = return tt
fatal_errors host (suc n) =
    modify fatal_error_event_handler >> (recv_event host >> fatal_errors host n)

-- The counts that `n` errors lead to
pub record HasCounted (count total : ℕ) (d : Device) : Type 0 where
  pub none_waits : d.event_q ≡ []
  pub count_is : d.fatal_error_count ≡ count
  pub total_is : d.total_fatal_errors ≡ total
  pub register_is : d.reg_fatal ≡ total

abbrev pub ResetsWith {ℓ} : {A : Type ℓ} → (Device → Type 0) → Run A → Type 0
ResetsWith P (ret a d) = ⊥
ResetsWith P (resetting d) = P d
ResetsWith P (blocked d) = ⊥

ResetsWith-bind {ℓ κ} :
    {A : Type ℓ} {B : Type κ} {P : Device → Type 0} (Q : Device → Type 0) (f : A → D B) (o : Run A)
    → ReturnsWith P o
    → ((a : A) (d : Device) → P d → ResetsWith Q (f a d))
    → ResetsWith Q (bind o f)
ResetsWith-bind Q f (ret a d) p h = h a d p
ResetsWith-bind Q f (resetting d) p h = absurd p
ResetsWith-bind Q f (blocked d) p h = absurd p

-- Fewer than ten errors in a row, or the reset with the tenth
abbrev pub GoesOnOrResets : ℕ → ℕ → ℕ → Run (Unit {0}) → Type 0
GoesOnOrResets n c t o =
    if ltb (c + n) 10
    then ReturnsWith (HasCounted (c + n) ((t + n) % u32)) o
    else ResetsWith (HasCounted 10 ((t + (10 - c)) % u32)) o

module _ (host : Host) where
  one_error-counted :
      (c t : ℕ) (d : Device)
      → HasCounted c t d
      → host.reboot_on_fatal_error && leb 10 ((c + 1) % 256) ≡ false
      → ReturnsWith
          (HasCounted ((c + 1) % 256) ((t + 1) % u32))
          (recv_event host (fatal_error_event_handler d))
  unfolding fatal_error_event_handler send_event recv_event handle_taken must_reset take_event
  one_error-counted c t d h o = ground arith

  tenth_error-resets :
      (t : ℕ) (d : Device)
      → HasCounted 9 t d
      → host.reboot_on_fatal_error ≡ true
      → ResetsWith (HasCounted 10 ((t + 1) % u32)) (recv_event host (fatal_error_event_handler d))
  unfolding fatal_error_event_handler send_event recv_event handle_taken must_reset take_event
  tenth_error-resets t d h o = ground arith

  -- Without WIFI_REBOOT_ON_FATAL_ERROR, any number of fatal errors is taken without a reset: the count
  -- of consecutive errors wraps at 256, and the lifetime count, also in its spare register, at 2^32.
  fatal_errors-counted :
      (n c t : ℕ) (d : Device)
      → host.reboot_on_fatal_error ≡ false
      → HasCounted c t d
      → c < 256
      → t < u32
      → ReturnsWith (HasCounted ((c + n) % 256) ((t + n) % u32)) (fatal_errors host n d)
  unfolding fatal_errors
  fatal_errors-counted zero c t d o h b l = ground arith
  fatal_errors-counted (suc n) c t d o h b l =
      ReturnsWith-bind _ (λ _. fatal_errors host n) _ (one_error-counted c t d h (ground arith))
        (λ _ e k. ground (arith, fatal_errors-counted n ((c + 1) % 256) ((t + 1) % u32) e o k))

  fatal_errors-return :
      (n c t : ℕ) (d : Device)
      → HasCounted c t d
      → t < u32
      → c + n < 10
      → ReturnsWith (HasCounted (c + n) ((t + n) % u32)) (fatal_errors host n d)
  unfolding fatal_errors
  fatal_errors-return zero c t d h l b = ground arith
  fatal_errors-return (suc n) c t d h l b =
      ReturnsWith-bind _ (λ _. fatal_errors host n) _ (one_error-counted c t d h (ground arith))
        (λ _ e k. ground (arith, fatal_errors-return n (c + 1) ((t + 1) % u32) e))

  ResetsWith-stays {ℓ} :
      {A : Type ℓ} (P : Device → Type 0) (f : A → D (Unit {0})) (o : Run A)
      → ResetsWith P o
      → ResetsWith P (bind o f)
  ResetsWith-stays P f (resetting d) h = h
  ResetsWith-stays P f (ret a d) h = absurd h
  ResetsWith-stays P f (blocked d) h = absurd h

  -- `k` errors are still without a reset.
  fatal_errors-reset :
      (k n t : ℕ) (d : Device)
      → host.reboot_on_fatal_error ≡ true
      → k ≤ 9
      → HasCounted (9 - k) t d
      → t < u32
      → k < n
      → ResetsWith (HasCounted 10 ((t + suc k) % u32)) (fatal_errors host n d)
  unfolding fatal_errors
  fatal_errors-reset k zero t d o b h l a = absurd (omega arith)
  fatal_errors-reset zero (suc n) t d o b h l a =
      ResetsWith-stays (HasCounted 10 ((t + 1) % u32)) (λ _. fatal_errors host n)
        (recv_event host (fatal_error_event_handler d)) (tenth_error-resets t d h o)
  fatal_errors-reset (suc k) (suc n) t d o b h l a =
      ResetsWith-bind (HasCounted 10 ((t + suc (suc k)) % u32)) (λ _. fatal_errors host n) _
        (one_error-counted (9 - suc k) t d h (ground arith))
        (λ _ e m. ground (arith, fatal_errors-reset k n ((t + 1) % u32) e))

  -- With WIFI_REBOOT_ON_FATAL_ERROR, a device with `c` errors in a row, fewer than ten, takes further
  -- errors and goes on as long as there are fewer than ten in all. With the tenth it asks for the reset
  -- of the chip, and neither earlier nor later; the spare register then holds the lifetime count
  -- with all ten in it.
  pub fatal_errors-threshold :
      (n c t : ℕ) (d : Device)
      → host.reboot_on_fatal_error ≡ true
      → HasCounted c t d
      → t < u32
      → c < 10
      → GoesOnOrResets n c t (fatal_errors host n d)
  fatal_errors-threshold n c t d o h l b = elim (Bool-cases (ltb (c + n) 10)) [
    | inl y ↦ rw y (fatal_errors-return n c t d h l (ground arith))
    | inr y ↦ rw y (ground (arith, fatal_errors-reset (9 - c) n t d o))
  ]
