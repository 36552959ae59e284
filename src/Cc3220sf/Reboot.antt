-- ===== src/Cc3220sf/Reboot.antt =====
-- cc3220sf.c, the statistics at a reset.
use tisdk_cc32xx_issues.Prelude.{pos, ℕ, ◌≡◌}
use tisdk_cc32xx_issues.Cc3220sf.Types.{Device, Host}
use tisdk_cc32xx_issues.Cc3220sf.Run.{Run, resetting}
use tisdk_cc32xx_issues.Cc3220sf.Ops.{exec}
use tisdk_cc32xx_issues.Cc3220sf.After.{After, IsCounted}
use tisdk_cc32xx_issues.Cc3220sf.Steps.{Stepped}
use tisdk_cc32xx_issues.Cc3220sf.Reach.{Reached, Reached-IsSound, IsPowered, exec-serves}

-- Where a reset can find the device: anywhere, or behind a run that has asked for the reset
pub data Halted (host : Host) (d : Device) : Device → Type 0 where
  halted : {e : Device} → Reached host d e → Halted host d e
  asked_reset :
      {u e : Device} (delay : ℕ)
      → Reached host d u
      → exec host delay u ≡ resetting e
      → Halted host d e

resetting-IsCounted :
    {A : Type 0} (P : A → Device → Type 0) (o : Run A) (e : Device)
    → After P o
    → o ≡ resetting e
    → IsCounted e
resetting-IsCounted P o e h q = rw q at h

-- Where probe has read from the three spare registers what they held: whenever the chip can be reset,
-- between any two functions that the threads run or because a run has asked for it, the registers hold
-- the totals of fatal errors, recoveries and disconnections that the descriptor has, each below 2 ^ 32.
-- The count of fatal errors in a row, the timer and the time of the connection are in range, and neither
-- queue is over its bound. What a read of the registers gives after the reset is not part of it.
pub Halted-IsCounted : (host : Host) (d e : Device) → IsPowered d → Halted host d e → IsCounted e
Halted-IsCounted host d e p (halted r) = (Reached-IsSound host d p r).counted
Halted-IsCounted host d e p (asked_reset {u} delay r q) =
    resetting-IsCounted (λ r f. (r ≡ pos 0) × Stepped u f) (exec host delay u) e
      (exec-serves host d u delay p r) q
