-- ===== src/Driver/LockHeld.antt =====
-- driver.c: whether _SlDrvObjGlobalLockWaitForever leaves the global lock held, and what the counters say.
use tisdk_cc32xx_issues.Prelude.{true, false, ℤ, pos, eq_ℤ, ◌≡◌, arith}
use tisdk_cc32xx_issues.Driver.GlobalLock.{
  DeviceStatus, Codes, LockRequest, Lock, update_api_in_progress, global_obj_un_lock, count_api,
  after_lock, obj_global_lock_wait_forever,
}

-- The error codes are not 0.
unfoldable pub AreErrors : Codes → Type 0
AreErrors codes =
    (eq_ℤ codes.stop_in_progress_code (pos 0) ≡ false)
    × ((eq_ℤ codes.dev_locked (pos 0) ≡ false)
        × ((eq_ℤ codes.api_aborted (pos 0) ≡ false)
            × ((eq_ℤ codes.dev_not_started (pos 0) ≡ false)
                × (eq_ℤ codes.provisioning_in_progress_code (pos 0) ≡ false))))

count_api-held :
    (codes : Codes) (s : DeviceStatus) (request : LockRequest) (l : Lock)
    → AreErrors codes
    → l.held ≡ true
    → (count_api codes s request l).lock.held ≡ eq_ℤ (count_api codes s request l).result (pos 0)
unfolding AreErrors count_api update_api_in_progress global_obj_un_lock
count_api-held codes s request l errors h = ground arith

after_lock-held :
    (codes : Codes) (s : DeviceStatus) (request : LockRequest) (l : Lock)
    → AreErrors codes
    → l.held ≡ true
    → (after_lock codes s request l).lock.held ≡ eq_ℤ (after_lock codes s request l).result (pos 0)
unfolding after_lock
after_lock-held codes s request l errors h = grind (arith, count_api-held)

-- A call of _SlDrvObjGlobalLockWaitForever by a thread that does not hold the global lock leaves it
-- held exactly if it returns 0, whatever the status of the device was before and after the wait, if
-- the error codes of the driver are not 0.
pub obj_global_lock-held :
    (codes : Codes) (before s : DeviceStatus) (os : ℤ) (request : LockRequest) (l : Lock)
    → AreErrors codes
    → l.held ≡ false
    → (obj_global_lock_wait_forever codes before s os request l).lock.held
      ≡ eq_ℤ (obj_global_lock_wait_forever codes before s os request l).result (pos 0)
unfolding obj_global_lock_wait_forever AreErrors
obj_global_lock-held codes before s os request l errors h = grind (arith, after_lock-held)
