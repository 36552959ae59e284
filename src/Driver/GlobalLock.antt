-- ===== src/Driver/GlobalLock.antt =====
-- driver.c: _SlDrvDriverIsApiAllowed, _SlDrvObjGlobalLockWaitForever and _SlDrvGlobalObjUnLock. The
-- status tests SL_IS_..., the opcodes and the return codes are macros of headers outside the
-- repository, so they are parameters.
use tisdk_cc32xx_issues.Prelude.{
  ℕ, ◌+◌, suc, zero, Bool, true, false, not, ◌&&◌, ◌||◌, ℤ, pos, negsuc, eq_ℤ, if◌then◌else◌,
}

-- The results of the status tests, in a state of the device
pub record DeviceStatus : Type 0 where
  pub command_allowed : Bool
  pub start_in_progress : Bool
  pub stop_in_progress : Bool
  pub locked : Bool
  pub restart_required : Bool
  pub started : Bool
  pub provisioning_in_progress : Bool
  pub provisioning_active : Bool
  pub provisioning_by_user : Bool
  pub provisioning_api_allowed : Bool

-- The return codes of the driver
pub record Codes : Type 0 where
  pub stop_in_progress_code : ℤ
  pub dev_locked : ℤ
  pub api_aborted : ℤ
  pub dev_not_started : ℤ
  pub provisioning_in_progress_code : ℤ

-- What a caller passes in `Flags`, decoded
pub record LockRequest : Type 0 where
  pub update_api_in_progress : Bool
  pub provisioning_stop_api : Bool
  pub is_stop_command : Bool
  pub is_fs_silo : Bool

-- The globals: the two statistics counters, GlobalLockObj and ApiInProgressCnt
pub record Lock : Type 0 where
  pub cnt_requested : ℕ
  pub cnt_released : ℕ
  pub held : Bool
  pub api_in_progress : ℤ

abbrev pub inc : ℤ → ℤ
inc (pos n) = pos (n + 1)
inc (negsuc zero) = pos 0
inc (negsuc (suc n)) = negsuc n

abbrev pub dec : ℤ → ℤ
dec (pos zero) = negsuc 0
dec (pos (suc n)) = pos n
dec (negsuc n) = negsuc (n + 1)

-- _SlDrvDriverIsApiAllowed
unfoldable pub driver_is_api_allowed : Codes → DeviceStatus → Bool → ℤ
driver_is_api_allowed codes s is_fs_silo =
    if s.command_allowed
    then pos 0
    else if s.stop_in_progress
    then codes.stop_in_progress_code
    else if s.locked && not is_fs_silo
    then codes.dev_locked
    else if s.restart_required
    then codes.api_aborted
    else if not s.started
    then codes.dev_not_started
    else if (s.provisioning_active || s.provisioning_by_user) && not s.provisioning_api_allowed
    then codes.provisioning_in_progress_code
    else pos 0

-- _SlDrvUpdateApiInProgress
unfoldable pub update_api_in_progress : (ℤ → ℤ) → Lock → Lock
update_api_in_progress by l = record l { api_in_progress = by l.api_in_progress }

-- _SlDrvGlobalObjUnLock
unfoldable pub global_obj_un_lock : Bool → Lock → Lock
unfolding update_api_in_progress
global_obj_un_lock decrement l =
    let l' = record l { cnt_released = l.cnt_released + 1; held = false } in
    if decrement then update_api_in_progress dec l' else l'

-- What a call of _SlDrvObjGlobalLockWaitForever leaves: its result and the globals
pub record Taken : Type 0 where
  pub result : ℤ
  pub lock : Lock

-- _SlDrvObjGlobalLockWaitForever, the end: the API in progress counter
unfoldable pub count_api : Codes → DeviceStatus → LockRequest → Lock → Taken
unfolding update_api_in_progress
count_api codes s request l =
    if not request.update_api_in_progress
    then record { result = pos 0; lock = l }
    else if not s.provisioning_active || s.provisioning_api_allowed
    then record { result = pos 0; lock = update_api_in_progress inc l }
    else if not request.provisioning_stop_api
    then record { result = codes.provisioning_in_progress_code; lock = global_obj_un_lock true l }
    else record { result = pos 0; lock = l }

-- _SlDrvObjGlobalLockWaitForever, once sl_LockObjLock has given the lock: the status is read again.
unfoldable pub after_lock : Codes → DeviceStatus → LockRequest → Lock → Taken
after_lock codes s request l =
    let status =
      if request.is_stop_command then pos 0 else driver_is_api_allowed codes s request.is_fs_silo in
    if s.start_in_progress || s.stop_in_progress || s.provisioning_in_progress
    then record { result = pos 0; lock = l }
    else if eq_ℤ status (pos 0)
    then count_api codes s request l
    else record { result = status; lock = record l { held = false } }

-- _SlDrvObjGlobalLockWaitForever: `before` is the status on entry, `s` the one when the lock is
-- given, and `os` is what sl_LockObjLock returned (0 if the lock was taken).
unfoldable pub obj_global_lock_wait_forever :
    Codes → DeviceStatus → DeviceStatus → ℤ → LockRequest → Lock → Taken
obj_global_lock_wait_forever codes before s os request l =
    let requested = record l { cnt_requested = l.cnt_requested + 1 } in
    if before.restart_required
    then record { result = codes.api_aborted; lock = l }
    else if eq_ℤ os (pos 0)
    then after_lock codes s request (record requested { held = true })
    else record { result = os; lock = requested }
