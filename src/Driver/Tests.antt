-- ===== src/Driver/Tests.antt =====
-- driver.c, runs of the model of the global lock and of the flow control at concrete inputs.
use tisdk_cc32xx_issues.Prelude.{true, false, [], ◌∷◌, pos, negsuc, ◌≡◌, refl, arith}
use tisdk_cc32xx_issues.Driver.GlobalLock.{
  DeviceStatus, Codes, LockRequest, Lock, driver_is_api_allowed, update_api_in_progress,
  global_obj_un_lock, count_api, after_lock, obj_global_lock_wait_forever,
}
use tisdk_cc32xx_issues.Driver.LockHeld.{AreErrors, obj_global_lock-held}
use tisdk_cc32xx_issues.Driver.FlowControl.{
  Flow, FlowLimits, Pass, AtSend, sent, wait_for_tx, take_packets, alloc_tx_pool_pkts,
  leave_or_retry, data_write_flow,
}
use tisdk_cc32xx_issues.Driver.Reserved.{
  keeps_tx_lock, data_write_flow-tx_lock, data_write_flow-sends,
}

abbrev test_codes : Codes
test_codes = record {
  stop_in_progress_code = negsuc 2003;
  dev_locked = negsuc 2004;
  api_aborted = negsuc 2001;
  dev_not_started = negsuc 2005;
  provisioning_in_progress_code = negsuc 2013;
}

-- A started device that provisions
abbrev provisioning : DeviceStatus
provisioning = record {
  command_allowed = false;
  start_in_progress = false;
  stop_in_progress = false;
  locked = false;
  restart_required = false;
  started = true;
  provisioning_in_progress = false;
  provisioning_active = true;
  provisioning_by_user = false;
  provisioning_api_allowed = false;
}

abbrev any_command : LockRequest
any_command = record {
  update_api_in_progress = true;
  provisioning_stop_api = false;
  is_stop_command = false;
  is_fs_silo = false;
}

abbrev free_lock : Lock
free_lock = record { cnt_requested = 4; cnt_released = 4; held = false; api_in_progress = pos 0 }

obj_global_lock-held_example :
    (obj_global_lock_wait_forever test_codes provisioning provisioning
      (pos 0)
      any_command
      free_lock).lock.held
    ≡ false
unfolding AreErrors obj_global_lock_wait_forever after_lock driver_is_api_allowed count_api
    global_obj_un_lock update_api_in_progress
obj_global_lock-held_example =
    obj_global_lock-held test_codes provisioning provisioning (pos 0) any_command free_lock
      (refl, (refl, (refl, (refl, refl)))) refl

abbrev limits : FlowLimits
limits = record { flow_cont_min = 1; min_tx_payload_size = 1536 }

abbrev idle_flow : Flow
idle_flow = record { tx_pool_cnt = 8; tx_lock_held = false; global_lock_held = false }

abbrev empty_pool : Pass
empty_pool = record {
  pool_at_lock = 1;
  pool_after_wait = 2;
  tx_failure = false;
  non_blocking = false;
  timed_out = false;
  restart_after_wait = false;
}

abbrev full_pool : Pass
full_pool = record (empty_pool) { pool_at_lock = 8 }

abbrev timed_out_pass : Pass
timed_out_pass = record (empty_pool) { timed_out = true }

abbrev at_send : AtSend
at_send = record { lock_refused = false; pool_at_send = 8; restart_at_send = false }

data_write_flow-tx_lock_example :
    (data_write_flow limits 3000 (empty_pool ∷ full_pool ∷ []) at_send idle_flow).flow.tx_lock_held
    ≡ false
unfolding data_write_flow wait_for_tx take_packets leave_or_retry alloc_tx_pool_pkts keeps_tx_lock
data_write_flow-tx_lock_example =
    data_write_flow-tx_lock limits 3000 (empty_pool ∷ full_pool ∷ []) at_send idle_flow refl

-- The first pass finds too few packets, waits, and still finds too few.
data_write_flow-sends_example :
    data_write_flow limits 3000 (empty_pool ∷ full_pool ∷ []) at_send idle_flow ≡ record {
      ending = sent;
      flow = record { tx_pool_cnt = 6; tx_lock_held = false; global_lock_held = true };
    }
unfolding alloc_tx_pool_pkts
data_write_flow-sends_example =
    data_write_flow-sends limits 3000 (empty_pool ∷ []) [] full_pool at_send idle_flow refl refl
      refl (omega arith) refl refl (omega arith)
