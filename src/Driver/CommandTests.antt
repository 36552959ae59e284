-- ===== src/Driver/CommandTests.antt =====
-- driver.c, runs of the model of the commands and of the messages at concrete inputs.
use tisdk_cc32xx_issues.Prelude.{
  ◌+◌, ◌*◌, ◌/◌, true, false, [], ◌∷◌, pos, negsuc, some, none, ◌≡◌, refl,
}
use tisdk_cc32xx_issues.Driver.GlobalLock.{
  Codes, DeviceStatus, LockRequest, obj_global_lock_wait_forever, after_lock, driver_is_api_allowed,
  count_api,
}
use tisdk_cc32xx_issues.Driver.LockHeld.{AreErrors}
use tisdk_cc32xx_issues.Driver.Commands.{
  Cb, CmdRun, cmd_op, message_read, cmd_resp, async_evt, signaled,
}
use tisdk_cc32xx_issues.Driver.Released.{ReturnsUnlocked, cmd_op-ReturnsUnlocked}
use tisdk_cc32xx_issues.Driver.Answered.{answered_by, IsAnswered, cmd_op-IsAnswered}
use tisdk_cc32xx_issues.Driver.SpawnRead.{
  SpawnRun, read_error, no_flags, msg_read_spawn_ctx, msg_read_spawn_ctx-lock,
}
use tisdk_cc32xx_issues.Driver.MsgWrite.{CmdCtrl, CmdExt, Wire, Sending, msg_write}
use tisdk_cc32xx_issues.Driver.Merged.{IsSound, Sends}
use tisdk_cc32xx_issues.Driver.Message.{message, msg_write-Sends}

abbrev codes : Codes
codes = record {
  stop_in_progress_code = negsuc 2003;
  dev_locked = negsuc 2004;
  api_aborted = negsuc 2001;
  dev_not_started = negsuc 2005;
  provisioning_in_progress_code = negsuc 2013;
}

codes-AreErrors : AreErrors codes
unfolding AreErrors
codes-AreErrors = (refl, (refl, (refl, (refl, refl))))

abbrev running : DeviceStatus
running = record {
  command_allowed = true;
  start_in_progress = false;
  stop_in_progress = false;
  locked = false;
  restart_required = false;
  started = true;
  provisioning_in_progress = false;
  provisioning_active = false;
  provisioning_by_user = false;
  provisioning_api_allowed = false;
}

abbrev stopped : DeviceStatus
stopped = record running { started = false }

abbrev idle : Cb
idle = record {
  lock = record { cnt_requested = 0; cnt_released = 0; held = false; api_in_progress = pos 0 };
  wait_for_cmd_resp = false;
  rx_done_cnt = 0;
  restart_required = false;
  objs = λ _. record {
    next_index = 0;
    action_id = 0;
    additional_data = 0;
    has_resp_args = false;
    signaled = false;
  };
  stored = 0;
  released = 0;
  spawns = 0;
  notified = [];
}

-- A command whose response comes behind an asynchronous message
abbrev answered : CmdRun
answered = record {
  max_actions = 10;
  opcode = 5;
  lock_required = true;
  before = running;
  at_lock = running;
  lock_result = pos 0;
  restart_at_send = false;
  write_result = pos 0;
  passes = signaled ∷ message_read (async_evt true) ∷ message_read cmd_resp ∷ [];
  pending = false;
}

abbrev any_command : LockRequest
any_command = record no_flags { update_api_in_progress = true }

cmd_op-ReturnsUnlocked_example : ReturnsUnlocked (cmd_op codes answered any_command idle)
cmd_op-ReturnsUnlocked_example =
    cmd_op-ReturnsUnlocked codes answered any_command idle codes-AreErrors refl refl

-- Two events come before the response, and there is a buffer for the first only.
cmd_op-IsAnswered_example : IsAnswered (true ∷ false ∷ []) idle (
    cmd_op codes
      (record answered { passes = answered_by (true ∷ false ∷ []) (signaled ∷ []) })
      any_command
      idle)
unfolding obj_global_lock_wait_forever after_lock driver_is_api_allowed count_api
cmd_op-IsAnswered_example =
    cmd_op-IsAnswered codes
      (record answered { passes = answered_by (true ∷ false ∷ []) (signaled ∷ []) }) any_command
      idle (true ∷ false ∷ []) (signaled ∷ []) refl refl refl refl refl

-- A message for a device that is not started
abbrev late_message : SpawnRun
late_message = record {
  max_actions = 10;
  before = stopped;
  at_lock = stopped;
  lock_result = pos 0;
  pending = true;
  pass = read_error;
  closed = negsuc 2017;
}

msg_read_spawn_ctx-lock_example : (msg_read_spawn_ctx codes late_message idle).cb.lock.held ≡ true
unfolding obj_global_lock_wait_forever after_lock driver_is_api_allowed count_api
msg_read_spawn_ctx-lock_example =
    msg_read_spawn_ctx-lock codes late_message idle codes-AreErrors refl

abbrev wire : Wire
wire = record {
  align = λ n. (n + 3) / 4 * 4;
  sync_pattern = 33 ∷ 67 ∷ 52 ∷ 18 ∷ [];
  header = λ opcode len. opcode ∷ len ∷ [];
  calc_len = λ _ _. 12;
  accepts = λ _. true;
}

wire-IsSound : IsSound wire
wire-IsSound = record { aligns = λ _. refl; accepts_all = λ _. refl }

abbrev control : CmdCtrl
control = record { opcode = 7; tx_desc_len = 4; rx_desc_len = 4 }

-- Five bytes and six bytes
abbrev extension : CmdExt
extension = record {
  tx_payload1_len = 5;
  tx_payload2_len = 6;
  rx_payload_len = pos 0;
  tx_payload1 = λ i. 100 + i;
  tx_payload2 = λ i. 200 + i;
  rx_payload = λ _. 0;
}

abbrev nothing_sent : Sending
nothing_sent = record { sent = []; transactions = 0; ext = none }

msg_write-Sends_example :
    Sends
      (message wire control extension (some (λ i. i)))
      nothing_sent
      (msg_write wire control (some extension) (some (λ i. i)) nothing_sent)
msg_write-Sends_example =
    msg_write-Sends wire control extension (some (λ i. i)) nothing_sent wire-IsSound
