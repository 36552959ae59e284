-- ===== src/Cc3220sf/Sample.antt =====
-- cc3220sf.c, concrete hosts and descriptors for the tests.
use tisdk_cc32xx_issues.Prelude.{◌+◌, ltb, ◌∷◌, [], true, false, pos, negsuc}
use tisdk_cc32xx_issues.Cc3220sf.Types.{Device, DevState, Host, Request, no_status, http_get}
use tisdk_cc32xx_issues.Cc3220sf.Run.{Run, ret, resetting, blocked}

-- Every call returns 0, nobody sends during a sleep, and malloc has 100 bytes.
abbrev pub test_host : Host
test_host = record {
  reply = λ _ _. pos 0;
  arrivals = λ _. [];
  has_block = λ used size. ltb (used + size) 101;
  profile_count = pos 1;
  timed_out = negsuc 109;
  through_queue = λ r. r;
  request_size = 20;
  reboot_on_fatal_error = true;
  role_sta = 0;
  role_ap = 2;
  role_p2p = 3;
}

abbrev pub no_reboot_host : Host
no_reboot_host = record test_host { reboot_on_fatal_error = false }

-- Before probe, with 3 fatal errors, 2 recoveries and 7 disconnections in the spare registers
abbrev pub powered : Device
powered = record {
  state = DevState.init;
  nstate = DevState.init;
  pstate = DevState.init;
  timer = 0;
  sleep_time = 0;
  is_running = false;
  fatal_error_count = 0;
  total_fatal_errors = 0;
  total_recoveries = 0;
  total_disconnects = 0;
  connected_time = 0;
  wlan_mode = 0;
  wlan_status = no_status;
  last_error = pos 0;
  event_q = [];
  http_q = [];
  station_ip = 0;
  gateway_ip = 0;
  dns_ip = 0;
  mac_address = 0 ∷ 0 ∷ 0 ∷ 0 ∷ 0 ∷ 0 ∷ [];
  reason_code = 0;
  do_provisioning = false;
  ssid_connection = [];
  bssid_connection = [];
  allocated = 0;
  reg_fatal = 3;
  reg_recover = 2;
  reg_discon = 7;
  calls = [];
}

abbrev pub waiting_ap : Device
waiting_ap = record powered {
  state = DevState.wait_connect_ap;
  wlan_status = record no_status { running = true };
}

abbrev pub a_request : Request
a_request = record {
  app_id = 1;
  request_type = http_get;
  handle = 5;
  flags = 0;
  metadata = 1 ∷ 2 ∷ [];
  payload = 3 ∷ [];
}

-- The descriptor with which a run ends
abbrev pub device_of {ℓ} : {A : Type ℓ} → Run A → Device
device_of (ret a d) = d
device_of (resetting d) = d
device_of (blocked d) = d
