-- ===== src/Cc3220sf/Start.antt =====
-- cc3220sf.c, probe, start, notify and stop: how the device comes to run.
use tisdk_cc32xx_issues.Prelude.{zero, Bool, true, false, [], ℤ, pos, if◌then◌else◌}
use tisdk_cc32xx_issues.Cc3220sf.Types.{
  DevCall, Device, Host, no_status, init, net_if_add, create_sl_task, wifi_conn_init,
  create_wifi_task, ota_init, open_http_queue,
}
use tisdk_cc32xx_issues.Cc3220sf.Run.{D, ◌>>=◌, ◌>>◌, return, modify, call}

-- netdev_wlan_cc3220sf_probe, where a read of a spare register gives what the register holds;
-- ocp-shared-registers.md reports that such a read faults.
unfoldable pub probe : Host → Device → Device
probe host d = record d {
  wlan_mode = host.role_sta;
  state = init;
  sleep_time = 5000;
  last_error = pos 0;
  do_provisioning = false;
  fatal_error_count = 0;
  total_fatal_errors = d.reg_fatal;
  total_recoveries = d.reg_recover;
  total_disconnects = d.reg_discon;
}

-- STATUS_OK and STATUS_FAIL
pub data StartStatus : Type 0 where
  status_ok status_fail : StartStatus

abbrev pub is_zero : ℤ → Bool
is_zero (pos zero) = true
is_zero _ = false

-- The calls of netdev_wlan_cc3220sf_start that must return 0
unfoldable pub must_return_0 : Host → DevCall → D StartStatus → D StartStatus
must_return_0 host c next = do
  ret_val ← call host c
  if is_zero ret_val then next else return status_fail

-- What the count of profiles says
unfoldable pub check_profile_count : Host → D (Unit {0})
check_profile_count host = modify (λ d. record d {
  do_provisioning = if is_zero host.profile_count then true else d.do_provisioning;
  wlan_status = record d.wlan_status { checked_profiles = true };
})

-- netdev_wlan_cc3220sf_start. mq_open of the queue of requests returns NULL when it fails, here a
-- value other than 0.
unfoldable pub start_device : Host → D StartStatus
unfolding must_return_0 check_profile_count
start_device host = do
  modify (λ d. record d { wlan_status = no_status; event_q = []; http_q = [] })
  must_return_0 host open_http_queue (
      must_return_0 host net_if_add (
        must_return_0 host create_sl_task (
          must_return_0 host wifi_conn_init (do
            check_profile_count host
            must_return_0 host create_wifi_task (do
              call host ota_init
              modify (λ d. record d { is_running = true })
              return status_ok)))))

-- netdev_wlan_cc3220sf_stop
unfoldable pub stop_device : Device → Device
stop_device d = record d { is_running = false }
