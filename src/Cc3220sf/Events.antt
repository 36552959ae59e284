-- ===== src/Cc3220sf/Events.antt =====
-- cc3220sf.c, netdev_wlan_cc3220sf_recv_event: the event at the front of the queue and what it does
-- to the status bits, the counters and the spare registers.
use tisdk_cc32xx_issues.Prelude.{ℕ, Bool, true, false, ◌+◌, ◌%◌, ◌∷◌, [], ◌&&◌, leb, if◌then◌else◌}
use tisdk_cc32xx_issues.Cc3220sf.Types.{
  disconnect, fatal_error, fw_download_done, fw_download_error, fw_download_start, prof_added,
  provisioning_confirm_failed, provisioning_connect_failed, provisioning_connect_success,
  provisioning_ip_acquired, provisioning_ip_failed, provisioning_started, provisioning_stopped,
  provisioning_success, provisioning_timeout, restart, Device, DevEvent, Host, Status, no_status,
  hal_reset,
}
use tisdk_cc32xx_issues.Cc3220sf.Run.{D, ret, resetting, u32}

-- FATAL_ERROR_REBOOT_THRESHOLD
abbrev pub fatal_error_reboot_threshold : ℕ
fatal_error_reboot_threshold = 10

abbrev pub with_status : (Status → Status) → Device → Device
with_status f d = record d { wlan_status = f d.wlan_status }

-- The cases of the switch, but for the wait of FATAL_ERROR
unfoldable pub take_event : DevEvent → Device → Device
take_event DevEvent.stopped d = with_status (λ s. record s { running = false }) d
take_event DevEvent.running d = with_status (λ s. record s { running = true }) d
take_event DevEvent.connected d = with_status (λ s. record s { connected = true }) d
take_event DevEvent.ip_acquired d = with_status (λ s. record s { ip_acquired = true }) d
take_event disconnect d =
    let total = (d.total_disconnects + 1) % u32 in
    record d {
      wlan_status = record d.wlan_status { connected = false };
      total_disconnects = total;
      connected_time = 0;
      reg_discon = total;
    }
take_event provisioning_started d = with_status (λ s. record s { prov_mode = true }) d
take_event provisioning_success d = with_status (λ s. record s { prov_success = true }) d
take_event provisioning_stopped d = with_status (λ s. record s { prov_stopped = true }) d
take_event provisioning_connect_failed d = with_status (λ s. record s { prov_failed = true }) d
take_event provisioning_connect_success d = with_status (λ s. record s { prov_connect = true }) d
take_event provisioning_timeout d = with_status (λ s. record s { prov_failed = true }) d
take_event provisioning_ip_acquired d = with_status (λ s. record s { prov_ip_acquired = true }) d
take_event provisioning_ip_failed d = with_status (λ s. record s { prov_failed = true }) d
take_event provisioning_confirm_failed d = with_status (λ s. record s { prov_failed = true }) d
take_event DevEvent.error d = with_status (λ _. record no_status { fatal = true }) d
take_event restart d = with_status (λ s. record s { reboot_required = true }) d
take_event prof_added d = with_status (λ s. record s { prov_prof_added = true }) d
take_event fatal_error d =
    let total = (d.total_fatal_errors + 1) % u32 in
    record d {
      wlan_status = record no_status { fatal = true };
      fatal_error_count = (d.fatal_error_count + 1) % 256;
      total_fatal_errors = total;
      reg_fatal = total;
    }
take_event fw_download_start d =
    with_status (λ s. record s { fw_dl_start = true; fw_dl_done = false; fw_dl_error = false }) d
take_event fw_download_done d = with_status (λ s. record s { fw_dl_done = true }) d
take_event fw_download_error d =
    with_status (λ s. record s { fw_dl_start = false; fw_dl_done = false; fw_dl_error = true }) d
take_event DevEvent.fw_upgrade d =
    with_status
      (λ s. record s {
        fw_upgrade = true;
        fw_dl_start = false;
        fw_dl_done = false;
        fw_dl_error = false;
        fw_install = false;
      })
      d
take_event DevEvent.fw_install d =
    with_status
      (λ s. record s {
        fw_upgrade = false;
        fw_dl_start = false;
        fw_dl_done = false;
        fw_dl_error = false;
        fw_install = true;
      })
      d
take_event _ d = d

abbrev pub is_fatal_error : DevEvent → Bool
is_fatal_error fatal_error = true
is_fatal_error _ = false

-- The test behind the count of the fatal errors
unfoldable pub must_reset : Host → DevEvent → Device → Bool
must_reset host e d =
    is_fatal_error e
    && (host.reboot_on_fatal_error && leb fatal_error_reboot_threshold d.fatal_error_count)

unfoldable pub handle_taken : Host → DevEvent → D DevEvent
unfolding take_event must_reset
handle_taken host e d =
    let d' = take_event e d in
    if must_reset host e d'
    then resetting (record d' { calls = hal_reset ∷ d'.calls })
    else ret e d'

unfoldable pub recv_event : Host → D DevEvent
unfolding handle_taken
recv_event host d = elim d.event_q [
  | [] ↦ ret DevEvent.invalid d
  | e ∷ es ↦ handle_taken host e (record d { event_q = es })
]
