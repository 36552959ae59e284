-- ===== src/Cc3220sf/Types.antt =====
-- drivers/network/wlan/cc3220sf/cc3220sf.c: the states, the events, the status bits and the
-- descriptor of the device.
use tisdk_cc32xx_issues.Prelude.{ℕ, Bool, false, List, ℤ}

-- STATUS_BITS_e: a status word is one field for each bit. The bits that no code reads or writes
-- are left out.
pub record Status : Type 0 where
  pub running : Bool
  pub checked_profiles : Bool
  pub prov_mode : Bool
  pub connected : Bool
  pub ip_acquired : Bool
  pub prov_connect : Bool
  pub prov_ip_acquired : Bool
  pub prov_success : Bool
  pub prov_stopped : Bool
  pub prov_prof_added : Bool
  pub prov_failed : Bool
  pub fw_dl_start : Bool
  pub fw_dl_done : Bool
  pub fw_dl_error : Bool
  pub fw_upgrade : Bool
  pub fw_install : Bool
  pub reboot_required : Bool
  pub fatal : Bool

-- CLR_STATUS_BIT_ALL
abbrev pub no_status : Status
no_status = record {
  running = false;
  checked_profiles = false;
  prov_mode = false;
  connected = false;
  ip_acquired = false;
  prov_connect = false;
  prov_ip_acquired = false;
  prov_success = false;
  prov_stopped = false;
  prov_prof_added = false;
  prov_failed = false;
  fw_dl_start = false;
  fw_dl_done = false;
  fw_dl_error = false;
  fw_upgrade = false;
  fw_install = false;
  reboot_required = false;
  fatal = false;
}

-- CC3220SF_STATE_t
pub data DevState : Type 0 where
  init start check_profiles wait_4_start stop wait_connect_ap wait_ip start_network : DevState
  start_http notify_up notify_down ready idle sleep check_connection get_statistics : DevState
  error start_prov http_message handle_event wait_fw_install wait_provision : DevState

-- CC3220SF_EVENT_t
pub data DevEvent : Type 0 where
  stopped running connected ip_acquired ip_lost ip_leased ip_released disconnect : DevEvent
  sta_added sta_removed prof_added ping_complete provisioning_started : DevEvent
  provisioning_success provisioning_stopped provisioning_wait_conn : DevEvent
  provisioning_connect_failed provisioning_connect_success provisioning_timeout : DevEvent
  provisioning_ip_acquired provisioning_ip_failed provisioning_confirm_failed : DevEvent
  fw_download_start fw_download_done fw_download_error fw_upgrade fw_install : DevEvent
  timeout error fatal_error restart event_max invalid : DevEvent

-- The type of an HTTP request
pub data RequestType : Type 0 where
  http_get http_delete http_post http_put other_request : RequestType

-- SlNetAppRequest_t: the metadata and the payload are lists of bytes.
pub record Request : Type 0 where
  pub app_id : ℕ
  pub request_type : RequestType
  pub handle : ℕ
  pub flags : ℕ
  pub metadata : List ℕ
  pub payload : List ℕ

-- The calls of other modules, as they are recorded
pub data DevCall : Type 0 where
  wifi_conn_enable wifi_conn_disable wifi_conn_deinit wifi_conn_request_reset : DevCall
  wifi_conn_enable_provisioning wifi_conn_disable_stats wifi_conn_init : DevCall
  wifi_conn_enable_stats : ℕ → DevCall
  net_app_start net_app_stop http_init_handlers : DevCall
  set_ap_ssid : List ℕ → DevCall
  http_get_handler http_post_handler : Request → DevCall
  ota_init ota_install ota_restart ota_commit hal_reset : DevCall
  net_if_add create_sl_task create_wifi_task open_http_queue : DevCall
  sleep_for : ℕ → DevCall
  notify_netdev : ℕ → DevCall
  wlan_get_connection : DevCall
  post_wlan_data : List ℕ → ℤ → ℤ → ℕ → ℕ → ℕ → ℕ → DevCall

-- CC3220SF_Desc_t, with the three spare registers of the chip, the bytes that malloc gave and free
-- has not got back, and the calls made, the last one first. `is_running` is its field `running`. The
-- fields that only the log shows, and those that are set once and only handed on, are left out.
pub record Device : Type 0 where
  pub state : DevState
  pub nstate : DevState
  pub pstate : DevState
  pub timer : ℕ
  pub sleep_time : ℕ
  pub is_running : Bool
  pub fatal_error_count : ℕ
  pub total_fatal_errors : ℕ
  pub total_recoveries : ℕ
  pub total_disconnects : ℕ
  pub connected_time : ℕ
  pub wlan_mode : ℕ
  pub wlan_status : Status
  pub last_error : ℤ
  pub event_q : List DevEvent
  pub http_q : List Request
  pub station_ip : ℕ
  pub gateway_ip : ℕ
  pub dns_ip : ℕ
  pub mac_address : List ℕ
  pub reason_code : ℕ
  pub do_provisioning : Bool
  pub ssid_connection : List ℕ
  pub bssid_connection : List ℕ
  pub allocated : ℕ
  pub reg_fatal : ℕ
  pub reg_recover : ℕ
  pub reg_discon : ℕ
  pub calls : List DevCall

-- What stands outside of the file: what each call returns after the calls made before it, the
-- events that other threads send while the device thread sleeps, whether malloc has a block of a
-- size, the profile count of the Wi-Fi connection manager, constants and sizes of headers that are
-- not in the repository, and whether WIFI_REBOOT_ON_FATAL_ERROR is defined.
pub record Host : Type 0 where
  pub reply : List DevCall → DevCall → ℤ
  pub arrivals : List DevCall → List DevEvent
  pub has_block : ℕ → ℕ → Bool
  pub profile_count : ℤ
  pub timed_out : ℤ
  pub request_size : ℕ
  pub through_queue : Request → Request
  pub reboot_on_fatal_error : Bool
  pub role_sta : ℕ
  pub role_ap : ℕ
  pub role_p2p : ℕ
