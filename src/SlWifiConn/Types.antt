-- ===== src/SlWifiConn/Types.antt =====
-- slwificonn.c, the types: states, events, the context `SlWifiConn_t`, the settings, and the calls
-- that leave the module. What the SDK's headers define is a field of `Sdk`.
use tisdk_cc32xx_issues.Prelude.{ℕ, Bool, List, Option, ℤ}

-- SLWIFICONN_STATE_e
pub data State : Type 0 where
  off idle wait_for_conn wait_for_ip connected provisioning prov_stopping ext_provisioning : State

-- SLWIFICONN_EVENT_e; `event_max` is the enumeration's last entry and no event.
pub data Event : Type 0 where
  enable disable connected disconnect ip_acquired ip_lost : Event
  prov_success prov_stopped prov_ext_config_ready prov_cloud_confirm_ready : Event
  enable_provisioning add_profile ext_prov_completed : Event
  timeout error reset_request destroy event_max : Event

-- WifiConnProvMode_e
pub data ProvMode : Type 0 where
  off one_shot on : ProvMode

-- WifiConnProvStatus_e
pub data ProvStatus : Type 0 where
  succeed failed stopped : ProvStatus

-- SlNetIfEventId_e, as far as the module uses it
pub data NetIfEvent : Type 0 where
  disconnect mac_connect ip_acquired : NetIfEvent

-- WifiConnEventId_e with the data that goes with it
pub data AppEvent : Type 0 where
  powered_up powered_down : AppEvent
  provisioning_started : ℕ → AppEvent
  provisioning_stopped : ProvStatus → AppEvent
  external_provisioning_start_req external_provisioning_stop_req : AppEvent
  cloud_confirmation_start_req cloud_confirmation_stop_req : AppEvent
  stats_pause stats_resume stats_result : AppEvent

-- The lengths and plain fields of SlWlanSecParamsExt_t
pub record ExtHeader : Type 0 where
  pub user_len : ℕ
  pub anon_user_len : ℕ
  pub cert_index : ℕ
  pub eap_method : ℕ

-- SlWlanSecParamsExt_t with the two names that its pointers lead to
pub record SecExt : Type 0 where
  pub user : List ℕ
  pub anon_user : List ℕ
  pub cert_index : ℕ
  pub eap_method : ℕ

-- SlWlanSecParams_t: the security type, and the key that its pointer and its length describe
pub record SecParams : Type 0 where
  pub sec_type : ℕ
  pub key : List ℕ

-- The arguments of sl_WlanProfileAdd and sl_WlanConnect; `none` is a null pointer.
pub record ProfileArgs : Type 0 where
  pub ssid : List ℕ
  pub bssid : Option (List ℕ)
  pub sec : Option SecParams
  pub ext : Option SecExt

-- profile_t, and in `tail` the bytes behind it: SSID, password, user, anonymous user
pub record Profile : Type 0 where
  pub ssid_len : ℕ
  pub set_bssid : Bool
  pub bssid : List ℕ
  pub sec_type : ℕ
  pub key_len : ℕ
  pub ext : ExtHeader
  pub priority : ℕ
  pub tail : List ℕ

-- DeferredEvent_t
pub record DeferredEvent : Type 0 where
  pub event : Event
  pub params : Option Profile

-- The calls that leave the module, in the order in which they are made
pub data Call : Type 0 where
  sl_start sl_stop : Call
  sleep : ℕ → Call
  wlan_set_mode : ℕ → Call
  wlan_policy_get : Call
  wlan_policy_set_connection : ℕ → Bool → Call
  wlan_policy_set_pm : Call
  wlan_connect : ProfileArgs → Call
  wlan_disconnect : Call
  wlan_profile_add : ProfileArgs → ℕ → Call
  wlan_profile_del_all : Call
  wlan_profile_get : ℕ → Call
  wlan_set_ap_ssid : List ℕ → Call
  wlan_set_ap_security_type : ℕ → Call
  wlan_set_ap_password : List ℕ → Call
  wlan_provisioning_start : ℕ → ℕ → ℕ → ℕ → Call
  wlan_provisioning_stop : Call
  net_cfg_get : Call
  stat_start stat_get stat_stop : Call
  notify_net_if : NetIfEvent → Call
  notify_app : AppEvent → Call
  close_resources : Call

-- WifiConnSettings_t; times are in seconds.
pub record Settings : Type 0 where
  pub connect_timeout : ℕ
  pub ip_timeout : ℕ
  pub reconnect_timeout : ℕ
  pub provisioning_timeout : ℕ
  pub idle_min_interval : ℕ
  pub idle_max_interval : ℕ
  pub ap_ssid : Option (List ℕ)
  pub ap_sec_type : ℕ
  pub ap_password : List ℕ

-- SlWifiConn_t; the acquired addresses are the bytes of their structures. `timer` is the time that the timer was armed with, and 0 while it is disarmed.
pub record Ctx : Type 0 where
  pub state : State
  pub event_q : List Event
  pub deferred_q : List DeferredEvent
  pub timer : ℕ
  pub wifi_app_cb : Bool
  pub role : ℕ
  pub prov_mode : ProvMode
  pub prov_cmd : ℕ
  pub prov_flags : ℕ
  pub delete_all_profiles : Bool
  pub idle_interval : ℕ
  pub connection_ssid : List ℕ
  pub connection_bssid : List ℕ
  pub ip_acquired_v4 : List ℕ
  pub ip_acquired_v6 : List ℕ
  pub non_persistent_profile : Option Profile
  pub wlan_connect_used : Bool
  pub disabled_policy : ℕ
  pub enabled_policy : ℕ
  pub stats_enabled : Bool
  pub stats_interval : ℕ
  pub fatal_error_count : ℕ
  pub recovery_delay_level : ℕ

-- The module's globals. `live` says that g_ctx is not NULL. `prov_registered` says that the three
-- provisioning entries of g_fWifiSM, g_fEnterPROVISIONING and g_fProvStatusHandler are set: the code
-- sets them together. `calls` holds the calls made so far, the last one first.
pub record World : Type 0 where
  pub live : Bool
  pub ctx : Ctx
  pub net_if_cb : Bool
  pub settings : Settings
  pub prov_registered : Bool
  pub profile_count : ℤ
  pub calls : List Call

-- What the SDK decides: its constants, what each call returns after the calls made before it, and
-- what some calls write to their out-parameters. `has_memory` says whether an allocation succeeds,
-- `junk` is what malloc leaves in a fresh block, `unset` an int variable that was never written.
pub record Sdk : Type 0 where
  pub reply : List Call → Call → ℤ
  pub policy : List Call → ℕ
  pub ipv4_mode : List Call → ℕ
  pub ipv4_ip : List Call → ℕ
  pub has_memory : List Call → Bool
  pub junk : List Call → ExtHeader
  pub unset : List Call → ℤ
  pub role_sta : ℕ
  pub role_ap : ℕ
  pub sec_type_open : ℕ
  pub sec_type_wpa_ent : ℕ
  pub addr_static : ℕ
  pub prov_in_progress : ℤ
  pub obj_not_set : ℤ
  pub api_aborted : ℤ
  pub einval : ℤ
  pub enomem : ℤ
  pub invalid_input : ℤ
  pub invalid_role : ℤ
  pub connection_pending : ℤ
  pub malloc_error : ℤ
  pub already_started : ℤ
  pub connection_policy : Bool → Bool → Bool → Bool → ℕ
  pub cmd_apsc_external_configuration : ℕ
  pub flag_external_confirmation : ℕ
