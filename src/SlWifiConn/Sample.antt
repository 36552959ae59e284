-- ===== src/SlWifiConn/Sample.antt =====
-- slwificonn.c, a network processor and globals at which the model is run.
use tisdk_cc32xx_issues.Prelude.{ℕ, [], true, false, none, ℤ, pos, negsuc}
use tisdk_cc32xx_issues.SlWifiConn.Types.{Settings, World, Sdk}
use tisdk_cc32xx_issues.SlWifiConn.Effects.{Outcome, ret}
use tisdk_cc32xx_issues.SlWifiConn.Nwp.{
  init_nwp_conn_policy, suspend_nwp, resume_nwp, restart_nwp, reset_nwp, set_role,
}
use tisdk_cc32xx_issues.SlWifiConn.Deferred.{
  signal_event, deferred_event_process, deferred_event_loop, non_persistent_profile_process,
  add_deferred_profile,
}
use tisdk_cc32xx_issues.SlWifiConn.Enter.{enter_wait_for_conn}
use tisdk_cc32xx_issues.SlWifiConn.States.{
  sm_state_off, enable_from_off, resume_and_connect, try_to_connect,
}
use tisdk_cc32xx_issues.SlWifiConn.Machine.{
  process_round, process_queue, process_event, has_entry, after_handler, dispatch,
}
use tisdk_cc32xx_issues.SlWifiConn.Handlers.{async_evt_timer_handler, signal}
use tisdk_cc32xx_issues.SlWifiConn.Api.{conn_enable, conn_set_role, set_configuration}
use tisdk_cc32xx_issues.SlWifiConn.Init.{
  new_ctx, conn_init, start_module, start_nwp, take_role, delete_profiles_if, prepare_module,
  count_profiles, finish_init, stop_provisioning,
}
use tisdk_cc32xx_issues.SlWifiConn.Moves.{Move, run_move}

-- The constants of the SDK's headers, and a network processor that accepts every call
abbrev pub test_sdk : Sdk
test_sdk = record {
  reply = λ _ _. pos 0;
  policy = λ _. 1;
  ipv4_mode = λ _. 0;
  ipv4_ip = λ _. 0;
  has_memory = λ _. true;
  junk = λ _. record { user_len = 7; anon_user_len = 7; cert_index = 7; eap_method = 7 };
  unset = λ _. negsuc 6;
  role_sta = 0;
  role_ap = 2;
  sec_type_open = 0;
  sec_type_wpa_ent = 5;
  addr_static = 1;
  prov_in_progress = negsuc 2013;
  obj_not_set = negsuc 2004;
  api_aborted = negsuc 2001;
  einval = negsuc 21;
  enomem = negsuc 11;
  invalid_input = negsuc 2000;
  invalid_role = negsuc 1000;
  connection_pending = negsuc 110;
  malloc_error = negsuc 2006;
  already_started = negsuc 2007;
  connection_policy = λ auto _ _ _. elim auto [ true ↦ 1 | false ↦ 0 ];
  cmd_apsc_external_configuration = 5;
  flag_external_confirmation = 1;
}

-- The defaults of `g_settings`
abbrev pub default_settings : Settings
default_settings = record {
  connect_timeout = 3;
  ip_timeout = 6;
  reconnect_timeout = 60;
  provisioning_timeout = 300;
  idle_min_interval = 20;
  idle_max_interval = 120;
  ap_ssid = none;
  ap_sec_type = 0;
  ap_password = [];
}

abbrev pub before_init : World
unfolding new_ctx
before_init = record {
  live = false;
  ctx = new_ctx false;
  net_if_cb = true;
  settings = default_settings;
  prov_registered = false;
  profile_count = negsuc 0;
  calls = [];
}

abbrev pub world_of : Outcome ℤ → World
world_of (ret r w) = w
world_of _ = before_init

abbrev pub world_after : Outcome (Unit {0}) → World
world_after (ret r w) = w
world_after _ = before_init

-- Named on an `unfolding` line, this opens the code that the runs below go through.
unfoldable pub code : ℕ
unfolding conn_init start_module start_nwp take_role set_role delete_profiles_if prepare_module
    count_profiles finish_init stop_provisioning init_nwp_conn_policy suspend_nwp resume_nwp
    reset_nwp run_move process_round process_queue process_event has_entry after_handler dispatch
    conn_enable signal_event sm_state_off enable_from_off resume_and_connect try_to_connect
    enter_wait_for_conn deferred_event_process deferred_event_loop non_persistent_profile_process
    async_evt_timer_handler signal restart_nwp conn_set_role set_configuration add_deferred_profile
code = 0

-- SlWifiConn_init, SlWifiConn_enable, and one round of the state machine
abbrev pub initialised : World
unfolding code
initialised = world_of (conn_init test_sdk true false before_init)

abbrev pub enabled : World
unfolding code
enabled = world_after (run_move test_sdk Move.enable initialised)

abbrev pub connecting : World
unfolding code
connecting = world_after (run_move test_sdk Move.process enabled)
