-- ===== src/SlWifiConn/Api.antt =====
-- slwificonn.c, the public functions that other threads call, SlWifiConn_init apart. Each checks
-- that the module is initialised, and most hand an event to the state machine.
use tisdk_cc32xx_issues.Prelude.{
  ℕ, ◌/◌, ◌%◌, Bool, true, false, not, ◌&&◌, Option, none, some, ℤ, pos, to_u8, ltb, ◌==◌,
  if◌then◌else◌,
}
use tisdk_cc32xx_issues.SlWifiConn.Types.{
  State, off, ext_provisioning, Event, enable, enable_provisioning, ext_prov_completed,
  reset_request, destroy, ProvMode, Settings, World, Sdk,
}
use tisdk_cc32xx_issues.SlWifiConn.Effects.{
  M, ret, ◌>>=◌, ◌>>◌, return, modify, get, when, start_async_evt_timer, stop_async_evt_timer,
}
use tisdk_cc32xx_issues.SlWifiConn.Nwp.{reset_nwp, set_role}
use tisdk_cc32xx_issues.SlWifiConn.Deferred.{signal_event}
use tisdk_cc32xx_issues.SlWifiConn.Stats.{is_connected}
use tisdk_cc32xx_issues.SlWifiConn.Enter.{cmd_external_configuration}

-- VERIFY_INITIALIZED
abbrev pub verify_initialized : Sdk → M ℤ → M ℤ
verify_initialized sdk m w = if w.live then m w else ret sdk.api_aborted w

abbrev pub is_off : State → Bool
is_off off = true
is_off _ = false

-- SlWifiConn_deinit
unfoldable pub conn_deinit : Sdk → M ℤ
conn_deinit sdk = verify_initialized sdk (do
  w ← get
  if is_off w.ctx.state
      then (do signal_event sdk destroy; return (pos 0))
      else return sdk.connection_pending)

-- SlWifiConn_setDeleteAllProfiles
unfoldable pub set_delete_all_profiles : M (Unit {0})
set_delete_all_profiles = do
  w ← get
  when w.live (modify (λ c. record c { delete_all_profiles = true }))

-- SlWifiConn_enable
unfoldable pub conn_enable : Sdk → M ℤ
conn_enable sdk = verify_initialized sdk (do
  w ← get
  if not (w.ctx.role == sdk.role_sta) then return sdk.invalid_role else signal_event sdk enable)

-- SlWifiConn_disable
unfoldable pub conn_disable : Sdk → M ℤ
conn_disable sdk = verify_initialized sdk (signal_event sdk Event.disable)

-- SLWIFICONN_PROV_FLAG_EXTERNAL_CONFIRMATION and SLWIFICONN_PROV_FLAG_FORCE_PROVISIONING
abbrev pub asks_external_confirmation : ℕ → Bool
asks_external_confirmation flags = flags % 2 == 1

abbrev pub forces_provisioning : ℕ → Bool
forces_provisioning flags = flags / 2 % 2 == 1

-- The commands that SlWifiConn_enableProvisioning takes
unfoldable pub is_prov_command : Sdk → ℕ → Bool
is_prov_command sdk command =
    not (
      ltb sdk.cmd_apsc_external_configuration command
      && not (command == cmd_external_configuration))

-- The three entries of g_fWifiSM, g_fEnterPROVISIONING and g_fProvStatusHandler are set.
unfoldable pub register_provisioning : M (Unit {0})
register_provisioning w = ret tt (record w { prov_registered = true })

-- SlWifiConn_enableProvisioning: `none` is a mode above WifiProvMode_ON.
unfoldable pub conn_enable_provisioning : Sdk → Option ProvMode → ℕ → ℕ → M ℤ
unfolding is_prov_command register_provisioning
conn_enable_provisioning sdk none command flags = verify_initialized sdk (return sdk.einval)
conn_enable_provisioning sdk (some mode) command flags = verify_initialized sdk (
    if not (is_prov_command sdk command) then return sdk.einval else do
      register_provisioning
      modify (λ c. record c { prov_cmd = command; prov_mode = mode })
      when (forces_provisioning flags) (modify (λ c. record c { delete_all_profiles = true }))
      when (asks_external_confirmation flags)
          (modify (λ c. record c { prov_flags = sdk.flag_external_confirmation }))
      signal_event sdk enable_provisioning
      return (pos 0))

-- SlWifiConn_externalProvsioningCompleted
unfoldable pub conn_external_provisioning_completed : Sdk → M ℤ
conn_external_provisioning_completed sdk =
    verify_initialized sdk (signal_event sdk ext_prov_completed)

-- SlWifiConn_registerNetIFCallback: `b` says that the callback is not NULL.
unfoldable pub register_net_if_callback : Bool → M ℤ
register_net_if_callback b w = ret (pos 0) (record w { net_if_cb = b })

-- SlWifiConn_getConfiguration: `some` is the structure that it fills.
unfoldable pub get_configuration : Sdk → Option Settings → World → ℤ × Option Settings
get_configuration sdk none w = (sdk.invalid_input, none)
get_configuration sdk (some old) w = (pos 0, some w.settings)

-- SlWifiConn_setConfiguration
unfoldable pub set_configuration : Sdk → Option Settings → M ℤ
set_configuration sdk none w = ret sdk.invalid_input w
set_configuration sdk (some new) w =
    if ltb new.provisioning_timeout 30
    then ret sdk.invalid_input w
    else ret (pos 0) (record w { settings = new })

abbrev pub may_set_role : State → Bool
may_set_role off = true
may_set_role ext_provisioning = true
may_set_role _ = false

-- SlWifiConn_setRole: the role is overwritten by what SetRole returns.
unfoldable pub conn_set_role : Sdk → ℕ → M ℤ
conn_set_role sdk role = verify_initialized sdk (do
  w ← get
  if may_set_role w.ctx.state
      then (do r ← set_role sdk role; modify (λ c. record c { role = to_u8 r }); return (pos 0))
      else return sdk.connection_pending)

-- SlWifiConn_reset
unfoldable pub conn_reset : Sdk → M ℤ
conn_reset sdk =
    verify_initialized sdk
      (do w ← get; if is_off w.ctx.state then reset_nwp sdk else return sdk.connection_pending)

-- SlWifiConn_requestReset
unfoldable pub conn_request_reset : Sdk → M ℤ
conn_request_reset sdk = verify_initialized sdk (signal_event sdk reset_request)

-- SlWifiConn_enableStats
unfoldable pub conn_enable_stats : Sdk → ℕ → M ℤ
unfolding start_async_evt_timer
conn_enable_stats sdk interval = verify_initialized sdk (
    if ltb interval 10 then return sdk.invalid_input else do
      modify (λ c. record c { stats_interval = interval; stats_enabled = true })
      w ← get
      when (is_connected w.ctx.state) (start_async_evt_timer interval)
      return (pos 0))

-- SlWifiConn_disableStats
unfoldable pub conn_disable_stats : Sdk → M ℤ
unfolding stop_async_evt_timer
conn_disable_stats sdk = verify_initialized sdk (do
  modify (λ c. record c { stats_enabled = false })
  w ← get
  when (is_connected w.ctx.state) stop_async_evt_timer
  return (pos 0))
