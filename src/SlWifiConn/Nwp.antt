-- ===== src/SlWifiConn/Nwp.antt =====
-- slwificonn.c, control of the network processor: the connection policies, the reset with its
-- growing delay, the role, and the reset to factory profiles before provisioning.
use tisdk_cc32xx_issues.Prelude.{
  ℕ, ◌+◌, ◌-◌, ◌%◌, bit_and, bit_or, List, [], ◌∷◌, Bool, true, false, not, ◌&&◌, ℤ, pos, negsuc,
  is_neg, eq_ℤ, to_u8, ltb, ◌==◌, if◌then◌else◌, get_or,
}
use tisdk_cc32xx_issues.SlWifiConn.Types.{
  State, off, idle, Ctx, Sdk, sl_start, sl_stop, sleep, wlan_set_mode, wlan_policy_get,
  wlan_policy_set_connection, wlan_policy_set_pm, wlan_profile_del_all, powered_up, powered_down,
}
use tisdk_cc32xx_issues.SlWifiConn.Effects.{
  M, ◌>>=◌, ◌>>◌, return, modify, get, assert, when, call, notify_wifi_app,
}

-- g_recoveryDelays, in seconds
abbrev pub recovery_delays : List ℕ
recovery_delays = 2 ∷ 5 ∷ 10 ∷ 20 ∷ 30 ∷ []

-- MAX_RECOVERY_LEVEL
abbrev pub max_recovery_level : ℕ
max_recovery_level = 4

-- `a & ~b` in a uint8_t
unfoldable pub and_not : ℕ → ℕ → ℕ
and_not a b = bit_and a (255 - b % 256)

-- InitNWPConnPolicy
unfoldable pub init_nwp_conn_policy : Sdk → M ℤ
unfolding call and_not
init_nwp_conn_policy sdk = do
  before ← get
  let policy = sdk.policy before.calls
  r ← call sdk wlan_policy_get
  when (eq_ℤ r (pos 0)) (
      modify (λ c. record c {
        disabled_policy = and_not policy (sdk.connection_policy true true false true);
        enabled_policy =
            and_not (bit_or policy (sdk.connection_policy true false false false))
              (sdk.connection_policy false false false true);
      }))
  return r

-- SuspendNWP
unfoldable pub suspend_nwp : Sdk → Bool → M ℤ
unfolding call notify_wifi_app
suspend_nwp sdk notify = do
  w ← get
  r ← call sdk (wlan_policy_set_connection w.ctx.disabled_policy true)
  when (eq_ℤ r (pos 0) && notify) (notify_wifi_app sdk powered_down)
  return r

-- ResumeNWP
unfoldable pub resume_nwp : Sdk → Bool → M ℤ
unfolding call notify_wifi_app
resume_nwp sdk notify = do
  w ← get
  r ← call sdk (wlan_policy_set_connection w.ctx.enabled_policy true)
  when (not (is_neg r) && notify) (notify_wifi_app sdk powered_up)
  return r

abbrev pub is_off_or_idle : State → Bool
is_off_or_idle off = true
is_off_or_idle idle = true
is_off_or_idle _ = false

-- The counters at the head of ResetNWP: a uint8_t count, and a level that stops at the last delay.
unfoldable pub count_fatal_error : Ctx → Ctx
count_fatal_error c = record c {
  fatal_error_count = (c.fatal_error_count + 1) % 256;
  recovery_delay_level =
      if ltb c.recovery_delay_level max_recovery_level
      then c.recovery_delay_level + 1
      else c.recovery_delay_level;
}

-- g_recoveryDelays[recoveryDelayLevel]
unfoldable pub recovery_delay : Ctx → ℕ
recovery_delay c = get_or recovery_delays c.recovery_delay_level 0

-- ResetNWP up to the restart: its result is that of sl_Start.
unfoldable pub restart_nwp : Sdk → M ℤ
unfolding call count_fatal_error recovery_delay
restart_nwp sdk = do
  modify count_fatal_error
  w ← get
  stopped ← call sdk sl_stop
  assert (eq_ℤ stopped (pos 0))
  call sdk (sleep (recovery_delay w.ctx))
  r ← call sdk sl_start
  assert (not (is_neg r))
  modify (λ c. record c { role = to_u8 r })
  call sdk (sleep 2)
  return r

-- ResetNWP
unfoldable pub reset_nwp : Sdk → M ℤ
unfolding restart_nwp init_nwp_conn_policy suspend_nwp resume_nwp call
reset_nwp sdk = do
  r ← restart_nwp sdk
  init_nwp_conn_policy sdk
  call sdk wlan_policy_set_pm
  w ← get
  if is_off_or_idle w.ctx.state then suspend_nwp sdk false else resume_nwp sdk false
  return r

-- SetRole. Its result is 0 whatever role is in force.
unfoldable pub set_role : Sdk → ℕ → M ℤ
unfolding call
set_role sdk role = do
  w ← get
  when (not (role == w.ctx.role)) (do
    call sdk (wlan_set_mode role)
    r ← reset_nwp sdk
    modify (λ c. record c { role = to_u8 r })
    assert (role == to_u8 r))
  return (pos 0)

-- ResetNWPProfileForProvisioning, the part in AP mode
unfoldable pub delete_profiles_in_ap_mode : Sdk → M ℤ
unfolding call
delete_profiles_in_ap_mode sdk = do
  call sdk wlan_profile_del_all
  call sdk (wlan_policy_set_connection (sdk.connection_policy true false false false) false)
  call sdk sl_stop
  call sdk (sleep 1)
  return (pos 0)

-- ResetNWPProfileForProvisioning, the switch to AP mode
unfoldable pub switch_to_ap_mode : Sdk → M Bool
unfolding call
switch_to_ap_mode sdk = do
  call sdk (wlan_set_mode sdk.role_ap)
  call sdk sl_stop
  call sdk (sleep 1)
  r ← call sdk sl_start
  return (eq_ℤ (pos sdk.role_ap) r)

-- ResetNWPProfileForProvisioning
unfoldable pub reset_nwp_profile_for_provisioning : Sdk → M ℤ
unfolding delete_profiles_in_ap_mode switch_to_ap_mode call
reset_nwp_profile_for_provisioning sdk = do
  call sdk sl_stop
  call sdk (sleep 2)
  r ← call sdk sl_start
  if is_neg r
      then return r
      else if eq_ℤ (pos sdk.role_ap) r
      then delete_profiles_in_ap_mode sdk
      else do
        switched ← switch_to_ap_mode sdk
        if switched then delete_profiles_in_ap_mode sdk else return (negsuc 0)
