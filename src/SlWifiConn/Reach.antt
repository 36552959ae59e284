-- ===== src/SlWifiConn/Reach.antt =====
-- slwificonn.c, the watchdog in all that the module's threads reach.
use tisdk_cc32xx_issues.Prelude.{ℕ, ◌≡◌, Bool, true, false, Option, none, some, ℤ, arith}
use tisdk_cc32xx_issues.SlWifiConn.Types.{Event, ProvMode, Profile, World, Sdk}
use tisdk_cc32xx_issues.SlWifiConn.Effects.{Outcome, ret, aborted, blocked}
use tisdk_cc32xx_issues.SlWifiConn.Quiet.{
  After, Quiet, has_timeout-sent, signal_event-Quiet, deferred_event_enqueue-Quiet, set_role-Quiet,
  reset_nwp-Quiet,
}
use tisdk_cc32xx_issues.SlWifiConn.Nwp.{reset_nwp}
use tisdk_cc32xx_issues.SlWifiConn.Deferred.{signal_event, deferred_event_enqueue}
use tisdk_cc32xx_issues.SlWifiConn.Handlers.{
  WlanEvent, NetAppEvent, DeviceEvent, ProvisioningStatus, ProvisioningInfo, signal,
  provisioning_status_handler, wlan_event_handler, net_app_event_handler, net_app_event, ip_v4_lost,
  ip_v6_lost, general_event_handler, async_evt_timer_handler,
}
use tisdk_cc32xx_issues.SlWifiConn.Api.{
  conn_deinit, set_delete_all_profiles, conn_enable, conn_disable, conn_enable_provisioning,
  conn_external_provisioning_completed, register_net_if_callback, set_configuration, conn_set_role,
  conn_reset, conn_request_reset, conn_enable_stats, conn_disable_stats,
}
use tisdk_cc32xx_issues.SlWifiConn.AddProfile.{
  NewProfile, conn_add_profile, save_profile, keep_profile, announce_profile, after_profile_add,
}
use tisdk_cc32xx_issues.SlWifiConn.Moves.{Move, configure, expire_timer, run_move}
use tisdk_cc32xx_issues.SlWifiConn.Watchdog.{SettingsOk, IsWatched}
use tisdk_cc32xx_issues.SlWifiConn.Processed.{process_round-IsWatched}

-- What a configuration must bring
abbrev pub IsSensible : Move → Type 0
IsSensible (configure (some s)) = SettingsOk s
IsSensible _ = Unit

Quiet-IsWatched {ℓ} :
    {A : Type ℓ} (w : World) (o : Outcome A)
    → IsWatched w
    → After (λ _ v. Quiet w v) o
    → After (λ _ v. IsWatched v) o
Quiet-IsWatched w (ret a v) h q = ground arith
Quiet-IsWatched w aborted h q = tt
Quiet-IsWatched w blocked h q = tt

module _ (sdk : Sdk) where
  signal-IsWatched :
      (e : Event) (w : World) → IsWatched w → After (λ _ v. IsWatched v) (signal sdk e w)
  unfolding signal
  signal-IsWatched e w h = grind (arith, signal_event-Quiet)

  signal_event-IsWatched :
      (e : Event) (w : World) → IsWatched w → After (λ _ v. IsWatched v) (signal_event sdk e w)
  signal_event-IsWatched e w h = grind (arith, signal_event-Quiet)

  provisioning_status_handler-IsWatched :
      (s : ProvisioningStatus) (p : ProvisioningInfo) (w : World)
      → IsWatched w
      → After (λ _ v. IsWatched v) (provisioning_status_handler sdk s p w)
  unfolding provisioning_status_handler
  provisioning_status_handler-IsWatched ProvisioningStatus.other_status p w h = ground arith
  provisioning_status_handler-IsWatched s p w h = grind (arith, signal-IsWatched)

  wlan_event_handler-IsWatched :
      (e : WlanEvent) (w : World)
      → IsWatched w
      → After (λ _ v. IsWatched v) (wlan_event_handler sdk e w)
  unfolding wlan_event_handler
  wlan_event_handler-IsWatched WlanEvent.other_wlan w h = h
  wlan_event_handler-IsWatched e w h =
      grind (arith, signal-IsWatched, provisioning_status_handler-IsWatched)

  net_app_event-IsWatched :
      (e : NetAppEvent) (w : World)
      → IsWatched w
      → After (λ _ v. IsWatched v) (net_app_event sdk e w)
  unfolding net_app_event ip_v4_lost ip_v6_lost
  net_app_event-IsWatched NetAppEvent.other_net_app w h = h
  net_app_event-IsWatched e w h = grind (arith, signal-IsWatched)

  net_app_event_handler-IsWatched :
      (e : NetAppEvent) (w : World)
      → IsWatched w
      → After (λ _ v. IsWatched v) (net_app_event_handler sdk e w)
  unfolding net_app_event_handler
  net_app_event_handler-IsWatched e w h = grind (arith, net_app_event-IsWatched)

  general_event_handler-IsWatched :
      (e : DeviceEvent) (w : World)
      → IsWatched w
      → After (λ _ v. IsWatched v) (general_event_handler sdk e w)
  unfolding general_event_handler
  general_event_handler-IsWatched DeviceEvent.other_device w h = h
  general_event_handler-IsWatched DeviceEvent.device_reset_request w h =
      signal-IsWatched Event.reset_request w h

  expire_timer-IsWatched :
      (w : World) → w.live ≡ true → IsWatched w → After (λ _ v. IsWatched v) (expire_timer sdk w)
  unfolding expire_timer async_evt_timer_handler signal signal_event
  expire_timer-IsWatched w l h = ground (arith, has_timeout-sent w.ctx.event_q)

  announce_profile-IsWatched :
      (r : ℤ) (w : World) → IsWatched w → After (λ _ v. IsWatched v) (announce_profile sdk r w)
  unfolding announce_profile
  announce_profile-IsWatched r w h = grind (arith, signal_event-IsWatched)

  keep_profile-IsWatched :
      (b : Bool) (p : Profile) (r : ℤ) (w : World)
      → IsWatched w
      → After (λ _ v. IsWatched v) (keep_profile sdk b p r w)
  unfolding keep_profile
  keep_profile-IsWatched true p r w h = ground arith
  keep_profile-IsWatched false p r w h =
      Quiet-IsWatched w (deferred_event_enqueue _ w) h (deferred_event_enqueue-Quiet sdk _ w)

  save_profile-IsWatched :
      (p : NewProfile) (r : ℤ) (w : World)
      → IsWatched w
      → After (λ _ v. IsWatched v) (save_profile sdk p r w)
  unfolding save_profile
  save_profile-IsWatched p r w h = grind (arith, announce_profile-IsWatched, keep_profile-IsWatched)

  after_profile_add-IsWatched :
      (p : NewProfile) (r : ℤ) (w : World)
      → IsWatched w
      → After (λ _ v. IsWatched v) (after_profile_add sdk p r w)
  unfolding after_profile_add
  after_profile_add-IsWatched p r w h =
      grind (arith, announce_profile-IsWatched, save_profile-IsWatched)

  reset_nwp-IsWatched : (w : World) → IsWatched w → After (λ _ v. IsWatched v) (reset_nwp sdk w)
  reset_nwp-IsWatched w h = Quiet-IsWatched w (reset_nwp sdk w) h (reset_nwp-Quiet sdk w)

  conn_reset-IsWatched : (w : World) → IsWatched w → After (λ _ v. IsWatched v) (conn_reset sdk w)
  unfolding conn_reset
  conn_reset-IsWatched w h = grind (arith, reset_nwp-IsWatched)

  conn_add_profile-IsWatched :
      (p : NewProfile) (w : World)
      → IsWatched w
      → After (λ _ v. IsWatched v) (conn_add_profile sdk p w)
  unfolding conn_add_profile
  conn_add_profile-IsWatched p w h = grind (arith, after_profile_add-IsWatched)

  conn_enable_provisioning-IsWatched :
      (m : Option ProvMode) (c f : ℕ) (w : World)
      → IsWatched w
      → After (λ _ v. IsWatched v) (conn_enable_provisioning sdk m c f w)
  unfolding conn_enable_provisioning
  conn_enable_provisioning-IsWatched none c f w h = ground arith
  conn_enable_provisioning-IsWatched (some m) c f w h = grind (arith, signal_event-IsWatched)

  conn_set_role-IsWatched :
      (r : ℕ) (w : World) → IsWatched w → After (λ _ v. IsWatched v) (conn_set_role sdk r w)
  unfolding conn_set_role
  conn_set_role-IsWatched r w h = grind (arith, set_role-Quiet)

  conn_enable-IsWatched : (w : World) → IsWatched w → After (λ _ v. IsWatched v) (conn_enable sdk w)
  unfolding conn_enable
  conn_enable-IsWatched w h = grind (arith, signal_event-IsWatched)

  -- Each function of the module keeps the watchdog.
  pub run_move-IsWatched :
      (m : Move) (w : World)
      → IsSensible m
      → w.live ≡ true
      → IsWatched w
      → After (λ _ v. IsWatched v) (run_move sdk m w)
  unfolding run_move
  run_move-IsWatched Move.process w o l h = grind (arith, process_round-IsWatched)
  run_move-IsWatched Move.expire w o l h = expire_timer-IsWatched w l h
  run_move-IsWatched (Move.wlan e) w o l h = wlan_event_handler-IsWatched e w h
  run_move-IsWatched (Move.net_app e) w o l h = net_app_event_handler-IsWatched e w h
  run_move-IsWatched (Move.device e) w o l h = general_event_handler-IsWatched e w h
  run_move-IsWatched (Move.add_profile p) w o l h = grind (arith, conn_add_profile-IsWatched)
  run_move-IsWatched (Move.enable_provisioning m c f) w o l h =
      grind (arith, conn_enable_provisioning-IsWatched)
  run_move-IsWatched (Move.set_role r) w o l h = grind (arith, conn_set_role-IsWatched)
  run_move-IsWatched Move.deinit w o l h =
      unfold conn_deinit in grind (arith, signal_event-IsWatched)
  run_move-IsWatched Move.delete_all w o l h = unfold set_delete_all_profiles in ground arith
  run_move-IsWatched Move.enable w o l h = grind (arith, conn_enable-IsWatched)
  run_move-IsWatched Move.disable w o l h =
      unfold conn_disable in grind (arith, signal_event-IsWatched)
  run_move-IsWatched Move.ext_completed w o l h =
      unfold conn_external_provisioning_completed in grind (arith, signal_event-IsWatched)
  run_move-IsWatched Move.reset w o l h = grind (arith, conn_reset-IsWatched)
  run_move-IsWatched Move.request_reset w o l h =
      unfold conn_request_reset in grind (arith, signal_event-IsWatched)
  run_move-IsWatched Move.disable_stats w o l h = unfold conn_disable_stats in ground arith
  run_move-IsWatched (Move.enable_stats n) w o l h = unfold conn_enable_stats in ground arith
  run_move-IsWatched (Move.register_net_if b) w o l h =
      unfold register_net_if_callback in ground arith
  run_move-IsWatched (Move.configure none) w o l h = unfold set_configuration in ground arith
  run_move-IsWatched (Move.configure (some s)) w o l h = unfold set_configuration in ground arith

-- What the threads reach from `w` while the module is initialised
pub data Reached (sdk : Sdk) (w : World) : World → Type 0 where
  start : Reached sdk w w
  next :
      {u v : World} (m : Move)
      → Reached sdk w u
      → IsSensible m
      → u.live ≡ true
      → run_move sdk m u ≡ ret tt v
      → Reached sdk w v

pub After-ret {ℓ κ} :
    {A : Type ℓ} (P : A → World → Type κ) (o : Outcome A) (a : A) (v : World)
    → o ≡ ret a v
    → After P o
    → P a v
After-ret P o a v e h = rw e at h

pub Reached-IsWatched :
    (sdk : Sdk) (w : World) {v : World} → IsWatched w → Reached sdk w v → IsWatched v
Reached-IsWatched sdk w h start = h
Reached-IsWatched sdk w h (next {u} {v} m r ok l e) =
    After-ret (λ _ x. IsWatched x) (run_move sdk m u) tt v e
      (run_move-IsWatched sdk m u ok l (Reached-IsWatched sdk w h r))
