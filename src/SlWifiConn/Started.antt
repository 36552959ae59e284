-- ===== src/SlWifiConn/Started.antt =====
-- slwificonn.c, what SlWifiConn_init leaves.
use tisdk_cc32xx_issues.Prelude.{ℕ, zero, suc, ◌≡◌, Bool, true, false, ℤ, ◌∷◌, arith}
use tisdk_cc32xx_issues.SlWifiConn.Types.{World, Sdk, sl_start, wlan_provisioning_stop}
use tisdk_cc32xx_issues.SlWifiConn.Quiet.{After, Quiet, set_role-Quiet, suspend_nwp-Quiet}
use tisdk_cc32xx_issues.SlWifiConn.Nwp.{reset_nwp_profile_for_provisioning, init_nwp_conn_policy}
use tisdk_cc32xx_issues.SlWifiConn.Machine.{deinit}
use tisdk_cc32xx_issues.SlWifiConn.Init.{
  new_ctx, stop_provisioning, take_role, count_profiles, start_nwp, delete_profiles_if,
  prepare_module, finish_init, start_module, conn_init,
}
use tisdk_cc32xx_issues.SlWifiConn.Watchdog.{SettingsOk, IsWatched}

module _ (sdk : Sdk) where
  init_nwp_conn_policy-Quiet : (w : World) → After (λ _ v. Quiet w v) (init_nwp_conn_policy sdk w)
  unfolding init_nwp_conn_policy
  init_nwp_conn_policy-Quiet w = ground arith

  stop_provisioning-Quiet : (w : World) → After (λ _ v. Quiet w v) (stop_provisioning sdk w)
  unfolding stop_provisioning
  stop_provisioning-Quiet w =
      ground
        (arith, init_nwp_conn_policy-Quiet (record w { calls = wlan_provisioning_stop ∷ w.calls }))

  take_role-Quiet : (r : ℤ) (w : World) → After (λ _ v. Quiet w v) (take_role sdk r w)
  unfolding take_role
  take_role-Quiet r w = grind (arith, init_nwp_conn_policy-Quiet, set_role-Quiet)

  reset_nwp_profile_for_provisioning-Quiet :
      (w : World) → After (λ _ v. Quiet w v) (reset_nwp_profile_for_provisioning sdk w)
  unfolding reset_nwp_profile_for_provisioning
  reset_nwp_profile_for_provisioning-Quiet w = ground arith

  count_profiles-Quiet :
      (left found : ℕ) (w : World) → After (λ _ v. Quiet w v) (count_profiles sdk left found w)
  unfolding count_profiles
  count_profiles-Quiet zero found w = ground arith
  count_profiles-Quiet (suc left) found w =
      grind (arith, λ (f : ℕ) (v : World). count_profiles-Quiet left f v)

  start_nwp-Quiet : (w : World) → After (λ _ v. Quiet w v) (start_nwp sdk w)
  unfolding start_nwp
  start_nwp-Quiet w =
      let begun = record w { calls = sl_start ∷ w.calls } in
      ground
        (arith, stop_provisioning-Quiet begun, take_role-Quiet (sdk.reply w.calls sl_start) begun)

  delete_profiles_if-Quiet :
      (b : Bool) (w : World) → After (λ _ v. Quiet w v) (delete_profiles_if sdk b w)
  unfolding delete_profiles_if
  delete_profiles_if-Quiet true w = grind (arith, reset_nwp_profile_for_provisioning-Quiet)
  delete_profiles_if-Quiet false w = ground arith

  prepare_module-Quiet : (w : World) → After (λ _ v. Quiet w v) (prepare_module sdk w)
  unfolding prepare_module
  prepare_module-Quiet w = grind (arith, count_profiles-Quiet, suspend_nwp-Quiet)

  finish_init-Quiet : (r : ℤ) (w : World) → After (λ _ v. Quiet w v) (finish_init sdk r w)
  unfolding finish_init deinit
  finish_init-Quiet r w = ground arith

  start_module-Quiet : (b : Bool) (w : World) → After (λ _ v. Quiet w v) (start_module sdk b w)
  unfolding start_module
  start_module-Quiet b w =
      grind
        (arith, start_nwp-Quiet, delete_profiles_if-Quiet, prepare_module-Quiet, finish_init-Quiet)

  -- SlWifiConn_init leaves the OFF state.
  pub conn_init-IsWatched :
      (cb b : Bool) (w : World)
      → SettingsOk w.settings
      → w.live ≡ false
      → sdk.has_memory w.calls ≡ true
      → After (λ _ v. IsWatched v) (conn_init sdk cb b w)
  unfolding conn_init
  conn_init-IsWatched cb b w s l m =
      ground (arith, start_module-Quiet b (record w { live = true; ctx = new_ctx cb }))
