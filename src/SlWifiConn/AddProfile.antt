-- ===== src/SlWifiConn/AddProfile.antt =====
-- slwificonn.c, SlWifiConn_addProfile: a profile is stored at once, or saved in memory, to be used
-- on the way into WAIT_FOR_CONN (not persistent) or stored when provisioning stops (deferred).
use tisdk_cc32xx_issues.Prelude.{
  ℕ, ◌%◌, List, Bool, true, not, ◌||◌, Option, some, ℤ, pos, eq_ℤ, is_neg, ◌==◌, if◌then◌else◌,
}
use tisdk_cc32xx_issues.SlWifiConn.Types.{
  add_profile, Call, SecExt, SecParams, ProfileArgs, Profile, Sdk, wlan_profile_add,
}
use tisdk_cc32xx_issues.SlWifiConn.Effects.{M, ◌>>=◌, ◌>>◌, return, modify, get, assert, call}
use tisdk_cc32xx_issues.SlWifiConn.Profile.{pack_profile}
use tisdk_cc32xx_issues.SlWifiConn.Deferred.{signal_event, deferred_event_enqueue}
use tisdk_cc32xx_issues.SlWifiConn.Api.{verify_initialized}

-- The arguments of SlWifiConn_addProfile
pub record NewProfile : Type 0 where
  pub args : ProfileArgs
  pub prio : ℕ
  pub flags : ℕ

-- SLWIFICONN_PROFILE_FLAG_NON_PERSISTENT
abbrev pub is_non_persistent : NewProfile → Bool
is_non_persistent p = p.flags % 2 == 1

-- assert(pSecParams->Type == SL_WLAN_SEC_TYPE_WPA_ENT), where both parameters are given
abbrev pub ext_fits : Sdk → Option SecParams → Option SecExt → Bool
ext_fits sdk (some s) (some e) = s.sec_type == sdk.sec_type_wpa_ent
ext_fits sdk _ _ = true

-- The block in memory, from the fresh block that malloc returns after the calls so far
unfoldable pub saved_profile : Sdk → NewProfile → List Call → Profile
unfolding pack_profile
saved_profile sdk p calls =
    pack_profile sdk (sdk.junk calls) p.args.ssid p.args.bssid p.args.sec p.args.ext p.prio

-- The profile is kept in the context, or in the deferred queue.
unfoldable pub keep_profile : Sdk → Bool → Profile → ℤ → M ℤ
keep_profile sdk non_persistent p r =
    if non_persistent
    then (do modify (λ c. record c { non_persistent_profile = some p }); return r)
    else deferred_event_enqueue (record { event = add_profile; params = some p })

-- The state machine is told of the profile unless it was refused.
unfoldable pub announce_profile : Sdk → ℤ → M ℤ
announce_profile sdk r = if is_neg r then return r else (do signal_event sdk add_profile; return r)

-- SlWifiConn_addProfile, the branch that needs memory
unfoldable pub save_profile : Sdk → NewProfile → ℤ → M ℤ
save_profile sdk p r = do
  w ← get
  if not (sdk.has_memory w.calls) then return sdk.enomem else do
    assert (ext_fits sdk p.args.sec p.args.ext)
    kept ← keep_profile sdk (is_non_persistent p) (saved_profile sdk p w.calls) r
    announce_profile sdk kept

-- SlWifiConn_addProfile, on the result of sl_WlanProfileAdd
unfoldable pub after_profile_add : Sdk → NewProfile → ℤ → M ℤ
after_profile_add sdk p r =
    if eq_ℤ r sdk.prov_in_progress || is_non_persistent p
    then save_profile sdk p r
    else announce_profile sdk r

-- SlWifiConn_addProfile: a profile that is not persistent is not handed to sl_WlanProfileAdd.
unfoldable pub conn_add_profile : Sdk → NewProfile → M ℤ
unfolding call
conn_add_profile sdk p = verify_initialized sdk (
    if is_non_persistent p
    then after_profile_add sdk p (pos 0)
    else do r ← call sdk (wlan_profile_add p.args p.prio); after_profile_add sdk p r)
