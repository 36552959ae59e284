-- ===== src/SlWifiConn/Guards.antt =====
-- slwificonn.c, what the public functions accept and what they leave behind.
use tisdk_cc32xx_issues.Prelude.{
  ℕ, ◌≡◌, ◌<◌, ◌∷◌, ◌++◌, [], true, some, pos, arith, if◌then◌else◌, length, ltb,
}
use tisdk_cc32xx_issues.SlWifiConn.Types.{ProvMode, Settings, World, Sdk, enable_provisioning}
use tisdk_cc32xx_issues.SlWifiConn.Effects.{ret}
use tisdk_cc32xx_issues.SlWifiConn.Quiet.{After}
use tisdk_cc32xx_issues.SlWifiConn.Nwp.{set_role}
use tisdk_cc32xx_issues.SlWifiConn.Deferred.{signal_event}
use tisdk_cc32xx_issues.SlWifiConn.Api.{
  set_configuration, get_configuration, conn_set_role, may_set_role, conn_enable_provisioning,
  is_prov_command, asks_external_confirmation, forces_provisioning,
}

-- SlWifiConn_setConfiguration takes exactly the settings with a provisioning timeout of 30 seconds
-- or more: those are what SlWifiConn_getConfiguration then gives. It leaves the old ones otherwise.
pub get_configuration-set_configuration :
    (sdk : Sdk) (new buffer : Settings) (w : World)
    → After
        (λ r v.
          get_configuration sdk (some buffer) v
          ≡ (pos 0, some (if ltb new.provisioning_timeout 30 then w.settings else new)))
        (set_configuration sdk (some new) w)
unfolding set_configuration get_configuration
get_configuration-set_configuration sdk new buffer w = ground arith

-- SlWifiConn_setRole, where the module is initialised and its state allows a change: where it
-- returns, it returns 0 and the role on record is 0, whatever role was asked for and is in force.
conn_set_role-role :
    (sdk : Sdk) (role : ℕ) (w : World)
    → w.live ≡ true
    → may_set_role w.ctx.state ≡ true
    → After (λ r v. (r ≡ pos 0) × (v.ctx.role ≡ 0)) (conn_set_role sdk role w)
unfolding conn_set_role set_role
conn_set_role-role sdk role w l s = ground arith

-- SlWifiConn_enableProvisioning, with a mode and a command that it takes, where the module is
-- initialised and the event queue has room: it returns 0, the handlers of the provisioning states
-- are set, mode and command are kept, the machine is sent ENABLE_PROVISIONING, and the profiles are
-- marked for deletion if the flags say so. The flag of external confirmation is set if the flags say
-- so, and is left as it was if they do not.
conn_enable_provisioning-registers :
    (sdk : Sdk) (mode : ProvMode) (command flags : ℕ) (w : World)
    → w.live ≡ true
    → is_prov_command sdk command ≡ true
    → length w.ctx.event_q < 10
    → conn_enable_provisioning sdk (some mode) command flags w
      ≡ ret (pos 0) (record w {
        prov_registered = true;
        ctx = record (w.ctx) {
          event_q = w.ctx.event_q ++ enable_provisioning ∷ [];
          prov_mode = mode;
          prov_cmd = command;
          prov_flags =
              if asks_external_confirmation flags
              then sdk.flag_external_confirmation
              else w.ctx.prov_flags;
          delete_all_profiles =
              if forces_provisioning flags then true else w.ctx.delete_all_profiles;
        };
      })
unfolding conn_enable_provisioning signal_event
conn_enable_provisioning-registers sdk mode command flags w l c q = ground arith
