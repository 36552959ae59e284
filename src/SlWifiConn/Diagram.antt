-- ===== src/SlWifiConn/Diagram.antt =====
-- slwificonn.c, the diagram of the state machine, written down apart from the code: which events a
-- state supports, and where an event may lead.
use tisdk_cc32xx_issues.Prelude.{Bool, true, false}
use tisdk_cc32xx_issues.SlWifiConn.Types.{
  State, off, idle, wait_for_conn, wait_for_ip, provisioning, prov_stopping, ext_provisioning,
  Event, enable, disable, ip_lost, prov_success, prov_stopped, prov_ext_config_ready,
  prov_cloud_confirm_ready, enable_provisioning, add_profile, ext_prov_completed, timeout, error,
  reset_request,
}

-- The events that a state handles itself
abbrev pub supports : State → Event → Bool
supports off enable = true
supports off disable = true
supports off enable_provisioning = true
supports off add_profile = true
supports off Event.disconnect = true
supports off Event.connected = true
supports idle enable_provisioning = true
supports idle add_profile = true
supports idle timeout = true
supports idle Event.connected = true
supports wait_for_conn add_profile = true
supports wait_for_conn Event.connected = true
supports wait_for_conn Event.ip_acquired = true
supports wait_for_conn timeout = true
supports wait_for_ip add_profile = true
supports wait_for_ip Event.ip_acquired = true
supports wait_for_ip timeout = true
supports wait_for_ip Event.disconnect = true
supports State.connected Event.ip_acquired = true
supports State.connected add_profile = true
supports State.connected Event.disconnect = true
supports State.connected ip_lost = true
supports State.connected reset_request = true
supports State.connected timeout = true
supports provisioning prov_success = true
supports provisioning disable = true
supports provisioning add_profile = true
supports provisioning timeout = true
supports provisioning error = true
supports provisioning prov_stopped = true
supports provisioning prov_ext_config_ready = true
supports provisioning prov_cloud_confirm_ready = true
supports ext_provisioning ext_prov_completed = true
supports ext_provisioning add_profile = true
supports ext_provisioning timeout = true
supports ext_provisioning reset_request = true
supports prov_stopping Event.connected = true
supports prov_stopping prov_stopped = true
supports prov_stopping ext_prov_completed = true
supports prov_stopping add_profile = true
supports prov_stopping error = true
supports prov_stopping timeout = true
supports _ _ = false

-- The states in which an event may leave the machine
abbrev pub may_lead : State → Event → State → Bool
may_lead off enable wait_for_conn = true
may_lead idle enable_provisioning wait_for_conn = true
may_lead idle add_profile wait_for_conn = true
may_lead idle timeout wait_for_conn = true
may_lead idle Event.connected wait_for_ip = true
may_lead wait_for_conn Event.connected wait_for_ip = true
may_lead wait_for_conn Event.connected State.connected = true
may_lead wait_for_conn Event.ip_acquired State.connected = true
may_lead wait_for_conn timeout idle = true
may_lead wait_for_conn timeout provisioning = true
may_lead wait_for_conn timeout ext_provisioning = true
may_lead wait_for_ip Event.ip_acquired State.connected = true
may_lead wait_for_ip timeout wait_for_conn = true
may_lead wait_for_ip Event.disconnect wait_for_conn = true
may_lead State.connected Event.disconnect wait_for_conn = true
may_lead State.connected reset_request wait_for_conn = true
may_lead State.connected ip_lost wait_for_ip = true
may_lead provisioning prov_success prov_stopping = true
may_lead provisioning disable prov_stopping = true
may_lead provisioning add_profile prov_stopping = true
may_lead provisioning timeout prov_stopping = true
may_lead provisioning error prov_stopping = true
may_lead provisioning prov_stopped idle = true
may_lead provisioning prov_ext_config_ready ext_provisioning = true
may_lead provisioning prov_cloud_confirm_ready ext_provisioning = true
may_lead ext_provisioning ext_prov_completed prov_stopping = true
may_lead ext_provisioning add_profile prov_stopping = true
may_lead ext_provisioning timeout prov_stopping = true
may_lead ext_provisioning reset_request provisioning = true
may_lead prov_stopping Event.connected State.connected = true
may_lead prov_stopping prov_stopped wait_for_conn = true
may_lead prov_stopping prov_stopped prov_stopping = true
may_lead prov_stopping ext_prov_completed wait_for_conn = true
may_lead prov_stopping add_profile wait_for_conn = true
may_lead prov_stopping error provisioning = true
may_lead prov_stopping error ext_provisioning = true
may_lead prov_stopping timeout idle = true
may_lead off disable off = true
may_lead off enable_provisioning off = true
may_lead off add_profile off = true
may_lead off Event.disconnect off = true
may_lead off Event.connected off = true
may_lead wait_for_conn add_profile wait_for_conn = true
may_lead wait_for_conn timeout wait_for_conn = true
may_lead wait_for_ip add_profile wait_for_ip = true
may_lead State.connected Event.ip_acquired State.connected = true
may_lead State.connected add_profile State.connected = true
may_lead State.connected timeout State.connected = true
may_lead _ _ _ = false
