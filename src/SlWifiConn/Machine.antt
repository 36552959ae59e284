-- ===== src/SlWifiConn/Machine.antt =====
-- slwificonn.c, the event loop: ProcessEvent with its handling of DISABLE in every state, and the
-- thread SlWifiConn_process with the release of the resources in Deinit.
use tisdk_cc32xx_issues.Prelude.{
  List, [], ◌∷◌, Bool, true, false, ℤ, pos, negsuc, is_neg, if◌then◌else◌,
}
use tisdk_cc32xx_issues.SlWifiConn.Types.{
  State, off, idle, wait_for_conn, wait_for_ip, provisioning, prov_stopping, ext_provisioning,
  Event, destroy, NetIfEvent, World, Sdk, wlan_disconnect, close_resources, sl_stop,
}
use tisdk_cc32xx_issues.SlWifiConn.Effects.{
  M, ret, blocked, ◌>>=◌, ◌>>◌, return, get, assert, when, call, set_state, notify_net_if,
}
use tisdk_cc32xx_issues.SlWifiConn.Nwp.{suspend_nwp}
use tisdk_cc32xx_issues.SlWifiConn.States.{
  sm_state_off, sm_state_idle, sm_state_wait_for_conn, sm_state_wait_for_ip, sm_state_connected,
  sm_state_provisioning, sm_state_prov_stopping, sm_state_ext_provisioning,
}

-- The entries of g_fWifiSM that SlWifiConn_enableProvisioning sets
abbrev pub is_prov_state : State → Bool
is_prov_state provisioning = true
is_prov_state prov_stopping = true
is_prov_state ext_provisioning = true
is_prov_state _ = false

-- g_fWifiSM[state](event)
unfoldable pub dispatch : Sdk → State → Event → M ℤ
dispatch sdk off e = sm_state_off sdk e
dispatch sdk idle e = sm_state_idle sdk e
dispatch sdk wait_for_conn e = sm_state_wait_for_conn sdk e
dispatch sdk wait_for_ip e = sm_state_wait_for_ip sdk e
dispatch sdk State.connected e = sm_state_connected sdk e
dispatch sdk provisioning e = sm_state_provisioning sdk e
dispatch sdk prov_stopping e = sm_state_prov_stopping sdk e
dispatch sdk ext_provisioning e = sm_state_ext_provisioning sdk e

abbrev pub is_disable : Event → Bool
is_disable Event.disable = true
is_disable _ = false

abbrev pub has_link : State → Bool
has_link wait_for_ip = true
has_link State.connected = true
has_link _ = false

-- ProcessEvent, the handling of DISABLE in a state that does not support it
unfoldable pub disable_globally : Sdk → M (Unit {0})
unfolding call notify_net_if set_state
disable_globally sdk = do
  suspend_nwp sdk true
  w ← get
  when (has_link w.ctx.state) (do call sdk wlan_disconnect; notify_net_if sdk NetIfEvent.disconnect)
  set_state off

-- g_fWifiSM[state] is NULL for the provisioning states until provisioning is enabled.
unfoldable pub has_entry : World → Bool
has_entry w = if is_prov_state w.ctx.state then w.prov_registered else true

-- ProcessEvent after the state's handler
unfoldable pub after_handler : Sdk → Event → ℤ → M ℤ
after_handler sdk e r =
    if is_neg r
    then if is_disable e then (do disable_globally sdk; return r) else return (negsuc 0)
    else return r

-- ProcessEvent
unfoldable pub process_event : Sdk → Event → M ℤ
process_event sdk e = do
  w ← get
  assert (has_entry w)
  r ← dispatch sdk w.ctx.state e
  after_handler sdk e r

-- Deinit: the context is freed, and every resource is closed.
unfoldable pub deinit : Sdk → M ℤ
unfolding call
deinit sdk = do
  call sdk close_resources
  call sdk sl_stop
  w ← get
  λ v. ret (pos 0) (record v { live = false })

abbrev is_destroy : Event → Bool
is_destroy destroy = true
is_destroy _ = false

-- SlWifiConn_process with the event that mq_receive took: false ends the thread.
unfoldable pub process_queue : Sdk → List Event → M Bool
process_queue sdk [] w = blocked
process_queue sdk (e ∷ rest) w =
    let taken = record w { ctx = record (w.ctx) { event_q = rest } } in
    (if is_destroy e then (do deinit sdk; return false) else (do process_event sdk e; return true))
      taken

-- One round of SlWifiConn_process. On an empty queue mq_receive waits.
unfoldable pub process_round : Sdk → M Bool
process_round sdk w = process_queue sdk w.ctx.event_q w
