-- ===== src/SlWifiConn/Followed.antt =====
-- slwificonn.c, ProcessEvent against the diagram of the state machine.
use tisdk_cc32xx_issues.Prelude.{
  ◌≡◌, refl, inl, inr, ◌∷◌, Bool, true, false, ℤ, negsuc, arith, Bool-cases,
}
use tisdk_cc32xx_issues.SlWifiConn.Types.{State, Event, World, Sdk, wlan_disconnect}
use tisdk_cc32xx_issues.SlWifiConn.Effects.{Outcome, ret, aborted, blocked}
use tisdk_cc32xx_issues.SlWifiConn.States.{
  sm_state_off, sm_state_idle, sm_state_wait_for_conn, sm_state_wait_for_ip, sm_state_connected,
  sm_state_provisioning, sm_state_prov_stopping, sm_state_ext_provisioning,
}
use tisdk_cc32xx_issues.SlWifiConn.Machine.{
  dispatch, has_entry, process_event, after_handler, is_disable,
}
use tisdk_cc32xx_issues.SlWifiConn.Diagram.{supports, may_lead}
use tisdk_cc32xx_issues.SlWifiConn.Transitions.{
  EndsInOne, enter_idle-EndsIn, enter_wait_for_ip-EndsIn, enter_connected-EndsIn,
  enter_provisioning-EndsIn, enter_prov_stopping-EndsIn, try_to_connect-EndsIn,
  resume_and_connect-EndsIn, disconnect_and_reconnect-EndsIn, enable_from_off-EndsIn,
  connect_timed_out-EndsIn, reset_while_connected-EndsIn, stats_timed_out-EndsIn,
  ext_provisioning_timed_out-EndsIn, reset_ext_provisioning-EndsIn, provisioning_has_stopped-EndsIn,
}

module _ (sdk : Sdk) where
  pub dispatch-unsupported :
      (s : State) (e : Event) (w : World)
      → supports s e ≡ false
      → dispatch sdk s e w ≡ ret (negsuc 0) w
  unfolding dispatch sm_state_off sm_state_idle sm_state_wait_for_conn sm_state_wait_for_ip
      sm_state_connected sm_state_provisioning sm_state_prov_stopping sm_state_ext_provisioning
  dispatch-unsupported State.off e w h = ground arith
  dispatch-unsupported State.idle e w h = ground arith
  dispatch-unsupported State.wait_for_conn e w h = ground arith
  dispatch-unsupported State.wait_for_ip e w h = ground arith
  dispatch-unsupported State.connected e w h = ground arith
  dispatch-unsupported State.provisioning e w h = ground arith
  dispatch-unsupported State.prov_stopping e w h = ground arith
  dispatch-unsupported State.ext_provisioning e w h = ground arith

  sm_state_off-leads :
      (e : Event) (w : World)
      → supports State.off e ≡ true
      → w.ctx.state ≡ State.off
      → EndsInOne (may_lead State.off e) (sm_state_off sdk e w)
  unfolding sm_state_off
  sm_state_off-leads Event.enable w h s = ground (arith, enable_from_off-EndsIn sdk w)
  sm_state_off-leads e w h s = ground arith

  sm_state_idle-leads :
      (e : Event) (w : World)
      → supports State.idle e ≡ true
      → EndsInOne (may_lead State.idle e) (sm_state_idle sdk e w)
  unfolding sm_state_idle
  sm_state_idle-leads Event.enable w h = ground arith
  sm_state_idle-leads e w h = ground (arith, resume_and_connect-EndsIn sdk w)

  sm_state_wait_for_conn-leads :
      (e : Event) (w : World)
      → supports State.wait_for_conn e ≡ true
      → EndsInOne (may_lead State.wait_for_conn e) (sm_state_wait_for_conn sdk e w)
  unfolding sm_state_wait_for_conn
  sm_state_wait_for_conn-leads Event.enable w h = ground arith
  sm_state_wait_for_conn-leads e w h = ground (
    arith,
    try_to_connect-EndsIn sdk w,
    enter_wait_for_ip-EndsIn sdk w,
    enter_connected-EndsIn sdk true w,
    connect_timed_out-EndsIn sdk w,
  )

  sm_state_wait_for_ip-leads :
      (e : Event) (w : World)
      → supports State.wait_for_ip e ≡ true
      → w.ctx.state ≡ State.wait_for_ip
      → EndsInOne (may_lead State.wait_for_ip e) (sm_state_wait_for_ip sdk e w)
  unfolding sm_state_wait_for_ip
  sm_state_wait_for_ip-leads Event.enable w h s = ground arith
  sm_state_wait_for_ip-leads e w h s = ground (
    arith,
    disconnect_and_reconnect-EndsIn sdk w,
    enter_connected-EndsIn sdk true w,
    disconnect_and_reconnect-EndsIn sdk (record w { calls = wlan_disconnect ∷ w.calls }),
  )

  sm_state_connected-leads :
      (e : Event) (w : World)
      → supports State.connected e ≡ true
      → w.ctx.state ≡ State.connected
      → EndsInOne (may_lead State.connected e) (sm_state_connected sdk e w)
  unfolding sm_state_connected
  sm_state_connected-leads Event.enable w h s = ground arith
  sm_state_connected-leads e w h s = ground (
    arith,
    disconnect_and_reconnect-EndsIn sdk (record w { ctx = record (w.ctx) { timer = 0 } }),
    reset_while_connected-EndsIn sdk w,
    stats_timed_out-EndsIn sdk w,
  )

  sm_state_provisioning-leads :
      (e : Event) (w : World)
      → supports State.provisioning e ≡ true
      → EndsInOne (may_lead State.provisioning e) (sm_state_provisioning sdk e w)
  unfolding sm_state_provisioning
  sm_state_provisioning-leads Event.enable w h = ground arith
  sm_state_provisioning-leads e w h = grind (arith, enter_prov_stopping-EndsIn, enter_idle-EndsIn)

  sm_state_ext_provisioning-leads :
      (e : Event) (w : World)
      → supports State.ext_provisioning e ≡ true
      → EndsInOne (may_lead State.ext_provisioning e) (sm_state_ext_provisioning sdk e w)
  unfolding sm_state_ext_provisioning
  sm_state_ext_provisioning-leads Event.enable w h = ground arith
  sm_state_ext_provisioning-leads e w h = ground (
    arith,
    enter_prov_stopping-EndsIn sdk Event.ext_prov_completed w,
    ext_provisioning_timed_out-EndsIn sdk w,
    reset_ext_provisioning-EndsIn sdk w,
  )

  sm_state_prov_stopping-leads :
      (e : Event) (w : World)
      → supports State.prov_stopping e ≡ true
      → w.ctx.state ≡ State.prov_stopping
      → EndsInOne (may_lead State.prov_stopping e) (sm_state_prov_stopping sdk e w)
  unfolding sm_state_prov_stopping
  sm_state_prov_stopping-leads Event.enable w h s = ground arith
  sm_state_prov_stopping-leads Event.prov_stopped w h s = provisioning_has_stopped-EndsIn sdk w s
  sm_state_prov_stopping-leads e w h s = grind (
    arith, enter_connected-EndsIn, try_to_connect-EndsIn, enter_provisioning-EndsIn,
    enter_idle-EndsIn,
  )

  dispatch-leads :
      (s : State) (e : Event) (w : World)
      → supports s e ≡ true
      → w.ctx.state ≡ s
      → EndsInOne (may_lead s e) (dispatch sdk s e w)
  unfolding dispatch
  dispatch-leads State.off e w h q = sm_state_off-leads e w h q
  dispatch-leads State.idle e w h q = sm_state_idle-leads e w h
  dispatch-leads State.wait_for_conn e w h q = sm_state_wait_for_conn-leads e w h
  dispatch-leads State.wait_for_ip e w h q = sm_state_wait_for_ip-leads e w h q
  dispatch-leads State.connected e w h q = sm_state_connected-leads e w h q
  dispatch-leads State.provisioning e w h q = sm_state_provisioning-leads e w h
  dispatch-leads State.ext_provisioning e w h q = sm_state_ext_provisioning-leads e w h
  dispatch-leads State.prov_stopping e w h q = sm_state_prov_stopping-leads e w h q

  -- After the handler, ProcessEvent changes the globals for DISABLE only.
  after_handler-kept :
      (p : State → Bool) (e : Event) (o : Outcome ℤ)
      → is_disable e ≡ false
      → EndsInOne p o
      → EndsInOne p
          (elim o [ ret r v ↦ after_handler sdk e r v | aborted ↦ aborted | blocked ↦ blocked ])
  unfolding after_handler
  after_handler-kept p e (ret r v) d h = ground arith
  after_handler-kept p e aborted d h = tt
  after_handler-kept p e blocked d h = tt

  -- ProcessEvent rejects an event that the diagram does not give to the state: it returns -1 and
  -- changes nothing. DISABLE is excepted, and so is a provisioning state without handlers.
  pub process_event-unsupported :
      (e : Event) (w : World)
      → supports w.ctx.state e ≡ false
      → is_disable e ≡ false
      → has_entry w ≡ true
      → process_event sdk e w ≡ ret (negsuc 0) w
  unfolding process_event after_handler
  process_event-unsupported e w h d there =
      rw there (ground (arith, dispatch-unsupported w.ctx.state e w h))

  -- ProcessEvent follows the diagram: where it returns from an event that the state supports, other
  -- than DISABLE, the new state is one to which the diagram leads.
  pub process_event-leads :
      (e : Event) (w : World)
      → supports w.ctx.state e ≡ true
      → is_disable e ≡ false
      → EndsInOne (may_lead w.ctx.state e) (process_event sdk e w)
  unfolding process_event
  process_event-leads e w h d = elim (Bool-cases (has_entry w)) [
    | inl there ↦ rw there (
        after_handler-kept (may_lead w.ctx.state e) e (dispatch sdk w.ctx.state e w) d
          (dispatch-leads w.ctx.state e w h refl))
    | inr missing ↦ rw missing tt
  ]
