-- ===== src/SlWifiConn/Transitions.antt =====
-- slwificonn.c, the handlers of the states against the diagram.
use tisdk_cc32xx_issues.Prelude.{ℕ, ◌≡◌, Bool, true, false, ◌∷◌, ℤ, eq_ℤ, if◌then◌else◌, arith}
use tisdk_cc32xx_issues.SlWifiConn.Types.{
  State, Event, World, Sdk, mac_connect, notify_net_if, net_cfg_get,
}
use tisdk_cc32xx_issues.SlWifiConn.Effects.{Outcome}
use tisdk_cc32xx_issues.SlWifiConn.Quiet.{
  After, collect_and_notify_stats-Kept, deferred_event_process-Quiet,
}
use tisdk_cc32xx_issues.SlWifiConn.Enter.{
  enter_idle, enter_wait_for_conn, enter_wait_for_ip, enter_connected, enter_provisioning,
  start_nwp_provisioning, enter_prov_stopping,
}
use tisdk_cc32xx_issues.SlWifiConn.States.{
  try_to_connect, try_to_reconnect, resume_and_connect, disconnect_and_reconnect, enable_from_off,
  call_enter_provisioning, connect_timed_out, reset_while_connected, stats_timed_out,
  ext_provisioning_timed_out, reset_ext_provisioning, provisioning_has_stopped, done,
}
use tisdk_cc32xx_issues.SlWifiConn.Diagram.{may_lead}

-- Where a function ends
abbrev pub EndsIn {ℓ} : {A : Type ℓ} → State → Outcome A → Type 0
EndsIn s = After (λ _ v. v.ctx.state ≡ s)

abbrev pub EndsInOne {ℓ} : {A : Type ℓ} → (State → Bool) → Outcome A → Type 0
EndsInOne p = After (λ _ v. p v.ctx.state ≡ true)

abbrev pub has_ap : State → Bool
has_ap State.wait_for_ip = true
has_ap State.connected = true
has_ap _ = false

abbrev pub is_provisioning : State → Bool
is_provisioning State.provisioning = true
is_provisioning State.ext_provisioning = true
is_provisioning _ = false

module _ (sdk : Sdk) where
  pub enter_idle-EndsIn : (w : World) → EndsIn State.idle (enter_idle sdk w)
  unfolding enter_idle
  enter_idle-EndsIn w = ground arith

  pub enter_wait_for_conn-EndsIn :
      (t : ℕ) (b : Bool) (w : World) → EndsIn State.wait_for_conn (enter_wait_for_conn sdk t b w)
  unfolding enter_wait_for_conn
  enter_wait_for_conn-EndsIn t b w = ground arith

  pub enter_connected-EndsIn :
      (b : Bool) (w : World) → EndsIn State.connected (enter_connected sdk b w)
  unfolding enter_connected
  enter_connected-EndsIn b w = ground arith

  -- The globals after the two calls at the head of EnterWAIT_FOR_IP
  abbrev pub after_mac_connect : World → World
  after_mac_connect w = record w { calls = notify_net_if mac_connect ∷ w.calls }

  abbrev pub after_net_cfg_get : World → World
  after_net_cfg_get w = record w { calls = net_cfg_get ∷ w.calls }

  pub enter_wait_for_ip-EndsIn : (w : World) → EndsInOne has_ap (enter_wait_for_ip sdk w)
  unfolding enter_wait_for_ip
  enter_wait_for_ip-EndsIn w = ground (
    arith,
    enter_connected-EndsIn false (after_net_cfg_get w),
    enter_connected-EndsIn false (after_net_cfg_get (after_mac_connect w)),
  )

  pub enter_provisioning-EndsIn : (w : World) → EndsInOne is_provisioning (enter_provisioning sdk w)
  unfolding enter_provisioning start_nwp_provisioning
  enter_provisioning-EndsIn w = ground arith

  pub enter_prov_stopping-EndsIn :
      (e : Event) (w : World) → EndsIn State.prov_stopping (enter_prov_stopping sdk e w)
  unfolding enter_prov_stopping
  enter_prov_stopping-EndsIn e w = ground arith

  pub try_to_connect-EndsIn : (w : World) → EndsIn State.wait_for_conn (try_to_connect sdk w)
  unfolding try_to_connect
  try_to_connect-EndsIn w = grind (arith, enter_wait_for_conn-EndsIn)

  pub try_to_reconnect-EndsIn : (w : World) → EndsIn State.wait_for_conn (try_to_reconnect sdk w)
  unfolding try_to_reconnect
  try_to_reconnect-EndsIn w = grind (arith, enter_wait_for_conn-EndsIn)

  pub resume_and_connect-EndsIn :
      (w : World) → EndsIn State.wait_for_conn (resume_and_connect sdk w)
  unfolding resume_and_connect
  resume_and_connect-EndsIn w = grind (arith, try_to_connect-EndsIn)

  pub disconnect_and_reconnect-EndsIn :
      (w : World) → EndsIn State.wait_for_conn (disconnect_and_reconnect sdk w)
  unfolding disconnect_and_reconnect
  disconnect_and_reconnect-EndsIn w = grind (arith, try_to_reconnect-EndsIn)

  pub enable_from_off-EndsIn : (w : World) → EndsIn State.wait_for_conn (enable_from_off sdk w)
  unfolding enable_from_off
  enable_from_off-EndsIn w = grind (arith, resume_and_connect-EndsIn)

  pub call_enter_provisioning-EndsIn :
      (w : World) → EndsInOne is_provisioning (call_enter_provisioning sdk w)
  unfolding call_enter_provisioning
  call_enter_provisioning-EndsIn w = grind (arith, enter_provisioning-EndsIn)

  pub connect_timed_out-EndsIn :
      (w : World) → EndsInOne (may_lead State.wait_for_conn Event.timeout) (connect_timed_out sdk w)
  unfolding connect_timed_out
  connect_timed_out-EndsIn w = ground (
    arith,
    call_enter_provisioning-EndsIn w,
    enter_idle-EndsIn w,
    enter_wait_for_conn-EndsIn w.settings.connect_timeout true w,
  )

  pub reset_while_connected-EndsIn :
      (w : World) → EndsIn State.wait_for_conn (reset_while_connected sdk w)
  unfolding reset_while_connected
  reset_while_connected-EndsIn w = grind (arith, try_to_reconnect-EndsIn)

  pub stats_timed_out-EndsIn :
      (w : World) → w.ctx.state ≡ State.connected → EndsIn State.connected (stats_timed_out sdk w)
  unfolding stats_timed_out
  stats_timed_out-EndsIn w h = grind (arith, collect_and_notify_stats-Kept)

  pub ext_provisioning_timed_out-EndsIn :
      (w : World) → EndsIn State.prov_stopping (ext_provisioning_timed_out sdk w)
  unfolding ext_provisioning_timed_out
  ext_provisioning_timed_out-EndsIn w = grind (arith, enter_prov_stopping-EndsIn)

  pub reset_ext_provisioning-EndsIn :
      (w : World) → EndsIn State.provisioning (reset_ext_provisioning sdk w)
  unfolding reset_ext_provisioning
  reset_ext_provisioning-EndsIn w = ground arith

  pub reconnect_unless_deferred-EndsIn :
      (r : ℤ) (w : World)
      → w.ctx.state ≡ State.prov_stopping
      → EndsInOne
          (may_lead State.prov_stopping Event.prov_stopped)
          ((if eq_ℤ r sdk.obj_not_set then try_to_connect sdk else done) w)
  reconnect_unless_deferred-EndsIn r w h = ground (arith, try_to_connect-EndsIn w)

  pub provisioning_has_stopped-EndsIn :
      (w : World)
      → w.ctx.state ≡ State.prov_stopping
      → EndsInOne (may_lead State.prov_stopping Event.prov_stopped) (provisioning_has_stopped sdk w)
  unfolding provisioning_has_stopped
  provisioning_has_stopped-EndsIn w h =
      grind (arith, deferred_event_process-Quiet, reconnect_unless_deferred-EndsIn)
