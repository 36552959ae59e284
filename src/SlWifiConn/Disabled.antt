-- ===== src/SlWifiConn/Disabled.antt =====
-- slwificonn.c, the DISABLE event, at once and during provisioning.
use tisdk_cc32xx_issues.Prelude.{
  ◌≡◌, ◌∷◌, ◌++◌, [], ◌<◌, pos, length, List, Bool, true, false, ℤ, none, subst, sym, arith,
}
use tisdk_cc32xx_issues.SlWifiConn.Types.{
  State, Event, Call, World, Sdk, NetIfEvent, wlan_disconnect, wlan_provisioning_stop,
}
use tisdk_cc32xx_issues.SlWifiConn.Effects.{Outcome, ret, aborted, blocked}
use tisdk_cc32xx_issues.SlWifiConn.Quiet.{After}
use tisdk_cc32xx_issues.SlWifiConn.Enter.{enter_prov_stopping, defer_unless_max}
use tisdk_cc32xx_issues.SlWifiConn.Deferred.{deferred_event_enqueue}
use tisdk_cc32xx_issues.SlWifiConn.Nwp.{suspend_nwp}
use tisdk_cc32xx_issues.SlWifiConn.States.{sm_state_off, sm_state_provisioning}
use tisdk_cc32xx_issues.SlWifiConn.Machine.{
  dispatch, has_entry, has_link, process_event, after_handler, disable_globally,
}
use tisdk_cc32xx_issues.SlWifiConn.Followed.{dispatch-unsupported}

abbrev pub is_provisioning : State → Bool
is_provisioning State.provisioning = true
is_provisioning _ = false

module _ (sdk : Sdk) where
  -- What DISABLE must achieve: the machine is off, and if there was a link, it has been taken down
  -- and the network interface has been told.
  abbrev pub IsDisabled : World → World → Type 0
  IsDisabled w v =
      (v.ctx.state ≡ State.off)
      × (has_link w.ctx.state ≡ true
          → (cs : List Call) × (v.calls
              ≡ Call.notify_net_if NetIfEvent.disconnect ∷ wlan_disconnect ∷ cs))

  disable_globally-IsDisabled :
      (w : World) → w.net_if_cb ≡ true → After (λ _ v. IsDisabled w v) (disable_globally sdk w)
  unfolding disable_globally suspend_nwp
  disable_globally-IsDisabled w n = ground arith

  -- ProcessEvent on DISABLE, in any state but PROVISIONING, where the network interface has its
  -- callback: where it returns, the machine is off, and a link that there was has been taken down and
  -- reported as disconnected by the last two calls.
  pub process_event-IsDisabled :
      (w : World)
      → w.net_if_cb ≡ true
      → has_entry w ≡ true
      → is_provisioning w.ctx.state ≡ false
      → After (λ _ v. IsDisabled w v) (process_event sdk Event.disable w)
  unfolding process_event after_handler dispatch sm_state_off
  process_event-IsDisabled w n there p = rw there (
      ground (
        arith,
        dispatch-unsupported sdk w.ctx.state Event.disable w,
        disable_globally-IsDisabled w n,
      ))

  -- What DISABLE does during provisioning
  abbrev pub IsDeferred : World → ℤ → World → Type 0
  IsDeferred w r v =
      (r ≡ pos 0)
      × (v.ctx.state ≡ State.prov_stopping)
      × (v.ctx.timer ≡ 0)
      × (v.ctx.deferred_q
          ≡ w.ctx.deferred_q ++ record { event = Event.disable; params = none } ∷ [])
      × (v.calls ≡ wlan_provisioning_stop ∷ w.calls)

  sm_state_provisioning-IsDeferred :
      (w : World)
      → length w.ctx.deferred_q < 3
      → After (IsDeferred w) (sm_state_provisioning sdk Event.disable w)
  unfolding sm_state_provisioning enter_prov_stopping defer_unless_max deferred_event_enqueue
  sm_state_provisioning-IsDeferred w q = ground arith

  dispatch-IsDeferred :
      (w : World)
      → w.ctx.state ≡ State.provisioning
      → length w.ctx.deferred_q < 3
      → After (IsDeferred w) (dispatch sdk w.ctx.state Event.disable w)
  unfolding dispatch
  dispatch-IsDeferred w s q =
      subst (λ t. After (IsDeferred w) (dispatch sdk t Event.disable w)) (sym s)
        (sm_state_provisioning-IsDeferred w q)

  after_handler-IsDeferred :
      (w : World) (o : Outcome ℤ)
      → After (IsDeferred w) o
      → After (IsDeferred w) (elim o [
        | ret r v ↦ after_handler sdk Event.disable r v
        | aborted ↦ aborted
        | blocked ↦ blocked
      ])
  unfolding after_handler
  after_handler-IsDeferred w (ret r v) h = ground arith
  after_handler-IsDeferred w aborted h = tt
  after_handler-IsDeferred w blocked h = tt

  -- ProcessEvent on DISABLE while the network processor is provisioning, where the handlers are set
  -- and the deferred queue has room: where it returns, provisioning is being stopped, the watchdog is
  -- off, and DISABLE stands in the deferred queue behind what waited there.
  pub process_event-IsDeferred :
      (w : World)
      → w.ctx.state ≡ State.provisioning
      → has_entry w ≡ true
      → length w.ctx.deferred_q < 3
      → After (IsDeferred w) (process_event sdk Event.disable w)
  unfolding process_event
  process_event-IsDeferred w s there q = rw there (
      after_handler-IsDeferred w (dispatch sdk w.ctx.state Event.disable w)
        (dispatch-IsDeferred w s q))
