-- ===== src/SlWifiConn/Processed.antt =====
-- slwificonn.c, the watchdog across one round of the event loop.
use tisdk_cc32xx_issues.Prelude.{
  ◌≡◌, ◌∷◌, [], List, true, false, ℤ, arith, Bool-cases, refl, inl, inr,
}
use tisdk_cc32xx_issues.SlWifiConn.Types.{State, Event, World, Sdk}
use tisdk_cc32xx_issues.SlWifiConn.Effects.{Outcome, ret, aborted, blocked}
use tisdk_cc32xx_issues.SlWifiConn.Quiet.{After, is_timeout, has_timeout, suspend_nwp-Quiet}
use tisdk_cc32xx_issues.SlWifiConn.Machine.{
  dispatch, disable_globally, after_handler, process_event, process_queue, process_round, deinit,
  has_entry,
}
use tisdk_cc32xx_issues.SlWifiConn.Watchdog.{IsWatched}
use tisdk_cc32xx_issues.SlWifiConn.Watched.{
  WatchedBut, sm_state_off-IsWatched, sm_state_idle-IsWatched, sm_state_wait_for_conn-IsWatched,
  sm_state_wait_for_ip-IsWatched, sm_state_connected-IsWatched, sm_state_provisioning-IsWatched,
  sm_state_prov_stopping-IsWatched, sm_state_ext_provisioning-IsWatched,
}

module _ (sdk : Sdk) where
  dispatch-IsWatched :
      (s : State) (e : Event) (w : World)
      → WatchedBut e w
      → w.ctx.state ≡ s
      → After (λ _ v. IsWatched v) (dispatch sdk s e w)
  unfolding dispatch
  dispatch-IsWatched State.off e w h s = sm_state_off-IsWatched sdk e w h s
  dispatch-IsWatched State.idle e w h s = sm_state_idle-IsWatched sdk e w h s
  dispatch-IsWatched State.wait_for_conn e w h s = sm_state_wait_for_conn-IsWatched sdk e w h s
  dispatch-IsWatched State.wait_for_ip e w h s = sm_state_wait_for_ip-IsWatched sdk e w h s
  dispatch-IsWatched State.connected e w h s = sm_state_connected-IsWatched sdk e w h s
  dispatch-IsWatched State.provisioning e w h s = sm_state_provisioning-IsWatched sdk e w h s
  dispatch-IsWatched State.prov_stopping e w h s = sm_state_prov_stopping-IsWatched sdk e w h s
  dispatch-IsWatched State.ext_provisioning e w h s =
      sm_state_ext_provisioning-IsWatched sdk e w h s

  after_handler-IsWatched :
      (e : Event) (r : ℤ) (w : World)
      → IsWatched w
      → After (λ _ v. IsWatched v) (after_handler sdk e r w)
  unfolding after_handler disable_globally
  after_handler-IsWatched e r w h = grind (arith, suspend_nwp-Quiet)

  handled_dispatch :
      (e : Event) (o : Outcome ℤ)
      → After (λ _ v. IsWatched v) o
      → After
          (λ _ v. IsWatched v)
          (elim o [ ret r v ↦ after_handler sdk e r v | aborted ↦ aborted | blocked ↦ blocked ])
  handled_dispatch e (ret r v) h = after_handler-IsWatched e r v h
  handled_dispatch e aborted h = tt
  handled_dispatch e blocked h = tt

  pub process_event-IsWatched :
      (e : Event) (w : World) → WatchedBut e w → After (λ _ v. IsWatched v) (process_event sdk e w)
  unfolding process_event
  process_event-IsWatched e w h = elim (Bool-cases (has_entry w)) [
    | inl there ↦ rw there (
        handled_dispatch e (dispatch sdk w.ctx.state e w)
          (dispatch-IsWatched w.ctx.state e w h refl))
    | inr missing ↦ rw missing tt
  ]

  has_timeout-tail :
      (e : Event) (q : List Event)
      → is_timeout e ≡ false
      → has_timeout (e ∷ q) ≡ true
      → has_timeout q ≡ true
  has_timeout-tail Event.enable q h k = k
  has_timeout-tail Event.timeout q h k = ground arith
  has_timeout-tail _ q h k = k

  take_event-WatchedBut :
      (e : Event) (rest : List Event) (w : World)
      → w.ctx.event_q ≡ e ∷ rest
      → IsWatched w
      → WatchedBut e (record w { ctx = record (w.ctx) { event_q = rest } })
  take_event-WatchedBut e rest w q h = grind (arith, has_timeout-tail)

  process_taken :
      (q : List Event) (w : World)
      → w.ctx.event_q ≡ q
      → IsWatched w
      → After (λ _ v. IsWatched v) (process_queue sdk q w)
  unfolding process_queue deinit
  process_taken [] w e h = tt
  process_taken (e ∷ rest) w q h =
      let taken = record w { ctx = record (w.ctx) { event_q = rest } } in
      ground (arith, process_event-IsWatched e taken (take_event-WatchedBut e rest w q h), h)

  pub process_round-IsWatched :
      (w : World) → IsWatched w → After (λ _ v. IsWatched v) (process_round sdk w)
  unfolding process_round
  process_round-IsWatched w h = process_taken w.ctx.event_q w refl h
