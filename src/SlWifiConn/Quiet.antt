-- ===== src/SlWifiConn/Quiet.antt =====
-- slwificonn.c, what its helpers leave alone: the frame of each helper, which the proofs about the
-- states use in place of the helper's text.
use tisdk_cc32xx_issues.Prelude.{ℕ, ◌≤◌, ◌≡◌, List, [], ◌∷◌, ◌++◌, Bool, true, false, ℤ, arith}
use tisdk_cc32xx_issues.SlWifiConn.Types.{Event, timeout, DeferredEvent, World, Sdk}
use tisdk_cc32xx_issues.SlWifiConn.Effects.{Outcome, ret, aborted, blocked}
use tisdk_cc32xx_issues.SlWifiConn.Nwp.{suspend_nwp, resume_nwp, reset_nwp, set_role}
use tisdk_cc32xx_issues.SlWifiConn.Deferred.{
  add_deferred_profile, signal_event, deferred_event_loop, deferred_event_process,
  deferred_event_enqueue, non_persistent_profile_process,
}
use tisdk_cc32xx_issues.SlWifiConn.Stats.{collect_and_notify_stats}
use tisdk_cc32xx_issues.SlWifiConn.Enter.{set_ap_params, defer_unless_max}

-- What holds of the result and the globals where a function returns
abbrev pub After {ℓ κ} : {A : Type ℓ} → (A → World → Type κ) → Outcome A → Type κ
After P (ret a w) = P a w
After P aborted = Unit
After P blocked = Unit

abbrev pub is_timeout : Event → Bool
is_timeout timeout = true
is_timeout _ = false

-- A TIMEOUT event waits in the queue.
abbrev pub has_timeout : List Event → Bool
has_timeout [] = false
has_timeout (timeout ∷ q) = true
has_timeout (_ ∷ q) = has_timeout q

-- From `w` to `v` the provisioning mode, the idle interval and the settings are kept, the level of
-- the recovery delay stays in range, and a pending TIMEOUT stays pending.
pub record Kept (w v : World) : Type 0 where
  pub prov_mode : v.ctx.prov_mode ≡ w.ctx.prov_mode
  pub idle_interval : v.ctx.idle_interval ≡ w.ctx.idle_interval
  pub settings : v.settings ≡ w.settings
  pub prov_registered : v.prov_registered ≡ w.prov_registered
  pub level : w.ctx.recovery_delay_level ≤ 4 → v.ctx.recovery_delay_level ≤ 4
  pub pending : has_timeout w.ctx.event_q ≡ true → has_timeout v.ctx.event_q ≡ true

-- The state and the timer are kept as well.
pub record Quiet (w v : World) : Type 0 where
  pub state : v.ctx.state ≡ w.ctx.state
  pub timer : v.ctx.timer ≡ w.ctx.timer
  pub kept : Kept w v

pub Quiet-trans : (u v w : World) → Quiet u v → Quiet v w → Quiet u w
Quiet-trans u v w h k = ground arith

pub has_timeout-append :
    (q : List Event) (e : Event) → has_timeout q ≡ true → has_timeout (q ++ e ∷ []) ≡ true
has_timeout-append [] e h = ground arith
has_timeout-append (timeout ∷ q) e h = ground arith
has_timeout-append (_ ∷ q) e h = has_timeout-append q e h

pub has_timeout-sent : (q : List Event) → has_timeout (q ++ timeout ∷ []) ≡ true
has_timeout-sent [] = ground arith
has_timeout-sent (timeout ∷ q) = ground arith
has_timeout-sent (_ ∷ q) = has_timeout-sent q

module _ (sdk : Sdk) where
  pub reset_nwp-Quiet : (w : World) → After (λ _ v. Quiet w v) (reset_nwp sdk w)
  unfolding reset_nwp
  reset_nwp-Quiet w = ground arith

  pub suspend_nwp-Quiet : (b : Bool) (w : World) → After (λ _ v. Quiet w v) (suspend_nwp sdk b w)
  unfolding suspend_nwp
  suspend_nwp-Quiet b w = ground arith

  pub resume_nwp-Quiet : (b : Bool) (w : World) → After (λ _ v. Quiet w v) (resume_nwp sdk b w)
  unfolding resume_nwp
  resume_nwp-Quiet b w = ground arith

  pub signal_event-Quiet : (e : Event) (w : World) → After (λ _ v. Quiet w v) (signal_event sdk e w)
  unfolding signal_event
  signal_event-Quiet e w = ground (arith, has_timeout-append w.ctx.event_q e)

  pub deferred_event_enqueue-Quiet :
      (d : DeferredEvent) (w : World) → After (λ _ v. Quiet w v) (deferred_event_enqueue d w)
  unfolding deferred_event_enqueue
  deferred_event_enqueue-Quiet d w = ground arith

  pub non_persistent_profile_process-Quiet :
      (b : Bool) (w : World) → After (λ _ v. Quiet w v) (non_persistent_profile_process sdk b w)
  unfolding non_persistent_profile_process
  non_persistent_profile_process-Quiet true w = ground arith
  non_persistent_profile_process-Quiet false w = ground arith

  add_deferred_profile-Quiet :
      (d : DeferredEvent) (w : World) → After (λ _ v. Quiet w v) (add_deferred_profile sdk d w)
  unfolding add_deferred_profile
  add_deferred_profile-Quiet d w = ground arith

  deferred_event_loop-Quiet :
      (ds : List DeferredEvent) (r : ℤ) (w : World)
      → After (λ _ v. Quiet w v) (deferred_event_loop sdk ds r w)
  unfolding deferred_event_loop
  deferred_event_loop-Quiet [] r w = ground arith
  deferred_event_loop-Quiet (d ∷ rest) r w =
      let taken = record w { ctx = record (w.ctx) { deferred_q = rest } } in
      grind (
        arith,
        add_deferred_profile-Quiet,
        signal_event-Quiet,
        λ (s : ℤ) (v : World). deferred_event_loop-Quiet rest s v,
      )

  pub deferred_event_process-Quiet :
      (w : World) → After (λ _ v. Quiet w v) (deferred_event_process sdk w)
  unfolding deferred_event_process
  deferred_event_process-Quiet w = deferred_event_loop-Quiet w.ctx.deferred_q sdk.obj_not_set w

  pub set_role-Quiet : (role : ℕ) (w : World) → After (λ _ v. Quiet w v) (set_role sdk role w)
  unfolding set_role
  set_role-Quiet role w = grind (arith, reset_nwp-Quiet)

  pub set_ap_params-Quiet : (w : World) → After (λ _ v. Quiet w v) (set_ap_params sdk w)
  unfolding set_ap_params
  set_ap_params-Quiet w = grind (arith, reset_nwp-Quiet)

  pub collect_and_notify_stats-Kept :
      (w : World)
      → After (λ _ v. Kept w v × (v.ctx.state ≡ w.ctx.state)) (collect_and_notify_stats sdk w)
  unfolding collect_and_notify_stats
  collect_and_notify_stats-Kept w = ground arith

  pub defer_unless_max-Quiet :
      (e : Event) (w : World) → After (λ _ v. Quiet w v) (defer_unless_max e w)
  unfolding defer_unless_max
  defer_unless_max-Quiet e w = grind (arith, deferred_event_enqueue-Quiet)
