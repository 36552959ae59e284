-- ===== src/SlWifiConn/Deferred.antt =====
-- slwificonn.c, the deferred events and the profile that is not stored.
use tisdk_cc32xx_issues.Prelude.{
  List, [], ◌∷◌, Bool, true, false, Option, none, some, ℤ, pos, eq_ℤ, is_neg, not, if◌then◌else◌,
}
use tisdk_cc32xx_issues.SlWifiConn.Types.{
  Event, add_profile, event_max, Profile, DeferredEvent, Sdk, wlan_connect, wlan_disconnect,
  wlan_profile_add,
}
use tisdk_cc32xx_issues.SlWifiConn.Effects.{
  M, ◌>>=◌, ◌>>◌, return, modify, get, assert, call, mq_send_event, mq_send_deferred,
}
use tisdk_cc32xx_issues.SlWifiConn.Profile.{saved_args}

abbrev pub is_event_max : Event → Bool
is_event_max event_max = true
is_event_max _ = false

-- SignalEvent
unfoldable pub signal_event : Sdk → Event → M ℤ
unfolding mq_send_event
signal_event sdk e = do
  w ← get
  if not w.live
      then return sdk.api_aborted
      else if is_event_max e
      then return sdk.einval
      else mq_send_event e

-- DeferredEvent_enqueue
unfoldable pub deferred_event_enqueue : DeferredEvent → M ℤ
unfolding mq_send_deferred
deferred_event_enqueue d = do r ← mq_send_deferred d; assert (not (is_neg r)); return r

abbrev pub is_add_profile : Event → Bool
is_add_profile add_profile = true
is_add_profile _ = false

-- The profile of an ADD_PROFILE event goes to the network processor.
unfoldable pub add_deferred_profile : Sdk → DeferredEvent → M (Unit {0})
unfolding call saved_args
add_deferred_profile sdk d =
    if is_add_profile d.event
    then elim d.params [
      | none ↦ return tt
      | some p ↦ do call sdk (wlan_profile_add (saved_args sdk p) p.priority); return tt
    ]
    else return tt

-- The loop of DeferredEvent_process over the queue that is left, and DeferredEvent_dequeue in it
unfoldable pub deferred_event_loop : Sdk → List DeferredEvent → ℤ → M ℤ
deferred_event_loop sdk [] r = return r
deferred_event_loop sdk (d ∷ rest) r = do
  modify (λ c. record c { deferred_q = rest })
  add_deferred_profile sdk d
  sent ← signal_event sdk d.event
  assert (eq_ℤ sent (pos 0))
  deferred_event_loop sdk rest sent

-- DeferredEvent_process
unfoldable pub deferred_event_process : Sdk → M ℤ
deferred_event_process sdk w = deferred_event_loop sdk w.ctx.deferred_q sdk.obj_not_set w

abbrev connect_to : Sdk → Option Profile → M ℤ
connect_to sdk none = return (pos 0)
connect_to sdk (some p) = do
  r ← call sdk (wlan_connect (saved_args sdk p))
  modify (λ c. record c { wlan_connect_used = true })
  return r

-- NonPersistentProfile_process
unfoldable pub non_persistent_profile_process : Sdk → Bool → M ℤ
unfolding call saved_args
non_persistent_profile_process sdk true = do
  r ← call sdk wlan_disconnect
  modify (λ c. record c { wlan_connect_used = false })
  return r
non_persistent_profile_process sdk false = do w ← get; connect_to sdk w.ctx.non_persistent_profile
