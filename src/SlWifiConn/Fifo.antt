-- ===== src/SlWifiConn/Fifo.antt =====
-- slwificonn.c, the deferred events: what DeferredEvent_process does with the whole queue.
use tisdk_cc32xx_issues.Prelude.{
  ◌+◌, ◌≡◌, ◌<◌, ◌≤◌, refl, ◌∙◌, ◌∷◌, ◌++◌, [], List, map, length, length-append, true, false, ℤ,
  pos, Option, none, some, arith, if◌then◌else◌,
}
use mathlib.Core.List.{append_assoc, append-nil}
use tisdk_cc32xx_issues.SlWifiConn.Types.{
  Event, Profile, DeferredEvent, Call, World, Sdk, wlan_profile_add,
}
use tisdk_cc32xx_issues.SlWifiConn.Effects.{ret}
use tisdk_cc32xx_issues.SlWifiConn.Profile.{saved_args}
use tisdk_cc32xx_issues.SlWifiConn.Deferred.{
  add_deferred_profile, signal_event, deferred_event_loop, deferred_event_process, is_add_profile,
  is_event_max,
}

module _ (sdk : Sdk) where
  -- The call that a deferred event makes, on the calls before it
  stored : Option Profile → List Call → List Call
  stored none cs = cs
  stored (some p) cs = wlan_profile_add (saved_args sdk p) p.priority ∷ cs

  abbrev stored_by : DeferredEvent → List Call → List Call
  stored_by d cs = if is_add_profile d.event then stored d.params cs else cs

  -- The calls of a whole queue, the oldest entry's first
  pub all_stored : List DeferredEvent → List Call → List Call
  all_stored [] cs = cs
  all_stored (d ∷ ds) cs = all_stored ds (stored_by d cs)

  abbrev pub events_of : List DeferredEvent → List Event
  events_of = map (λ d. d.event)

  -- Every entry is an event that can be sent.
  abbrev pub AllEvents : List DeferredEvent → Type 0
  AllEvents [] = Unit
  AllEvents (d ∷ ds) = (is_event_max d.event ≡ false) × AllEvents ds

  abbrev pub last_result : List DeferredEvent → ℤ → ℤ
  last_result [] r = r
  last_result (d ∷ ds) r = last_result ds (pos 0)

  -- The globals after the queue `ds` has been worked off
  abbrev pub worked_off : List DeferredEvent → World → World
  worked_off ds w = record w {
    ctx = record (w.ctx) { deferred_q = []; event_q = w.ctx.event_q ++ events_of ds };
    calls = all_stored ds w.calls;
  }

  one_round :
      (d : DeferredEvent) (rest : List DeferredEvent) (r : ℤ) (w : World)
      → w.live ≡ true
      → is_event_max d.event ≡ false
      → length w.ctx.event_q < 10
      → deferred_event_loop sdk (d ∷ rest) r w
        ≡ deferred_event_loop sdk rest (pos 0) (record w {
          ctx = record (w.ctx) { deferred_q = rest; event_q = w.ctx.event_q ++ d.event ∷ [] };
          calls = stored_by d w.calls;
        })
  unfolding deferred_event_loop add_deferred_profile signal_event stored
  one_round d rest r w l m q = ground arith

  deferred_event_loop-worked_off :
      (ds : List DeferredEvent) (r : ℤ) (w : World)
      → w.live ≡ true
      → AllEvents ds
      → w.ctx.deferred_q ≡ ds
      → length w.ctx.event_q + length ds ≤ 10
      → deferred_event_loop sdk ds r w ≡ ret (last_result ds r) (worked_off ds w)
  unfolding all_stored
  deferred_event_loop-worked_off [] r w l a d q =
      unfold deferred_event_loop in ground (arith, append-nil w.ctx.event_q)
  deferred_event_loop-worked_off (d ∷ rest) r w l a e q =
      let w' = record w {
        ctx = record (w.ctx) { deferred_q = rest; event_q = w.ctx.event_q ++ d.event ∷ [] };
        calls = stored_by d w.calls;
      } in
      one_round d rest r w l a.0 (omega arith)
      ∙ deferred_event_loop-worked_off rest (pos 0) w' l a.1 refl
          (omega (arith, length-append w.ctx.event_q (d.event ∷ [])))
      ∙ ground (arith, append_assoc w.ctx.event_q (d.event ∷ []) (events_of rest))

  -- DeferredEvent_process works its queue off in order: if all its entries are events, and the event
  -- queue has room for them, it returns with the deferred queue empty, the events sent behind those
  -- that waited, and each deferred profile handed to sl_WlanProfileAdd, the oldest entry first. The
  -- result is 0, or SL_RET_OBJ_NOT_SET if the queue was empty.
  pub deferred_event_process-worked_off :
      (w : World)
      → w.live ≡ true
      → AllEvents w.ctx.deferred_q
      → length w.ctx.event_q + length w.ctx.deferred_q ≤ 10
      → deferred_event_process sdk w
        ≡ ret (last_result w.ctx.deferred_q sdk.obj_not_set) (worked_off w.ctx.deferred_q w)
  unfolding deferred_event_process
  deferred_event_process-worked_off w l a q =
      deferred_event_loop-worked_off w.ctx.deferred_q sdk.obj_not_set w l a refl q
