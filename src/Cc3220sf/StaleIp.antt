-- ===== src/Cc3220sf/StaleIp.antt =====
-- cc3220sf.c, what get_status and is_linkup report of a device that had an address.
use tisdk_cc32xx_issues.Prelude.{
  ℕ, zero, suc, ◌≤◌, ◌≡◌, Bool, true, false, ◌&&◌, List, [], ◌∷◌, ◌++◌, length, arith,
}
use tisdk_cc32xx_issues.Cc3220sf.Types.{Device, DevEvent, Host}
use tisdk_cc32xx_issues.Cc3220sf.Run.{D, ◌>>◌, return}
use tisdk_cc32xx_issues.Cc3220sf.Events.{recv_event, handle_taken, take_event, must_reset}
use tisdk_cc32xx_issues.Cc3220sf.Ops.{
  get_status, is_linkup, link_status, provisioning_status, status_ready,
}
use tisdk_cc32xx_issues.Cc3220sf.Timeouts.{ReturnsWith, ReturnsWith-bind}

-- The device thread takes `n` events.
unfoldable pub receive : Host → ℕ → D (Unit {0})
unfolding recv_event
receive host zero = return tt
receive host (suc n) = recv_event host >> receive host n

-- No event that clears all status bits
abbrev pub is_ordinary : DevEvent → Bool
is_ordinary DevEvent.fatal_error = false
is_ordinary DevEvent.error = false
is_ordinary _ = true

abbrev pub all_ordinary : List DevEvent → Bool
all_ordinary [] = true
all_ordinary (e ∷ es) = is_ordinary e && all_ordinary es

-- A device that has an address and a queue of events
pub record HasIp (es : List DevEvent) (d : Device) : Type 0 where
  pub has_ip : d.wlan_status.ip_acquired ≡ true
  pub queue_is : d.event_q ≡ es

recv_event-HasIp :
    (host : Host) (e : DevEvent) (es : List DevEvent) (d : Device)
    → HasIp (e ∷ es) d
    → is_ordinary e ≡ true
    → ReturnsWith (HasIp es) (recv_event host d)
unfolding recv_event handle_taken must_reset take_event
recv_event-HasIp host e es d h o = ground arith

receive-HasIp :
    (host : Host) (es fs : List DevEvent) (d : Device)
    → HasIp (es ++ fs) d
    → all_ordinary es ≡ true
    → ReturnsWith (HasIp fs) (receive host (length es) d)
unfolding receive
receive-HasIp host [] fs d h o = h
receive-HasIp host (e ∷ es) fs d h o =
    ReturnsWith-bind (HasIp fs) _ (recv_event host d)
      (recv_event-HasIp host e (es ++ fs) d h (ground arith))
      (λ _ f k. receive-HasIp host es fs f k (ground arith))

disconnected-StaysReady :
    (host : Host) (d : Device)
    → HasIp (DevEvent.disconnect ∷ []) d
    → ReturnsWith (λ e. (is_linkup e ≡ false) × (status_ready ≤ get_status e)) (recv_event host d)
unfolding recv_event handle_taken must_reset take_event is_linkup get_status link_status
    provisioning_status
disconnected-StaysReady host d h = ground arith

-- A device that has an address, takes any sequence of events without an error of the network
-- processor, be the address lost among them, and then a disconnection, has its link down. But
-- get_status goes on to report it as ready, or as being provisioned or updated.
pub get_status-stays_ready :
    (host : Host) (es : List DevEvent) (d : Device)
    → HasIp (es ++ DevEvent.disconnect ∷ []) d
    → all_ordinary es ≡ true
    → ReturnsWith
        (λ e. (is_linkup e ≡ false) × (status_ready ≤ get_status e))
        ((receive host (length es) >> recv_event host) d)
get_status-stays_ready host es d h o =
    ReturnsWith-bind (λ e. (is_linkup e ≡ false) × (status_ready ≤ get_status e))
      (λ _. recv_event host) (receive host (length es) d)
      (receive-HasIp host es (DevEvent.disconnect ∷ []) d h o)
      (λ _ e k. disconnected-StaysReady host e k)
