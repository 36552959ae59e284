-- ===== src/Cc3220sf/Quiet.antt =====
-- cc3220sf.c, the functions that leave the state of the device as it is: handlers, requests and control.
use tisdk_cc32xx_issues.Prelude.{subst, sym, ℕ, ◌≡◌, ◌≤◌, arith, length, length-append, [], ◌∷◌}
use tisdk_cc32xx_issues.Cc3220sf.Types.{Device, DevEvent, Host, Request, RequestType}
use tisdk_cc32xx_issues.Cc3220sf.Run.{Run, ret, resetting, blocked, send_event}
use tisdk_cc32xx_issues.Cc3220sf.Ops.{ioctl}
use tisdk_cc32xx_issues.Cc3220sf.Handlers.{
  WlanEvent, NetAppEvent, OtaNotification, WifiConnEvent, ProvStatus, wlan_event_handler,
  provisioning_handler, net_app_event_handler, ota_event_handler, wifi_conn_event_handler,
  net_app_request_handler, queue_http_request, queue_request, alloc, alloc_part, post_request,
}
use tisdk_cc32xx_issues.Cc3220sf.After.{IsCounted}
use tisdk_cc32xx_issues.Cc3220sf.Diagram.{Fits}
use tisdk_cc32xx_issues.Cc3220sf.Steps.{IsSound, Fits-kept}

-- What every other function leaves of the descriptor
pub record Quiet (d e : Device) : Type 0 where
  pub state_same : e.state ≡ d.state
  pub nstate_same : e.nstate ≡ d.nstate
  pub status_same : e.wlan_status ≡ d.wlan_status
  pub http_q_longer : length d.http_q ≤ length e.http_q
  pub is_counted : IsCounted d → IsCounted e

-- The descriptor that a function leaves is quiet, whether it returns or waits.
abbrev pub Leaves {ℓ} : {A : Type ℓ} → Device → Run A → Type 0
Leaves d (ret a e) = Quiet d e
Leaves d (resetting e) = Quiet d e
Leaves d (blocked e) = Quiet d e

pub Quiet-IsSound : (d e : Device) → Quiet d e → IsSound d → IsSound e
Quiet-IsSound d e q h = record {
  state_fits =
      subst (λ s. Fits s e) (sym q.state_same)
        (Fits-kept d.state d e q.nstate_same q.status_same q.http_q_longer h.state_fits);
  counted = q.is_counted h.counted;
}

pub send_event-Quiet : (e : DevEvent) (d : Device) → Quiet d (send_event e d)
unfolding send_event
send_event-Quiet e d = ground (arith, length-append d.event_q (e ∷ []))

provisioning_handler-Quiet : (s : ProvStatus) (d : Device) → Quiet d (provisioning_handler s d)
unfolding provisioning_handler
provisioning_handler-Quiet s d = grind (arith, send_event-Quiet)

pub wlan_event_handler-Quiet : (e : WlanEvent) (d : Device) → Quiet d (wlan_event_handler e d)
unfolding wlan_event_handler
wlan_event_handler-Quiet (WlanEvent.wlan_provisioning_status s) d = provisioning_handler-Quiet s d
wlan_event_handler-Quiet e d = grind (arith, send_event-Quiet)

pub net_app_event_handler-Quiet :
    (e : NetAppEvent) (d : Device) → Quiet d (net_app_event_handler e d)
unfolding net_app_event_handler
net_app_event_handler-Quiet e d = grind (arith, send_event-Quiet)

module _ (host : Host) where
  pub ota_event_handler-Quiet :
      (n : OtaNotification) (d : Device) → Leaves d (ota_event_handler host n d)
  unfolding ota_event_handler
  ota_event_handler-Quiet n d = grind (arith, send_event-Quiet)

  pub wifi_conn_event_handler-Quiet :
      (e : WifiConnEvent) (d : Device) → Leaves d (wifi_conn_event_handler host e d)
  unfolding wifi_conn_event_handler
  wifi_conn_event_handler-Quiet e d = grind (arith, send_event-Quiet)

  pub ioctl-Quiet : (code param : ℕ) (d : Device) → Leaves d (ioctl host code param d)
  unfolding ioctl
  ioctl-Quiet code param d = grind (arith, send_event-Quiet)

  queue_request-Quiet : (r : Request) (d : Device) → Leaves d (queue_request host r d)
  unfolding queue_request alloc alloc_part post_request
  queue_request-Quiet r d = ground (arith, length-append d.http_q (host.through_queue r ∷ []))

  queue_http_request-Quiet :
      (r : Request) (t : RequestType) (d : Device) → Leaves d (queue_http_request host r t d)
  unfolding queue_http_request
  queue_http_request-Quiet r RequestType.other_request d = ground arith
  queue_http_request-Quiet r _ d = queue_request-Quiet r d

  pub net_app_request_handler-Quiet :
      (r : Request) (d : Device) → Leaves d (net_app_request_handler host r d)
  unfolding net_app_request_handler
  net_app_request_handler-Quiet r d = queue_http_request-Quiet r r.request_type d

pub post_request-Quiet : (host : Host) (r : Request) (d : Device) → Leaves d (post_request host r d)
unfolding post_request
post_request-Quiet host r d = ground (arith, length-append d.http_q (host.through_queue r ∷ []))
