-- ===== src/Cc3220sf/Tests.antt =====
-- cc3220sf.c, runs of the model at concrete inputs.
use tisdk_cc32xx_issues.Prelude.{pos, ◌+◌, ◌≡◌, ◌≤◌, refl, ◌∷◌, [], true, false, arith}
use tisdk_cc32xx_issues.Cc3220sf.Types.{Device, DevEvent, no_status, ip_lost}
use tisdk_cc32xx_issues.Cc3220sf.Run.{ret, ◌>>◌}
use tisdk_cc32xx_issues.Cc3220sf.Events.{recv_event}
use tisdk_cc32xx_issues.Cc3220sf.Handlers.{
  queue_request, net_app_request_handler, queue_http_request, alloc, alloc_part, post_request,
  response_pending, response_500_internal_server_error,
}
use tisdk_cc32xx_issues.Cc3220sf.Start.{probe, start_device, must_return_0, check_profile_count}
use tisdk_cc32xx_issues.Cc3220sf.Serving.{sm_http_message}
use tisdk_cc32xx_issues.Cc3220sf.Ops.{exec, get_status, is_linkup, status_ready}
use tisdk_cc32xx_issues.Cc3220sf.After.{After, IsCounted}
use tisdk_cc32xx_issues.Cc3220sf.Steps.{Stepped}
use tisdk_cc32xx_issues.Cc3220sf.Reach.{Reached, IsPowered, started, exec-serves}
use tisdk_cc32xx_issues.Cc3220sf.Reboot.{halted, Halted-IsCounted}
use tisdk_cc32xx_issues.Cc3220sf.Timeouts.{ReturnsWith}
use tisdk_cc32xx_issues.Cc3220sf.FatalErrors.{
  HasCounted, GoesOnOrResets, fatal_errors, fatal_errors-threshold,
}
use tisdk_cc32xx_issues.Cc3220sf.StaleIp.{receive, get_status-stays_ready}
use tisdk_cc32xx_issues.Cc3220sf.Requests.{HasServed, request-served, request-refused, kept_bytes}
use tisdk_cc32xx_issues.Cc3220sf.Sample.{test_host, powered, waiting_ap, a_request, device_of}

unfoldable booted : Device
unfolding start_device probe must_return_0 check_profile_count
booted = device_of (start_device test_host (probe test_host powered))

powered-IsPowered : IsPowered powered
powered-IsPowered = ground arith

booted-Reached : Reached test_host powered booted
unfolding booted start_device probe must_return_0 check_profile_count
booted-Reached = started refl

exec-serves_example : After (λ r f. (r ≡ pos 0) × Stepped booted f) (exec test_host 100 booted)
exec-serves_example = exec-serves test_host powered booted 100 powered-IsPowered booted-Reached

Halted-IsCounted_example : IsCounted booted
Halted-IsCounted_example =
    Halted-IsCounted test_host powered booted powered-IsPowered (halted booted-Reached)

powered-HasCounted : HasCounted 0 3 (record powered { total_fatal_errors = 3 })
powered-HasCounted = record {
  none_waits = refl;
  count_is = refl;
  total_is = refl;
  register_is = refl;
}

fatal_errors-threshold_example :
    GoesOnOrResets 12 0 3 (fatal_errors test_host 12 (record powered { total_fatal_errors = 3 }))
fatal_errors-threshold_example =
    fatal_errors-threshold test_host 12 0 3 (record powered { total_fatal_errors = 3 }) refl
      powered-HasCounted (omega arith) (omega arith)

abbrev had_ip : Device
had_ip = record waiting_ap {
  wlan_status = record no_status { running = true; connected = true; ip_acquired = true };
  event_q = ip_lost ∷ DevEvent.disconnect ∷ [];
}

get_status-stays_ready_example :
    ReturnsWith
      (λ e. (is_linkup e ≡ false) × (status_ready ≤ get_status e))
      ((receive test_host 1 >> recv_event test_host) had_ip)
get_status-stays_ready_example =
    get_status-stays_ready test_host (ip_lost ∷ []) had_ip
      (record { has_ip = refl; queue_is = refl }) refl

unfoldable accepted : Device
unfolding net_app_request_handler queue_http_request queue_request alloc alloc_part post_request
accepted = device_of (net_app_request_handler test_host a_request powered)

request-accepted :
    net_app_request_handler test_host a_request powered ≡ ret response_pending accepted
unfolding accepted net_app_request_handler queue_http_request queue_request alloc alloc_part
    post_request
request-accepted = refl

request-served_example :
    ReturnsWith
      (HasServed test_host a_request a_request powered)
      (sm_http_message test_host accepted)
request-served_example = request-served test_host a_request powered accepted refl request-accepted

-- The metadata does not fit, and the 20 bytes of the request are kept.
abbrev crowded : Device
crowded = record powered { allocated = 79 }

abbrev refused : Device
refused = record powered { allocated = 99 }

request-no_room :
    queue_request test_host a_request crowded ≡ ret response_500_internal_server_error refused
unfolding queue_request alloc alloc_part post_request
request-no_room = refl

request-refused_example :
    (refused.http_q ≡ crowded.http_q)
    × (refused.allocated ≡ crowded.allocated + kept_bytes test_host a_request crowded)
request-refused_example = request-refused test_host a_request crowded refused request-no_room
