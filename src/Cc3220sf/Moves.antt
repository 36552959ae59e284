-- ===== src/Cc3220sf/Moves.antt =====
-- cc3220sf.c, the device as a whole: the device thread, the handlers and the calls of other threads
-- take turns, one function at a time.
use tisdk_cc32xx_issues.Prelude.{ℕ}
use tisdk_cc32xx_issues.Cc3220sf.Types.{Host, Request}
use tisdk_cc32xx_issues.Cc3220sf.Run.{D, ◌>>◌, return, modify}
use tisdk_cc32xx_issues.Cc3220sf.Ops.{exec, ioctl}
use tisdk_cc32xx_issues.Cc3220sf.Start.{stop_device}
use tisdk_cc32xx_issues.Cc3220sf.Handlers.{
  WlanEvent, NetAppEvent, OtaNotification, WifiConnEvent, wlan_event_handler,
  fatal_error_event_handler, net_app_event_handler, ota_event_handler, wifi_conn_event_handler,
  net_app_request_handler, post_request,
}

-- Who moves, and with what arguments. `resume_request` is a request handler that waits for room in
-- the queue and tries again.
pub data Move : Type 0 where
  run : ℕ → Move
  wlan : WlanEvent → Move
  net_app : NetAppEvent → Move
  ota : OtaNotification → Move
  wifi_conn : WifiConnEvent → Move
  request resume_request : Request → Move
  control : ℕ → ℕ → Move
  fatal stop_running : Move

unfoldable pub run_move : Host → Move → D (Unit {0})
run_move host (run delay) = do exec host delay; return tt
run_move host (wlan e) = modify (wlan_event_handler e)
run_move host (net_app e) = modify (net_app_event_handler e)
run_move host (ota n) = ota_event_handler host n
run_move host (wifi_conn e) = wifi_conn_event_handler host e
run_move host (request r) = do net_app_request_handler host r; return tt
run_move host (resume_request r) = post_request host r
run_move host (control code param) = do ioctl host code param; return tt
run_move host fatal = modify fatal_error_event_handler
run_move host stop_running = modify stop_device
