-- ===== src/Driver/Classify.antt =====
-- driver.c: _SlDrvClassifyRxMsg with RxMsgClassLUT. The opcodes are parameters.
use tisdk_cc32xx_issues.Prelude.{
  ℕ, zero, suc, ◌/◌, ◌%◌, ◌^◌, Bool, not, ◌&&◌, ◌||◌, Option, none, some, ◌==◌, if◌then◌else◌,
}

-- _SlRxMsgClass_e
pub data RxMsgClass : Type 0 where
  cmd_resp_class dummy_msg_class recv_resp_class async_evt_class multi_select_resp_class :
      RxMsgClass

-- The functions that AsyncEvtHandler may be, the last one of an action of _SlActionLookupTable
pub data AsyncHandler : Type 0 where
  device_event_handler handle_wlan_events handle_sock_events handle_net_app_events : AsyncHandler
  net_util_handle_async_cmd net_app_event_handler handle_ping_response : AsyncHandler
  action_handler : ℕ → AsyncHandler

-- Which of the handlers are compiled in, and the condition of the multiple select
pub record Build : Type 0 where
  pub wlan : Bool
  pub sock : Bool
  pub net_app : Bool
  pub multi_select : Bool

-- The opcodes, with the test of SL_OPCODE_SYNC and SL_OPCODE_SILO_OFFSET
pub record RxOpcodes : Type 0 where
  pub is_sync : ℕ → Bool
  pub silo_offset : ℕ
  pub dummy : ℕ
  pub recv : ℕ
  pub recv_from : ℕ
  pub recv_from_v6 : ℕ
  pub http_get_token : ℕ
  pub http_post_token : ℕ
  pub net_app_request : ℕ
  pub net_app_response : ℕ
  pub net_app_send : ℕ
  pub ping_report : ℕ
  pub select_response : ℕ
  pub select : ℕ

-- RxMsgClassLUT
unfoldable pub rx_msg_class_lut : Build → ℕ → Option AsyncHandler
rx_msg_class_lut b zero = some device_event_handler
rx_msg_class_lut b (suc zero) = if b.wlan then some handle_wlan_events else none
rx_msg_class_lut b (suc (suc zero)) = if b.sock then some handle_sock_events else none
rx_msg_class_lut b (suc (suc (suc zero))) = if b.net_app then some handle_net_app_events else none
rx_msg_class_lut b (suc (suc (suc (suc (suc (suc zero)))))) = some net_util_handle_async_cmd
rx_msg_class_lut b _ = none

-- The fields of AsyncExt that the function sets
pub record Classified : Type 0 where
  pub rx_msg_class : RxMsgClass
  pub handler : Option AsyncHandler

unfoldable pub is_recv_response : RxOpcodes → ℕ → Bool
is_recv_response o opcode =
    (opcode == o.recv) || ((opcode == o.recv_from) || (opcode == o.recv_from_v6))

-- The opcodes that _SlNetAppEventHandler handles
unfoldable pub is_net_app_event : RxOpcodes → ℕ → Bool
is_net_app_event o opcode =
    ((opcode == o.http_get_token) || (opcode == o.http_post_token))
    || ((opcode == o.net_app_request)
        || ((opcode == o.net_app_response) || (opcode == o.net_app_send)))

unfoldable pub event_handler : RxOpcodes → Build → ℕ → Option AsyncHandler
unfolding is_net_app_event rx_msg_class_lut
event_handler o b opcode =
    if is_net_app_event o opcode
    then some net_app_event_handler
    else if opcode == o.ping_report
    then some handle_ping_response
    else rx_msg_class_lut b (opcode / 2 ^ o.silo_offset % 8)

-- _SlDrvClassifyRxMsg: `cmd_opcode` is the one of the command under way.
unfoldable pub classify_rx_msg : RxOpcodes → Build → ℕ → ℕ → Classified
unfolding is_recv_response event_handler
classify_rx_msg o b cmd_opcode opcode =
    if not (o.is_sync opcode)
    then (if opcode == o.dummy
        then record { rx_msg_class = dummy_msg_class; handler = none }
        else if is_recv_response o opcode
        then record { rx_msg_class = recv_resp_class; handler = none }
        else record { rx_msg_class = async_evt_class; handler = event_handler o b opcode })
    else if b.multi_select && ((opcode == o.select_response) && not (cmd_opcode == o.select))
    then record { rx_msg_class = multi_select_resp_class; handler = none }
    else record { rx_msg_class = cmd_resp_class; handler = none }
