-- ===== src/Driver/RxState.antt =====
-- driver.c: what _SlDrvMsgRead works on: the fields of g_pCB, and the macros of driver.h as
-- parameters.
use tisdk_cc32xx_issues.Prelude.{ℕ, Bool, List, Option, ℤ}
use tisdk_cc32xx_issues.Driver.Pool.{PoolLimits, Pool}
use tisdk_cc32xx_issues.Driver.Lookup.{Actions}
use tisdk_cc32xx_issues.Driver.RxHeader.{Sync}
use tisdk_cc32xx_issues.Driver.Classify.{RxMsgClass, AsyncHandler, Build, RxOpcodes}
use tisdk_cc32xx_issues.Driver.Payload.{AsyncLimits, Response}

-- What the macros of driver.h read from the bytes of a header
pub record HeaderFields : Type 0 where
  pub opcode : List ℕ → ℕ
  pub payload_len : List ℕ → ℕ
  pub tx_pool_cnt : List ℕ → ℕ
  pub min_max_payload : List ℕ → ℕ
  pub dev_status : List ℕ → ℕ

-- The opcodes whose payload names a socket, and the socket in it, masked; the sizes of the arguments
-- of a received packet, with the socket and the length that they hold
pub record SocketFields : Type 0 where
  pub is_socket_response : ℕ → Bool
  pub socket_event : ℕ
  pub response_sd : List ℕ → ℕ
  pub event_sd : List ℕ → ℕ
  pub recv_args_size : ℕ
  pub args_size : ℕ → ℕ
  pub args_sd : List ℕ → ℕ
  pub args_len : List ℕ → ℤ

-- What is fixed while a message is read
pub record MsgParams : Type 0 where
  pub sync : Sync
  pub header : HeaderFields
  pub opcodes : RxOpcodes
  pub build : Build
  pub sockets : SocketFields
  pub async : AsyncLimits
  pub limits : PoolLimits
  pub actions : Actions
  pub flow_cont_min : ℕ
  pub malloc_ok : Bool
  pub cmd_opcode : ℕ
  pub rx_desc_len : ℕ
  pub room : Option ℕ

-- The arguments and the data that an action's object has received
pub record Delivery : Type 0 where
  pub obj : ℕ
  pub args : List ℕ
  pub content : List ℕ

-- MultiSelectCB: the select that is under way, its entries, and the socket that wakes it
pub record MultiSelect : Type 0 where
  pub active : Bool
  pub entries : ℕ → Bool
  pub ctrl_sock : ℕ

-- The fields of g_pCB, with the bytes that have not been read
pub record Rx : Type 0 where
  pub input : List ℕ
  pub tx_seq_num : ℕ
  pub tx_pool_cnt : ℕ
  pub min_tx_payload : ℕ
  pub tx_signaled : Bool
  pub dev_status : ℕ
  pub rx_msg_class : RxMsgClass
  pub handler : Option AsyncHandler
  pub action_index : ℕ
  pub pool : Pool
  pub async_buf : Option (List ℕ)
  pub async_len : ℕ
  pub desc : List ℕ
  pub response : Option Response
  pub deliveries : List Delivery
  pub select : MultiSelect
  pub unmasked : ℕ

-- The ways out: SL_OS_RET_CODE_OK, the two that return SL_API_ABORTED, the error of MALLOC_OK_CHECK,
-- and a read that still waits
pub data MsgEnd : Type 0 where
  completed sync_lost no_receiver no_memory : Rx → MsgEnd
  waits : MsgEnd
