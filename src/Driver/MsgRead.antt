-- ===== src/Driver/MsgRead.antt =====
-- driver.c: _SlDrvMsgRead, which reads one message and hands it on by its class. How a caller goes on
-- after the early returns is in Commands and SpawnRead.
use tisdk_cc32xx_issues.Prelude.{
  ℕ, suc, ◌+◌, ◌-◌, Bool, true, false, ◌&&◌, List, [], ◌∷◌, ◌++◌, none, some, ℤ, pos, ltb, ◌==◌,
  if◌then◌else◌,
}
use tisdk_cc32xx_issues.Driver.Pool.{Objs, signal_obj}
use tisdk_cc32xx_issues.Driver.Lookup.{Found, obj_not_set, recv_obj, handled_obj, find_active_obj}
use tisdk_cc32xx_issues.Driver.RxHeader.{hdr_read, timed_out, starved, rx_hdr_read}
use tisdk_cc32xx_issues.Driver.RxState.{
  MsgParams, Rx, MsgEnd, completed, sync_lost, no_receiver, no_memory, waits,
}
use tisdk_cc32xx_issues.Driver.Classify.{
  RxMsgClass, cmd_resp_class, dummy_msg_class, recv_resp_class, async_evt_class,
  multi_select_resp_class, action_handler, classify_rx_msg,
}
use tisdk_cc32xx_issues.Driver.Payload.{
  R, pure, ◌>>=◌, nwp_read, read_words, read_exact, read_async, read_cmd,
}

-- The status in a header; TxSyncObj is signaled if it is not already.
unfoldable pub update_status : MsgParams → List ℕ → Rx → Rx
update_status p hdr s = record s {
  tx_pool_cnt = p.header.tx_pool_cnt hdr;
  min_tx_payload = p.header.min_max_payload hdr;
  dev_status = p.header.dev_status hdr;
  tx_signaled = if ltb p.flow_cont_min (p.header.tx_pool_cnt hdr) then true else s.tx_signaled;
}

-- What _SlDrvFindAndSetActiveObj sets
unfoldable pub set_active : Found → Rx → Rx
set_active obj_not_set s = s
set_active (recv_obj i) s = record s { action_index = i }
set_active (handled_obj i) s = record s {
  action_index = i;
  handler = some (action_handler (s.pool.objs i).action_id);
}

unfoldable pub event_socket : MsgParams → ℕ → List ℕ → ℕ
event_socket p opcode payload =
    if opcode == p.sockets.socket_event
    then p.sockets.event_sd payload
    else if p.sockets.is_socket_response opcode
    then p.sockets.response_sd payload
    else p.limits.max_sockets

-- The end of every class
unfoldable pub unmask : Rx → MsgEnd
unmask s = completed (record s { unmasked = s.unmasked + 1 })

-- ASYNC_EVT_CLASS; the buffer beyond what is read is zero.
unfoldable pub read_event : MsgParams → ℕ → List ℕ → Rx → MsgEnd
unfolding event_socket set_active unmask
read_event p opcode hdr s =
    if p.malloc_ok
    then elim (read_async p.async (p.header.payload_len hdr) s.input) [
      | none ↦ waits
      | some ((payload, n), rest) ↦ unmask (
          set_active
            (find_active_obj p.limits p.actions opcode (event_socket p opcode payload) s.pool)
            (record s { input = rest; async_buf = some (hdr ++ payload); async_len = n }))
    ]
    else no_memory s

-- The data of a received packet, if the length in its arguments is above 0
unfoldable pub read_data : (ℕ → R (List ℕ)) → ℤ → R (List ℕ)
read_data read (pos (suc n)) = read (suc n)
read_data read size = pure []

-- The arguments behind the first ones, and the data. For the control socket of the multiple select
-- only whole words are read.
unfoldable pub read_packet : MsgParams → ℕ → (ℕ → R (List ℕ)) → List ℕ → R (List ℕ × List ℕ)
unfolding read_data
read_packet p opcode read args = do
  more ←
      if ltb p.sockets.recv_args_size (p.sockets.args_size opcode)
      then nwp_read (p.sockets.args_size opcode - p.sockets.recv_args_size)
      else pure []
  content ← read_data read (p.sockets.args_len args)
  pure (args ++ more, content)

-- The packet for an object of the pool, which is signaled
unfoldable pub deliver : MsgParams → ℕ → List ℕ → ℕ → Rx → MsgEnd
unfolding read_packet unmask
deliver p opcode args i s = elim (read_packet p opcode read_exact args s.input) [
  | none ↦ waits
  | some ((all, content), rest) ↦ unmask (record s {
    input = rest;
    action_index = i;
    pool = record s.pool { objs = signal_obj i s.pool.objs };
    deliveries = s.deliveries ++ record { obj = i; args = all; content = content } ∷ [];
  })
]

-- RECV_RESP_CLASS, behind the first arguments
unfoldable pub receive : MsgParams → ℕ → List ℕ → Rx → MsgEnd
unfolding deliver read_packet unmask set_active
receive p opcode args s =
    elim (find_active_obj p.limits p.actions opcode (p.limits.socket_id (p.sockets.args_sd args))
      s.pool) [
        | recv_obj i ↦ deliver p opcode args i s
        | handled_obj i ↦ deliver p opcode args i (set_active (handled_obj i) s)
        | obj_not_set ↦
            if p.build.multi_select && (p.sockets.args_sd args == s.select.ctrl_sock)
            then elim (read_packet p opcode read_words args s.input) [
              | none ↦ waits
              | some (_, rest) ↦ unmask (record s { input = rest })
            ]
            else no_receiver s
      ]

unfoldable pub read_recv : MsgParams → ℕ → Rx → MsgEnd
unfolding receive
read_recv p opcode s = elim (nwp_read p.sockets.recv_args_size s.input) [
  | none ↦ waits
  | some (args, rest) ↦ receive p opcode args (record s { input = rest })
]

-- CMD_RESP_CLASS
unfoldable pub read_cmd_resp : MsgParams → List ℕ → Rx → MsgEnd
unfolding unmask
read_cmd_resp p hdr s =
    elim (read_cmd p.async.align (p.header.payload_len hdr) p.rx_desc_len p.room s.input) [
      | none ↦ waits
      | some ((desc, response), rest) ↦
          unmask (record s { input = rest; desc = desc; response = response })
    ]

-- The entries of the multiple select, all of which are signaled
abbrev signal_entries : ℕ → (ℕ → Bool) → Objs → Objs
signal_entries max_actions entries objs i =
    if ltb i max_actions && entries i then record (objs i) { signaled = true } else objs i

-- MULTI_SELECT_RESP_CLASS: `size` is the one of _BasicResponse_t, and `is_ok` says that the status in
-- it is SL_RET_CODE_OK. Of MultiSelectCB, which is cleared as a whole, the fields above are modelled.
unfoldable pub read_select : MsgParams → ℕ → (List ℕ → Bool) → Rx → MsgEnd
unfolding unmask
read_select p size is_ok s = elim (nwp_read (p.async.align size) s.input) [
  | none ↦ waits
  | some (status, rest) ↦
      if is_ok status
      then unmask (record s { input = rest })
      else unmask (record s {
        input = rest;
        pool = record s.pool {
          objs = signal_entries p.limits.max_actions s.select.entries s.pool.objs;
        };
        select = record { active = false; entries = λ _. false; ctrl_sock = 0 };
      })
]

-- The switch over the class; `size` and `is_ok` are those of the response to a select.
unfoldable pub read_class : MsgParams → ℕ → (List ℕ → Bool) → RxMsgClass → ℕ → List ℕ → Rx → MsgEnd
unfolding read_event read_recv read_cmd_resp read_select unmask
read_class p size is_ok async_evt_class opcode hdr s = read_event p opcode hdr s
read_class p size is_ok recv_resp_class opcode hdr s = read_recv p opcode s
read_class p size is_ok cmd_resp_class opcode hdr s = read_cmd_resp p hdr s
read_class p size is_ok multi_select_resp_class opcode hdr s = read_select p size is_ok s
read_class p size is_ok dummy_msg_class opcode hdr s = unmask s

-- Behind the header
unfoldable pub read_body : MsgParams → ℕ → (List ℕ → Bool) → List ℕ → Rx → MsgEnd
unfolding classify_rx_msg read_class update_status
read_body p size is_ok hdr s =
    let opcode = p.header.opcode hdr in
    let c = classify_rx_msg p.opcodes p.build p.cmd_opcode opcode in
    read_class p size is_ok c.rx_msg_class opcode hdr
      (record (update_status p hdr s) { rx_msg_class = c.rx_msg_class; handler = c.handler })

-- _SlDrvMsgRead. After a loss of synchronisation the state is the one before; the bytes that were
-- searched in vain are lost.
unfoldable pub msg_read : MsgParams → ℕ → (List ℕ → Bool) → Rx → MsgEnd
unfolding rx_hdr_read read_body
msg_read p size is_ok s = elim (rx_hdr_read p.sync s.tx_seq_num s.input) [
  | starved ↦ waits
  | timed_out ↦ sync_lost s
  | hdr_read hdr seq rest ↦
      read_body p size is_ok hdr (record s { input = rest; tx_seq_num = seq; handler = none })
]
