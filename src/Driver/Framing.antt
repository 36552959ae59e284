-- ===== src/Driver/Framing.antt =====
-- driver.c: which bytes _SlDrvMsgRead takes from the stream for one message.
use tisdk_cc32xx_issues.Prelude.{
  ℕ, ◌+◌, ◌%◌, ◌≤◌, Bool, List, ◌++◌, Option, none, some, min, length, take, true, ◌≡◌, refl, ap,
}
use tisdk_cc32xx_issues.Driver.Lookup.{Found, obj_not_set, recv_obj, handled_obj}
use tisdk_cc32xx_issues.Driver.RxSync.{IsNext, rx_hdr_read-header}
use tisdk_cc32xx_issues.Driver.Classify.{
  RxMsgClass, action_handler, async_evt_class, classify_rx_msg,
}
use tisdk_cc32xx_issues.Driver.Payloads.{padded}
use tisdk_cc32xx_issues.Driver.AsyncPayload.{IsAligned, read_async-take}
use tisdk_cc32xx_issues.Driver.RxState.{MsgParams, Rx, completed}
use tisdk_cc32xx_issues.Driver.MsgRead.{
  update_status, set_active, unmask, read_event, read_class, read_body, msg_read,
}

-- What a message leaves: the bytes behind it, the next TxSeqNum, and one more call that unmasks the
-- interrupt
abbrev IsLeft : Rx → List ℕ → ℕ → ℕ → Type 0
IsLeft s rest seq unmasked = (s.input ≡ rest) × (s.tx_seq_num ≡ seq) × (s.unmasked ≡ unmasked)

-- Behind a header that has been read
pub msg_read-body :
    (p : MsgParams) (size : ℕ) (is_ok : List ℕ → Bool) (s : Rx) (hdr body : List ℕ)
    → IsNext p.sync s.tx_seq_num s.input hdr body
    → msg_read p size is_ok s
      ≡ read_body p size is_ok hdr (record s {
        input = body;
        tx_seq_num = (s.tx_seq_num + 1) % p.sync.seq_values;
        handler = none;
      })
unfolding msg_read read_body
msg_read-body p size is_ok s hdr body next =
    rw (msg_read, rx_hdr_read-header p.sync s.tx_seq_num s.input hdr body next)

-- The message is of a class.
abbrev pub HasClass : MsgParams → List ℕ → RxMsgClass → Type 0
HasClass p hdr c =
    (classify_rx_msg p.opcodes p.build p.cmd_opcode (p.header.opcode hdr)).rx_msg_class ≡ c

-- The state that the functions of the classes get
abbrev pub classified : MsgParams → List ℕ → Rx → Rx
classified p hdr s =
    let c = classify_rx_msg p.opcodes p.build p.cmd_opcode (p.header.opcode hdr) in
    record (update_status p hdr s) { rx_msg_class = c.rx_msg_class; handler = c.handler }

pub read_body-class :
    (p : MsgParams) (size : ℕ) (is_ok : List ℕ → Bool) (hdr : List ℕ) (s : Rx) (c : RxMsgClass)
    → HasClass p hdr c
    → read_body p size is_ok hdr s
      ≡ read_class p size is_ok c (p.header.opcode hdr) hdr (classified p hdr s)
unfolding read_body
read_body-class p size is_ok hdr s c h =
    ap (λ k. read_class p size is_ok k (p.header.opcode hdr) hdr (classified p hdr s)) h

-- What a message leaves: the bytes behind it, the next TxSeqNum, the interrupt unmasked once more,
-- and the bytes of an asynchronous event
abbrev pub Leaves : MsgParams → Rx → List ℕ → Option (List ℕ) → Rx → Type 0
Leaves p s rest buf t =
    (t.input ≡ rest)
    × (t.tx_seq_num ≡ (s.tx_seq_num + 1) % p.sync.seq_values)
    × (t.unmasked ≡ s.unmasked + 1)
    × (t.async_buf ≡ buf)

set_active-Leaves :
    (p : MsgParams) (s t : Rx) (rest : List ℕ) (buf : Option (List ℕ)) (f : Found)
    → t.input ≡ rest
    → t.tx_seq_num ≡ (s.tx_seq_num + 1) % p.sync.seq_values
    → t.unmasked ≡ s.unmasked
    → t.async_buf ≡ buf
    → (u : Rx) × (unmask (set_active f t) ≡ completed u) × Leaves p s rest buf u
unfolding set_active unmask
set_active-Leaves p s t rest buf obj_not_set a b c d =
    (record t { unmasked = t.unmasked + 1 }, refl, (a, b, ap (λ n. n + 1) c, d))
set_active-Leaves p s t rest buf (recv_obj i) a b c d =
    (record t { unmasked = t.unmasked + 1; action_index = i }, refl, (a, b, ap (λ n. n + 1) c, d))
set_active-Leaves p s t rest buf (handled_obj i) a b c d = (
  record t {
    unmasked = t.unmasked + 1;
    action_index = i;
    handler = some (action_handler (t.pool.objs i).action_id);
  },
  refl,
  (a, b, ap (λ n. n + 1) c, d),
)

-- _SlDrvMsgRead, where the next message is an asynchronous event of up to 65532 bytes of payload,
-- which arrive in whole words: the call completes, keeps the header and as much of the payload as the
-- buffer has room for, and leaves exactly the bytes behind the message, with the next TxSeqNum and the
-- interrupt unmasked.
pub msg_read-event :
    (p : MsgParams) (size : ℕ) (is_ok : List ℕ → Bool) (s : Rx) (hdr payload rest : List ℕ)
    → IsNext p.sync s.tx_seq_num s.input hdr (payload ++ rest)
    → IsAligned p.async
    → p.malloc_ok ≡ true
    → HasClass p hdr async_evt_class
    → p.header.payload_len hdr ≤ 65532
    → length payload ≡ padded (p.header.payload_len hdr)
    → (t : Rx) × (msg_read p size is_ok s ≡ completed t)
      × Leaves p s rest
          (some (hdr ++ take (min (padded (p.header.payload_len hdr)) p.async.max_payload) payload))
          t
unfolding read_class read_event update_status
msg_read-event p size is_ok s hdr payload rest next h ok c short hl =
    let begun = record s {
      input = payload ++ rest;
      tx_seq_num = (s.tx_seq_num + 1) % p.sync.seq_values;
      handler = none;
    } in
    rw
      (
        msg_read-body p size is_ok s hdr (payload ++ rest) next,
        read_body-class p size is_ok hdr begun async_evt_class c,
        ok,
        read_async-take p.async (p.header.payload_len hdr) payload rest h short hl,
      )
      (set_active-Leaves p s _ rest _ _ refl refl refl refl)
