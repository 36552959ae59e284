-- ===== src/Driver/Received.antt =====
-- driver.c: _SlDrvMsgRead on a packet that an action of the pool waits for.
use tisdk_cc32xx_issues.Prelude.{
  ℕ, zero, suc, ◌+◌, ◌-◌, ◌%◌, Bool, true, List, [], ◌∷◌, ◌++◌, none, some, pos, length, take, ltb,
  ◌≡◌, refl, ap, ◌∙◌, inl, inr, Bool-cases, arith, if◌then◌else◌,
}
use tisdk_cc32xx_issues.Driver.Lookup.{recv_obj, find_active_obj}
use tisdk_cc32xx_issues.Driver.RxSync.{IsNext}
use tisdk_cc32xx_issues.Driver.Classify.{recv_resp_class}
use tisdk_cc32xx_issues.Driver.Payload.{pure, nwp_read, read_exact}
use tisdk_cc32xx_issues.Driver.Payloads.{padded, bind_some, nwp_read-append, read_exact-append}
use tisdk_cc32xx_issues.Driver.RxState.{MsgParams, Rx, Delivery, completed}
use tisdk_cc32xx_issues.Driver.MsgRead.{
  update_status, unmask, read_data, read_packet, deliver, receive, read_recv, read_class, msg_read,
}
use tisdk_cc32xx_issues.Driver.Framing.{HasClass, msg_read-body, read_body-class}

read_data-append :
    (n : ℕ) (content rest : List ℕ)
    → length content ≡ padded n
    → read_data read_exact (pos n) (content ++ rest) ≡ some (take n content, rest)
unfolding read_data
read_data-append zero [] rest h = refl
read_data-append zero (x ∷ content) rest h = absurd (omega arith)
read_data-append (suc n) content rest h = read_exact-append (suc n) content rest h

more_read :
    (size first : ℕ) (more rest : List ℕ)
    → length more ≡ size - first
    → (if ltb first size then nwp_read (size - first) else pure []) (more ++ rest)
      ≡ some (more, rest)
more_read size first [] rest h = elim (Bool-cases (ltb first size)) [
  | inl e ↦ absurd (ground arith)
  | inr e ↦ rw e
]
more_read size first (x ∷ more) rest h = elim (Bool-cases (ltb first size)) [
  | inl e ↦ rw e (nwp_read-append (size - first) (x ∷ more) rest h)
  | inr e ↦ absurd (ground arith)
]

read_packet-append :
    (p : MsgParams) (opcode n : ℕ) (args more content rest : List ℕ)
    → p.sockets.args_len args ≡ pos n
    → length more ≡ p.sockets.args_size opcode - p.sockets.recv_args_size
    → length content ≡ padded n
    → read_packet p opcode read_exact args (more ++ (content ++ rest))
      ≡ some ((args ++ more, take n content), rest)
unfolding read_packet
read_packet-append p opcode n args more content rest hn hm hc =
    let size = p.sockets.args_size opcode in
    let first = p.sockets.recv_args_size in
    bind_some (if ltb first size then nwp_read (size - first) else pure []) _
      (more_read size first more (content ++ rest) hm)
    ∙ bind_some (read_data read_exact (p.sockets.args_len args)) _
        (ap (λ k. read_data read_exact k (content ++ rest)) hn ∙ read_data-append n content rest hc)

unmask-lem :
    (i : ℕ) (t : Rx) (rest : List ℕ) (ds : List Delivery)
    → t.input ≡ rest
    → t.deliveries ≡ ds
    → (t.pool.objs i).signaled ≡ true
    → (u : Rx) × (unmask t ≡ completed u)
      × (u.input ≡ rest)
      × (u.deliveries ≡ ds)
      × ((u.pool.objs i).signaled ≡ true)
unfolding unmask
unmask-lem i t rest ds a b c = (record t { unmasked = t.unmasked + 1 }, refl, a, b, c)

-- _SlDrvMsgRead, where the next message is a packet for the action `i`, which is the one that waits
-- for it: arguments, and data of `n` bytes that arrive in whole words. The call completes, the action
-- gets all the arguments and exactly the `n` bytes, its object is signaled, and the bytes behind the
-- message are left.
pub msg_read-packet :
    (p : MsgParams) (size : ℕ) (is_ok : List ℕ → Bool) (s : Rx) (i n : ℕ)
    (hdr args more content rest : List ℕ)
    → IsNext p.sync s.tx_seq_num s.input hdr (args ++ (more ++ (content ++ rest)))
    → HasClass p hdr recv_resp_class
    → length args ≡ p.sockets.recv_args_size
    → find_active_obj p.limits p.actions
        (p.header.opcode hdr)
        (p.limits.socket_id (p.sockets.args_sd args))
        s.pool
      ≡ recv_obj i
    → p.sockets.args_len args ≡ pos n
    → length more ≡ p.sockets.args_size (p.header.opcode hdr) - p.sockets.recv_args_size
    → length content ≡ padded n
    → (t : Rx) × (msg_read p size is_ok s ≡ completed t)
      × (t.input ≡ rest)
      × (t.deliveries
          ≡ s.deliveries ++ record { obj = i; args = args ++ more; content = take n content } ∷ [])
      × ((t.pool.objs i).signaled ≡ true)
unfolding read_class read_recv receive deliver update_status unmask
msg_read-packet p size is_ok s i n hdr args more content rest next c ha hf hn hm hc =
    let begun = record s {
      input = args ++ (more ++ (content ++ rest));
      tx_seq_num = (s.tx_seq_num + 1) % p.sync.seq_values;
      handler = none;
    } in
    rw
      (
        msg_read-body p size is_ok s hdr (args ++ (more ++ (content ++ rest))) next,
        read_body-class p size is_ok hdr begun recv_resp_class c,
        read_recv,
        nwp_read-append p.sockets.recv_args_size args (more ++ (content ++ rest)) ha,
        receive,
        hf,
        deliver,
        read_packet-append p (p.header.opcode hdr) n args more content rest hn hm hc,
      )
      (unmask-lem i _ rest _ refl refl (ground arith))
