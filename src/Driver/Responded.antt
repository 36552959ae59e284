-- ===== src/Driver/Responded.antt =====
-- driver.c: _SlDrvMsgRead on the response of a command.
use tisdk_cc32xx_issues.Prelude.{
  ℕ, zero, suc, ◌+◌, ◌-◌, ◌%◌, ◌<◌, Bool, true, List, ◌++◌, none, some, min, pos, length, take,
  drop, ltb, ◌≡◌, refl, ap, ◌∙◌, arith,
}
use tisdk_cc32xx_issues.Driver.RxSync.{IsNext}
use tisdk_cc32xx_issues.Driver.Classify.{cmd_resp_class}
use tisdk_cc32xx_issues.Driver.Payload.{
  Response, nwp_read, read_response, act_data_size, read_sized, read_cmd,
}
use tisdk_cc32xx_issues.Driver.Payloads.{
  padded, bind_some, nwp_read-append, left_over, read_response-take,
}
use tisdk_cc32xx_issues.Driver.RxState.{MsgParams, Rx, completed}
use tisdk_cc32xx_issues.Driver.MsgRead.{update_status, unmask, read_cmd_resp, read_class, msg_read}
use tisdk_cc32xx_issues.Driver.Framing.{HasClass, msg_read-body, read_body-class}

-- What the extension of a command holds behind a payload of `size` bytes
abbrev pub responded : ℕ → ℕ → List ℕ → Response
responded size room payload = record {
  received = take (min size room) payload;
  room = room;
  actual = pos size;
}

read_sized-take :
    (size room : ℕ) (payload rest : List ℕ)
    → 0 < size
    → size < 32768
    → length payload ≡ padded size
    → read_sized (pos size) room (payload ++ rest)
      ≡ some
          (responded size room payload, drop (padded size - left_over size room) (payload ++ rest))
unfolding read_sized
read_sized-take zero room payload rest h hs hl = elim h [ ]
read_sized-take (suc n) room payload rest h hs hl =
    bind_some (read_response (suc n) room) _ (read_response-take (suc n) room payload rest h hs hl)

act_data_size-sub :
    (len desc_len size : ℕ)
    → len ≡ desc_len + size
    → len < 65536
    → size < 32768
    → act_data_size len desc_len ≡ pos size
unfolding act_data_size
act_data_size-sub len desc_len size h hl hs = ground arith

read_cmd-take :
    (align : ℕ → ℕ) (len desc_len room size : ℕ) (desc payload rest : List ℕ)
    → 0 < room
    → length desc ≡ align desc_len
    → len ≡ desc_len + size
    → len < 65536
    → 0 < size
    → size < 32768
    → length payload ≡ padded size
    → read_cmd align len desc_len (some room) (desc ++ (payload ++ rest))
      ≡ some (
        (desc, some (responded size room payload)),
        drop (padded size - left_over size room) (payload ++ rest),
      )
unfolding read_cmd
read_cmd-take align len desc_len room size desc payload rest hr hd hl hb h hs hp =
    let some_room : ltb 0 room ≡ true = ground arith in
    rw some_room (
      bind_some (nwp_read (align desc_len)) _
        (nwp_read-append (align desc_len) desc (payload ++ rest) hd)
      ∙ bind_some (read_sized (act_data_size len desc_len) room) _ (
          ap (λ k. read_sized k room (payload ++ rest))
            (act_data_size-sub len desc_len size hl hb hs)
          ∙ read_sized-take size room payload rest h hs hp))

complete_response :
    (t : Rx) (rest : List ℕ) (desc : List ℕ) (r : Response)
    → t.input ≡ rest
    → t.desc ≡ desc
    → t.response ≡ some r
    → (u : Rx) × (unmask t ≡ completed u)
      × (u.input ≡ rest)
      × (u.desc ≡ desc)
      × (u.response ≡ some r)
unfolding unmask
complete_response t rest desc r a b c = (record t { unmasked = t.unmasked + 1 }, refl, a, b, c)

-- _SlDrvMsgRead, where the next message is the response of the command under way: the descriptor, and
-- `size` bytes of payload, for which the user has some room, that arrive in whole words. The call
-- completes; the user gets the descriptor, and exactly as many of the first bytes of the payload as
-- there is room for. The whole payload is taken from the stream, but for its last word where the
-- payload is longer than the room, the room is not of whole words, and the last byte of the payload
-- lies lower in its word than the first byte that the room does not take.
pub msg_read-response :
    (p : MsgParams) (size_select : ℕ) (is_ok : List ℕ → Bool) (s : Rx) (room size : ℕ)
    (hdr desc payload rest : List ℕ)
    → IsNext p.sync s.tx_seq_num s.input hdr (desc ++ (payload ++ rest))
    → HasClass p hdr cmd_resp_class
    → p.room ≡ some room
    → 0 < room
    → length desc ≡ p.async.align p.rx_desc_len
    → p.header.payload_len hdr ≡ p.rx_desc_len + size
    → p.header.payload_len hdr < 65536
    → 0 < size
    → size < 32768
    → length payload ≡ padded size
    → (t : Rx) × (msg_read p size_select is_ok s ≡ completed t)
      × (t.input ≡ drop (padded size - left_over size room) (payload ++ rest))
      × (t.desc ≡ desc)
      × (t.response ≡ some (responded size room payload))
unfolding read_class read_cmd_resp update_status unmask
msg_read-response p size_select is_ok s room size hdr desc payload rest next c hr h0 hd hl hb h hs
      hp =
    let begun = record s {
      input = desc ++ (payload ++ rest);
      tx_seq_num = (s.tx_seq_num + 1) % p.sync.seq_values;
      handler = none;
    } in
    rw
      (
        msg_read-body p size_select is_ok s hdr (desc ++ (payload ++ rest)) next,
        read_body-class p size_select is_ok hdr begun cmd_resp_class c,
        read_cmd_resp,
        hr,
        read_cmd-take p.async.align (p.header.payload_len hdr) p.rx_desc_len room size desc payload
            rest h0 hd hl hb h hs hp,
      )
      (complete_response _ _ desc _ refl refl refl)
