-- ===== src/Driver/Message.antt =====
-- driver.c: all that _SlDrvMsgWrite sends, for a command of every form.
use tisdk_cc32xx_issues.Prelude.{
  subst, ℕ, ◌+◌, ◌%◌, ◌≡◌, true, false, List, [], ◌++◌, Option, none, some, arith, refl, ltb,
  Bool-cases, inl, inr, sym, if◌then◌else◌,
}
use mathlib.Core.List.{append-nil}
use tisdk_cc32xx_issues.Driver.MsgWrite.{
  Buffer, bytes, CmdExt, CmdCtrl, Wire, Sending, Sent, sending, when, write_check, write_head,
  write_payload, msg_write, set_ext, unsigned_ext, rx_len, is_transceiver,
}
use tisdk_cc32xx_issues.Driver.Merged.{
  IsSound, Sends, Sends-then, joined, write_both-Sends, write_check-Sends,
}

-- The parts of a message: descriptors, the receive buffer of a transceiver, and the payloads
abbrev pub descriptors : Wire → CmdCtrl → Option Buffer → List ℕ
descriptors w ctrl none = []
descriptors w ctrl (some d) = bytes d 0 (w.align ctrl.tx_desc_len)

abbrev pub reused : Wire → CmdExt → List ℕ
reused w e = if is_transceiver e then bytes e.rx_payload 0 (w.align (rx_len e)) else []

abbrev pub message_len : Wire → CmdCtrl → CmdExt → ℕ
message_len w ctrl e =
    let len = w.calc_len ctrl (some e) % 65536 in
    if is_transceiver e then (len + rx_len e) % 65536 else len

abbrev pub message : Wire → CmdCtrl → CmdExt → Option Buffer → List ℕ
message w ctrl e desc =
    w.sync_pattern
    ++ w.header ctrl.opcode (message_len w ctrl e)
    ++ descriptors w ctrl desc
    ++ reused w e
    ++ joined e

Sends-same : (xs ys : List ℕ) (s : Sending) (o : Sent) → xs ≡ ys → Sends xs s o → Sends ys s o
Sends-same xs ys s o e h = subst (λ zs. Sends zs s o) e h

module _ (w : Wire) (h : IsSound w) where
  no_bytes : (b : Buffer) (n : ℕ) → ltb 0 n ≡ false → [] ≡ bytes b 0 (w.align n)
  unfolding bytes
  no_bytes b n z = ground (arith, h.aligns n)

  descriptors-Sends :
      (ctrl : CmdCtrl) (d : Buffer) (s : Sending)
      → Sends
          (descriptors w ctrl (some d))
          s
          (when (ltb 0 ctrl.tx_desc_len) (write_check w (bytes d 0 (w.align ctrl.tx_desc_len))) s)
  unfolding bytes
  descriptors-Sends ctrl d s = elim (Bool-cases (ltb 0 ctrl.tx_desc_len)) [
    | inl y ↦ rw y (write_check-Sends w h (bytes d 0 (w.align ctrl.tx_desc_len)) s)
    | inr y ↦
        rw y
          (Sends-same [] _ s (sending s) (no_bytes d ctrl.tx_desc_len y) (sym (append-nil s.sent)))
  ]

  write_head-Sends :
      (ctrl : CmdCtrl) (desc : Option Buffer) (len : ℕ) (s : Sending)
      → Sends
          (w.sync_pattern ++ w.header ctrl.opcode len ++ descriptors w ctrl desc)
          s
          (write_head w ctrl desc len s)
  unfolding write_head
  write_head-Sends ctrl none len s =
      Sends-same (w.sync_pattern ++ w.header ctrl.opcode len) _ s _ (sym (append-nil _)) (
        Sends-then w.sync_pattern _ _ s _ _ (write_check-Sends w h w.sync_pattern s)
          (λ t. write_check-Sends w h (w.header ctrl.opcode len) t) refl)
  write_head-Sends ctrl (some d) len s =
      Sends-then (w.sync_pattern ++ w.header ctrl.opcode len) _ _ s _ _
        (Sends-then w.sync_pattern _ _ s _ _ (write_check-Sends w h w.sync_pattern s)
          (λ t. write_check-Sends w h (w.header ctrl.opcode len) t) refl)
        (λ t. descriptors-Sends ctrl d t) refl

  first_alone :
      (e : CmdExt)
      → ltb 0 e.tx_payload2_len ≡ false
      → bytes e.tx_payload1 0 (w.align e.tx_payload1_len) ≡ joined e
  unfolding joined
  first_alone e z = ground (arith, h.aligns e.tx_payload1_len)

  second_alone :
      (e : CmdExt)
      → ltb 0 e.tx_payload1_len ≡ false
      → ltb 0 e.tx_payload2_len ≡ true
      → bytes e.tx_payload2 0 (w.align e.tx_payload2_len) ≡ joined e
  unfolding joined bytes
  second_alone e y z = ground (arith, h.aligns e.tx_payload2_len)

  both_empty :
      (e : CmdExt)
      → ltb 0 e.tx_payload1_len ≡ false
      → ltb 0 e.tx_payload2_len ≡ false
      → [] ≡ joined e
  unfolding joined bytes
  both_empty e y z = ground arith

  write_payload-Sends : (e : CmdExt) (s : Sending) → Sends (joined e) s (write_payload w e s)
  unfolding write_payload
  write_payload-Sends e s =
      let l = e.tx_payload1_len in
      let m = e.tx_payload2_len in
      elim (Bool-cases (ltb 0 l)) [
        | inl y ↦ elim (Bool-cases (ltb 0 m)) [
          | inl z ↦ rw (y, z) (write_both-Sends w h e s (ground arith) (ground arith))
          | inr z ↦ rw (y, z) (Sends-same _ _ s _ (first_alone e z) (write_check-Sends w h _ s))
        ]
        | inr y ↦ elim (Bool-cases (ltb 0 m)) [
          | inl z ↦ rw (y, z) (Sends-same _ _ s _ (second_alone e y z) (write_check-Sends w h _ s))
          | inr z ↦
              rw (y, z) (Sends-same [] _ s (sending s) (both_empty e y z) (sym (append-nil s.sent)))
        ]
      ]

write_unsigned-Sends :
    (w : Wire) (h : IsSound w) (e : CmdExt) (s : Sending)
    → Sends (joined e) s (write_payload w (unsigned_ext e) s)
unfolding joined
write_unsigned-Sends w h e s = write_payload-Sends w h (unsigned_ext e) s

-- When every transaction succeeds, what _SlDrvMsgWrite sends for a command with an extension is the
-- sync pattern, the header, the descriptors and, where RxPayloadLen is negative, the receive buffer,
-- each up to a multiple of four bytes, and then both payloads without a gap between them, though the
-- bytes at their border go out in a transaction of their own.
pub msg_write-Sends :
    (w : Wire) (ctrl : CmdCtrl) (e : CmdExt) (desc : Option Buffer) (s : Sending)
    → IsSound w
    → Sends (message w ctrl e desc) s (msg_write w ctrl (some e) desc s)
unfolding msg_write
msg_write-Sends w ctrl e desc s h = elim (Bool-cases (is_transceiver e)) [
  | inl y ↦ rw y (
      Sends-then _ (joined e) _ s _ _
        (Sends-then _ (bytes e.rx_payload 0 (w.align (rx_len e))) _ s _ _
          (Sends-then [] _ _ s (set_ext (unsigned_ext e) s) _ (sym (append-nil s.sent))
            (λ t.
              write_head-Sends w h ctrl desc ((w.calc_len ctrl (some e) % 65536 + rx_len e) % 65536)
                t)
            refl)
          (λ t. write_check-Sends w h (bytes e.rx_payload 0 (w.align (rx_len e))) t) refl)
        (λ t. write_unsigned-Sends w h e t) refl)
  | inr y ↦ rw y (
      Sends-then _ (joined e) _ s _ _
        (Sends-same _ _ s _ (sym (append-nil _))
          (write_head-Sends w h ctrl desc (w.calc_len ctrl (some e) % 65536) s))
        (λ t. write_payload-Sends w h e t) refl)
]
