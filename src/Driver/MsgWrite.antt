-- ===== src/Driver/MsgWrite.antt =====
-- driver.c: _SlDrvMsgWrite, which writes a command to the network processor in several transactions.
-- The macros of driver.h are parameters.
use tisdk_cc32xx_issues.Prelude.{
  ℕ, zero, suc, ◌+◌, ◌-◌, ◌%◌, Bool, true, false, ◌&&◌, List, [], ◌∷◌, ◌++◌, Option, none, some, ℤ,
  pos, negsuc, ltb, if◌then◌else◌,
}

-- The bytes behind a pointer
abbrev pub Buffer : Type 0
Buffer = ℕ → ℕ

-- `n` bytes from the offset `off` on
unfoldable pub bytes : Buffer → ℕ → ℕ → List ℕ
bytes b off zero = []
bytes b off (suc n) = b off ∷ bytes b (off + 1) n

-- _SlCmdCtrl_t
pub record CmdCtrl : Type 0 where
  pub opcode : ℕ
  pub tx_desc_len : ℕ
  pub rx_desc_len : ℕ

-- _SlCmdExt_t
pub record CmdExt : Type 0 where
  pub tx_payload1_len : ℕ
  pub tx_payload2_len : ℕ
  pub rx_payload_len : ℤ
  pub tx_payload1 : Buffer
  pub tx_payload2 : Buffer
  pub rx_payload : Buffer

-- _SL_PROTOCOL_ALIGN_SIZE, the short sync pattern, the header of an opcode and a length,
-- _SL_PROTOCOL_CALC_LEN, and whether the transaction behind a number of others succeeds
pub record Wire : Type 0 where
  pub align : ℕ → ℕ
  pub sync_pattern : List ℕ
  pub header : ℕ → ℕ → List ℕ
  pub calc_len : CmdCtrl → Option CmdExt → ℕ
  pub accepts : ℕ → Bool

-- What has been written, in how many transactions, and the command's extension
pub record Sending : Type 0 where
  pub sent : List ℕ
  pub transactions : ℕ
  pub ext : Option CmdExt

-- NWP_IF_WRITE_CHECK leaves the function when a transaction fails.
pub data Sent : Type 0 where
  sending : Sending → Sent
  write_failed : Sending → Sent

abbrev pub S : Type 0
S = Sending → Sent

abbrev pub go_on : Sent → S → Sent
go_on (sending s) k = k s
go_on (write_failed s) k = write_failed s

infixl 5 ◌>>◌
abbrev pub ◌>>◌ : S → S → S
◌>>◌ m k s = go_on (m s) k

abbrev pub nothing : S
nothing s = sending s

abbrev pub when : Bool → S → S
when true m = m
when false m = nothing

-- NWP_IF_WRITE_CHECK
unfoldable pub write_check : Wire → List ℕ → S
write_check w chunk s =
    if w.accepts s.transactions
    then sending (record s { sent = s.sent ++ chunk; transactions = suc s.transactions })
    else write_failed s

abbrev pub set_ext : CmdExt → S
set_ext e s = sending (record s { ext = some e })

-- The two payloads, where both have bytes: the aligned part of the first, four bytes from both, the
-- rest of the second
unfoldable pub write_both : Wire → CmdExt → S
unfolding write_check bytes
write_both w e =
    let reminder = e.tx_payload1_len % 4 in
    let whole = e.tx_payload1_len - reminder in
    let offset = if ltb 0 reminder then 4 - reminder else 0 in
    set_ext (record e { tx_payload1_len = whole })
    >> write_check w (bytes e.tx_payload1 0 whole)
    >> when (ltb 0 reminder)
        (write_check w (bytes e.tx_payload1 whole reminder ++ bytes e.tx_payload2 0 offset))
    >> when (ltb offset e.tx_payload2_len)
        (write_check w (bytes e.tx_payload2 offset (w.align (e.tx_payload2_len - offset))))

-- The part for a message with a payload
unfoldable pub write_payload : Wire → CmdExt → S
unfolding write_both
write_payload w e =
    if ltb 0 e.tx_payload1_len && ltb 0 e.tx_payload2_len
    then write_both w e
    else if ltb 0 e.tx_payload1_len
    then write_check w (bytes e.tx_payload1 0 (w.align e.tx_payload1_len))
    else if ltb 0 e.tx_payload2_len
    then write_check w (bytes e.tx_payload2 0 (w.align e.tx_payload2_len))
    else nothing

-- The change of sign of RxPayloadLen, and what is then sent from pRxPayload
abbrev pub is_transceiver : CmdExt → Bool
is_transceiver e = elim e.rx_payload_len [ pos n ↦ false | negsuc n ↦ true ]

abbrev pub rx_len : CmdExt → ℕ
rx_len e = elim e.rx_payload_len [ pos n ↦ n | negsuc n ↦ suc n ]

abbrev pub unsigned_ext : CmdExt → CmdExt
unsigned_ext e = record e { rx_payload_len = pos (rx_len e) }

-- Sync pattern, header and descriptors
unfoldable pub write_head : Wire → CmdCtrl → Option Buffer → ℕ → S
unfolding write_check bytes
write_head w ctrl none len =
    write_check w w.sync_pattern >> write_check w (w.header ctrl.opcode len)
write_head w ctrl (some desc) len =
    write_check w w.sync_pattern
    >> write_check w (w.header ctrl.opcode len)
    >> when (ltb 0 ctrl.tx_desc_len) (write_check w (bytes desc 0 (w.align ctrl.tx_desc_len)))

-- _SlDrvMsgWrite. Len is of 16 bits.
unfoldable pub msg_write : Wire → CmdCtrl → Option CmdExt → Option Buffer → S
unfolding write_head write_payload
msg_write w ctrl none desc = write_head w ctrl desc (w.calc_len ctrl none % 65536)
msg_write w ctrl (some e) desc =
    let len = w.calc_len ctrl (some e) % 65536 in
    if is_transceiver e
    then set_ext (unsigned_ext e)
      >> write_head w ctrl desc ((len + rx_len e) % 65536)
      >> write_check w (bytes e.rx_payload 0 (w.align (rx_len e)))
      >> write_payload w (unsigned_ext e)
    else write_head w ctrl desc len >> write_payload w e
