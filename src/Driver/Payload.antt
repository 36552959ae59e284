-- ===== src/Driver/Payload.antt =====
-- driver.c: how _SlDrvMsgRead reads what follows the header of a message: the payload of an
-- asynchronous event, the data of a socket and the response of a command. Lengths are of type _u16.
use tisdk_cc32xx_issues.Prelude.{
  ℕ, suc, ◌+◌, ◌-◌, ◌*◌, ◌/◌, ◌%◌, List, [], ◌∷◌, ◌++◌, Option, none, some, ℤ, pos, negsuc, length,
  take, drop, ltb, leb, if◌then◌else◌,
}

-- A read from the bytes that arrive; `none` is a read that still waits for some.
abbrev pub R : Type 0 → Type 0
R A = List ℕ → Option (A × List ℕ)

abbrev pub pure : {A : Type 0} → A → R A
pure a input = some (a, input)

infixl 5 ◌>>=◌ ◌>>◌
abbrev pub ◌>>=◌ : {A B : Type 0} → R A → (A → R B) → R B
◌>>=◌ m f input = elim (m input) [ none ↦ none | some (a, rest) ↦ f a rest ]

abbrev pub ◌>>◌ : {B : Type 0} → R (Unit {0}) → R B → R B
m >> n = m >>= λ _. n

-- NWP_IF_READ_CHECK of `n` bytes
unfoldable pub nwp_read : ℕ → R (List ℕ)
nwp_read n input = if leb n (length input) then some (take n input, drop n input) else none

-- The reads into TailBuffer, four bytes each, until the length is 0
unfoldable pub dump : ℕ → R (Unit {0})
dump n (a ∷ b ∷ c ∷ d ∷ input) =
    let rest = dump ((n + 65536 - 4) % 65536) input in
    if ltb 0 n then rest else some (tt, a ∷ b ∷ c ∷ d ∷ input)
dump n input = if ltb 0 n then none else some (tt, input)

-- `n & ~3`
abbrev pub whole_words : ℕ → ℕ
whole_words n = n / 4 * 4

-- Up to `n` bytes in whole words, and the rest of them through TailBuffer
unfoldable pub read_words : ℕ → R (List ℕ)
unfolding nwp_read
read_words n = if leb 4 (whole_words n) then nwp_read (whole_words n) else pure []

unfoldable pub read_tail : ℕ → R (List ℕ)
unfolding nwp_read
read_tail n = if ltb 0 (n % 4) then (do tail ← nwp_read 4; pure (take (n % 4) tail)) else pure []

unfoldable pub read_exact : ℕ → R (List ℕ)
unfolding read_words read_tail
read_exact n = do words ← read_words n; tail ← read_tail n; pure (words ++ tail)

-- _SL_PROTOCOL_ALIGN_SIZE, SL_ASYNC_MAX_PAYLOAD_LEN and _SL_RESP_HDR_SIZE
pub record AsyncLimits : Type 0 where
  pub align : ℕ → ℕ
  pub max_payload : ℕ
  pub hdr_size : ℕ

-- AlignedLengthRecv for a payload of an asynchronous event
unfoldable pub async_length : AsyncLimits → ℕ → ℕ
async_length limits len =
    if leb (limits.align len) limits.max_payload
    then limits.align len % 65536
    else limits.align limits.max_payload % 65536

unfoldable pub dump_rest : AsyncLimits → ℕ → R (Unit {0})
unfolding dump
dump_rest limits len =
    if ltb limits.max_payload (limits.align len)
    then dump ((limits.align len - limits.max_payload) % 65536)
    else pure tt

-- The payload of an asynchronous event, as far as the buffer has room, with outMsgReadLen
unfoldable pub read_async : AsyncLimits → ℕ → R (List ℕ × ℕ)
unfolding async_length dump_rest nwp_read
read_async limits len = do
  payload ← if ltb 0 len then nwp_read (async_length limits len) else pure []
  dump_rest limits len
  pure (payload, limits.hdr_size + (if ltb 0 len then async_length limits len else 0))

-- The part of a response's payload that is not for the user: `size` is ActDataSize, `room` is
-- RxPayloadLen, and `used` what the read into TailBuffer has taken off ActDataSize.
unfoldable pub dump_response : ℕ → ℕ → ℕ → R (Unit {0})
unfolding dump
dump_response size room used =
    if ltb (room + used) size then dump (whole_words (size + 3 - used - room)) else pure tt

-- The payload of a response, at an ActDataSize above 0
unfoldable pub read_response : ℕ → ℕ → R (List ℕ)
unfolding read_exact dump_response
read_response size room =
    let n = if ltb room size then room else size in
    do read ← read_exact n; dump_response size room (if ltb 0 (n % 4) then 4 else 0); pure read

-- `(_i16)(len - desc_len)`
unfoldable pub act_data_size : ℕ → ℕ → ℤ
act_data_size len desc_len =
    let d = (len + 65536 - desc_len) % 65536 in if ltb d 32768 then pos d else negsuc (65535 - d)

-- pRxPayload, RxPayloadLen and ActualRxPayloadLen of a command's extension after the read
pub record Response : Type 0 where
  pub received : List ℕ
  pub room : ℕ
  pub actual : ℤ

-- CMD_RESP_CLASS: the descriptor, and the payload of a command whose extension has room for one
unfoldable pub read_sized : ℤ → ℕ → R Response
unfolding read_response
read_sized (pos (suc n)) room = do
  read ← read_response (suc n) room
  pure (record { received = read; room = room; actual = pos (suc n) })
read_sized size room = pure (record { received = []; room = 0; actual = size })

unfoldable pub read_cmd : (align : ℕ → ℕ) → ℕ → ℕ → Option ℕ → R (List ℕ × Option Response)
unfolding nwp_read read_sized act_data_size
read_cmd align len desc_len none = do desc ← nwp_read (align desc_len); pure (desc, none)
read_cmd align len desc_len (some room) =
    if ltb 0 room
    then (do
      desc ← nwp_read (align desc_len)
      response ← read_sized (act_data_size len desc_len) room
      pure (desc, some response))
    else (do desc ← nwp_read (align desc_len); pure (desc, none))
