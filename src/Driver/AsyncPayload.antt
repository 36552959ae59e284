-- ===== src/Driver/AsyncPayload.antt =====
-- driver.c: the payload of an asynchronous event, which may be longer than the buffer.
use tisdk_cc32xx_issues.Prelude.{
  ℕ, ◌+◌, ◌-◌, ◌*◌, ◌/◌, ◌%◌, ◌≤◌, ◌<◌, List, [], ◌++◌, some, min, length, length-append,
  length-drop, take, drop, drop-append, drop-drop, ltb, ◌≡◌, ◌∙◌, ap, inl, inr, Bool-cases, arith,
  if◌then◌else◌,
}
use tisdk_cc32xx_issues.Driver.Payload.{
  pure, nwp_read, AsyncLimits, async_length, dump_rest, read_async,
}
use tisdk_cc32xx_issues.Driver.Payloads.{
  padded, nwp_read-take, bind_some, dump-drop, take_none, drop_none, take-append_le,
}

-- The lengths of a driver whose buffer is of whole words
pub record IsAligned (limits : AsyncLimits) : Type 0 where
  pub aligns : (n : ℕ) → limits.align n ≡ padded n
  pub whole : limits.max_payload % 4 ≡ 0
  pub fits : limits.max_payload < 65536

module _ (limits : AsyncLimits) (len : ℕ) (h : IsAligned limits) (short : len ≤ 65532) where
  -- How much of the payload the buffer takes
  abbrev kept : ℕ
  kept = min (padded len) limits.max_payload

  async_length-kept : async_length limits len ≡ kept
  unfolding async_length
  async_length-kept = ground (arith, h, h.aligns len, h.aligns limits.max_payload)

  payload_read :
      (input : List ℕ)
      → padded len ≤ length input
      → (if ltb 0 len then nwp_read (async_length limits len) else pure []) input
        ≡ some (take kept input, drop kept input)
  payload_read input hl = elim (Bool-cases (ltb 0 len)) [
    | inl e ↦ rw (e, async_length-kept) (nwp_read-take kept input (omega arith))
    | inr e ↦
        let nothing : kept ≡ 0 = ground arith in
        rw (e, take_none kept input nothing, drop_none kept input nothing)
  ]

  rest_dumped :
      (input : List ℕ)
      → padded len - kept ≤ length input
      → dump_rest limits len input ≡ some (tt, drop (padded len - kept) input)
  unfolding dump_rest
  rest_dumped input hl = elim (Bool-cases (ltb limits.max_payload (limits.align len))) [
    | inl e ↦
        let size : (limits.align len - limits.max_payload) % 65536 ≡ (padded len - kept) / 4 * 4 =
          ground (arith, h, h.aligns len) in
        let whole : (padded len - kept) / 4 * 4 ≡ padded len - kept = omega (arith, h.whole) in
        rw (e, size)
          (dump-drop ((padded len - kept) / 4) input (omega arith) (omega arith)
            ∙ ap (λ n. some (tt, drop n input)) whole)
    | inr e ↦
        let nothing : padded len - kept ≡ 0 = ground (arith, h.aligns len) in
        rw (e, drop_none (padded len - kept) input nothing)
  ]

-- The payload of an asynchronous event, `len` bytes that arrive in whole words: the buffer gets as
-- much of it as fits in, never more than SL_ASYNC_MAX_PAYLOAD_LEN, the length returned is the
-- header's and what is kept of the payload, and the next read begins exactly behind the payload.
pub read_async-take :
    (limits : AsyncLimits) (len : ℕ) (payload rest : List ℕ)
    → IsAligned limits
    → len ≤ 65532
    → length payload ≡ padded len
    → read_async limits len (payload ++ rest)
      ≡ some (
        (
          take (min (padded len) limits.max_payload) payload,
          limits.hdr_size + min (padded len) limits.max_payload,
        ),
        rest,
      )
unfolding read_async
read_async-take limits len payload rest h short hl =
    let all = payload ++ rest in
    let keep = min (padded len) limits.max_payload in
    let long = length-append payload rest in
    let sum : keep + (padded len - keep) ≡ length payload = omega (arith, hl) in
    let counted : (if ltb 0 len then async_length limits len else 0) ≡ keep =
      ground (arith, async_length-kept limits len h short) in
    bind_some (if ltb 0 len then nwp_read (async_length limits len) else pure []) _
      (payload_read limits len h short all (omega (arith, long, hl)))
    ∙ bind_some (dump_rest limits len) _ (
        rest_dumped limits len h short (drop keep all)
          (omega (arith, long, hl, length-drop keep all)))
    ∙ rw (
      drop-drop keep (padded len - keep) all,
      sum,
      drop-append payload rest,
      take-append_le keep payload rest (omega (arith, hl)),
      counted,
    )
