-- ===== src/Driver/Stream.antt =====
-- driver.c: calls of _SlDrvMsgRead one after the other, on a stream of asynchronous events.
use tisdk_cc32xx_issues.Prelude.{
  ℕ, ◌+◌, ◌%◌, ◌≤◌, Bool, List, [], ◌∷◌, ◌++◌, Option, none, some, min, length, take, true, ◌≡◌, ap,
  ◌∙◌, subst, sym,
}
use tisdk_cc32xx_issues.Driver.RxSync.{IsNext}
use tisdk_cc32xx_issues.Driver.Classify.{async_evt_class}
use tisdk_cc32xx_issues.Driver.Payloads.{padded}
use tisdk_cc32xx_issues.Driver.AsyncPayload.{IsAligned}
use tisdk_cc32xx_issues.Driver.RxState.{
  MsgParams, Rx, completed, sync_lost, no_receiver, no_memory, waits,
}
use tisdk_cc32xx_issues.Driver.MsgRead.{msg_read}
use tisdk_cc32xx_issues.Driver.Framing.{HasClass, msg_read-event}

-- What a reader gets of events: their headers, each with the part of the payload that has room
abbrev pub Events : Type 0
Events = List (Option (List ℕ))

-- From the TxSeqNum `seq` on, the bytes `input` are asynchronous events and then `rest`. Garbage may
-- stand in front of each event.
pub data IsStream (p : MsgParams) (rest : List ℕ) : ℕ → List ℕ → Events → Type 0 where
  ends : (seq : ℕ) → IsStream p rest seq rest []
  event :
      (seq : ℕ) (input hdr payload others : List ℕ) (events : Events)
      → IsNext p.sync seq input hdr (payload ++ others)
      → HasClass p hdr async_evt_class
      → p.header.payload_len hdr ≤ 65532
      → length payload ≡ padded (p.header.payload_len hdr)
      → IsStream p rest ((seq + 1) % p.sync.seq_values) others events
      → IsStream p rest seq input (
          some (hdr ++ take (min (padded (p.header.payload_len hdr)) p.async.max_payload) payload)
          ∷ events)

-- The buffers of as many calls as there are events, and the bytes that the last one leaves
abbrev pub read_events : MsgParams → ℕ → (List ℕ → Bool) → Events → Rx → Option (Events × List ℕ)
read_events p size is_ok [] s = some ([], s.input)
read_events p size is_ok (e ∷ es) s = elim (msg_read p size is_ok s) [
  | completed t ↦ elim (read_events p size is_ok es t) [
    | none ↦ none
    | some (bufs, rest) ↦ some (t.async_buf ∷ bufs, rest)
  ]
  | sync_lost t ↦ none
  | no_receiver t ↦ none
  | no_memory t ↦ none
  | waits ↦ none
]

read_events-cons :
    (p : MsgParams) (size : ℕ) (is_ok : List ℕ → Bool) (e : Option (List ℕ)) (es : Events)
    (s t : Rx) (rest : List ℕ)
    → msg_read p size is_ok s ≡ completed t
    → t.async_buf ≡ e
    → read_events p size is_ok es t ≡ some (es, rest)
    → read_events p size is_ok (e ∷ es) s ≡ some (e ∷ es, rest)
read_events-cons p size is_ok e es s t rest a b c = rw (read_events, a, c, b)

-- Calls of _SlDrvMsgRead on bytes that are asynchronous events, one after the other, with any garbage
-- in front of each: every call reads exactly one event, in the order of the stream, no byte of an
-- event is taken for another's, and the last call leaves what follows the last event.
pub read_events-IsStream :
    (p : MsgParams) (size : ℕ) (is_ok : List ℕ → Bool) (rest : List ℕ)
    → IsAligned p.async
    → p.malloc_ok ≡ true
    → {seq : ℕ} {input : List ℕ} {events : Events} → IsStream p rest seq input events
    → (s : Rx) → s.input ≡ input
    → s.tx_seq_num ≡ seq
    → read_events p size is_ok events s ≡ some (events, rest)
read_events-IsStream p size is_ok rest h ok (ends seq) s hi hq = ap (λ i. some ([], i)) hi
read_events-IsStream p size is_ok rest h ok
      (event seq input hdr payload others events next c short hl more) s hi hq =
    let first =
      msg_read-event p size is_ok s hdr payload others
        (subst (λ i. IsNext p.sync s.tx_seq_num i hdr (payload ++ others)) (sym hi)
          (subst (λ q. IsNext p.sync q input hdr (payload ++ others)) (sym hq) next))
        h ok c short hl in
    let t = first.0 in
    read_events-cons p size is_ok
      (some (hdr ++ take (min (padded (p.header.payload_len hdr)) p.async.max_payload) payload))
      events s t rest first.1 first.2.3
      (read_events-IsStream p size is_ok rest h ok more t first.2.0
        (first.2.1 ∙ ap (λ q. (q + 1) % p.sync.seq_values) hq))
