-- ===== src/Driver/RxHeader.antt =====
-- driver.c: _SlDrvRxHdrRead, which finds the header of the next message in the bytes that the network
-- processor sends. The macros of driver.h are parameters.
use tisdk_cc32xx_issues.Prelude.{
  ℕ, zero, suc, ◌+◌, ◌%◌, Bool, false, ◌&&◌, List, [], ◌∷◌, ◌++◌, Option, none, some, length, take,
  drop, leb, ◌==◌, if◌then◌else◌,
}

-- Four bytes of the buffer
pub record Word : Type 0 where
  pub b0 : ℕ
  pub b1 : ℕ
  pub b2 : ℕ
  pub b3 : ℕ

abbrev pub word : ℕ → ℕ → ℕ → ℕ → Word
word a b c d = record { b0 = a; b1 = b; b2 = c; b3 = d }

abbrev pub bytes_of : Word → List ℕ
bytes_of w = w.b0 ∷ w.b1 ∷ w.b2 ∷ w.b3 ∷ []

abbrev pub eq_word : Word → Word → Bool
eq_word v w = ((v.b0 == w.b0) && (v.b1 == w.b1)) && ((v.b2 == w.b2) && (v.b3 == w.b3))

-- N2H_SYNC_PATTERN_MATCH at a TxSeqNum, the number of values of TxSeqNum, _SL_RESP_SPEC_HDR_SIZE, and
-- whether the `n`-th call of _SlDrvIsTimeoutExpired returns TRUE
pub record Sync : Type 0 where
  pub is_match : ℕ → Word → Bool
  pub seq_values : ℕ
  pub spec_size : ℕ
  pub is_expired : ℕ → Bool

-- The four bytes at an offset of at most 4 in a buffer of two words
abbrev pub window : ℕ → Word → Word → Word
window zero l h = l
window (suc zero) l h = word l.b1 l.b2 l.b3 h.b0
window (suc (suc zero)) l h = word l.b2 l.b3 h.b0 h.b1
window (suc (suc (suc zero))) l h = word l.b3 h.b0 h.b1 h.b2
window (suc (suc (suc (suc k)))) l h = h

-- A header with the bytes behind it, SL_API_ABORTED, or a read that still waits for bytes
pub data HdrRead : Type 0 where
  hdr_read : List ℕ → ℕ → List ℕ → HdrRead
  timed_out : HdrRead
  starved : HdrRead

-- The four bytes behind a pattern found at an offset of at most 4: those of the buffer, and as many
-- more as the offset says. What the copy takes from behind the buffer is overwritten by them.
unfoldable pub behind_pattern : ℕ → Word → List ℕ → Option (Word × List ℕ)
behind_pattern zero h input = some (h, input)
behind_pattern (suc zero) h (a ∷ input) = some (word h.b1 h.b2 h.b3 a, input)
behind_pattern (suc (suc zero)) h (a ∷ b ∷ input) = some (word h.b2 h.b3 a b, input)
behind_pattern (suc (suc (suc zero))) h (a ∷ b ∷ c ∷ input) = some (word h.b3 a b c, input)
behind_pattern (suc (suc (suc (suc k)))) h (a ∷ b ∷ c ∷ d ∷ input) = some (word a b c d, input)
behind_pattern _ h _ = none

-- The loop over ShiftIdx: the offset of the first match, from `k` on
unfoldable pub find_shift : Sync → ℕ → Word → Word → ℕ → ℕ → Option ℕ
find_shift sync seq l h zero k = none
find_shift sync seq l h (suc left) k =
    let rest = find_shift sync seq l h left (suc k) in
    if sync.is_match seq (window k l h) then some k else rest

-- What the scan finds: the word behind the pattern with the bytes behind it and the number of calls
-- of the clock, the end of the time, or too few bytes
pub data Scan : Type 0 where
  found : Word → List ℕ → Scan
  expired : Scan
  short : Scan

-- A round that finds the pattern. In the round after the one where the time expired, TimeoutState
-- becomes TIMEOUT_STATE_EXPIRY all the same.
unfoldable pub scan_found : Bool → Option (Word × List ℕ) → Scan
scan_found one_more none = short
scan_found one_more (some (w, input)) = if one_more then expired else found w input

-- The scan for the sync pattern, on a buffer of two words: `one_more` is TIMEOUT_ONE_MORE_SHOT, and `n`
-- counts the calls of _SlDrvIsTimeoutExpired.
unfoldable pub scan_loop : Sync → ℕ → Bool → ℕ → Word → Word → List ℕ → Scan
unfolding find_shift behind_pattern scan_found
scan_loop sync seq one_more n l h (a ∷ b ∷ c ∷ d ∷ input) =
    let next = scan_loop sync seq (sync.is_expired n) (suc n) h (word a b c d) input in
    elim (find_shift sync seq l h 5 0) [
      | some k ↦ scan_found one_more (behind_pattern k h (a ∷ b ∷ c ∷ d ∷ input))
      | none ↦ if one_more then expired else next
    ]
scan_loop sync seq one_more n l h input = elim (find_shift sync seq l h 5 0) [
  | some k ↦ scan_found one_more (behind_pattern k h input)
  | none ↦ short
]

-- The loop over a second pattern behind the first
unfoldable pub skip_patterns : Sync → ℕ → Word → List ℕ → Option (Word × List ℕ)
skip_patterns sync seq w (a ∷ b ∷ c ∷ d ∷ input) =
    let rest = skip_patterns sync seq (word a b c d) input in
    if sync.is_match seq w then rest else some (w, a ∷ b ∷ c ∷ d ∷ input)
skip_patterns sync seq w input = if sync.is_match seq w then none else some (w, input)

-- From the loop over a second pattern on
unfoldable pub finish_header : Sync → ℕ → Option (Word × List ℕ) → HdrRead
finish_header sync seq none = starved
finish_header sync seq (some (w, input)) =
    if leb sync.spec_size (length input)
    then hdr_read (bytes_of w ++ take sync.spec_size input) ((seq + 1) % sync.seq_values)
        (drop sync.spec_size input)
    else starved

unfoldable pub after_scan : Sync → ℕ → Scan → HdrRead
unfolding skip_patterns finish_header
after_scan sync seq (found w input) = finish_header sync seq (skip_patterns sync seq w input)
after_scan sync seq expired = timed_out
after_scan sync seq short = starved

-- The loop that reads while the two words of the buffer are equal, and the scan behind it
unfoldable pub same_loop : Sync → ℕ → ℕ → Word → Word → List ℕ → HdrRead
unfolding scan_loop after_scan
same_loop sync seq n l h (a ∷ b ∷ c ∷ d ∷ input) =
    let next = same_loop sync seq (suc n) l (word a b c d) input in
    if eq_word l h
    then (if sync.is_expired n then timed_out else next)
    else after_scan sync seq (scan_loop sync seq false n l h (a ∷ b ∷ c ∷ d ∷ input))
same_loop sync seq n l h input =
    if eq_word l h then starved else after_scan sync seq (scan_loop sync seq false n l h input)

-- _SlDrvRxHdrRead on the bytes that arrive, at the TxSeqNum `seq`
unfoldable pub rx_hdr_read : Sync → ℕ → List ℕ → HdrRead
unfolding same_loop
rx_hdr_read sync seq (a ∷ b ∷ c ∷ d ∷ e ∷ f ∷ g ∷ h ∷ input) =
    same_loop sync seq 0 (word a b c d) (word e f g h) input
rx_hdr_read sync seq input = starved
