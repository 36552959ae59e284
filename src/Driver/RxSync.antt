-- ===== src/Driver/RxSync.antt =====
-- driver.c: what _SlDrvRxHdrRead finds, compared with a search for the pattern at every byte.
use tisdk_cc32xx_issues.Prelude.{
  ℕ, zero, suc, not, ◌+◌, ◌%◌, Bool, true, false, ◌&&◌, List, [], ◌∷◌, ◌++◌, some, length,
  length-append, take-append, drop-append, ap, sym, ◌∙◌, if◌then◌else◌, ◌≡◌, refl, arith,
}
use tisdk_cc32xx_issues.Driver.RxHeader.{
  Word, word, bytes_of, eq_word, Sync, hdr_read, behind_pattern, find_shift, Scan, found, short,
  scan_found, scan_loop, skip_patterns, finish_header, after_scan, same_loop, rx_hdr_read,
}

-- The first pattern in a list of bytes, at any offset, that has four bytes behind it: these, and what
-- follows them
unfoldable pub first_pattern : Sync → ℕ → List ℕ → Scan
first_pattern sync seq (a ∷ b ∷ c ∷ d ∷ e ∷ f ∷ g ∷ h ∷ input) =
    let rest = first_pattern sync seq (b ∷ c ∷ d ∷ e ∷ f ∷ g ∷ h ∷ input) in
    if sync.is_match seq (word a b c d) then found (word e f g h) input else rest
first_pattern sync seq input = short

-- `k` more words equal to `w` in front of some bytes
abbrev pub idle : ℕ → Word → List ℕ → List ℕ
idle zero w rest = rest
idle (suc k) w rest = bytes_of w ++ idle k w rest

unfoldable pub starts_pattern : Sync → ℕ → List ℕ → Bool
starts_pattern sync seq (a ∷ b ∷ c ∷ d ∷ rest) = sync.is_match seq (word a b c d)
starts_pattern sync seq _ = false

idle-append :
    (k : ℕ) (w : Word) (rest : List ℕ) → idle k w (bytes_of w ++ rest) ≡ bytes_of w ++ idle k w rest
idle-append zero w rest = refl
idle-append (suc k) w rest = rw (idle-append k w rest)

module _ (sync : Sync) (seq : ℕ) (no_end : (n : ℕ) → sync.is_expired n ≡ false) where
  scan_loop-first_pattern :
      (n : ℕ) (l h : Word) (input : List ℕ)
      → scan_loop sync seq false n l h input
        ≡ first_pattern sync seq (bytes_of l ++ bytes_of h ++ input)
  unfolding scan_loop first_pattern find_shift behind_pattern scan_found
  scan_loop-first_pattern n l h [] = ground arith
  scan_loop-first_pattern n l h (a ∷ []) = ground arith
  scan_loop-first_pattern n l h (a ∷ b ∷ []) = ground arith
  scan_loop-first_pattern n l h (a ∷ b ∷ c ∷ []) = ground arith
  scan_loop-first_pattern n l h (a ∷ b ∷ c ∷ d ∷ input) =
      ground (arith, no_end n, scan_loop-first_pattern (suc n) h (word a b c d) input)

  same_loop-first_pattern :
      (n : ℕ) (l h : Word) (input : List ℕ)
      → eq_word l h ≡ false
      → same_loop sync seq n l h input
        ≡ after_scan sync seq (first_pattern sync seq (bytes_of l ++ bytes_of h ++ input))
  unfolding same_loop
  same_loop-first_pattern n l h [] e = ground (arith, scan_loop-first_pattern n l h [])
  same_loop-first_pattern n l h (a ∷ []) e = ground (arith, scan_loop-first_pattern n l h (a ∷ []))
  same_loop-first_pattern n l h (a ∷ b ∷ []) e =
      ground (arith, scan_loop-first_pattern n l h (a ∷ b ∷ []))
  same_loop-first_pattern n l h (a ∷ b ∷ c ∷ []) e =
      ground (arith, scan_loop-first_pattern n l h (a ∷ b ∷ c ∷ []))
  same_loop-first_pattern n l h (a ∷ b ∷ c ∷ d ∷ input) e =
      ground (arith, scan_loop-first_pattern n l h (a ∷ b ∷ c ∷ d ∷ input))

  same_loop-idle :
      (k n : ℕ) (w x : Word) (input : List ℕ)
      → eq_word w x ≡ false
      → same_loop sync seq n w w (idle k w (bytes_of x ++ input))
        ≡ after_scan sync seq (first_pattern sync seq (bytes_of w ++ bytes_of x ++ input))
  unfolding same_loop
  same_loop-idle zero n w x input e =
      ground (arith, no_end n, same_loop-first_pattern (suc n) w x input)
  same_loop-idle (suc k) n w x input e =
      ground (arith, no_end n, same_loop-idle k (suc n) w x input)

  rx_hdr_read-idle :
      (k : ℕ) (w x : Word) (input : List ℕ)
      → eq_word w x ≡ false
      → rx_hdr_read sync seq (idle k w (bytes_of w ++ bytes_of x ++ input))
        ≡ after_scan sync seq (first_pattern sync seq (bytes_of w ++ bytes_of x ++ input))
  unfolding rx_hdr_read
  rx_hdr_read-idle zero w x input e = same_loop-first_pattern 0 w x input e
  rx_hdr_read-idle (suc zero) w x input e = same_loop-idle 0 0 w x input e
  rx_hdr_read-idle (suc (suc k)) w x input e =
      rw (idle-append k w (bytes_of x ++ input)) (same_loop-idle (suc k) 0 w x input e)

-- No pattern begins inside the bytes `g` that stand in front of `rest`.
unfoldable pub is_clean : Sync → ℕ → List ℕ → List ℕ → Bool
is_clean sync seq [] rest = true
is_clean sync seq (x ∷ g) rest =
    not (starts_pattern sync seq (x ∷ g ++ rest)) && is_clean sync seq g rest

first_pattern-cons :
    (sync : Sync) (seq x : ℕ) (xs : List ℕ)
    → starts_pattern sync seq (x ∷ xs) ≡ false
    → first_pattern sync seq (x ∷ xs) ≡ first_pattern sync seq xs
unfolding first_pattern starts_pattern
first_pattern-cons sync seq x (b ∷ c ∷ d ∷ e ∷ f ∷ g ∷ h ∷ xs) e1 = ground arith
first_pattern-cons sync seq x _ e1 = refl

first_pattern-clean :
    (sync : Sync) (seq : ℕ) (g : List ℕ) (p w : Word) (rest : List ℕ)
    → is_clean sync seq g (bytes_of p ++ bytes_of w ++ rest) ≡ true
    → sync.is_match seq p ≡ true
    → first_pattern sync seq (g ++ (bytes_of p ++ bytes_of w ++ rest)) ≡ found w rest
unfolding first_pattern is_clean
first_pattern-clean sync seq [] p w rest hc hp = ground arith
first_pattern-clean sync seq (x ∷ g) p w rest hc hp =
    let all = bytes_of p ++ bytes_of w ++ rest in
    ground
      (arith, first_pattern-cons sync seq x (g ++ all), first_pattern-clean sync seq g p w rest)

skip_patterns-none :
    (sync : Sync) (seq : ℕ) (w : Word) (input : List ℕ)
    → sync.is_match seq w ≡ false
    → skip_patterns sync seq w input ≡ some (w, input)
unfolding skip_patterns
skip_patterns-none sync seq w (a ∷ b ∷ c ∷ d ∷ input) h = ground arith
skip_patterns-none sync seq w _ h = rw h

finish_header-lem :
    (sync : Sync) (seq : ℕ) (w : Word) (spec rest : List ℕ)
    → length spec ≡ sync.spec_size
    → sync.is_match seq w ≡ false
    → after_scan sync seq (found w (spec ++ rest))
      ≡ hdr_read (bytes_of w ++ spec) ((seq + 1) % sync.seq_values) rest
unfolding after_scan finish_header
finish_header-lem sync seq w spec rest hl hw =
    rw (skip_patterns-none sync seq w (spec ++ rest) hw)
      (ground (arith, hl, length-append spec rest, take-append spec rest, drop-append spec rest))

-- The next message in the bytes `input`: its header is `hdr`, and `body` follows it. In front of the
-- header stands the sync pattern of TxSeqNum; in front of the pattern, garbage in which no pattern
-- begins; and the bytes may begin with a word that is repeated any number of times.
pub record IsNext (sync : Sync) (seq : ℕ) (input hdr body : List ℕ) : Type 0 where
  pub repeats : ℕ
  pub first : Word
  pub second : Word
  pub pattern : Word
  pub generic : Word
  pub garbage : List ℕ
  pub spec : List ℕ
  pub others : List ℕ
  pub in_time : (n : ℕ) → sync.is_expired n ≡ false
  pub differ : eq_word first second ≡ false
  pub same :
      bytes_of first ++ bytes_of second ++ others
      ≡ garbage ++ (bytes_of pattern ++ bytes_of generic ++ spec ++ body)
  pub clean :
      is_clean sync seq garbage (bytes_of pattern ++ bytes_of generic ++ spec ++ body) ≡ true
  pub matches : sync.is_match seq pattern ≡ true
  pub no_match : sync.is_match seq generic ≡ false
  pub size : length spec ≡ sync.spec_size
  pub whole : input ≡ idle repeats first (bytes_of first ++ bytes_of second ++ others)
  pub header : hdr ≡ bytes_of generic ++ spec

-- _SlDrvRxHdrRead, where the time does not expire, and the bytes begin with a word repeated any number
-- of times, then garbage in which no sync pattern begins, then the pattern of TxSeqNum and a header:
-- the call finds the header, advances TxSeqNum, and leaves exactly what follows the header, whatever
-- the alignment of the pattern is.
pub rx_hdr_read-header :
    (sync : Sync) (seq : ℕ) (input hdr body : List ℕ)
    → IsNext sync seq input hdr body
    → rx_hdr_read sync seq input ≡ hdr_read hdr ((seq + 1) % sync.seq_values) body
rx_hdr_read-header sync seq input hdr body m =
    ap (rx_hdr_read sync seq) m.whole
    ∙ rx_hdr_read-idle sync seq m.in_time m.repeats m.first m.second m.others m.differ
    ∙ ap (λ bs. after_scan sync seq (first_pattern sync seq bs)) m.same
    ∙ ap (after_scan sync seq) (
        first_pattern-clean sync seq m.garbage m.pattern m.generic (m.spec ++ body) m.clean
          m.matches)
    ∙ finish_header-lem sync seq m.generic m.spec body m.size m.no_match
    ∙ ap (λ h. hdr_read h ((seq + 1) % sync.seq_values) body) (sym m.header)
