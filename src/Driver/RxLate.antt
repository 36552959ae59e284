-- ===== src/Driver/RxLate.antt =====
-- driver.c: _SlDrvRxHdrRead after its time has expired.
use tisdk_cc32xx_issues.Prelude.{
  ℕ, suc, Bool, true, false, List, ◌∷◌, ◌++◌, Option, none, some, ◌≡◌, refl, arith,
}
use tisdk_cc32xx_issues.Driver.RxHeader.{
  Word, bytes_of, eq_word, Sync, HdrRead, hdr_read, behind_pattern, find_shift, Scan, found,
  scan_found, scan_loop, after_scan, same_loop, rx_hdr_read,
}

abbrev is_found : Scan → Bool
is_found (found w input) = true
is_found _ = false

-- A header has been read.
abbrev pub is_read : HdrRead → Bool
is_read (hdr_read bs seq rest) = true
is_read _ = false

scan_found-late : (r : Option (Word × List ℕ)) → is_found (scan_found true r) ≡ false
unfolding scan_found
scan_found-late none = refl
scan_found-late (some (w, input)) = refl

-- The round after the one in which the time has expired finds no message.
scan_loop-late :
    (sync : Sync) (seq n : ℕ) (l h : Word) (input : List ℕ)
    → is_found (scan_loop sync seq true n l h input) ≡ false
unfolding scan_loop find_shift behind_pattern scan_found
scan_loop-late sync seq n l h (a ∷ b ∷ c ∷ d ∷ input) = ground arith
scan_loop-late sync seq n l h _ = ground arith

scan_loop-round :
    (sync : Sync) (seq n : ℕ) (l h y : Word) (input : List ℕ)
    → find_shift sync seq l h 5 0 ≡ none
    → scan_loop sync seq false n l h (bytes_of y ++ input)
      ≡ scan_loop sync seq (sync.is_expired n) (suc n) h y input
unfolding scan_loop find_shift
scan_loop-round sync seq n l h y input e = ground arith

after_scan-late :
    (sync : Sync) (seq : ℕ) (s : Scan)
    → is_found s ≡ false
    → is_read (after_scan sync seq s) ≡ false
unfolding after_scan
after_scan-late sync seq (found w input) h = ground arith
after_scan-late sync seq _ h = refl

-- _SlDrvRxHdrRead, where the first two words differ, no sync pattern is in them, and the time has
-- expired when they have been searched: the call reads no header, whatever bytes follow. The round that
-- is left gives up also where it finds the pattern.
pub rx_hdr_read-late :
    (sync : Sync) (seq : ℕ) (v x y : Word) (input : List ℕ)
    → eq_word v x ≡ false
    → find_shift sync seq v x 5 0 ≡ none
    → sync.is_expired 0 ≡ true
    → is_read (rx_hdr_read sync seq (bytes_of v ++ bytes_of x ++ bytes_of y ++ input)) ≡ false
unfolding rx_hdr_read same_loop
rx_hdr_read-late sync seq v x y input e h late = ground (
  arith,
  scan_loop-round sync seq 0 v x y input,
  scan_loop-late sync seq 1 x y input,
  after_scan-late sync seq (scan_loop sync seq true 1 x y input),
)
