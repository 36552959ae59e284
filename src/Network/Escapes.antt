-- ===== src/Network/Escapes.antt =====
-- netdevice.c: the certificate that is loaded, compared with a replacement of the escapes in its text.
use tisdk_cc32xx_issues.Prelude.{
  ℕ, zero, suc, ◌+◌, ◌-◌, ◌%◌, ◌<◌, ◌≤◌, Bool, true, false, List, [], ◌∷◌, ◌++◌, some, ◌==◌, length,
  drop, ◌≡◌, refl, arith, length-append,
}
use mathlib.Core.List.{append_assoc}
use tisdk_cc32xx_issues.Network.Certificate.{
  backslash, letter_n, carriage_return, line_feed, is_escape, fix_loop, fix_certificate,
  max_cert_length, copy_certificate, load_sec_obj, load_fixed, install_certificate,
}

-- The text with every "\n" of two characters replaced by a carriage return and a line feed
unfoldable pub replace_escapes : List ℕ → List ℕ
replace_escapes [] = []
replace_escapes (a ∷ []) = a ∷ []
replace_escapes (a ∷ b ∷ rest) = elim (is_escape a b) [
  | true ↦ carriage_return ∷ line_feed ∷ replace_escapes rest
  | false ↦ a ∷ replace_escapes (b ∷ rest)
]

unfoldable pub ends_in_n : List ℕ → Bool
ends_in_n [] = false
ends_in_n (a ∷ []) = a == letter_n
ends_in_n (a ∷ b ∷ rest) = ends_in_n (b ∷ rest)

fix_loop-replace_escapes :
    (text tail : List ℕ) (left : ℕ)
    → length text ≡ left + 2
    → ends_in_n text ≡ false
    → fix_loop left (text ++ tail) ≡ some (replace_escapes text ++ tail)
unfolding fix_loop replace_escapes ends_in_n
fix_loop-replace_escapes [] tail left h he = ground arith
fix_loop-replace_escapes (a ∷ []) tail left h he = ground arith
fix_loop-replace_escapes (a ∷ b ∷ []) tail zero h he = ground arith
fix_loop-replace_escapes (a ∷ b ∷ c ∷ rest) tail zero h he = ground arith
fix_loop-replace_escapes (a ∷ b ∷ []) tail (suc left) h he = ground arith
fix_loop-replace_escapes (a ∷ b ∷ c ∷ []) tail (suc zero) h he =
    ground (arith, fix_loop-replace_escapes (b ∷ c ∷ []) tail zero refl he)
fix_loop-replace_escapes (a ∷ b ∷ c ∷ []) tail (suc (suc left)) h he = ground arith
fix_loop-replace_escapes (a ∷ b ∷ c ∷ d ∷ rest) tail (suc left) h he = ground (
  arith,
  fix_loop-replace_escapes (c ∷ d ∷ rest) tail (left - 1) (omega arith) he,
  fix_loop-replace_escapes (b ∷ c ∷ d ∷ rest) tail left (omega arith) he,
)

fix_loop-before_escape :
    (body tail : List ℕ) (left : ℕ)
    → length body ≡ left
    → fix_loop left (body ++ (backslash ∷ tail)) ≡ some (replace_escapes body ++ (backslash ∷ tail))
unfolding fix_loop replace_escapes
fix_loop-before_escape [] tail zero h = refl
fix_loop-before_escape [] tail (suc left) h = ground arith
fix_loop-before_escape (a ∷ []) tail zero h = ground arith
fix_loop-before_escape (a ∷ []) tail (suc zero) h = ground arith
fix_loop-before_escape (a ∷ []) tail (suc (suc left)) h = ground arith
fix_loop-before_escape (a ∷ b ∷ rest) tail zero h = ground arith
fix_loop-before_escape (a ∷ b ∷ rest) tail (suc left) h = ground (
  arith,
  fix_loop-before_escape rest tail (left - 1) (omega arith),
  fix_loop-before_escape (b ∷ rest) tail left (omega arith),
)

-- A text of 2 to 1799 characters whose last one is not an `n` is loaded with each of its escapes
-- replaced by a line break of the same two bytes, followed by its zero, and never read past its end.
pub install_certificate-replaces :
    (certificate buffer : List ℕ)
    → 2 ≤ length certificate
    → length certificate < max_cert_length
    → ends_in_n certificate ≡ false
    → install_certificate certificate buffer
      ≡ load_sec_obj
          (replace_escapes certificate ++ (0 ∷ 0 ∷ drop (length certificate + 2) buffer))
          (length certificate + 1)
unfolding install_certificate fix_certificate copy_certificate load_fixed
install_certificate-replaces certificate buffer h2 hmax he =
    let tail = 0 ∷ 0 ∷ drop (length certificate + 2) buffer in
    let left : (length certificate + 4294967294) % 4294967296 ≡ length certificate - 2 =
      omega arith in
    let fixed =
      fix_loop-replace_escapes certificate tail (length certificate - 2) (omega arith) he in
    ground (arith, left, fixed)

-- In a text of up to 1799 characters that ends in an escape, that escape is loaded as it stands, and
-- each one before it is replaced by a line break.
install_certificate-last_escape :
    (body buffer : List ℕ)
    → length body + 2 < max_cert_length
    → install_certificate (body ++ (backslash ∷ letter_n ∷ [])) buffer
      ≡ load_sec_obj
          (replace_escapes body ++ (backslash ∷ letter_n ∷ 0 ∷ 0 ∷ drop (length body + 4) buffer))
          (length body + 3)
unfolding install_certificate fix_certificate copy_certificate load_fixed
install_certificate-last_escape body buffer h =
    let text = body ++ (backslash ∷ letter_n ∷ []) in
    let tail = letter_n ∷ 0 ∷ 0 ∷ drop (length body + 4) buffer in
    let len : length text ≡ length body + 2 = length-append body (backslash ∷ letter_n ∷ []) in
    let left : (length text + 4294967294) % 4294967296 ≡ length body = omega (arith, len) in
    let fixed = fix_loop-before_escape body tail (length body) refl in
    let placed =
      append_assoc body (backslash ∷ letter_n ∷ []) (0 ∷ 0 ∷ drop (length text + 2) buffer) in
    let dropped : length text + 2 ≡ length body + 4 = omega (arith, len) in
    ground (arith, len, left, fixed, placed, dropped)
