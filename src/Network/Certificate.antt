-- ===== src/Network/Certificate.antt =====
-- drivers/network/netdevice.c: network_dev_install_certificate and network_dev_fix_certificate, on
-- the buffer _network_tls_certificate of 1801 bytes.
use tisdk_cc32xx_issues.Prelude.{
  ℕ, zero, suc, ◌+◌, ◌-◌, ◌%◌, Bool, true, false, List, [], ◌∷◌, ◌++◌, Option, none, some, ltb,
  ◌==◌, ◌&&◌, length, drop, if◌then◌else◌,
}

-- '\\', 'n', '\r' and '\n'
abbrev pub backslash : ℕ
backslash = 92

abbrev pub letter_n : ℕ
letter_n = 110

abbrev pub carriage_return : ℕ
carriage_return = 13

abbrev pub line_feed : ℕ
line_feed = 10

abbrev pub is_escape : ℕ → ℕ → Bool
is_escape a b = (a == backslash) && (b == letter_n)

abbrev pub put {ℓ} : {A : Type ℓ} → A → Option (List A) → Option (List A)
put a none = none
put a (some rest) = some (a ∷ rest)

-- The loop of network_dev_fix_certificate, with the bytes from certificate[i] on and the number of
-- values that `i` is still to take. The result is none if a byte behind the buffer is read.
unfoldable pub fix_loop : ℕ → List ℕ → Option (List ℕ)
fix_loop zero bytes = some bytes
fix_loop (suc left) [] = none
fix_loop (suc left) (a ∷ []) = elim (a == backslash) [
  | true ↦ none
  | false ↦ put a (fix_loop left [])
]
fix_loop (suc left) (a ∷ b ∷ rest) = elim (is_escape a b) [
  | true ↦ put carriage_return (put line_feed (fix_loop (left - 1) rest))
  | false ↦ put a (fix_loop left (b ∷ rest))
]

-- network_dev_fix_certificate: `length - 2` is of type uint32_t.
unfoldable pub fix_certificate : List ℕ → ℕ → Option (List ℕ)
fix_certificate certificate len = fix_loop ((len + 4294967294) % 4294967296) certificate

abbrev pub max_cert_length : ℕ
max_cert_length = 1800

-- strcpy, and the zero written behind the end of the text
unfoldable pub copy_certificate : List ℕ → List ℕ → List ℕ
copy_certificate certificate buffer = certificate ++ (0 ∷ 0 ∷ drop (length certificate + 2) buffer)

-- What network_dev_install_certificate does: nothing to a text that is too long, a read behind the
-- buffer, or the call of SlNetIf_loadSecObj on the buffer with a length.
pub data Install : Type 0 where
  too_long : Install
  overrun : Install
  load_sec_obj : List ℕ → ℕ → Install

unfoldable pub load_fixed : Option (List ℕ) → ℕ → Install
load_fixed none len = overrun
load_fixed (some buffer) len = load_sec_obj buffer (len + 1)

-- network_dev_install_certificate: `certificate` has no zero byte, `buffer` is the old content.
unfoldable pub install_certificate : List ℕ → List ℕ → Install
install_certificate certificate buffer =
    if ltb (length certificate) max_cert_length
    then load_fixed (fix_certificate (copy_certificate certificate buffer) (length certificate))
        (length certificate)
    else too_long
