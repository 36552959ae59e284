-- ===== src/Driver/Payloads.antt =====
-- driver.c: what the reads of _SlDrvMsgRead deliver, and how much of the stream they take.
use tisdk_cc32xx_issues.Prelude.{
  ℕ, zero, suc, ◌+◌, ◌-◌, ◌*◌, ◌/◌, ◌%◌, ◌≤◌, ◌<◌, List, [], ◌∷◌, ◌++◌, some, min, length,
  length-drop, length-append, take-append, drop-append, ◌&&◌, take, drop, take-add, drop-drop,
  take-take, ltb, leb, ◌≡◌, refl, ap, sym, ◌∙◌, inl, inr, Bool-cases, arith, if◌then◌else◌,
}
use tisdk_cc32xx_issues.Driver.Payload.{
  R, ◌>>=◌, nwp_read, dump, whole_words, read_words, read_tail, read_exact, dump_response,
  read_response,
}

-- `n` rounded up to whole words
abbrev pub padded : ℕ → ℕ
padded n = (n + 3) / 4 * 4

pub nwp_read-take :
    (n : ℕ) (input : List ℕ)
    → n ≤ length input
    → nwp_read n input ≡ some (take n input, drop n input)
unfolding nwp_read
nwp_read-take n input h = ground arith

words_suc : (k : ℕ) → suc k * 4 ≡ suc (suc (suc (suc (k * 4))))
words_suc k = omega arith

dump-suc :
    (k a b c d : ℕ) (input : List ℕ)
    → suc k * 4 < 65536
    → dump (suc k * 4) (a ∷ b ∷ c ∷ d ∷ input) ≡ dump (k * 4) input
unfolding dump
dump-suc k a b c d input h =
    let less : (suc k * 4 + 65536 - 4) % 65536 ≡ k * 4 = omega arith in ground (arith, less)

-- The step from a read that is through to what follows it
pub bind_some :
    {A B : Type 0} (m : R A) (f : A → R B) {input rest : List ℕ} {a : A}
    → m input ≡ some (a, rest)
    → (m >>= f) input ≡ f a rest
bind_some m f h = rw (h, ◌>>=◌)

-- A length of whole words is dumped exactly.
pub dump-drop :
    (k : ℕ) (input : List ℕ)
    → k * 4 < 65536
    → k * 4 ≤ length input
    → dump (k * 4) input ≡ some (tt, drop (k * 4) input)
unfolding dump
dump-drop zero (a ∷ b ∷ c ∷ d ∷ input) h hl = refl
dump-drop zero input h hl = refl
dump-drop (suc k) (a ∷ b ∷ c ∷ d ∷ input) h hl =
    dump-suc k a b c d input h
    ∙ dump-drop k input (omega arith) (omega arith)
    ∙ ap (λ n. some (tt, drop n (a ∷ b ∷ c ∷ d ∷ input))) (sym (words_suc k))
dump-drop (suc k) input h hl = absurd (omega arith)

pub take_none : {A : Type 0} (n : ℕ) (xs : List A) → n ≡ 0 → take n xs ≡ []
take_none zero xs h = refl
take_none (suc n) xs h = absurd (omega arith)

pub drop_none : {A : Type 0} (n : ℕ) (xs : List A) → n ≡ 0 → drop n xs ≡ xs
drop_none zero xs h = refl
drop_none (suc n) xs h = absurd (omega arith)

read_words-take :
    (n : ℕ) (input : List ℕ)
    → whole_words n ≤ length input
    → read_words n input ≡ some (take (whole_words n) input, drop (whole_words n) input)
unfolding read_words
read_words-take n input h = elim (Bool-cases (leb 4 (whole_words n))) [
  | inl e ↦ rw e (nwp_read-take (whole_words n) input h)
  | inr e ↦
      let none_left : whole_words n ≡ 0 = ground arith in
      rw (e, take_none (whole_words n) input none_left, drop_none (whole_words n) input none_left)
]

read_tail-take :
    (n : ℕ) (input : List ℕ)
    → padded (n % 4) ≤ length input
    → read_tail n input ≡ some (take (n % 4) input, drop (padded (n % 4)) input)
unfolding read_tail
read_tail-take n input h = elim (Bool-cases (ltb 0 (n % 4))) [
  | inl e ↦
      let four : padded (n % 4) ≡ 4 = ground arith in
      let less : min (n % 4) 4 ≡ n % 4 = omega arith in
      rw e (
        bind_some (nwp_read 4) _ (nwp_read-take 4 input (omega arith))
        ∙ rw (take-take (n % 4) 4 input, less, four))
  | inr e ↦
      let none_left : n % 4 ≡ 0 = ground arith in
      let none_padded : padded (n % 4) ≡ 0 = omega arith in
      rw (e, take_none (n % 4) input none_left, drop_none (padded (n % 4)) input none_padded)
]

pub read_exact-take :
    (n : ℕ) (input : List ℕ)
    → padded n ≤ length input
    → read_exact n input ≡ some (take n input, drop (padded n) input)
unfolding read_exact
read_exact-take n input h =
    let words = whole_words n in
    let whole : words + n % 4 ≡ n = omega arith in
    let all : words + padded (n % 4) ≡ padded n = omega arith in
    bind_some (read_words n) _ (read_words-take n input (omega arith))
    ∙ bind_some (read_tail n) _
        (read_tail-take n (drop words input) (omega (arith, length-drop words input)))
    ∙ rw (drop-drop words (padded (n % 4)) input, ← take-add words (n % 4) input, whole, all)

pub take-append_le : (n : ℕ) (xs ys : List ℕ) → n ≤ length xs → take n (xs ++ ys) ≡ take n xs
take-append_le zero xs ys h = refl
take-append_le (suc n) [] ys h = absurd (omega arith)
take-append_le (suc n) (x ∷ xs) ys h = rw (take-append_le n xs ys (omega arith))

-- How many bytes of a response's payload are read for the user, and how many are dumped
abbrev wanted : ℕ → ℕ → ℕ
wanted size room = if ltb room size then room else size

abbrev taken_off : ℕ → ℕ → ℕ
taken_off size room = if ltb 0 (wanted size room % 4) then 4 else 0

abbrev dumped : ℕ → ℕ → ℕ → ℕ
dumped size room used = if ltb (room + used) size then whole_words (size + 3 - used - room) else 0

dump_response-drop :
    (size room used : ℕ) (input : List ℕ)
    → size < 32768
    → dumped size room used ≤ length input
    → dump_response size room used input ≡ some (tt, drop (dumped size room used) input)
unfolding dump_response
dump_response-drop size room used input h hl = elim (Bool-cases (ltb (room + used) size)) [
  | inl e ↦ rw e (dump-drop ((size + 3 - used - room) / 4) input (omega arith) (ground arith))
  | inr e ↦ rw e
]

-- The bytes of the payload that the read of a response leaves to the next read
abbrev pub left_over : ℕ → ℕ → ℕ
left_over size room =
    if ltb room size && (ltb 0 (room % 4) && ltb ((size - 1) % 4) (room % 4)) then 4 else 0

taken-dumped :
    (size room : ℕ)
    → 0 < size
    → padded (wanted size room) + dumped size room (taken_off size room)
      ≡ padded size - left_over size room
taken-dumped size room h = ground arith

-- The payload of a response, `size` bytes above 0 that arrive in whole words, and the user's room for
-- it: the user gets exactly the first bytes of it, as many as there is room for. The whole payload is
-- taken from the stream, but for the last word where the payload is longer than the room, the room
-- is not of whole words, and the last byte of the payload lies lower in its word than the first byte
-- that the room does not take.
pub read_response-take :
    (size room : ℕ) (payload rest : List ℕ)
    → 0 < size
    → size < 32768
    → length payload ≡ padded size
    → read_response size room (payload ++ rest)
      ≡ some
          (take (min size room) payload, drop (padded size - left_over size room) (payload ++ rest))
unfolding read_response
read_response-take size room payload rest h hs hl =
    let n = wanted size room in
    let all = payload ++ rest in
    let long : length all ≡ length payload + length rest = length-append payload rest in
    let sum = taken-dumped size room h in
    let as_min : n ≡ min size room = ground arith in
    let end : padded n + dumped size room (taken_off size room) ≤ length all =
      omega (arith, sum, long, hl) in
    bind_some (read_exact n) _ (read_exact-take n all (omega arith))
    ∙ bind_some (dump_response size room (taken_off size room)) _ (
        dump_response-drop size room (taken_off size room) (drop (padded n) all) hs
          (omega (arith, length-drop (padded n) all)))
    ∙ rw (
      drop-drop (padded n) (dumped size room (taken_off size room)) all,
      sum,
      take-append_le n payload rest (ground arith),
      as_min,
    )

pub nwp_read-append :
    (n : ℕ) (xs ys : List ℕ) → length xs ≡ n → nwp_read n (xs ++ ys) ≡ some (xs, ys)
nwp_read-append n xs ys h =
    let long = length-append xs ys in
    rw (
      nwp_read-take n (xs ++ ys) (omega (arith, long, h)),
      ← h,
      take-append xs ys,
      drop-append xs ys,
    )

-- A length of up to `n` bytes that arrive in whole words
pub read_exact-append :
    (n : ℕ) (content rest : List ℕ)
    → length content ≡ padded n
    → read_exact n (content ++ rest) ≡ some (take n content, rest)
read_exact-append n content rest h =
    let long = length-append content rest in
    rw (
      read_exact-take n (content ++ rest) (omega (arith, long, h)),
      take-append_le n content rest (omega (arith, h)),
      ← h,
      drop-append content rest,
    )
