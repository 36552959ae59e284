-- ===== src/Driver/Merged.antt =====
-- driver.c: what _SlDrvMsgWrite sends of two payloads.
use tisdk_cc32xx_issues.Prelude.{
  inl, inr, Bool-cases, sym, ◌∙◌, Bool, ap, ℕ, zero, suc, ◌+◌, ◌-◌, ◌%◌, ◌*◌, ◌/◌, ◌≡◌, ◌<◌, true,
  false, List, [], ◌∷◌, ◌++◌, arith, refl, ltb, if◌then◌else◌,
}
use mathlib.Core.List.{append-nil, append_assoc}
use tisdk_cc32xx_issues.Driver.MsgWrite.{
  S, go_on, when, Buffer, bytes, CmdExt, Wire, Sending, Sent, sending, write_failed, write_check,
  write_both,
}

-- _SL_PROTOCOL_ALIGN_SIZE rounds up to a multiple of four, and every transaction succeeds.
pub record IsSound (w : Wire) : Type 0 where
  pub aligns : (n : ℕ) → w.align n ≡ (n + 3) / 4 * 4
  pub accepts_all : (n : ℕ) → w.accepts n ≡ true

bytes-cong : (b : Buffer) (off o m n : ℕ) → m ≡ n → off ≡ o → bytes b off m ≡ bytes b o n
bytes-cong b off o m n h k = cc

bytes-split :
    (b : Buffer) (off m n k next : ℕ)
    → k ≡ m + n
    → next ≡ off + m
    → bytes b off k ≡ bytes b off m ++ bytes b next n
unfolding bytes
bytes-split b off zero n k next h o = bytes-cong b off next k n (omega arith) (omega arith)
bytes-split b off (suc m) n zero next h o = absurd (omega arith)
bytes-split b off (suc m) n (suc k) next h o =
    ap (λ bs. b off ∷ bs) (bytes-split b (off + 1) m n k next (omega arith) (omega arith))

-- Both payloads one after the other, with no gap between them, up to a multiple of four bytes
unfoldable pub joined : CmdExt → List ℕ
unfolding bytes
joined e =
    let both = e.tx_payload1_len + e.tx_payload2_len in
    if ltb 0 e.tx_payload2_len
    then bytes e.tx_payload1 0 e.tx_payload1_len
      ++ bytes e.tx_payload2 0 ((both + 3) / 4 * 4 - e.tx_payload1_len)
    else bytes e.tx_payload1 0 ((both + 3) / 4 * 4)

abbrev pub Sends : List ℕ → Sending → Sent → Type 0
Sends more s (sending t) = t.sent ≡ s.sent ++ more
Sends more s (write_failed t) = ⊥

regroup : {A : Type 0} (a b c d : List A) → (a ++ b) ++ (c ++ d) ≡ (a ++ (b ++ c)) ++ d
regroup a b c d =
    append_assoc a b (c ++ d)
    ∙ ap (λ l. a ++ l) (sym (append_assoc b c d))
    ∙ sym (append_assoc a (b ++ c) d)

-- Two payloads of which `l` and `k` bytes are sent, the first with `r` bytes behind its aligned part
module _ (p q : Buffer) (l k : ℕ) where
  aligned-joined :
      (whole n : ℕ)
      → whole ≡ l
      → n ≡ k
      → bytes p 0 l ++ bytes q 0 k ≡ (bytes p 0 whole ++ []) ++ bytes q 0 n
  aligned-joined whole n e h =
      ap (λ a. a ++ bytes q 0 k) (sym (append-nil (bytes p 0 l)))
      ∙ ap (λ x. (bytes p 0 x ++ []) ++ bytes q 0 k) (sym e)
      ∙ ap (λ x. (bytes p 0 whole ++ []) ++ bytes q 0 x) (sym h)

  crossing-joined :
      (whole r offset n : ℕ)
      → l ≡ whole + r
      → k ≡ offset + n
      → bytes p 0 l ++ bytes q 0 k
        ≡ (bytes p 0 whole ++ (bytes p whole r ++ bytes q 0 offset)) ++ bytes q offset n
  crossing-joined whole r offset n h j =
      ap (λ a. a ++ bytes q 0 k) (bytes-split p 0 whole r l whole h (omega arith))
      ∙ ap (λ b. (bytes p 0 whole ++ bytes p whole r) ++ b)
          (bytes-split q 0 offset n k offset j (omega arith))
      ∙ regroup (bytes p 0 whole) (bytes p whole r) (bytes q 0 offset) (bytes q offset n)

-- The bytes of the three transactions: what is sent where the first payload is not aligned, and what
-- where the second one reaches beyond the four bytes that are shared
abbrev middle_bytes : Buffer → Buffer → ℕ → List ℕ
middle_bytes p q l =
    let r = l % 4 in
    if ltb 0 r then bytes p (l - r) r ++ bytes q 0 (if ltb 0 r then 4 - r else 0) else []

abbrev last_bytes : Wire → Buffer → ℕ → ℕ → List ℕ
last_bytes w q l m =
    let offset = if ltb 0 (l % 4) then 4 - l % 4 else 0 in
    if ltb offset m then bytes q offset (w.align (m - offset)) else []

ltb-true : (m n : ℕ) → m < n → ltb m n ≡ true
ltb-true m n h = ground arith

transactions-joined :
    (w : Wire) (p q : Buffer) (l m : ℕ)
    → IsSound w
    → 0 < m
    → bytes p 0 l ++ bytes q 0 ((l + m + 3) / 4 * 4 - l)
      ≡ (bytes p 0 (l - l % 4) ++ middle_bytes p q l) ++ last_bytes w q l m
unfolding bytes
transactions-joined w p q l m h k =
    let both = (l + m + 3) / 4 * 4 - l in
    elim (Bool-cases (ltb 0 (l % 4))) [
      | inl y ↦ elim (Bool-cases (ltb (4 - l % 4) m)) [
        | inl z ↦
            rw (y, z)
              (crossing-joined p q l both (l - l % 4) (l % 4) (4 - l % 4)
                (w.align (m - (4 - l % 4))) (omega arith)
                (omega (arith, h.aligns (m - (4 - l % 4)))))
        | inr z ↦
            rw (y, z)
              (crossing-joined p q l both (l - l % 4) (l % 4) (4 - l % 4) 0 (omega arith)
                (ground arith))
      ]
      | inr y ↦
          rw (y, ltb-true 0 m k)
            (aligned-joined p q l both (l - l % 4) (w.align (m - 0)) (ground arith)
              (ground (arith, h.aligns (m - 0))))
    ]

Sends-shift :
    (xs ys zs : List ℕ) (s t : Sending) (o : Sent)
    → t.sent ≡ s.sent ++ xs
    → zs ≡ xs ++ ys
    → Sends ys t o
    → Sends zs s o
Sends-shift xs ys zs s t (sending u) h e j =
    j ∙ ap (λ l. l ++ ys) h ∙ append_assoc s.sent xs ys ∙ ap (λ l. s.sent ++ l) (sym e)
Sends-shift xs ys zs s t (write_failed u) h e j = absurd j

-- One part after the other
pub Sends-then :
    (xs ys zs : List ℕ) (s : Sending) (o : Sent) (k : S)
    → Sends xs s o
    → ((t : Sending) → Sends ys t (k t))
    → zs ≡ xs ++ ys
    → Sends zs s (go_on o k)
Sends-then xs ys zs s (sending t) k h j e = Sends-shift xs ys zs s t (k t) h e (j t)
Sends-then xs ys zs s (write_failed t) k h j e = absurd h

module _ (w : Wire) (h : IsSound w) where
  pub write_check-Sends : (xs : List ℕ) (s : Sending) → Sends xs s (write_check w xs s)
  unfolding write_check
  write_check-Sends xs s = ground (arith, h.accepts_all s.transactions)

  pub when-Sends :
      (b : Bool) (xs : List ℕ) (s : Sending)
      → Sends (if b then xs else []) s (when b (write_check w xs) s)
  when-Sends true xs s = write_check-Sends xs s
  when-Sends false xs s = sym (append-nil s.sent)

  pub write_both-Sends :
      (e : CmdExt) (s : Sending)
      → 0 < e.tx_payload1_len
      → 0 < e.tx_payload2_len
      → Sends (joined e) s (write_both w e s)
  unfolding write_both joined
  write_both-Sends e s l k =
      let p = e.tx_payload1 in
      let q = e.tx_payload2 in
      let n = e.tx_payload1_len in
      let m = e.tx_payload2_len in
      let a = bytes p 0 (n - n % 4) in
      let b = middle_bytes p q n in
      let c = last_bytes w q n m in
      Sends-then (a ++ b) c (joined e) s _ _
        (Sends-then a b (a ++ b) s _ _ (write_check-Sends a _) (λ t. when-Sends (ltb 0 (n % 4)) _ t)
          refl)
        (λ t. when-Sends (ltb (if ltb 0 (n % 4) then 4 - n % 4 else 0) m) _ t)
        (rw (ltb-true 0 m k) (transactions-joined w p q n m h k))
