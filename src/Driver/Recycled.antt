-- ===== src/Driver/Recycled.antt =====
-- driver.c: where _SlDrvDataReadOp leaves the object of the pool that it works with.
use tisdk_cc32xx_issues.Prelude.{
  ℕ, Bool, true, false, List, ◌∷◌, Option, ltb, ◌≡◌, refl, sym, ◌∙◌, subst, arith,
}
use tisdk_cc32xx_issues.Driver.Pool.{
  PoolLimits, Pool, Start, pool_is_empty, refused, pending, active, wait_for_pool_obj,
}
use tisdk_cc32xx_issues.Driver.Release.{is_stale, release_pool_obj}
use tisdk_cc32xx_issues.Driver.FlowControl.{
  Flow, FlowLimits, Ending, sent, fatal, api_aborted, soc_error, try_again, violated, lock_error,
  deadlocked, waiting, data_read_flow,
}
use tisdk_cc32xx_issues.Driver.CmdSend.{with_object, set_resp_args, data_read_begin}
use tisdk_cc32xx_issues.Driver.Chains.{erase}
use tisdk_cc32xx_issues.Driver.Partition.{
  IsPartition, IsPlaced, is_chain-links, wait_for_pool_obj-IsPlaced,
}
use tisdk_cc32xx_issues.Driver.Returned.{first_waiting, without, release_pool_obj-IsPartition}
use tisdk_cc32xx_issues.Driver.DataOps.{
  ReadCodes, ReadRun, ReadDone, returned, waits_for_obj, signal_all, finish_read, read_with,
  data_read_op,
}
use tisdk_cc32xx_issues.Driver.Fresh.{IsFresh, wait_for_pool_obj-IsFresh, set_resp_args-stale}

-- The lists of a pool whose objects have the same links
IsPartition-links :
    (limits : PoolLimits) (p v : Pool) (fr ac pe : List ℕ)
    → ((j : ℕ) → (v.objs j).next_index ≡ (p.objs j).next_index)
    → v.free_pool_idx ≡ p.free_pool_idx
    → v.active_pool_idx ≡ p.active_pool_idx
    → v.pending_pool_idx ≡ p.pending_pool_idx
    → IsPartition limits p fr ac pe
    → IsPartition limits v fr ac pe
IsPartition-links limits p v fr ac pe links ef ea ep h =
    let same = is_chain-links limits.max_actions p.objs v.objs links in
    ground (
      arith,
      h,
      ef,
      ea,
      ep,
      same p.free_pool_idx fr,
      same p.active_pool_idx ac,
      same p.pending_pool_idx pe,
    )

signal_all-IsPartition :
    (limits : PoolLimits) (restart : Bool) (p : Pool) (fr ac pe : List ℕ)
    → IsPartition limits p fr ac pe
    → IsPartition limits (signal_all limits restart p) fr ac pe
unfolding signal_all
signal_all-IsPartition limits true p fr ac pe h = h
signal_all-IsPartition limits false p fr ac pe h =
    IsPartition-links limits p (signal_all limits false p) fr ac pe (λ j. ground arith) refl refl
      refl h

-- Where the object `x`, which was at the head of the free list, is after the call, by the ending of the
-- flow control: `q` is the object of the pending list that is woken.
unfoldable pub AfterFlow :
    PoolLimits → ℕ → List ℕ → List ℕ → List ℕ → Option ℕ → Pool → Ending → Type 0
AfterFlow limits x fr ac pe q p sent = IsPartition limits p (x ∷ fr) ac (without q pe)
AfterFlow limits x fr ac pe q p _ = IsPartition limits p fr (x ∷ ac) pe

erase-head : (x : ℕ) (xs : List ℕ) → erase x (x ∷ xs) ≡ xs
erase-head x xs = ground arith

finish_read-AfterFlow :
    (limits : PoolLimits) (codes : ReadCodes) (r : ReadRun) (opcode x : ℕ) (p : Pool) (f : Flow)
    (e : Ending) (fr ac pe : List ℕ)
    → IsPartition limits p fr (x ∷ ac) pe
    → is_stale limits x p ≡ false
    → r.stopping ≡ false
    → r.others p ≡ p
    → AfterFlow limits x fr ac pe
        (first_waiting limits p.objs x pe)
        (finish_read limits codes r opcode x p f e).pool
        e
unfolding finish_read AfterFlow
finish_read-AfterFlow limits codes r opcode x p f sent fr ac pe h hs hn ho =
    rw (hn, ho)
      (subst
        (λ xs.
          IsPartition limits (release_pool_obj limits false r.deletes x p) (x ∷ fr) xs
            (without (first_waiting limits p.objs x pe) pe))
        (erase-head x ac)
        (release_pool_obj-IsPartition limits r.deletes x p fr (x ∷ ac) pe h (ground arith) hs))
finish_read-AfterFlow limits codes r opcode x p f fatal fr ac pe h hs hn ho =
    signal_all-IsPartition limits r.restart_required p fr (x ∷ ac) pe h
finish_read-AfterFlow limits codes r opcode x p f api_aborted fr ac pe h hs hn ho = h
finish_read-AfterFlow limits codes r opcode x p f soc_error fr ac pe h hs hn ho = h
finish_read-AfterFlow limits codes r opcode x p f try_again fr ac pe h hs hn ho = h
finish_read-AfterFlow limits codes r opcode x p f violated fr ac pe h hs hn ho = h
finish_read-AfterFlow limits codes r opcode x p f waiting fr ac pe h hs hn ho = h
finish_read-AfterFlow limits codes r opcode x p f lock_error fr ac pe h hs hn ho = h
finish_read-AfterFlow limits codes r opcode x p f deadlocked fr ac pe h hs hn ho = h

set_resp_args-IsPartition :
    (limits : PoolLimits) (i : ℕ) (p : Pool) (fr ac pe : List ℕ)
    → IsPartition limits p fr ac pe
    → IsPartition limits (set_resp_args true (record { start = active i; pool = p })).1 fr ac pe
unfolding set_resp_args
set_resp_args-IsPartition limits i p fr ac pe h =
    IsPartition-links limits p (set_resp_args true (record { start = active i; pool = p })).1 fr ac
      pe (λ j. ground arith) refl refl refl h

-- Where _SlDrvDataReadOp leaves the pool, by what _SlDrvWaitForPoolObj does and how the flow control
-- ends: `x` was at the head of the free list, behind which it was `fr`.
unfoldable pub AfterRead :
    PoolLimits
    → ReadCodes
    → ℕ
    → List ℕ
    → List ℕ
    → List ℕ
    → Option ℕ
    → Ending
    → Start
    → ReadDone
    → Type 0
AfterRead limits codes x fr ac pe q e pool_is_empty d = ⊥
AfterRead limits codes x fr ac pe q e refused d =
    IsPartition limits d.pool (x ∷ fr) ac pe × (d.outcome ≡ returned codes.pool_is_empty_code)
AfterRead limits codes x fr ac pe q e (pending i) d =
    IsPartition limits d.pool fr ac (x ∷ pe) × (d.outcome ≡ waits_for_obj)
AfterRead limits codes x fr ac pe q e (active i) d = AfterFlow limits x fr ac pe q d.pool e

module _ (limits : PoolLimits) (flow_limits : FlowLimits) (codes : ReadCodes) (r : ReadRun)
    (opcode : ℕ) (f : Flow) where
  read_with-AfterRead :
      (x : ℕ) (start : Start) (v p : Pool) (fr ac pe : List ℕ)
      → IsPlaced limits x fr ac pe (record { start = start; pool = v })
      → IsFresh limits (record { start = start; pool = v })
      → r.stopping ≡ false
      → ((w : Pool) → r.others w ≡ w)
      → AfterRead limits codes x fr ac pe
          (first_waiting limits
            (set_resp_args true (record { start = start; pool = v })).1.objs
            x
            pe)
          (data_read_flow flow_limits r.pass r.at_send f).ending
          start
          (read_with limits flow_limits codes r opcode f
            (with_object
              (set_resp_args true (record { start = start; pool = v })).0
              (set_resp_args true (record { start = start; pool = v })).1)
            p)
  unfolding read_with set_resp_args AfterRead IsPlaced IsFresh
  read_with-AfterRead x pool_is_empty v p fr ac pe h n hn ho = h
  read_with-AfterRead x refused v p fr ac pe h n hn ho = (h, refl)
  read_with-AfterRead x (pending i) v p fr ac pe h n hn ho = (h.1, refl)
  read_with-AfterRead x (active i) v p fr ac pe h n hn ho =
      let e = data_read_flow flow_limits r.pass r.at_send f in
      let begun = λ (j : ℕ). (set_resp_args true (record { start = active j; pool = v })).1 in
      subst
        (λ j.
          AfterFlow limits x fr ac pe (first_waiting limits (begun j).objs x pe)
            (finish_read limits codes r opcode j (begun j) e.flow e.ending).pool e.ending)
        (sym h.0)
        (finish_read-AfterFlow limits codes r opcode x (begun x) e.flow e.ending fr ac pe
          (set_resp_args-IsPartition limits x v fr (x ∷ ac) pe h.1)
          (set_resp_args-stale limits x v ∙ subst (λ j. is_stale limits j v ≡ false) h.0 n) hn
          (ho (begun x)))

  -- _SlDrvDataReadOp of a valid socket, where the lists of the pool share no object, `x` is at the head
  -- of the free list, no stop is in progress and no other thread changes the pool meanwhile. If the
  -- spawn task may not wait, the call returns SL_POOL_IS_EMPTY with the lists as they were; if it waits for
  -- the socket, `x` is in the pending list; if the message is written, `x` is at the head of the free
  -- list again, whatever _SlDrvMsgWrite and the wait return, and the first call of the pending list
  -- that waits for the socket is out of it. On every other path, a refused global lock among them, `x`
  -- stays in the active list.
  pub data_read_op-AfterRead :
      (sd x : ℕ) (p : Pool) (fr ac pe : List ℕ)
      → IsPartition limits p (x ∷ fr) ac pe
      → ltb (limits.socket_id sd) limits.max_sockets ≡ true
      → limits.socket_id (limits.socket_id sd) ≡ limits.socket_id sd
      → r.stopping ≡ false
      → ((w : Pool) → r.others w ≡ w)
      → AfterRead limits codes x fr ac pe
          (first_waiting limits
            (set_resp_args true
              (wait_for_pool_obj limits r.spawn_owner codes.recv_id (limits.socket_id sd) p)).1.objs
            x
            pe)
          (data_read_flow flow_limits r.pass r.at_send f).ending
          (wait_for_pool_obj limits r.spawn_owner codes.recv_id (limits.socket_id sd) p).start
          (data_read_op limits flow_limits codes r opcode sd f p)
  unfolding data_read_op data_read_begin
  data_read_op-AfterRead sd x p fr ac pe h hs hm hn ho =
      let w = wait_for_pool_obj limits r.spawn_owner codes.recv_id (limits.socket_id sd) p in
      rw hs (
        read_with-AfterRead x w.start w.pool p fr ac pe
          (wait_for_pool_obj-IsPlaced limits r.spawn_owner codes.recv_id (limits.socket_id sd) p x
            fr ac pe h)
          (wait_for_pool_obj-IsFresh limits r.spawn_owner codes.recv_id (limits.socket_id sd) p hs
            hm)
          hn ho)
