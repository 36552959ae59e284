-- ===== src/Driver/Lookup.antt =====
-- driver.c: _SlDrvFindAndSetActiveObj, which looks for the active object that waits for an
-- asynchronous event. The constants and the table of the actions are parameters.
use tisdk_cc32xx_issues.Prelude.{
  ℕ, zero, suc, Bool, true, false, ◌&&◌, ◌||◌, List, [], ◌∷◌, ltb, ◌==◌, if◌then◌else◌,
}
use tisdk_cc32xx_issues.Driver.Pool.{PoolObj, PoolLimits, Objs, Pool}

-- RECV_ID, the test of SL_NETAPP_FAMILY_MASK, the removal of SL_OPCODE_IPV6, the three opcodes of a
-- received packet, and ActionAsyncOpcode in _SlActionLookupTable for an action
pub record Actions : Type 0 where
  pub recv_id : ℕ
  pub has_family : ℕ → Bool
  pub without_ipv6 : ℕ → ℕ
  pub is_recv_opcode : ℕ → Bool
  pub async_opcode : ℕ → ℕ

-- The object that the call stores in AsyncExt.ActionIndex, with the handler of its action or, for a
-- received packet, without one
pub data Found : Type 0 where
  obj_not_set : Found
  recv_obj : ℕ → Found
  handled_obj : ℕ → Found

-- The first test of the loop
unfoldable pub is_receiving : Actions → ℕ → ℕ → PoolObj → Bool
is_receiving actions opcode sd o =
    ((o.action_id == actions.recv_id) && (sd == o.additional_data)) && actions.is_recv_opcode opcode

-- The second one
unfoldable pub is_expecting : PoolLimits → Actions → ℕ → ℕ → PoolObj → Bool
is_expecting limits actions opcode sd o =
    (actions.async_opcode o.action_id == opcode)
    && (((sd == limits.socket_id o.additional_data) && ltb sd limits.max_sockets)
        || (limits.max_sockets == limits.socket_id o.additional_data))

-- The opcode that an object is compared with: it stays changed for the objects behind it.
unfoldable pub opcode_for : Actions → ℕ → PoolObj → ℕ
opcode_for actions opcode o =
    if actions.has_family o.additional_data then actions.without_ipv6 opcode else opcode

-- The loop of _SlDrvFindAndSetActiveObj, on fuel
unfoldable pub find_loop : PoolLimits → Actions → ℕ → Objs → ℕ → ℕ → ℕ → Found
find_loop limits actions zero objs sd opcode idx = obj_not_set
find_loop limits actions (suc fuel) objs sd opcode idx =
    let now = opcode_for actions opcode (objs idx) in
    let rest = find_loop limits actions fuel objs sd now (objs idx).next_index in
    if ltb idx limits.max_actions
    then (if is_receiving actions now sd (objs idx)
        then recv_obj idx
        else if is_expecting limits actions now sd (objs idx)
        then handled_obj idx
        else rest)
    else obj_not_set

-- _SlDrvFindAndSetActiveObj
unfoldable pub find_active_obj : PoolLimits → Actions → ℕ → ℕ → Pool → Found
find_active_obj limits actions opcode sd p =
    find_loop limits actions limits.max_actions p.objs sd opcode p.active_pool_idx

-- The opcode behind the objects of a list
unfoldable pub opcode_after : Actions → Objs → ℕ → List ℕ → ℕ
opcode_after actions objs opcode [] = opcode
opcode_after actions objs opcode (x ∷ xs) =
    opcode_after actions objs (opcode_for actions opcode (objs x)) xs

-- No object of the list waits for the event.
unfoldable pub none_waits : PoolLimits → Actions → Objs → ℕ → ℕ → List ℕ → Bool
none_waits limits actions objs sd opcode [] = true
none_waits limits actions objs sd opcode (x ∷ xs) =
    let now = opcode_for actions opcode (objs x) in
    let rest = none_waits limits actions objs sd now xs in
    if is_receiving actions now sd (objs x)
    then false
    else if is_expecting limits actions now sd (objs x)
    then false
    else rest
