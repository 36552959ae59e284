-- ===== src/Driver/CmdSend.antt =====
-- driver.c: the commands that wait for no response, _SlDrvBasicCmd, _SlDrvProtectAsyncRespSetting, the
-- interrupt handler, and the test for an API call in progress. What _SlDrvMsgWrite and _SlDrvCmdOp do
-- is a parameter here.
use tisdk_cc32xx_issues.Prelude.{
  ℕ, ◌+◌, ◌%◌, Bool, true, false, ℤ, pos, negsuc, eq_ℤ, ltb, ◌==◌, ◌≡◌, refl, if◌then◌else◌,
}
use tisdk_cc32xx_issues.Driver.Pool.{
  PoolLimits, Pool, pool_is_empty, refused, pending, active, Started, wait_for_pool_obj,
}

-- WaitForCmdResp, FunctionParams and GlobalLockObj
pub record SendCb (F : Type 0) : Type 0 where
  pub wait_for_cmd_resp : Bool
  pub params : F
  pub locked : Bool

-- A result and what the call leaves
pub record Written (F : Type 0) : Type 0 where
  pub result : ℤ
  pub cb : SendCb F

module _ {F : Type 0} (write : SendCb F → Written F) where
  -- _SlDrvCmdSend_noLock
  unfoldable pub cmd_send_no_lock : SendCb F → Written F
  cmd_send_no_lock s =
      let w = write (record s { wait_for_cmd_resp = false }) in
      record w { cb = record (w.cb) { wait_for_cmd_resp = s.wait_for_cmd_resp; params = s.params } }

  -- _SlDrvCmdSend_noWait
  unfoldable pub cmd_send_no_wait : SendCb F → Written F
  cmd_send_no_wait s = let w = write s in record w { cb = record (w.cb) { params = s.params } }

  -- _SlDrvCmdSend, which does not look at what the calls of the lock return
  unfoldable pub cmd_send : SendCb F → Written F
  cmd_send s =
      let w = write (record s { wait_for_cmd_resp = false; locked = true }) in
      record w { cb = record (w.cb) { locked = false } }

  -- A command sent from the handler of an event, while the driver is locked for another command: it
  -- changes neither what that command waits for nor its parameters, whatever the write does.
  cmd_send_no_lock-restores :
      (s : SendCb F)
      → ((cmd_send_no_lock s).cb.wait_for_cmd_resp ≡ s.wait_for_cmd_resp)
        × ((cmd_send_no_lock s).cb.params ≡ s.params)
  unfolding cmd_send_no_lock
  cmd_send_no_lock-restores s = (refl, refl)

-- _SlDrvBasicCmd: `result` is what _SlDrvCmdOp returns, `status` the one in the response.
unfoldable pub basic_cmd : ℤ → ℤ → ℤ
basic_cmd result status = if eq_ℤ result (pos 0) then status else result

-- What _SlDrvProtectAsyncRespSetting returns: an index, SL_POOL_IS_EMPTY, or nothing yet
pub data Protected : Type 0 where
  protected_by : ℕ → Protected
  is_empty : Protected
  still_waits : Protected

-- _SlDrvProtectAsyncRespSetting up to its end or to the first wait; `has_args` says that the pointer
-- given is not NULL.
unfoldable pub set_resp_args : Bool → Started → Protected × Pool
set_resp_args has_args s = elim s.start [
  | pool_is_empty ↦ (is_empty, s.pool)
  | refused ↦ (is_empty, s.pool)
  | pending i ↦ (still_waits, s.pool)
  | active i ↦ (
    protected_by i,
    record (s.pool) {
      protected = false;
      objs = λ j.
          if j == i then record (s.pool.objs j) { has_resp_args = has_args } else s.pool.objs j;
    },
  )
]

unfoldable pub protect_async_resp_setting :
    PoolLimits → Bool → Bool → ℕ → ℕ → Pool → Protected × Pool
unfolding wait_for_pool_obj set_resp_args
protect_async_resp_setting limits spawn_owner has_args action_id socket_id p =
    set_resp_args has_args (wait_for_pool_obj limits spawn_owner action_id socket_id p)

-- _SlDrvIsApiInProgress: `has_cb` says that g_pCB is not NULL.
unfoldable pub is_api_in_progress : Bool → ℤ → Bool
is_api_in_progress has_cb (pos n) = if has_cb then ltb 0 n else true
is_api_in_progress has_cb (negsuc n) = if has_cb then false else true

-- What the interrupt handler works on; `signals` counts those of CmdSyncObj.
pub record Irq : Type 0 where
  pub masked : Bool
  pub rx_irq_cnt : ℕ
  pub wait_for_cmd_resp : Bool
  pub signals : ℕ
  pub spawns : ℕ

-- _SlDrvRxIrqHandler
unfoldable pub rx_irq_handler : Irq → Irq
rx_irq_handler s =
    if s.wait_for_cmd_resp
    then record s { masked = true; rx_irq_cnt = (s.rx_irq_cnt + 1) % 256; signals = s.signals + 1 }
    else record s { masked = true; rx_irq_cnt = (s.rx_irq_cnt + 1) % 256; spawns = s.spawns + 1 }

-- How _SlDrvDataReadOp begins: SL_ERROR_BSD_EBADF, or an object for the action of RECV_ID whose
-- arguments are those of the call. What follows is in FlowControl.
pub data ReadBegin : Type 0 where
  bad_socket : ReadBegin
  with_object : Protected → Pool → ReadBegin

unfoldable pub data_read_begin : PoolLimits → Bool → ℕ → ℕ → Pool → ReadBegin
unfolding wait_for_pool_obj set_resp_args
data_read_begin limits spawn_owner recv_id sd p =
    let socket = limits.socket_id sd in
    let begun = set_resp_args true (wait_for_pool_obj limits spawn_owner recv_id socket p) in
    if ltb socket limits.max_sockets then with_object begun.0 begun.1 else bad_socket
