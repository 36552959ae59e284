-- ===== src/Driver/DataTests.antt =====
-- driver.c, runs of the model of the data operations at concrete inputs.
use tisdk_cc32xx_issues.Prelude.{true, false, [], ◌∷◌, pos, negsuc, refl}
use tisdk_cc32xx_issues.Driver.Pool.{wait_for_pool_obj, take_free, is_busy, move_to_active}
use tisdk_cc32xx_issues.Driver.Init.{init_pool, init_pool-IsPartition}
use tisdk_cc32xx_issues.Driver.FlowControl.{
  Flow, FlowLimits, Pass, wait_for_tx, take_packets, data_read_flow,
}
use tisdk_cc32xx_issues.Driver.Partition.{IsPartition}
use tisdk_cc32xx_issues.Driver.Returned.{first_waiting}
use tisdk_cc32xx_issues.Driver.DataOps.{ReadCodes, ReadRun, data_read_op}
use tisdk_cc32xx_issues.Driver.Recycled.{AfterFlow, AfterRead, data_read_op-AfterRead}
use tisdk_cc32xx_issues.Driver.PoolTests.{small_limits}

abbrev read_codes : ReadCodes
read_codes = record {
  recv_id = 21;
  bad_socket_code = negsuc 8;
  pool_is_empty_code = negsuc 1999;
  api_aborted_code = negsuc 2005;
  lock_error_code = negsuc 2004;
  timeout_short = 10000;
  recv_opcode = 1;
  recv_async_opcode = 2;
  recv_from_async_opcode = 3;
}

abbrev full_pool : Pass
full_pool = record {
  pool_at_lock = 9;
  pool_after_wait = 9;
  tx_failure = false;
  non_blocking = false;
  timed_out = false;
  restart_after_wait = false;
}

abbrev read_run : ReadRun
read_run = record {
  spawn_owner = false;
  pass = full_pool;
  at_send = record { lock_refused = false; pool_at_send = 9; restart_at_send = false };
  write_result = pos 0;
  non_blocking = false;
  wait = λ _ _. pos 0;
  others = λ p. p;
  restart_required = false;
  stopping = false;
  deletes = true;
}

abbrev flow_limits : FlowLimits
flow_limits = record { flow_cont_min = 1; min_tx_payload_size = 1536 }

abbrev unlocked : Flow
unlocked = record { tx_pool_cnt = 9; tx_lock_held = false; global_lock_held = false }

data_read_op-AfterRead_example :
    IsPartition small_limits
      (data_read_op small_limits flow_limits read_codes read_run 1 5 unlocked
        (init_pool small_limits)).pool
      (0 ∷ 1 ∷ 2 ∷ 3 ∷ [])
      []
      []
unfolding wait_for_pool_obj take_free is_busy move_to_active init_pool first_waiting data_read_flow
    take_packets wait_for_tx AfterFlow AfterRead
data_read_op-AfterRead_example =
    data_read_op-AfterRead small_limits flow_limits read_codes read_run 1 unlocked 5 0
      (init_pool small_limits) (1 ∷ 2 ∷ 3 ∷ []) [] [] (init_pool-IsPartition small_limits) refl refl
      refl (λ w. refl)
