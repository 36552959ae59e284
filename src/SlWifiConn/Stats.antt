-- ===== src/SlWifiConn/Stats.antt =====
-- slwificonn.c, the statistics that WIFI_STATS switches on.
use tisdk_cc32xx_issues.Prelude.{
  Bool, true, false, not, ◌&&◌, ℤ, pos, negsuc, is_neg, if◌then◌else◌,
}
use tisdk_cc32xx_issues.SlWifiConn.Types.{
  State, Sdk, sleep, stat_start, stat_get, stat_stop, stats_pause, stats_resume, stats_result,
}
use tisdk_cc32xx_issues.SlWifiConn.Effects.{
  M, ◌>>=◌, ◌>>◌, return, get, when, call, start_async_evt_timer, notify_wifi_app,
}

abbrev pub is_connected : State → Bool
is_connected State.connected = true
is_connected _ = false

-- The timer is started again if statistics are still enabled.
unfoldable pub reschedule_stats : M (Unit {0})
unfolding start_async_evt_timer
reschedule_stats = do w ← get; when w.ctx.stats_enabled (start_async_evt_timer w.ctx.stats_interval)

-- The readings, between sl_DeviceStatStart and the notification of the result
unfoldable pub read_stats : Sdk → M ℤ
unfolding call notify_wifi_app
read_stats sdk = do
  call sdk (sleep 5)
  r ← call sdk stat_get
  call sdk stat_stop
  notify_wifi_app sdk stats_resume
  w ← get
  when (not (is_neg r) && is_connected w.ctx.state) (notify_wifi_app sdk stats_result)
  return r

-- The ways out of CollectAndNotifyStats that give up after the pause
unfoldable pub resume_without_stats : Sdk → ℤ → M ℤ
unfolding notify_wifi_app reschedule_stats
resume_without_stats sdk r = do notify_wifi_app sdk stats_resume; reschedule_stats; return r

-- CollectAndNotifyStats after sl_DeviceStatStart
unfoldable pub finish_stats : Sdk → M ℤ
unfolding read_stats reschedule_stats
finish_stats sdk = do
  read_stats sdk
  w ← get
  when (is_connected w.ctx.state) reschedule_stats
  return (pos 0)

-- CollectAndNotifyStats after the pause: the state is tested again.
unfoldable pub collect_paused_stats : Sdk → M ℤ
unfolding call resume_without_stats finish_stats
collect_paused_stats sdk = do
  w ← get
  if not (is_connected w.ctx.state) then resume_without_stats sdk (negsuc 0) else do
    r ← call sdk stat_start
    if is_neg r then resume_without_stats sdk r else finish_stats sdk

-- CollectAndNotifyStats
unfoldable pub collect_and_notify_stats : Sdk → M ℤ
unfolding call notify_wifi_app reschedule_stats collect_paused_stats
collect_and_notify_stats sdk = do
  w ← get
  if not (is_connected w.ctx.state)
      then (do reschedule_stats; return (negsuc 0))
      else do notify_wifi_app sdk stats_pause; call sdk (sleep 1); collect_paused_stats sdk
