-- ===== src/SlWifiConn/Paused.antt =====
-- slwificonn.c, the statistics and the pause of the network clients.
use tisdk_cc32xx_issues.Prelude.{if◌then◌else◌, ℕ, suc, ◌+◌, ◌≡◌, ◌∷◌, [], List, true, arith}
use tisdk_cc32xx_issues.SlWifiConn.Types.{
  State, Call, World, Sdk, notify_app, stats_pause, stats_resume,
}
use tisdk_cc32xx_issues.SlWifiConn.Quiet.{After}
use tisdk_cc32xx_issues.SlWifiConn.Stats.{collect_and_notify_stats}

-- How often the application was told to pause, and to go on
abbrev pub pauses : List Call → ℕ
pauses [] = 0
pauses (notify_app stats_pause ∷ cs) = suc (pauses cs)
pauses (_ ∷ cs) = pauses cs

abbrev pub resumes : List Call → ℕ
resumes [] = 0
resumes (notify_app stats_resume ∷ cs) = suc (resumes cs)
resumes (_ ∷ cs) = resumes cs

-- CollectAndNotifyStats, called in CONNECTED by a module whose application has its callback: on every
-- way out the clients have been paused once and resumed once, and if statistics are enabled the timer
-- is armed for the next collection, and is left as it was if they are not.
collect_and_notify_stats-resumes :
    (sdk : Sdk) (w : World)
    → w.ctx.state ≡ State.connected
    → w.ctx.wifi_app_cb ≡ true
    → After
        (λ _ v.
          (pauses v.calls ≡ pauses w.calls + 1)
          × (resumes v.calls ≡ resumes w.calls + 1)
          × (v.ctx.timer ≡ (if w.ctx.stats_enabled then w.ctx.stats_interval else w.ctx.timer)))
        (collect_and_notify_stats sdk w)
unfolding collect_and_notify_stats
collect_and_notify_stats-resumes sdk w s c = ground arith
