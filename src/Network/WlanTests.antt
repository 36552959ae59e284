-- ===== src/Network/WlanTests.antt =====
-- The Wi-Fi device under its main thread, at a concrete start.
use tisdk_cc32xx_issues.Prelude.{◌≡◌, refl, pos, arith}
use tisdk_cc32xx_issues.Cc3220sf.Types.{Device}
use tisdk_cc32xx_issues.Cc3220sf.Start.{probe, start_device, must_return_0, check_profile_count}
use tisdk_cc32xx_issues.Cc3220sf.Steps.{IsSound}
use tisdk_cc32xx_issues.Cc3220sf.Sample.{test_host, powered, device_of}
use tisdk_cc32xx_issues.Network.Device.{NetDev, op_ret, main_stub}
use tisdk_cc32xx_issues.Network.ThreadLaws.{Serves}
use tisdk_cc32xx_issues.Network.WlanDevice.{net_dev_wlan, IsProbed, here, main_stub-net_dev_wlan}

abbrev settings : NetDev
settings = record { delay = 100; timer = 0; stack_size = 4096; priority = 5 }

unfoldable started : Device
unfolding start_device probe must_return_0 check_profile_count
started = device_of (start_device test_host (probe test_host powered))

powered-IsProbed : IsProbed test_host (probe test_host powered)
powered-IsProbed = record { was = powered; powered = ground arith; probed = refl }

started-by_start : (net_dev_wlan test_host).start (probe test_host powered) ≡ op_ret (pos 0) started
unfolding started net_dev_wlan start_device probe must_return_0 check_profile_count
started-by_start = refl

main_stub-net_dev_wlan_example :
    Serves IsSound
      (main_stub (net_dev_wlan test_host) (λ _ d. d) 50 settings (probe test_host powered))
main_stub-net_dev_wlan_example =
    main_stub-net_dev_wlan test_host (λ _ d. d) 50 settings (probe test_host powered) started
      (λ _ _. here) powered-IsProbed started-by_start
