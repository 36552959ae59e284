-- ===== src/Network/Startup.antt =====
-- drivers/network/netdevice.c: network_dev_init and network_dev_start over the table of devices; and
-- network.c, the addresses of a device.
use tisdk_cc32xx_issues.Prelude.{
  ℕ, ◌%◌, ◌&&◌, Bool, ℤ, pos, negsuc, eq_ℤ, ltb, ◌==◌, List, none, some, map, if◌then◌else◌,
}
use tisdk_cc32xx_issues.Network.Listeners.{get_device}
use tisdk_cc32xx_issues.Network.Device.{NetDev, DeviceOps}

-- A device of the table NetworkDevs, and whether it has a main thread
pub record Entry (D : Type 0) : Type 0 where
  pub ops : DeviceOps D
  pub net_dev : NetDev
  pub device : D
  pub has_thread : Bool

-- NETWORK_DEFAULT_STACK_SIZE and NETWORK_DEFAULT_PRIORITY
abbrev pub default_net_dev : NetDev
default_net_dev = record { delay = 0; timer = 0; stack_size = 512; priority = 4 }

-- The body of the loop of network_dev_init: the main thread is created for a device that was found
-- and that has set a delay.
unfoldable pub probe_entry : {D : Type 0} → Entry D → Entry D
probe_entry entry =
    let probed = entry.ops.probe default_net_dev entry.device in
    record entry {
      net_dev = probed.1.0;
      device = probed.1.1;
      has_thread = eq_ℤ probed.0 (pos 0) && ltb 0 (probed.1.0).delay;
    }

-- network_dev_init, with what SlNetIf_init, SlNetSock_init and SlNetUtil_init return
unfoldable pub dev_init : {D : Type 0} → ℤ → ℤ → ℤ → List (Entry D) → List (Entry D)
unfolding probe_entry
dev_init if_init sock_init util_init devs =
    if eq_ℤ if_init (pos 0) && (eq_ℤ sock_init (pos 0) && eq_ℤ util_init (pos 0))
    then map probe_entry devs
    else devs

-- WLAN_MODE_PROVISION or WLAN_MODE_STATION
abbrev pub start_mode : ℕ → ℕ
start_mode provisioning = if provisioning % 2 == 1 then 4 else 1

-- network_dev_start: WLAN_IOCTL_SET_MODE for every device; the priority of a thread is left out.
unfoldable pub set_mode : {D : Type 0} → ℕ → Entry D → Entry D
set_mode provisioning entry = record entry {
  device = entry.ops.ioctl 16 (start_mode provisioning) entry.device;
}

unfoldable pub dev_start : {D : Type 0} → ℕ → List (Entry D) → List (Entry D)
unfolding set_mode
dev_start provisioning devs = map (set_mode provisioning) devs

-- network_get_addresses: `getmacaddress` and `ipconfig` are operations of the device.
unfoldable pub get_addresses {ℓ} : {D : Type ℓ} → List D → ℕ → (D → ℤ) → (D → ℤ) → ℤ
get_addresses devs i getmacaddress ipconfig = elim (get_device devs i) [
  | none ↦ negsuc 0
  | some d ↦ if eq_ℤ (getmacaddress d) (pos 6) then ipconfig d else negsuc 0
]

-- network_dev_stop
unfoldable pub stop_entry : {D : Type 0} → Entry D → Entry D
stop_entry entry = record entry { device = entry.ops.stop entry.device }

unfoldable pub dev_stop : {D : Type 0} → List (Entry D) → List (Entry D)
unfolding stop_entry
dev_stop devs = map stop_entry devs
