-- ===== src/Gateway/Linux/Laws.antt =====
-- What internal/gateway/linux_session.go relies on of sysctl, ip, nft and hostapd: the documented effects
-- of the commands on what can be observed of a machine.
use dns_desktop.Common.{◌≡◌, Bool, true, false, Option, some, Bytes}
use dns_desktop.Text.{runes, encode_runes, trim_space}
use dns_desktop.Gateway.Nftables.{destroy, delete_fallback}
use dns_desktop.Gateway.Linux.{
  Command, sysctl_read, sysctl_write, nft_list, nft_script, addr_replace, addr_delete,
  start_hostapd, stop_hostapd, succeeds,
}

-- Which commands may change IP forwarding, the firewall table, the addresses and the access point.
abbrev pub writes_forwarding : Command → Bool
writes_forwarding (sysctl_write v) = true
writes_forwarding _ = false

abbrev pub writes_table : Command → Bool
writes_table (nft_script text) = true
writes_table _ = false

abbrev pub writes_address : Command → Bool
writes_address (addr_replace addr iface) = true
writes_address (addr_delete addr iface) = true
writes_address _ = false

abbrev pub writes_ap : Command → Bool
writes_ap start_hostapd = true
writes_ap stop_hostapd = true
writes_ap _ = false

-- A machine that is observed by whether it forwards, has the table, has an address on an interface, and
-- has an access point. The commands that undo succeed.
pub record IsMachine {M : Type 0} (run : M → Command → M × Option Bytes) (forwards : M → Bytes)
    (has_table : M → Bool) (has_address : M → Bytes → Bytes → Bool) (has_ap : M → Bool)
    : Type 0 where
  pub keeps_forwarding :
      (m : M) (c : Command) → writes_forwarding c ≡ false → forwards (run m c).0 ≡ forwards m
  pub keeps_table :
      (m : M) (c : Command) → writes_table c ≡ false → has_table (run m c).0 ≡ has_table m
  pub keeps_address :
      (m : M) (c : Command) (addr iface : Bytes)
      → writes_address c ≡ false
      → has_address (run m c).0 addr iface ≡ has_address m addr iface
  pub keeps_ap : (m : M) (c : Command) → writes_ap c ≡ false → has_ap (run m c).0 ≡ has_ap m
  pub reads :
      (m : M) (out : Bytes)
      → (run m sysctl_read).1 ≡ some out
      → encode_runes (trim_space (runes out)) ≡ forwards m
  pub writes :
      (earlier m : M) → forwards (run m (sysctl_write (forwards earlier))).0 ≡ forwards earlier
  pub lists : (m : M) → succeeds (run m nft_list).1 ≡ has_table m
  pub destroys :
      (m : M)
      → succeeds (run m (nft_script destroy)).1 ≡ true
      → has_table (run m (nft_script destroy)).0 ≡ false
  pub deletes_table : (m : M) → has_table (run m (nft_script delete_fallback)).0 ≡ false
  pub deletes :
      (m : M) (addr iface : Bytes)
      → has_address (run m (addr_delete addr iface)).0 addr iface ≡ false
