-- ===== src/Gateway/Linux/Start.antt =====
-- Capabilities and Start of internal/gateway/linux_session.go. Which programs are installed and the list of
-- the interfaces are what the probes have found: `none` where the interfaces cannot be listed.
use dns_desktop.Common.{
  Bool, true, false, ◌&&◌, Option, none, some, List, [], ◌∷◌, Bytes, Result, ok, err, if◌then◌else◌,
}
use dns_desktop.Gateway.{
  Config, ConfigError, Capability, access_point, share_uplink, dns_redirect, dns_enforce,
  block_device, ipv6_control, own_dhcp, client_list, CapabilitySet, SharingModel, sharing_none,
  sharing_managed, sharing_platform, HotspotConfig, validate, check_capabilities, Interface,
  SelectError, select_uplink, select_ap_interface,
}
use dns_desktop.Gateway.Linux.{
  Command, LinuxError, bad_config, unsupported, bad_interface, not_managed, no_interfaces,
  nothing_to_serve_on, Outcome, done, failed, killed, World, Act, ◌>>◌, fail,
}
use dns_desktop.Gateway.Linux.Session.{Setup, bring_up}
use dns_desktop.Gateway.Linux.Undo.{tear_down, reconcile}

pub record Probes : Type 0 where
  pub has_nft : Bool
  pub has_hostapd : Bool
  pub interfaces : Option (List Interface)

abbrev finds_ap : Option (List Interface) → Bool
finds_ap none = false
finds_ap (some ifaces) = elim (select_ap_interface ifaces [] []) [ ok x ↦ true | err e ↦ false ]

-- `Capabilities`: the set of what the machine has.
unfoldable pub capabilities : Probes → CapabilitySet
unfolding select_ap_interface
capabilities p access_point = p.has_hostapd && finds_ap p.interfaces
capabilities p own_dhcp = true
capabilities p client_list = false
capabilities p share_uplink = p.has_nft
capabilities p dns_redirect = p.has_nft
capabilities p dns_enforce = p.has_nft
capabilities p block_device = p.has_nft
capabilities p ipv6_control = p.has_nft

-- The sharing models that it offers.
abbrev pub sharing_models : Probes → List SharingModel
sharing_models p = sharing_none ∷ (if p.has_nft then sharing_managed ∷ [] else [])

-- The guards of `Start` on the configuration.
abbrev pub sharing_guard : SharingModel → Result LinuxError Unit
sharing_guard sharing_managed = ok tt
sharing_guard sharing_none = err not_managed
sharing_guard sharing_platform = err not_managed

abbrev pub capability_guard : List Capability → Config → Result LinuxError Unit
capability_guard (x ∷ xs) c = err (unsupported (x ∷ xs))
capability_guard [] c = sharing_guard c.sharing

abbrev pub config_guard : List ConfigError → Probes → Config → Result LinuxError Unit
config_guard (e ∷ es) p c = err (bad_config (e ∷ es))
config_guard [] p c = capability_guard (check_capabilities (capabilities p) c) c

unfoldable pub admit : Probes → Config → Result LinuxError Unit
unfolding validate check_capabilities capabilities
admit p c = config_guard (validate c) p c

-- The interfaces of `Start`.
abbrev pub served_as : Config → Interface → Bytes → Result LinuxError Setup
served_as c uplink [] = err nothing_to_serve_on
served_as c uplink (x ∷ xs) = ok (record { config = c; uplink = uplink.name; iface = x ∷ xs })

abbrev pub served : Config → Interface → Result SelectError Interface → Result LinuxError Setup
served c uplink (err e) = err (bad_interface e)
served c uplink (ok host) = served_as c uplink host.name

abbrev pub with_ap :
    Config → List Interface → Interface → Option HotspotConfig → Result LinuxError Setup
with_ap c ifaces uplink none = err nothing_to_serve_on
with_ap c ifaces uplink (some h) =
    served c uplink (select_ap_interface ifaces h.interface uplink.name)

abbrev pub with_uplink :
    Config → List Interface → Result SelectError Interface → Result LinuxError Setup
with_uplink c ifaces (err e) = err (bad_interface e)
with_uplink c ifaces (ok uplink) = with_ap c ifaces uplink c.hotspot

abbrev pub with_interfaces : Config → Option (List Interface) → Result LinuxError Setup
with_interfaces c none = err no_interfaces
with_interfaces c (some ifaces) = with_uplink c ifaces (select_uplink ifaces c.uplink)

unfoldable pub choose : Probes → Config → Result LinuxError Setup
unfolding select_uplink select_ap_interface
choose p c = with_interfaces c p.interfaces

module _ {M : Type 0} (run : M → Command → M × Option Bytes)
    (render : HotspotConfig → Bytes → Option Bytes) where
  -- What has landed is undone where bringUp fails, and its error is returned.
  abbrev pub undo_failed : Setup → World M × Outcome Bytes → World M × Outcome Setup
  undo_failed s (w, done out) = (w, done s)
  undo_failed s (w, failed e) = (tear_down run s.iface >> fail e) w
  undo_failed s (w, killed) = (w, killed)

  abbrev pub open_session : Result LinuxError Setup → Act M Setup
  open_session (err e) = fail e
  open_session (ok s) = λ w. undo_failed s (bring_up run render s w)

  abbrev pub start_admitted : Probes → Config → Result LinuxError Unit → Act M Setup
  start_admitted p c (err e) = fail e
  start_admitted p c (ok u) = reconcile run >> open_session (choose p c)

  -- `Start`. A session begins with no steps.
  unfoldable pub start : Probes → Config → Act M Setup
  unfolding admit choose reconcile bring_up tear_down
  start p c w = start_admitted p c (admit p c) (record w { steps = [] })
