-- ===== src/Gateway/Tests.antt =====
-- Runs of internal/gateway/linux_session.go on a home network.
mod Machine
mod Firewall
use dns_desktop.Common.{
  ◌≡◌, refl, ap, subst, Bool, true, false, not, ◌&&◌, ◌||◌, Option, none, some, List, [], ◌∷◌, ◌++◌,
  Bytes, ◌==◌, bytes_eq_instance, if◌then◌else◌, Result, ok, eq_true,
}
use dns_desktop.Common.Int.{pos}
use dns_desktop.Common.Elems.{elem}
use dns_desktop.Net.{Addr, no_addr, v4, v6}
use dns_desktop.Text.{runes, encode_runes, trim_space}
use dns_desktop.Gateway.{
  HotspotConfig, sharing_managed, ipv6_block, wpa2, band_auto, Interface, kind_wired, kind_wireless,
}
use dns_desktop.Gateway.Valid.{IsPort, IsNetwork, IsHotspot, validate-IsNetwork}
use dns_desktop.Gateway.{validate, is_managed}
use dns_desktop.Gateway.Admission.{IsAdmitted, IsChosen, start-IsChosen}
use dns_desktop.Gateway.Linux.Live.{Live, running}
use dns_desktop.Gateway.Linux.Agree.{
  captures_dns, blocks_addr, live_run, IsFirewall, Agrees, live_run-Agrees,
}
use dns_desktop.Gateway.Linux.Start.{Probes, start}
use dns_desktop.Gateway.Nftables.{capture, block, codes, destroy, delete_fallback}
use dns_desktop.Gateway.Linux.{
  absent, Command, sysctl_read, sysctl_write, nft_list, nft_script, addr_replace, addr_delete,
  start_hostapd, stop_hostapd, World, cut_at, done, succeeds,
}
use dns_desktop.Gateway.Linux.Session.{Setup, bring_up}
use dns_desktop.Gateway.Linux.Undo.{Note, reconcile}
use dns_desktop.Gateway.Linux.Laws.{
  IsMachine, writes_forwarding, writes_table, writes_address, writes_ap,
}
use dns_desktop.Gateway.Linux.Settled.{fresh, Settles}
use dns_desktop.Gateway.Linux.Restores.{Restored, crash_then_reconcile}
use dns_desktop.Gateway.Tests.Machine.{Toy, toy_run, toy_law}

-- A home machine that does not forward, and the session that it is to run.
abbrev home : Toy
home = record { on = false; table = false; addrs = λ x y. false; ap_up = false }

abbrev hotspot : HotspotConfig
hotspot = record {
  interface = [];
  ssid = codes "home";
  passphrase = codes "long enough";
  security = wpa2;
  band = band_auto;
  hidden = false;
  max_clients = pos 0;
}

abbrev pub setup : Setup
setup = record {
  config = record {
    sharing = sharing_managed;
    hotspot = some hotspot;
    uplink = [];
    subnet = record { addr = v4 168427520; bits_plus_one = 25 };
    addr = v4 168427521;
    dns_port = pos 5300;
    ipv6 = ipv6_block;
  };
  uplink = codes "eth0";
  iface = codes "wlan0";
}

abbrev toy_render : HotspotConfig → Bytes → Option Bytes
toy_render h iface = some h.ssid

-- The process is killed after eight writes and commands, before it starts hostapd.
abbrev dying : World Toy
dying = record { machine = home; file = absent; steps = []; life = some 8; disk_full = [] }

abbrev stopped : World Toy
stopped = (bring_up toy_run toy_render setup dying).0

crash_then_reconcile_example :
    Settles
      (λ (ns : List Note). Restored toy_run toy_law setup home stopped.machine)
      absent
      (reconcile toy_run (fresh stopped.machine stopped.file))
crash_then_reconcile_example =
    crash_then_reconcile toy_run toy_render toy_law setup dying refl refl refl refl

stopped_half_way : (stopped.machine.on ≡ true) × (stopped.machine.table ≡ true)
unfolding bring_up runes
stopped_half_way = (refl, refl)

-- A machine with a wired uplink and a wireless adapter.
abbrev wired : Interface
wired = record {
  name = codes "eth0";
  kind = kind_wired;
  up = true;
  has_default_route = true;
  supports_ap = false;
}

abbrev wireless : Interface
wireless = record {
  name = codes "wlan0";
  kind = kind_wireless;
  up = true;
  has_default_route = false;
  supports_ap = true;
}

abbrev probes : Probes
probes = record { has_nft = true; has_hostapd = true; interfaces = some (wired ∷ wireless ∷ []) }

abbrev living : World Toy
living = record { machine = home; file = absent; steps = []; life = none; disk_full = [] }

started : (start toy_run toy_render probes setup.config living).1 ≡ done setup
unfolding start runes
started = refl

start-IsChosen_example :
    IsAdmitted probes setup.config
    × ((ifaces : List Interface) × ((h : HotspotConfig) × ((probes.interfaces ≡ some ifaces)
            × (setup.config.hotspot ≡ some h)
            × IsChosen setup.config h ifaces setup)))
start-IsChosen_example = start-IsChosen toy_run toy_render probes setup.config living setup started

-- Reconcile after the death takes everything back.
taken_back :
    ((reconcile toy_run (fresh stopped.machine stopped.file)).0.machine.on ≡ false)
    × ((reconcile toy_run (fresh stopped.machine stopped.file)).0.machine.table ≡ false)
unfolding reconcile bring_up runes cut_at encode_runes trim_space
taken_back = (refl, refl)

no_errors : validate setup.config ≡ []
unfolding validate runes
no_errors = refl

validate-IsNetwork_example :
    IsPort (pos 5300)
    × (is_managed sharing_managed ≡ true → IsNetwork setup.config)
    × IsHotspot hotspot
validate-IsNetwork_example = validate-IsNetwork setup.config no_errors
