-- ===== src/Gateway/Linux/Session.antt =====
-- The session of internal/gateway/linux_session.go: bringUp, SetDNSCapture and tearDown, and Reconcile
-- of a later process.
use dns_desktop.Common.{
  Bool, true, false, Option, none, some, List, [], ◌∷◌, ◌++◌, Bytes, Result, ok, err, ℕ_eq,
  bytes_eq_instance,
}
use dns_desktop.Net.{bits}
use dns_desktop.Gateway.{Config, HotspotConfig, Ipv6Mode, ipv6_block, ipv6_allow}
use dns_desktop.Gateway.Nftables.{codes, addr_text, decimal, RuleOptions, RuleError, render_rules}
use dns_desktop.Gateway.Linux.{
  StepName, forwarding, nftables_table, interface_address, hostapd, JournalEntry, Command,
  sysctl_write, nft_script, addr_replace, start_hostapd, bad_rules, conf_failed, done, failed, Act,
  ◌>>=◌, ◌>>◌, return, fail, once, execute, apply, read_sysctl,
}

-- What a session is made for: the configuration and the two interfaces.
pub record Setup : Type 0 where
  pub config : Config
  pub uplink : Bytes
  pub iface : Bytes

abbrev blocks : Ipv6Mode → Bool
blocks ipv6_block = true
blocks ipv6_allow = false

-- `%s/%d` of the address and the length of the subnet.
unfoldable pub cidr : Config → Bytes
unfolding addr_text decimal
cidr c = addr_text c.addr ++ codes "/" ++ decimal (bits c.subnet)

-- The record of the address that the journal keeps.
unfoldable pub address_record : Setup → Bytes
unfolding cidr
address_record s = cidr s.config ++ codes "@" ++ s.iface

abbrev pub rules_of : Setup → RuleOptions
rules_of s = record {
  interface = s.iface;
  uplink = s.uplink;
  subnet = s.config.subnet;
  dns_port = s.config.dns_port;
  block_ipv6 = blocks s.config.ipv6;
}

abbrev pub entry : StepName → Bytes → JournalEntry
entry step text = record { step = step; text = text }

-- `render` is how package hostapd prints the configuration of an access point, which is not part of this
-- library; it may refuse.
module _ {M : Type 0} (run : M → Command → M × Option Bytes)
    (render : HotspotConfig → Bytes → Option Bytes) where
  abbrev pub with_rules : Result (List RuleError) Bytes → (Bytes → Act M Bytes) → Act M Bytes
  with_rules (ok text) f = f text
  with_rules (err es) f = fail (bad_rules es)

  -- `startHostapd`. The file that it writes is not the journal's.
  abbrev pub disk_write_conf : Act M Bytes
  disk_write_conf w = elim w.disk_full [
    | [] ↦ (w, done [])
    | false ∷ rest ↦ (record w { disk_full = rest }, done [])
    | true ∷ rest ↦ (record w { disk_full = rest }, failed conf_failed)
  ]

  abbrev pub with_conf : Option Bytes → Act M Bytes
  with_conf none = fail conf_failed
  with_conf (some conf) = do
    once disk_write_conf
    apply run (entry hostapd (codes "hostapd.conf")) (execute run start_hostapd)

  abbrev pub hotspot_step : Setup → Option HotspotConfig → Act M Bytes
  hotspot_step s none = return []
  hotspot_step s (some h) = with_conf (render h s.iface)

  abbrev pub rules_step : Setup → Act M Bytes
  rules_step s = with_rules (render_rules (rules_of s)) (λ text. do
    apply run (entry nftables_table []) (execute run (nft_script text))
    hotspot_step s s.config.hotspot)

  abbrev pub address_step : Setup → Act M Bytes
  address_step s = do
    apply run (entry interface_address (address_record s))
        (execute run (addr_replace (cidr s.config) s.iface))
    rules_step s

  -- `bringUp`
  unfoldable pub bring_up : Setup → Act M Bytes
  unfolding apply execute read_sysctl render_rules address_record
  bring_up s = do
    prev ← read_sysctl run
    apply run (entry forwarding prev) (execute run (sysctl_write (codes "1")))
    address_step s
