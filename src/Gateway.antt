-- ===== src/Gateway.antt =====
-- internal/gateway/gateway.go: the configuration of a gateway, what it asks of a platform, and the
-- choice of its interfaces. The set of capabilities in a word of bits is a test of its members.
pub mod Nftables
pub mod Linux
pub mod Printed
pub mod Valid
pub mod Selection
pub mod Admission
mod Tests
use dns_desktop.Common.{
  ℕ, Bool, true, false, not, ◌&&◌, ◌||◌, Option, none, some, List, [], ◌∷◌, ◌++◌, Bytes, length,
  null, any, Result, ok, err, ◌==◌, ℕ_eq, ltb, leb, bytes_eq_instance, if◌then◌else◌,
}
use dns_desktop.Common.Int.{ℤ, pos, negsuc}
use dns_desktop.Net.{Addr, is_valid, is4, Prefix, prefix_is_valid, contains}
use dns_desktop.Text.{runes}

pub data Capability : Type 0 where
  access_point share_uplink dns_redirect dns_enforce : Capability
  block_device ipv6_control own_dhcp client_list : Capability

abbrev pub CapabilitySet : Type 0
CapabilitySet = Capability → Bool

-- `capNames`, in its order.
abbrev pub capability_list : List Capability
capability_list =
    access_point ∷ share_uplink ∷ dns_redirect ∷ dns_enforce ∷ block_device ∷ ipv6_control
    ∷ own_dhcp ∷ client_list ∷ []

-- `Split`
unfoldable pub members : CapabilitySet → List Capability → List Capability
members c [] = []
members c (x ∷ xs) = let rest = members c xs in if c x then x ∷ rest else rest

abbrev pub split : CapabilitySet → List Capability
split c = members c capability_list

abbrev pub missing : CapabilitySet → CapabilitySet → CapabilitySet
missing have want x = want x && not (have x)

unfoldable pub has_all : CapabilitySet → CapabilitySet → List Capability → Bool
has_all have want [] = true
has_all have want (x ∷ xs) = (not (want x) || have x) && has_all have want xs

pub data SharingModel : Type 0 where
  sharing_none sharing_platform sharing_managed : SharingModel

pub data Security : Type 0 where
  wpa2 wpa2_wpa3 wpa3 open_network : Security

pub data Band : Type 0 where
  band_auto band_2ghz band_5ghz : Band

pub data Ipv6Mode : Type 0 where
  ipv6_block ipv6_allow : Ipv6Mode

pub record HotspotConfig : Type 0 where
  pub interface : Bytes
  pub ssid : Bytes
  pub passphrase : Bytes
  pub security : Security
  pub band : Band
  pub hidden : Bool
  pub max_clients : ℤ

pub record Config : Type 0 where
  pub sharing : SharingModel
  pub hotspot : Option HotspotConfig
  pub uplink : Bytes
  pub subnet : Prefix
  pub addr : Addr
  pub dns_port : ℤ
  pub ipv6 : Ipv6Mode

pub data ConfigError : Type 0 where
  no_subnet subnet_not_ipv4 no_address address_outside bad_port : ConfigError
  no_ssid ssid_too_long ssid_control negative_clients hotspot_without_sharing : ConfigError
  passphrase_too_short passphrase_too_long passphrase_control : ConfigError

abbrev pub is_control_rune : ℕ → Bool
is_control_rune r = ltb r 0x20 || r == 0x7f

abbrev pub is_managed : SharingModel → Bool
is_managed sharing_managed = true
is_managed _ = false

abbrev pub is_open : Security → Bool
is_open open_network = true
is_open _ = false

abbrev pub is_negative : ℤ → Bool
is_negative (pos n) = false
is_negative (negsuc n) = true

abbrev pub is_port : ℤ → Bool
is_port (pos n) = ltb 0 n && leb n 65535
is_port (negsuc n) = false

abbrev pub when : Bool → ConfigError → List ConfigError
when b e = if b then e ∷ [] else []

-- `HotspotConfig.validate`
abbrev pub passphrase_errors : Bytes → List ConfigError
passphrase_errors p =
    (if ltb (length p) 8
      then passphrase_too_short ∷ []
      else when (ltb 63 (length p)) passphrase_too_long)
    ++ when (any is_control_rune (runes p)) passphrase_control

unfoldable pub validate_hotspot : HotspotConfig → List ConfigError
validate_hotspot h =
    (if null h.ssid then no_ssid ∷ [] else when (ltb 32 (length h.ssid)) ssid_too_long)
    ++ when (any is_control_rune (runes h.ssid)) ssid_control
    ++ (if is_open h.security then [] else passphrase_errors h.passphrase)
    ++ when (is_negative h.max_clients) negative_clients

abbrev is_none : SharingModel → Bool
is_none sharing_none = true
is_none _ = false

abbrev pub hotspot_errors : SharingModel → Option HotspotConfig → List ConfigError
hotspot_errors sharing none = []
hotspot_errors sharing (some h) =
    validate_hotspot h ++ when (is_none sharing) hotspot_without_sharing

-- `Config.Validate`: every problem, in the order of the code.
unfoldable pub validate : Config → List ConfigError
unfolding validate_hotspot
validate c =
    (if is_managed c.sharing && not (prefix_is_valid c.subnet)
      then no_subnet ∷ []
      else when (prefix_is_valid c.subnet && not (is4 c.subnet.addr)) subnet_not_ipv4)
    ++ (if is_managed c.sharing && not (is_valid c.addr)
        then no_address ∷ []
        else when (is_valid c.addr && prefix_is_valid c.subnet && not (contains c.subnet c.addr))
            address_outside)
    ++ when (not (is_port c.dns_port)) bad_port
    ++ hotspot_errors c.sharing c.hotspot

-- `Required`
abbrev is_some : Option HotspotConfig → Bool
is_some none = false
is_some (some h) = true

abbrev blocks_ipv6 : Ipv6Mode → Bool
blocks_ipv6 ipv6_block = true
blocks_ipv6 ipv6_allow = false

abbrev required_by : SharingModel → Bool → Bool → CapabilitySet
required_by sharing_none hotspot block x = false
required_by sharing_platform hotspot block access_point = true
required_by sharing_managed hotspot block share_uplink = true
required_by sharing_managed hotspot block own_dhcp = true
required_by sharing_managed hotspot block access_point = hotspot
required_by sharing_managed hotspot block ipv6_control = block
required_by _ hotspot block _ = false

unfoldable pub required : Config → CapabilitySet
required c = required_by c.sharing (is_some c.hotspot) (blocks_ipv6 c.ipv6)

-- `CheckCapabilities`: the capabilities that are missing, or none.
unfoldable pub check_capabilities : CapabilitySet → Config → List Capability
unfolding members required
check_capabilities have c = split (missing have (required c))

pub data InterfaceKind : Type 0 where
  kind_other kind_wireless kind_wired kind_loopback : InterfaceKind

pub record Interface : Type 0 where
  pub name : Bytes
  pub kind : InterfaceKind
  pub up : Bool
  pub has_default_route : Bool
  pub supports_ap : Bool

pub data SelectError : Type 0 where
  no_such_interface interface_down no_default_route : SelectError
  no_access_point only_uplink no_ap_mode no_wireless : SelectError

abbrev pub is_loopback : InterfaceKind → Bool
is_loopback kind_loopback = true
is_loopback _ = false

abbrev is_wireless : InterfaceKind → Bool
is_wireless kind_wireless = true
is_wireless _ = false

-- The first interface that passes a test, as `slices.IndexFunc` or a loop that returns finds it.
unfoldable pub first_where : (Interface → Bool) → List Interface → Option Interface
first_where p [] = none
first_where p (x ∷ xs) = let rest = first_where p xs in if p x then some x else rest

abbrev pub carries_route : Interface → Bool
carries_route x = x.has_default_route && x.up && not (is_loopback x.kind)

abbrev pub or_error : Option Interface → SelectError → Result SelectError Interface
or_error none e = err e
or_error (some x) e = ok x

abbrev pub usable : Option Interface → Result SelectError Interface
usable none = err no_such_interface
usable (some x) = if x.up then ok x else err interface_down

unfoldable pub select_uplink : List Interface → Bytes → Result SelectError Interface
unfolding first_where
select_uplink ifaces preferred =
    if not (null preferred)
    then usable (first_where (λ x. x.name == preferred) ifaces)
    else or_error (first_where carries_route ifaces) no_default_route

-- Why no interface can host an access point.
abbrev ap_error : List Interface → Bytes → SelectError
ap_error ifaces uplink =
    if any (λ (x : Interface). is_wireless x.kind && x.name == uplink && x.supports_ap) ifaces
    then only_uplink
    else if any (λ (x : Interface). is_wireless x.kind) ifaces
    then no_ap_mode
    else no_wireless

abbrev pub hosts_ap : Option Interface → Result SelectError Interface
hosts_ap none = err no_such_interface
hosts_ap (some x) = if x.supports_ap then ok x else err no_access_point

unfoldable pub select_ap_interface : List Interface → Bytes → Bytes → Result SelectError Interface
unfolding first_where
select_ap_interface ifaces preferred uplink =
    if not (null preferred)
    then hosts_ap (first_where (λ x. x.name == preferred) ifaces)
    else or_error (first_where (λ x. x.supports_ap && not (x.name == uplink)) ifaces)
        (ap_error ifaces uplink)
