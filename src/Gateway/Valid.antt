-- ===== src/Gateway/Valid.antt =====
-- What Config.Validate of internal/gateway/gateway.go lets through.
use dns_desktop.Common.{
  ℕ, ◌≤◌, ◌≡◌, refl, Bool, true, false, not, ◌&&◌, Option, none, some, List, [], ◌∷◌, ◌++◌, length,
  null, if◌then◌else◌, arith, ltb, ℕ_eq,
}
use dns_desktop.Common.Int.{ℤ, pos, negsuc}
use dns_desktop.Net.{is_valid, is4, prefix_is_valid, contains}
use dns_desktop.Gateway.{
  Config, ConfigError, HotspotConfig, SharingModel, is_managed, is_port, when, hotspot_errors,
  validate, no_subnet, subnet_not_ipv4, no_address, address_outside, bad_port, is_open,
  passphrase_errors, no_ssid, ssid_too_long, passphrase_too_short, passphrase_too_long,
  validate_hotspot,
}

none_left : {xs ys : List ConfigError} → xs ++ ys ≡ [] → (xs ≡ []) × (ys ≡ [])
none_left {xs = []} h = (refl, h)
none_left {xs = x ∷ xs} h = cc

unless_first :
    (b d : Bool) (e e' : ConfigError)
    → (if b then e ∷ [] else when d e') ≡ []
    → (b ≡ false) × (d ≡ false)
unless_first true d e e' h = cc
unless_first false true e e' h = cc
unless_first false false e e' h = (refl, refl)

unless : (b : Bool) (e : ConfigError) → when b e ≡ [] → b ≡ false
unless true e h = cc
unless false e h = refl

-- The network of managed sharing, and the port of the resolver.
abbrev pub IsNetwork : Config → Type 0
IsNetwork c =
    (prefix_is_valid c.subnet ≡ true)
    × (is4 c.subnet.addr ≡ true)
    × (is_valid c.addr ≡ true)
    × (contains c.subnet c.addr ≡ true)

abbrev pub IsPort : ℤ → Type 0
IsPort p = (n : ℕ) × ((p ≡ pos n) × (1 ≤ n) × (n ≤ 65535))

not-is_port : (p : ℤ) → not (is_port p) ≡ false → IsPort p
not-is_port (pos n) h = (n, (refl, ground arith, ground arith))
not-is_port (negsuc n) h = cc

abbrev pub IsHotspot : HotspotConfig → Type 0
IsHotspot h =
    (null h.ssid ≡ false)
    × (length h.ssid ≤ 32)
    × (is_open h.security ≡ false → (8 ≤ length h.passphrase) × (length h.passphrase ≤ 63))

abbrev pub HasHotspot : Option HotspotConfig → Type 0
HasHotspot none = Unit
HasHotspot (some h) = IsHotspot h

hotspot-HasHotspot :
    (m : SharingModel) (o : Option HotspotConfig) → hotspot_errors m o ≡ [] → HasHotspot o
unfolding validate_hotspot
hotspot-HasHotspot m none h = tt
hotspot-HasHotspot m (some c) h =
    let (found, sharing) = none_left h in
    let (upto_pass, clients) = none_left found in
    let (upto_control, pass) = none_left upto_pass in
    let (size, control) = none_left upto_control in
    let (here, short) =
      unless_first (null c.ssid) (ltb 32 (length c.ssid)) no_ssid ssid_too_long size in
    (here, below (length c.ssid) short, by_security (is_open c.security) pass)
  where
    below : (n : ℕ) → ltb 32 n ≡ false → n ≤ 32
    below n e = ground arith

    between : (n : ℕ) → ltb n 8 ≡ false → ltb 63 n ≡ false → (8 ≤ n) × (n ≤ 63)
    between n e e' = (ground arith, ground arith)

    by_security :
        (b : Bool)
        → (if b then [] else passphrase_errors c.passphrase) ≡ []
        → b ≡ false
        → (8 ≤ length c.passphrase) × (length c.passphrase ≤ 63)
    by_security true e closed = cc
    by_security false e closed =
        let (size, control) = none_left e in
        let (long, short) =
          unless_first (ltb (length c.passphrase) 8) (ltb 63 (length c.passphrase))
            passphrase_too_short passphrase_too_long size in
        between (length c.passphrase) long short

-- Where Validate finds nothing, the resolver's port is one of 1 to 65535, and under managed sharing the
-- subnet is a valid one of IPv4 addresses that contains the address of the gateway. A hotspot has a name
-- of 1 to 32 bytes, and unless it is open a passphrase of 8 to 63 bytes.
pub validate-IsNetwork :
    (c : Config)
    → validate c ≡ []
    → IsPort c.dns_port × (is_managed c.sharing ≡ true → IsNetwork c) × HasHotspot c.hotspot
unfolding validate
validate-IsNetwork c h =
    let (abc, d) = none_left h in
    let (ab, port) = none_left abc in
    let (a, b) = none_left ab in
    (
      not-is_port c.dns_port (unless (not (is_port c.dns_port)) bad_port port),
      (λ managed.
          let (s, s') =
            unless_first (is_managed c.sharing && not (prefix_is_valid c.subnet))
              (prefix_is_valid c.subnet && not (is4 c.subnet.addr)) no_subnet subnet_not_ipv4 a in
          let (t, t') =
            unless_first (is_managed c.sharing && not (is_valid c.addr))
              (is_valid c.addr && prefix_is_valid c.subnet && not (contains c.subnet c.addr))
              no_address address_outside b in
          network (is_managed c.sharing) (prefix_is_valid c.subnet) (is4 c.subnet.addr)
            (is_valid c.addr) (contains c.subnet c.addr) managed s s' t t'),
      hotspot-HasHotspot c.sharing c.hotspot d,
    )
  where
    network :
        (m v f a i : Bool)
        → m ≡ true
        → (m && not v) ≡ false
        → (v && not f) ≡ false
        → (m && not a) ≡ false
        → (a && v && not i) ≡ false
        → (v ≡ true) × (f ≡ true) × (a ≡ true) × (i ≡ true)
    network true true true true true h s s' t t' = (refl, refl, refl, refl)
    network false v f a i h s s' t t' = cc
    network true false f a i h s s' t t' = cc
    network true true false a i h s s' t t' = cc
    network true true true false i h s s' t t' = cc
    network true true true true false h s s' t t' = cc
