-- ===== src/Dhcp/Pool/Keeping.antt =====
-- A client keeps its address (`Offer` of internal/dhcp/pool.go), and what this costs others.
use dns_desktop.Common.{
  ℕ, ◌≡◌, refl, none, false, Option, none, some, Bytes, null, ℕ_eq, bytes_eq_instance,
}
use dns_desktop.Common.Dict.{lookup, lookup-map_values}
use dns_desktop.Net.{Addr, addr_eq_instance}
use dns_desktop.Dhcp.Pool.{
  Lease, Entry, Pool, bound, is_reserved, expire, expire_entry, entry_of_key,
}
use dns_desktop.Dhcp.Pool.Alloc.{granted, offer}
use dns_desktop.Dhcp.Pool.Pointers.{pointer}

pub offer-pointed :
    (p : Pool) (now : ℕ) (key : Bytes) (req : Addr) (hw hostname : Bytes) (a : Addr) (e : Entry)
    → null key ≡ false
    → pointer p key ≡ some a
    → lookup a p.entries ≡ some e
    → offer p now key req hw hostname
      ≡ granted
          (expire p now)
          (bound
            (expire p now)
            (expire_entry now e)
            key
            hw
            hostname
            now
            (is_reserved (expire_entry now e).state))
          key
unfolding offer expire entry_of_key
offer-pointed p now key req hw hostname a e named h found =
    rw (named, h, lookup-map_values (expire_entry now) a p.entries, found) refl

-- Nobody but the client holds an address.
abbrev pub HeldBy : Bytes → Option Lease → Type 0
HeldBy key none = Unit
HeldBy key (some l) = l.key ≡ key
