-- ===== src/Dhcp/Pool.antt =====
-- internal/dhcp/pool.go: the lease pool. A time is its number of nanoseconds since the zero
-- `time.Time`, which is 0; each call takes the clock's reading. The pointers of `byKey` point at the
-- entries of the map `entries`, which never loses or moves one, so an address stands for a pointer.
pub mod Alloc
pub mod Return
pub mod Query
pub mod New
pub mod Run
pub mod Start
pub mod Made
pub mod Range
pub mod Invariant
pub mod Located
pub mod Preserve
pub mod Safety
pub mod Choice
pub mod Pointers
pub mod Keeping
pub mod Takeover
pub mod Reservations
pub mod Reserved
pub mod Bindings
pub mod Others
use dns_desktop.Common.{
  ℕ, zero, suc, ◌+◌, ◌-◌, ◌*◌, ◌/◌, ◌^◌, Bool, true, false, not, ◌&&◌, ◌||◌, Option, none, some,
  List, [], ◌∷◌, map, Bytes, length, null, any, Result, ok, err, ◌==◌, ℕ_eq, ltb, leb,
  bytes_eq_instance, if◌then◌else◌,
}
use dns_desktop.Common.Int.{ℤ, pos, negsuc}
use dns_desktop.Common.Dict.{Dict, lookup, insert, remove, map_values, has}
use dns_desktop.Net.{
  Addr, no_addr, v4, v6, is_valid, is4, addr_lt, Prefix, bits, prefix_is_valid, masked, contains,
  addr_eq_instance,
}

pub data State : Type 0 where
  free offered leased declined reserved : State

pub record Lease : Type 0 where
  pub key : Bytes
  pub addr : Addr
  pub hwaddr : Bytes
  pub hostname : Bytes
  pub state : State
  pub expires : ℕ
  pub first_seen : ℕ
  pub last_seen : ℕ

-- `Expired`: a lease whose end is the zero time does not end.
unfoldable pub expired : Lease → ℕ → Bool
expired l now = not (l.expires == 0) && not (ltb now l.expires)

pub record Reservation : Type 0 where
  pub key : Bytes
  pub addr : Addr
  pub hostname : Bytes

-- The errors of the allocation calls.
pub data PoolError : Type 0 where
  no_identity pool_exhausted not_ours taken : PoolError

pub record Entry : Type 0 where
  pub addr : Addr
  pub state : State
  pub key : Bytes
  pub hw : Bytes
  pub hostname : Bytes
  pub expires : ℕ
  pub first_seen : ℕ
  pub last_seen : ℕ
  pub freed_at : ℕ

abbrev pub blank : Addr → Entry
blank a = record {
  addr = a;
  state = free;
  key = [];
  hw = [];
  hostname = [];
  expires = 0;
  first_seen = 0;
  last_seen = 0;
  freed_at = 0;
}

abbrev pub lease_of : Entry → Lease
lease_of e = record {
  key = e.key;
  addr = e.addr;
  hwaddr = e.hw;
  hostname = e.hostname;
  state = e.state;
  expires = e.expires;
  first_seen = e.first_seen;
  last_seen = e.last_seen;
}

pub record Pool : Type 0 where
  pub subnet : Prefix
  pub lease : ℕ
  pub offer_ttl : ℕ
  pub addrs : List Addr
  pub entries : Dict Addr Entry
  pub by_key : Dict Bytes Addr

-- `freeLocked` on the entry.
abbrev pub freed : Entry → ℕ → Entry
freed e now = record e { state = free; expires = 0; freed_at = now }

-- `bindLocked` on the entry.
abbrev pub bound : Pool → Entry → Bytes → Bytes → Bytes → ℕ → Bool → Entry
bound p e key hw hostname now keep = record e {
  first_seen = if e.first_seen == 0 then now else e.first_seen;
  key = key;
  last_seen = now;
  hw = if null hw then e.hw else hw;
  hostname = if null hostname then e.hostname else hostname;
  state = if keep then reserved else offered;
  expires = if keep then 0 else now + p.offer_ttl;
}

-- A write through the pointer to an entry, and one that also gives the client that entry.
abbrev pub put_entry : Pool → Entry → Pool
put_entry p e = record p { entries = insert e.addr e p.entries }

abbrev pub put_bound : Pool → Entry → Bytes → Pool
put_bound p e key = record p {
  entries = insert e.addr e p.entries;
  by_key = insert key e.addr p.by_key;
}

abbrev pub is_reserved : State → Bool
is_reserved reserved = true
is_reserved _ = false

-- `availableLocked`
abbrev available_in : State → Bool → Bool
available_in free same = true
available_in declined same = false
available_in _ same = same

unfoldable pub available : Entry → Bytes → Bool
available e key = available_in e.state (e.key == key)

-- `expireLocked`, entry by entry.
abbrev expire_in : State → ℕ → Entry → Entry
expire_in leased now e =
    if not (e.expires == 0) && not (ltb now e.expires) then freed e e.expires else e
expire_in offered now e =
    if not (e.expires == 0) && not (ltb now e.expires) then freed e e.expires else e
expire_in _ now e = e

unfoldable pub expire_entry : ℕ → Entry → Entry
expire_entry now e = expire_in e.state now e

unfoldable pub expire : Pool → ℕ → Pool
expire p now = record p { entries = map_values (expire_entry now) p.entries }

-- The entry that `byKey` points at.
abbrev pub entry_at : Pool → Option Addr → Option Entry
entry_at p none = none
entry_at p (some a) = lookup a p.entries

unfoldable pub entry_of_key : Pool → Bytes → Option Entry
entry_of_key p key = entry_at p (lookup key p.by_key)

-- `leastRecentlyFreedLocked`: the loop over the addresses, with the best entry so far.
abbrev pub is_free : State → Bool
is_free free = true
is_free _ = false

abbrev pub earlier : Option Entry → Entry → Bool
earlier none e = true
earlier (some best) e = ltb e.freed_at best.freed_at

abbrev pub better : Option Entry → Option Entry → Option Entry
better best none = best
better best (some e) = if is_free e.state && earlier best e then some e else best

unfoldable pub least_recently_freed : Dict Addr Entry → List Addr → Option Entry → Option Entry
least_recently_freed entries [] best = best
least_recently_freed entries (a ∷ addrs) best =
    least_recently_freed entries addrs (better best (lookup a entries))
