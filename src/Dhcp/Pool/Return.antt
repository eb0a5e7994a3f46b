-- ===== src/Dhcp/Pool/Return.antt =====
-- `Release`, `Decline` and `Free` of internal/dhcp/pool.go: how an address is given up.
use dns_desktop.Common.{
  ℕ, Bool, true, false, not, ◌&&◌, ◌||◌, Option, none, some, Bytes, null, ◌==◌, ℕ_eq,
  bytes_eq_instance, if◌then◌else◌,
}
use dns_desktop.Common.Dict.{lookup, insert, remove}
use dns_desktop.Net.{Addr, addr_eq_instance}
use dns_desktop.Dhcp.Pool.{State, free, declined, Entry, blank, Pool, freed, put_entry, is_reserved}

abbrev pub release_entry : Pool → ℕ → Bytes → Option Entry → Pool
release_entry p now key none = p
release_entry p now key (some e) =
    if not (e.key == key) || is_reserved e.state then p else put_entry p (freed e now)

unfoldable pub release : Pool → ℕ → Bytes → Addr → Pool
release p now key a = release_entry p now key (lookup a p.entries)

abbrev pub decline_entry : Pool → ℕ → Bytes → Addr → Option Entry → Pool
decline_entry p now key a none = p
decline_entry p now key a (some e) =
    if is_reserved e.state
    then p
    else if not (null e.key) && not (e.key == key)
    then p
    else record p {
      entries = insert a (record (blank a) { state = declined; freed_at = now }) p.entries;
      by_key = remove e.key p.by_key;
    }

unfoldable pub decline : Pool → ℕ → Bytes → Addr → Pool
decline p now key a = decline_entry p now key a (lookup a p.entries)

-- `Free`: the administrator takes an address out of quarantine.
abbrev pub unquarantine : Pool → ℕ → State → Entry → Pool × Bool
unquarantine p now declined e = (put_entry p (record e { state = free; freed_at = now }), true)
unquarantine p now _ e = (p, false)

abbrev pub free_entry : Pool → ℕ → Option Entry → Pool × Bool
free_entry p now none = (p, false)
free_entry p now (some e) = unquarantine p now e.state e

unfoldable pub free_addr : Pool → ℕ → Addr → Pool × Bool
free_addr p now a = free_entry p now (lookup a p.entries)
