-- ===== src/Dhcp/Pool/Alloc.antt =====
-- `Offer` and `Commit` of internal/dhcp/pool.go: how a client comes to an address.
use dns_desktop.Common.{
  ℕ, ◌+◌, false, not, ◌&&◌, Option, none, some, Bytes, null, Result, ok, err, ◌==◌, ℕ_eq,
  bytes_eq_instance, if◌then◌else◌,
}
use dns_desktop.Common.Dict.{lookup}
use dns_desktop.Net.{Addr, addr_eq_instance}
use dns_desktop.Dhcp.Pool.{
  leased, reserved, Lease, PoolError, no_identity, pool_exhausted, not_ours, taken, Entry, lease_of,
  Pool, freed, bound, put_entry, put_bound, is_reserved, available, expire, entry_of_key,
  least_recently_freed,
}

abbrev pub granted : Pool → Entry → Bytes → Pool × Result PoolError Lease
granted p e key = (put_bound p e key, ok (lease_of e))

-- The second and third choice of `Offer`.
abbrev pub offer_free :
    Pool → ℕ → Bytes → Bytes → Bytes → Option Entry → Pool × Result PoolError Lease
offer_free p now key hw hostname none = (p, err pool_exhausted)
offer_free p now key hw hostname (some e) = granted p (bound p e key hw hostname now false) key

abbrev pub offer_requested :
    Pool → ℕ → Bytes → Bytes → Bytes → Option Entry → Pool × Result PoolError Lease
offer_requested p now key hw hostname none =
    offer_free p now key hw hostname (least_recently_freed p.entries p.addrs none)
offer_requested p now key hw hostname (some e) =
    if available e key
    then granted p (bound p e key hw hostname now false) key
    else offer_free p now key hw hostname (least_recently_freed p.entries p.addrs none)

abbrev pub offer_known :
    Pool → ℕ → Bytes → Addr → Bytes → Bytes → Option Entry → Pool × Result PoolError Lease
offer_known p now key req hw hostname none =
    offer_requested p now key hw hostname (lookup req p.entries)
offer_known p now key req hw hostname (some e) =
    granted p (bound p e key hw hostname now (is_reserved e.state)) key

unfoldable pub offer : Pool → ℕ → Bytes → Addr → Bytes → Bytes → Pool × Result PoolError Lease
unfolding expire entry_of_key available least_recently_freed
offer p now key req hw hostname =
    if null key
    then (p, err no_identity)
    else let q = expire p now in offer_known q now key req hw hostname (entry_of_key q key)

-- `Commit` frees the client's previous entry, if that is another one and not a reservation.
abbrev pub leave_entry : Pool → ℕ → Addr → Option Entry → Pool
leave_entry p now a none = p
leave_entry p now a (some prev) =
    if not (prev.addr == a) && not (is_reserved prev.state) then put_entry p (freed prev now) else p

unfoldable pub leave : Pool → ℕ → Bytes → Addr → Pool
unfolding entry_of_key
leave p now key a = leave_entry p now a (entry_of_key p key)

-- The committed entry: bound, and leased unless it is a reservation.
abbrev pub committed : Pool → Entry → Bytes → Bytes → Bytes → ℕ → Entry
committed p e key hw hostname now = record (bound p e key hw hostname now (is_reserved e.state)) {
  state = if is_reserved e.state then reserved else leased;
  expires = if is_reserved e.state then 0 else now + p.lease;
}

abbrev pub commit_entry :
    Pool → ℕ → Bytes → Bytes → Bytes → Option Entry → Pool × Result PoolError Lease
commit_entry p now key hw hostname none = (p, err not_ours)
commit_entry p now key hw hostname (some e) =
    if available e key
    then granted (leave p now key e.addr) (committed p e key hw hostname now) key
    else (p, err taken)

unfoldable pub commit : Pool → ℕ → Bytes → Addr → Bytes → Bytes → Pool × Result PoolError Lease
unfolding expire leave available
commit p now key a hw hostname =
    if null key
    then (p, err no_identity)
    else let q = expire p now in commit_entry q now key hw hostname (lookup a q.entries)
