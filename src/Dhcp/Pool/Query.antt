-- ===== src/Dhcp/Pool/Query.antt =====
-- `Lookup`, `LookupAddr`, `Leases` and `Stats` of internal/dhcp/pool.go.
use dns_desktop.Common.{
  ℕ, ◌+◌, Bool, false, Option, none, some, List, [], ◌∷◌, Bytes, length, null, ℕ_eq,
  bytes_eq_instance, if◌then◌else◌,
}
use dns_desktop.Common.Dict.{Dict, lookup}
use dns_desktop.Net.{Addr, addr_lt, addr_eq_instance}
use dns_desktop.Dhcp.Pool.{
  State, free, offered, leased, declined, reserved, Lease, expired, Entry, lease_of, Pool, expire,
  entry_of_key,
}

abbrev pub lease_of? : Option Entry → Option Lease
lease_of? none = none
lease_of? (some e) = some (lease_of e)

-- `Lookup`: what is remembered of a client.
unfoldable pub lookup_key : Pool → ℕ → Bytes → Pool × Option Lease
unfolding expire entry_of_key
lookup_key p now key = let q = expire p now in (q, lease_of? (entry_of_key q key))

-- `LookupAddr`: who holds an address now.
abbrev pub current : State → ℕ → Entry → Option Lease
current reserved now e = some (lease_of e)
current leased now e = if expired (lease_of e) now then none else some (lease_of e)
current _ now e = none

abbrev pub current_entry : ℕ → Option Entry → Option Lease
current_entry now none = none
current_entry now (some e) = if null e.key then none else current e.state now e

unfoldable pub lookup_addr : Pool → ℕ → Addr → Option Lease
unfolding expired
lookup_addr p now a = current_entry now (lookup a p.entries)

-- `Leases`, sorted by address as `sort.Slice` does; the addresses differ, so the order is determined.
insert_lease : Lease → List Lease → List Lease
insert_lease l [] = l ∷ []
insert_lease l (m ∷ ms) = if addr_lt l.addr m.addr then l ∷ m ∷ ms else m ∷ insert_lease l ms

abbrev is_untouched : State → Bytes → Bool
is_untouched free key = null key
is_untouched _ key = false

known_leases : Dict Addr Entry → List Lease
unfolding insert_lease
known_leases [] = []
known_leases ((a, e) ∷ entries) =
    let rest = known_leases entries in
    if is_untouched e.state e.key then rest else insert_lease (lease_of e) rest

unfoldable pub leases : Pool → ℕ → Pool × List Lease
unfolding expire known_leases
leases p now = let q = expire p now in (q, known_leases q.entries)

pub record Stats : Type 0 where
  pub total : ℕ
  pub free_count : ℕ
  pub leased_count : ℕ
  pub offered_count : ℕ
  pub declined_count : ℕ
  pub reserved_count : ℕ

abbrev tally : State → Stats → Stats
tally free s = record s { free_count = s.free_count + 1 }
tally offered s = record s { offered_count = s.offered_count + 1 }
tally leased s = record s { leased_count = s.leased_count + 1 }
tally declined s = record s { declined_count = s.declined_count + 1 }
tally reserved s = record s { reserved_count = s.reserved_count + 1 }

unfoldable pub count_states : Dict Addr Entry → Stats → Stats
count_states [] s = s
count_states ((a, e) ∷ entries) s = count_states entries (tally e.state s)

unfoldable pub stats : Pool → ℕ → Pool × Stats
unfolding expire count_states
stats p now =
    let q = expire p now in
    (
      q,
      count_states q.entries (record {
        total = length q.entries;
        free_count = 0;
        leased_count = 0;
        offered_count = 0;
        declined_count = 0;
        reserved_count = 0;
      }),
    )
