-- ===== src/Dhcp/Pool/New.antt =====
-- `NewPool` and `reserve` of internal/dhcp/pool.go.
use dns_desktop.Common.{
  ℕ, zero, suc, ◌+◌, ◌-◌, ◌*◌, ◌/◌, ◌^◌, Bool, false, not, ◌&&◌, ◌||◌, Option, none, some, List, [],
  ◌∷◌, null, any, Result, ok, err, ◌==◌, ℕ_eq, ltb, bytes_eq_instance, if◌then◌else◌,
}
use dns_desktop.Common.Int.{ℤ, pos, negsuc}
use dns_desktop.Common.Dict.{Dict, lookup}
use dns_desktop.Net.{
  Addr, v4, is_valid, Prefix, bits, prefix_is_valid, masked, contains, addr_eq_instance,
}
use dns_desktop.Dhcp.Pool.{reserved, Reservation, Entry, blank, Pool, put_bound, is_reserved}

abbrev pub max_pool_size : ℕ
max_pool_size = 65536

pub data NewError : Type 0 where
  bad_subnet no_range range_not_v4 range_reversed outside_subnet too_large empty_range : NewError
  -- of `reserve`
  no_client_key reservation_outside reserved_twice two_addresses : NewError

pub record PoolOptions : Type 0 where
  pub subnet : Prefix
  pub first : Addr
  pub last : Addr
  pub lease : ℤ
  pub offer_hold : ℤ
  pub reserved_list : List Reservation
  pub excluded : List Addr

-- Twelve hours and thirty seconds.
abbrev pub default_lease : ℕ
default_lease = 43_200_000_000_000

abbrev pub default_offer_hold : ℕ
default_offer_hold = 30_000_000_000

-- `orDuration`
abbrev pub or_duration : ℤ → ℕ → ℕ
or_duration (pos zero) default = default
or_duration (pos (suc n)) default = suc n
or_duration (negsuc _) default = default

-- `addrDistance` of two IPv4 addresses, which stops counting past the largest pool.
unfoldable pub addr_distance : ℕ → ℕ → ℕ
addr_distance a b =
    if ltb b a then 0 else if ltb max_pool_size (b - a) then max_pool_size + 1 else b - a

-- `broadcastOf` the prefix of an IPv4 address: the host bits set.
unfoldable pub broadcast_of : ℕ → ℕ → ℕ
broadcast_of a n = a / 2 ^ (32 - n) * 2 ^ (32 - n) + (2 ^ (32 - n) - 1)

-- The addresses from `a` on, `rounds` after it: `for a := first; ; a = a.Next()`.
unfoldable pub addrs_from : ℕ → ℕ → List Addr
addrs_from zero a = v4 a ∷ []
addrs_from (suc rounds) a = v4 a ∷ addrs_from rounds (a + 1)

unfoldable pub not_skipped : List Addr → List Addr → List Addr
not_skipped skip [] = []
not_skipped skip (a ∷ addrs) =
    let rest = not_skipped skip addrs in if any (λ s. s == a) skip then rest else a ∷ rest

unfoldable pub blank_entries : List Addr → Dict Addr Entry
blank_entries [] = []
blank_entries (a ∷ addrs) = (a, blank a) ∷ blank_entries addrs

-- `reserve` with the entry of the reservation's address.
abbrev pub reserved_elsewhere : Option Addr → Addr → Bool
reserved_elsewhere none a = false
reserved_elsewhere (some b) a = not (b == a)

abbrev pub reserve_entry : Pool → Reservation → Entry → Result NewError Pool
reserve_entry p r e =
    if is_reserved e.state && not (e.key == r.key)
    then err reserved_twice
    else if reserved_elsewhere (lookup r.key p.by_key) r.addr
    then err two_addresses
    else ok (put_bound p (record e { state = reserved; key = r.key; hostname = r.hostname }) r.key)

abbrev pub reserve_at : Pool → Reservation → Option Entry → Result NewError Pool
reserve_at p r none =
    if contains p.subnet r.addr then reserve_entry p r (blank r.addr) else err reservation_outside
reserve_at p r (some e) = reserve_entry p r e

unfoldable pub reserve : Pool → Reservation → Result NewError Pool
reserve p r = if null r.key then err no_client_key else reserve_at p r (lookup r.addr p.entries)

unfoldable pub reserve_all : Result NewError Pool → List Reservation → Result NewError Pool
unfolding reserve
reserve_all (err e) rs = err e
reserve_all (ok p) [] = ok p
reserve_all (ok p) (r ∷ rs) = reserve_all (reserve p r) rs

-- `NewPool` past the checks of the subnet and the range, which are IPv4.
abbrev pub empty_pool : PoolOptions → Prefix → List Addr → Pool
empty_pool opts subnet addrs = record {
  subnet = subnet;
  lease = or_duration opts.lease default_lease;
  offer_ttl = or_duration opts.offer_hold default_offer_hold;
  addrs = addrs;
  entries = blank_entries addrs;
  by_key = [];
}

abbrev pub range : PoolOptions → Prefix → ℕ → ℕ → ℕ → List Addr
range opts subnet net first last =
    not_skipped (subnet.addr ∷ v4 (broadcast_of net (bits subnet)) ∷ opts.excluded)
      (addrs_from (addr_distance first last) first)

abbrev pub checked_pool : PoolOptions → Prefix → ℕ → ℕ → ℕ → Result NewError Pool
checked_pool opts subnet net first last =
    if ltb last first
    then err range_reversed
    else if not (contains subnet (v4 first)) || not (contains subnet (v4 last))
    then err outside_subnet
    else if ltb max_pool_size (addr_distance first last + 1)
    then err too_large
    else if null (range opts subnet net first last)
    then err empty_range
    else reserve_all (ok (empty_pool opts subnet (range opts subnet net first last)))
        opts.reserved_list

abbrev pub check_range : PoolOptions → Prefix → ℕ → Addr → Addr → Result NewError Pool
check_range opts subnet net (v4 first) (v4 last) = checked_pool opts subnet net first last
check_range opts subnet net first last =
    if not (is_valid first) || not (is_valid last) then err no_range else err range_not_v4

abbrev pub check_subnet : PoolOptions → Addr → Result NewError Pool
check_subnet opts (v4 net) = check_range opts (masked opts.subnet) net opts.first opts.last
check_subnet opts _ = err bad_subnet

unfoldable pub new_pool : PoolOptions → Result NewError Pool
unfolding addr_distance addrs_from not_skipped blank_entries reserve_all broadcast_of
new_pool opts =
    if not (prefix_is_valid opts.subnet) then err bad_subnet else check_subnet opts opts.subnet.addr
