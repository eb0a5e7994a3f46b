-- ===== src/Dhcp/Tests.antt =====
-- Runs of the package at concrete messages and pools.
mod Pools
mod Codec
mod Servers
use dns_desktop.Common.{ℕ, ◌+◌, List, [], ◌∷◌, Bytes, Result, ok, err}
use dns_desktop.Common.Int.{pos}
use dns_desktop.Net.{Addr, no_addr, v4, Prefix}
use dns_desktop.Dhcp.Pool.{Pool, PoolError, Lease, lease_of, blank, Reservation}
use dns_desktop.Dhcp.Pool.New.{PoolOptions, NewError, empty_pool, new_pool}

-- 192.168.1.x
abbrev pub host : ℕ → ℕ
host x = 3_232_235_776 + x

abbrev pub phone : Bytes
phone = b'h' ∷ b'w' ∷ b':' ∷ 1 ∷ 2 ∷ 3 ∷ 4 ∷ 5 ∷ 6 ∷ []

abbrev pub laptop : Bytes
laptop = b'h' ∷ b'w' ∷ b':' ∷ 1 ∷ 2 ∷ 3 ∷ 4 ∷ 5 ∷ 7 ∷ []

abbrev pub printer : Bytes
printer = b'i' ∷ b'd' ∷ b':' ∷ b'p' ∷ []

abbrev pub home : PoolOptions
home = record {
  subnet = record { addr = v4 (host 0); bits_plus_one = 25 };
  first = v4 (host 254);
  last = v4 (host 255);
  lease = pos 0;
  offer_hold = pos 0;
  reserved_list = record { key = printer; addr = v4 (host 9); hostname = [] } ∷ [];
  excluded = [];
}

abbrev pool_of : PoolOptions → Result NewError Pool → Pool
pool_of opts (ok p) = p
pool_of opts (err e) = empty_pool opts opts.subnet []

unfoldable pub home_pool : Pool
unfolding new_pool
home_pool = pool_of home (new_pool home)

abbrev pub lease_in : Result PoolError Lease → Lease
lease_in (ok l) = l
lease_in (err e) = lease_of (blank no_addr)
