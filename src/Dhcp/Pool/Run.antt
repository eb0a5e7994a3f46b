-- ===== src/Dhcp/Pool/Run.antt =====
-- Histories of the pool of internal/dhcp/pool.go. Every method takes the pool's lock for all of its
-- run, so whatever the threads do, the pool sees a sequence of calls, each at the clock's reading.
use dns_desktop.Common.{ℕ, List, [], ◌∷◌, Bytes}
use dns_desktop.Net.{Addr}
use dns_desktop.Dhcp.Pool.{Pool}
use dns_desktop.Dhcp.Pool.Alloc.{offer, commit}
use dns_desktop.Dhcp.Pool.Return.{release, decline, free_addr}
use dns_desktop.Dhcp.Pool.Query.{lookup_key, leases}

-- `LookupAddr` changes nothing, and `Stats` changes what `Leases` does.
pub data Call : Type 0 where
  offers : Bytes → Addr → Bytes → Bytes → Call
  commits : Bytes → Addr → Bytes → Bytes → Call
  releases : Bytes → Addr → Call
  declines : Bytes → Addr → Call
  frees : Addr → Call
  looks : Bytes → Call
  reports : Call

unfoldable pub step : Pool → ℕ × Call → Pool
unfolding offer commit release decline free_addr lookup_key leases
step p (now, offers key req hw hostname) = (offer p now key req hw hostname).0
step p (now, commits key a hw hostname) = (commit p now key a hw hostname).0
step p (now, releases key a) = release p now key a
step p (now, declines key a) = decline p now key a
step p (now, frees a) = (free_addr p now a).0
step p (now, looks key) = (lookup_key p now key).0
step p (now, reports) = (leases p now).0

unfoldable pub run : Pool → List (ℕ × Call) → Pool
unfolding step
run p [] = p
run p (c ∷ cs) = run (step p c) cs
