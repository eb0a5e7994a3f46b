-- ===== src/Dhcp/Tests/Pools.antt =====
-- The lease pool (internal/dhcp/pool.go) of a network with one free address and one reservation.
use dns_desktop.Net.{addr_eq_instance}
use dns_desktop.Common.{
  arith, inl, ℕ, ◌+◌, ◌≡◌, refl, false, List, [], ◌∷◌, none, some, ok, err, ◌||◌, ltb,
  if◌then◌else◌, All,
}
use dns_desktop.Common.Dict.{lookup, insert, remove, map_values}
use dns_desktop.Net.{v4, masked}
use dns_desktop.Dhcp.Pool.{
  Lease, Entry, expire, expire_entry, lease_of, bound, is_reserved, taken, free, reserved, leased,
  blank, least_recently_freed,
}
use dns_desktop.Dhcp.Pool.New.{new_pool}
use dns_desktop.Dhcp.Pool.Alloc.{offer, commit}
use dns_desktop.Dhcp.Pool.Query.{lookup_addr}
use dns_desktop.Dhcp.Pool.Run.{Call, commits, releases, declines, reports, run}
use dns_desktop.Dhcp.Pool.Invariant.{IsPool}
use dns_desktop.Dhcp.Pool.Preserve.{run-IsPool}
use dns_desktop.Dhcp.Pool.Made.{new_pool-IsPool}
use dns_desktop.Dhcp.Pool.Range.{IsAllocatable, new_pool-IsAllocatable}
use dns_desktop.Dhcp.Pool.Safety.{commit_granted, commit_taken}
use dns_desktop.Dhcp.Pool.Choice.{IsLeastRecent, least_recently_freed_lem}
use dns_desktop.Dhcp.Pool.Takeover.{offer_takes_over, offer_loses_reservation}
use dns_desktop.Dhcp.Pool.Others.{step_leaves_others}
use dns_desktop.Dhcp.Pool.{entry_of_key}
use dns_desktop.Dhcp.Pool.Run.{step}
use dns_desktop.Dhcp.Pool.Reserved.{reservation_kept}
use dns_desktop.Dhcp.Tests.{host, phone, laptop, printer, home, home_pool, lease_in}

new_pool-IsPool_example : IsPool home_pool
unfolding home_pool new_pool lookup insert
new_pool-IsPool_example = new_pool-IsPool home home_pool refl

-- The broadcast address is left out of the range.
new_pool-IsAllocatable_example :
    (home_pool.subnet ≡ masked home.subnet) × All (IsAllocatable home (host 0)) (v4 (host 254) ∷ [])
unfolding home_pool new_pool lookup insert
new_pool-IsAllocatable_example = new_pool-IsAllocatable home home_pool (host 0) refl refl

-- The phone takes the free address and gives it back, the laptop takes it, and the phone returns.
abbrev phone_again : List (ℕ × Call)
phone_again =
    (1000, commits phone (v4 (host 254)) [] [])
    ∷ (2000, releases phone (v4 (host 254)))
    ∷ (3000, commits laptop (v4 (host 254)) [] [])
    ∷ []

run-IsPool_example : IsPool (run home_pool phone_again)
run-IsPool_example = run-IsPool home_pool phone_again new_pool-IsPool_example

first_commit : commit home_pool 1000 phone (v4 (host 254)) [] [] ≡ (
  (commit home_pool 1000 phone (v4 (host 254)) [] []).0,
  ok (lease_in (commit home_pool 1000 phone (v4 (host 254)) [] []).1),
)
unfolding home_pool new_pool lookup insert commit map_values expire_entry
first_commit = refl

commit_granted_example :
    ((lease_in (commit home_pool 1000 phone (v4 (host 254)) [] []).1).addr ≡ v4 (host 254))
    × ((lease_in (commit home_pool 1000 phone (v4 (host 254)) [] []).1).key ≡ phone)
    × (lookup_addr (commit home_pool 1000 phone (v4 (host 254)) [] []).0 5000 (v4 (host 254)) ≡ (
        if is_reserved (lease_in (commit home_pool 1000 phone (v4 (host 254)) [] []).1).state
          || ltb 5000 (1000 + home_pool.lease)
        then some (lease_in (commit home_pool 1000 phone (v4 (host 254)) [] []).1)
        else none))
commit_granted_example =
    commit_granted home_pool 1000 phone (v4 (host 254)) [] []
      (commit home_pool 1000 phone (v4 (host 254)) [] []).0
      (lease_in (commit home_pool 1000 phone (v4 (host 254)) [] []).1) new_pool-IsPool_example
      first_commit 5000

abbrev printer_entry : Entry
printer_entry = record (blank (v4 (host 9))) { state = reserved; key = printer }

-- The printer's address is reserved, and the phone does not get it.
commit_taken_example :
    commit home_pool 1000 phone (v4 (host 9)) [] [] ≡ (expire home_pool 1000, err taken)
unfolding home_pool new_pool lookup insert
commit_taken_example =
    commit_taken home_pool 1000 phone (v4 (host 9)) [] [] printer_entry refl refl (inl refl)
      (λ h. absurd (ground arith))

-- What the other clients do meanwhile.
abbrev others_calls : List (ℕ × Call)
others_calls =
    (2000, commits laptop (v4 (host 254)) [] [])
    ∷ (3000, declines printer (v4 (host 254)))
    ∷ (4000, reports)
    ∷ []

-- The laptop's lease ends with the phone's return.
abbrev laptop_entry : Entry
laptop_entry = record (blank (v4 (host 254))) {
  state = leased;
  key = laptop;
  expires = 3000 + 43_200_000_000_000;
  first_seen = 1000;
  last_seen = 3000;
  freed_at = 2000;
}

offer_takes_over_example :
    (lookup_addr (run home_pool phone_again) 4000 (v4 (host 254)) ≡ some (lease_of laptop_entry))
    × (lookup_addr
          (offer (run home_pool phone_again) 4000 phone (v4 0) [] []).0
          5000
          (v4 (host 254))
        ≡ none)
    × ((offer (run home_pool phone_again) 4000 phone (v4 0) [] []).1
        ≡ ok (lease_of (bound (run home_pool phone_again) laptop_entry phone [] [] 4000 false)))
unfolding home_pool new_pool lookup insert run map_values expire_entry
offer_takes_over_example =
    offer_takes_over (run home_pool phone_again) 4000 phone (v4 0) [] [] (v4 (host 254))
      laptop_entry 5000 run-IsPool_example refl refl refl refl (omega arith)
      (λ h. absurd (ground arith))

-- The choice for a new client in a pool of one free address.
least_recently_freed_lem_example :
    IsLeastRecent home_pool.entries home_pool.addrs
      (least_recently_freed home_pool.entries home_pool.addrs none)
least_recently_freed_lem_example = least_recently_freed_lem home_pool.entries home_pool.addrs

-- The printer itself takes another address, and others try to get its own.
abbrev tries : List (ℕ × Call)
tries =
    (1000, commits printer (v4 (host 254)) [] [])
    ∷ (2000, releases printer (v4 (host 9)))
    ∷ (3000, declines laptop (v4 (host 9)))
    ∷ (4000, commits phone (v4 (host 9)) [] [])
    ∷ []

reservation_kept_example :
    (l : Lease) × (lookup_addr (run home_pool tries) 9000 (v4 (host 9)) ≡ some l)
    × (l.key ≡ printer)
    × (l.state ≡ reserved)
unfolding home_pool new_pool lookup insert
reservation_kept_example =
    reservation_kept (v4 (host 9)) printer home_pool tries 9000 new_pool-IsPool_example refl
      ((refl, refl), (λ h. cc)) (tt, (tt, (refl, (tt, tt))))

-- The printer takes another address, and declines it.
abbrev printer_declines : List (ℕ × Call)
printer_declines =
    (1000, commits printer (v4 (host 254)) [] []) ∷ (2000, declines printer (v4 (host 254))) ∷ []

printer_declines-IsPool : IsPool (run home_pool printer_declines)
printer_declines-IsPool = run-IsPool home_pool printer_declines new_pool-IsPool_example

offer_loses_reservation_example :
    (lookup_addr
        (offer (run home_pool printer_declines) 3000 printer (v4 (host 9)) [] []).0
        60_000_000_000
        (v4 (host 9))
      ≡ none)
    × (x : Entry) × (lookup
          (v4 (host 9))
          (expire
            (offer (run home_pool printer_declines) 3000 printer (v4 (host 9)) [] []).0
            60_000_000_000).entries
        ≡ some x)
    × (x.state ≡ free)
unfolding home_pool new_pool lookup insert map_values expire_entry run remove
offer_loses_reservation_example =
    offer_loses_reservation (run home_pool printer_declines) 3000 printer [] [] (v4 (host 9))
      printer_entry 60_000_000_000 printer_declines-IsPool refl refl refl refl refl (omega arith)

-- The phone does not take the printer's reservation away.
step_leaves_others_example :
    lookup (v4 (host 9)) (step home_pool (1000, commits phone (v4 (host 254)) [] [])).entries
    ≡ some printer_entry
unfolding home_pool new_pool lookup insert entry_of_key
step_leaves_others_example =
    step_leaves_others (v4 (host 9)) printer_entry home_pool
      (1000, commits phone (v4 (host 254)) [] []) new_pool-IsPool_example refl (inl refl)
      (λ h. absurd (ground arith)) tt
