-- ===== src/Dhcp/Pool/Safety.antt =====
-- What the calls of internal/dhcp/pool.go do for the client that makes them, and to the others.
use mathlib.Core.Option
use dns_desktop.Common.{
  ℕ, ◌+◌, ◌<◌, ◌≡◌, ◌≢◌, refl, ap, ◌∙◌, subst, ◌⊎◌, inl, inr, Bool, true, false, ◌||◌, Option, none,
  some, Bytes, null, arith, ℕ_eq, ltb, bytes_eq_instance, bytes_eq_iff, if◌then◌else◌, Bool-cases,
  ok, err,
}
use dns_desktop.Common.Dict.{lookup, lookup-insert, lookup-map_values}
use dns_desktop.Net.{Addr, addr_eq_iff, addr_eq_instance}
use dns_desktop.Dhcp.Pool.{
  State, offered, leased, reserved, Lease, Entry, lease_of, Pool, no_identity, taken, not_ours,
  put_bound, is_reserved, available, expire, expire_entry,
}
use dns_desktop.Dhcp.Pool.Alloc.{leave, committed, commit_entry, commit}
use dns_desktop.Dhcp.Pool.Query.{lookup_addr}
use dns_desktop.Dhcp.Pool.Invariant.{EntryOk, IsPool, expire-IsPool}

pub lookup-expire :
    (p : Pool) (now : ℕ) (a : Addr)
    → lookup a (expire p now).entries ≡ Option.map (expire_entry now) (lookup a p.entries)
unfolding expire
lookup-expire p now a = lookup-map_values (expire_entry now) a p.entries

-- A live binding: a reservation, or a lease or an offer that has not ended.
abbrev pub IsLive : ℕ → Entry → Type 0
IsLive now e =
    (e.state ≡ reserved) ⊎ (((e.state ≡ leased) ⊎ (e.state ≡ offered)) × (now < e.expires))

pub expire_entry_live : (now : ℕ) (e : Entry) → IsLive now e → expire_entry now e ≡ e
unfolding expire_entry
expire_entry_live now e h = ground arith

pub available_live :
    (now : ℕ) (e : Entry) (key : Bytes) → IsLive now e → e.key ≢ key → available e key ≡ false
unfolding available
available_live now e key h d = ground (arith, bytes_eq_iff e.key key)

-- A client with a key that asks for an address with a live binding of another client (a reservation,
-- or a lease or an offer that has not ended) is refused, and nothing changes in the pool but that
-- the bindings that have ended are freed.
pub commit_taken :
    (p : Pool) (now : ℕ) (key : Bytes) (a : Addr) (hw hostname : Bytes) (e : Entry)
    → null key ≡ false
    → lookup a p.entries ≡ some e
    → IsLive now e
    → e.key ≢ key
    → commit p now key a hw hostname ≡ (expire p now, err taken)
unfolding commit
commit_taken p now key a hw hostname e named found live other = rw (
  named,
  lookup-expire p now a,
  found,
  expire_entry_live now e live,
  available_live now e key live other,
)

-- An address that the pool does not have is refused as not ours.
pub commit_not_ours :
    (p : Pool) (now : ℕ) (key : Bytes) (a : Addr) (hw hostname : Bytes)
    → null key ≡ false
    → lookup a p.entries ≡ none
    → commit p now key a hw hostname ≡ (expire p now, err not_ours)
unfolding commit
commit_not_ours p now key a hw hostname named missing = rw (named, lookup-expire p now a, missing)

pub commit_entry_granted :
    (p : Pool) (now : ℕ) (key hw hostname : Bytes) (o : Option Entry) (a : Addr) (q : Pool)
    (l : Lease)
    → (lookup a p.entries ≡ o)
    → commit_entry p now key hw hostname o ≡ (q, ok l)
    → (e : Entry) × (o ≡ some e)
      × (available e key ≡ true)
      × (q ≡ put_bound (leave p now key e.addr) (committed p e key hw hostname now) key)
      × (l ≡ lease_of (committed p e key hw hostname now))
commit_entry_granted p now key hw hostname none a q l found h = absurd (ground arith)
commit_entry_granted p now key hw hostname (some e) a q l found h =
    elim (Bool-cases (available e key)) [
      | inl yours ↦ (e, refl, yours, ground arith, ground arith)
      | inr other ↦ absurd (ground arith)
    ]

-- A pool whose entry at `a` has just been written.
pub lookup-put_bound :
    (p : Pool) (e : Entry) (key : Bytes) (a : Addr)
    → e.addr ≡ a
    → lookup a (put_bound p e key).entries ≡ some e
lookup-put_bound p e key a h =
    ground (arith, lookup-insert e.addr a e p.entries, addr_eq_iff e.addr a)

current_committed :
    (p : Pool) (q : Pool) (e : Entry) (key hw hostname : Bytes) (now t : ℕ) (a : Addr)
    → null key ≡ false
    → 0 < now + p.lease
    → lookup a q.entries ≡ some (committed p e key hw hostname now)
    → lookup_addr q t a ≡ (
        if is_reserved e.state || ltb t (now + p.lease)
        then some (lease_of (committed p e key hw hostname now))
        else none)
unfolding lookup_addr
current_committed p q e key hw hostname now t a named pos found = rw found (ground arith)

pub commit_named :
    (p : Pool) (now : ℕ) (key : Bytes) (a : Addr) (hw hostname : Bytes) (q : Pool) (l : Lease)
    → commit p now key a hw hostname ≡ (q, ok l)
    → (null key ≡ false)
      × (commit_entry (expire p now) now key hw hostname (lookup a (expire p now).entries)
          ≡ (q, ok l))
unfolding commit
commit_named p now key a hw hostname q l h = go (null key) refl h
  where
    go :
        (b : Bool)
        → null key ≡ b
        → (if b
            then (p, err no_identity)
            else commit_entry (expire p now) now key hw hostname (lookup a (expire p now).entries))
          ≡ (q, ok l)
        → (null key ≡ false)
          × (commit_entry (expire p now) now key hw hostname (lookup a (expire p now).entries)
              ≡ (q, ok l))
    go true e m = absurd (ground arith)
    go false e m = (e, m)

is_reserved-kept :
    (s : State) → is_reserved (if is_reserved s then reserved else leased) ≡ is_reserved s
is_reserved-kept s = ground arith

-- Where a well-formed pool grants an address, it is the one asked for, and in the pool that results
-- the client is its holder at every time before the lease time has passed, and nobody is from then
-- on; or the client is at every time, if the address is reserved.
pub commit_granted :
    (p : Pool) (now : ℕ) (key : Bytes) (a : Addr) (hw hostname : Bytes) (q : Pool) (l : Lease)
    → IsPool p
    → commit p now key a hw hostname ≡ (q, ok l)
    → (t : ℕ)
    → (l.addr ≡ a)
      × (l.key ≡ key)
      × (lookup_addr q t a
          ≡ (if is_reserved l.state || ltb t (now + p.lease) then some l else none))
unfolding expire
commit_granted p now key a hw hostname q l v h t =
    let (named, h1) = commit_named p now key a hw hostname q l h in
    let (e, found, yours, eq_q, eq_l) =
      commit_entry_granted (expire p now) now key hw hostname (lookup a (expire p now).entries) a q
        l refl h1 in
    let at_a = (subst (EntryOk a) found ((expire-IsPool p now v).entry a)).0 in
    let e' = committed (expire p now) e key hw hostname now in
    let put = lookup-put_bound (leave (expire p now) now key e.addr) e' key a at_a in
    let cur =
      current_committed (expire p now) q e key hw hostname now t a named
        (omega (arith, v.lease_pos)) (rw eq_q put) in
    (ap Lease.addr eq_l ∙ at_a, ap Lease.key eq_l, rw (eq_l, is_reserved-kept e.state) cur)
