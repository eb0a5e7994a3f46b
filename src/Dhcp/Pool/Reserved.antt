-- ===== src/Dhcp/Pool/Reserved.antt =====
-- What a reservation outlasts: the calls of internal/dhcp/pool.go on a pool that holds one.
use dns_desktop.Common.{
  ℕ, ◌≡◌, refl, sym, ap, ◌∙◌, inl, inr, false, not, ◌&&◌, ◌||◌, Option, none, some, List, [], ◌∷◌,
  Bytes, null, arith, ◌==◌, ℕ_eq, bytes_eq_instance, Bool-cases, All,
}
use dns_desktop.Common.Dict.{lookup, insert, lookup-insert}
use dns_desktop.Net.{Addr, addr_eq_instance}
use dns_desktop.Dhcp.Pool.{
  State, free, offered, leased, declined, reserved, Lease, lease_of, Entry, blank, Pool, freed,
  is_reserved, expire, entry_of_key,
}
use dns_desktop.Dhcp.Pool.Alloc.{offer, commit}
use dns_desktop.Dhcp.Pool.Return.{
  release_entry, release, decline_entry, decline, free_entry, unquarantine, free_addr,
}
use dns_desktop.Dhcp.Pool.Query.{lookup_key, lookup_addr, leases}
use dns_desktop.Dhcp.Pool.Run.{
  Call, offers, commits, releases, declines, frees, looks, reports, step, run,
}
use dns_desktop.Dhcp.Pool.Invariant.{IsPool, expire-IsPool}
use dns_desktop.Dhcp.Pool.Located.{IsLocated, lookup-IsLocated, entry_of_key-IsLocated}
use dns_desktop.Dhcp.Pool.Preserve.{step-IsPool}
use dns_desktop.Dhcp.Pool.Pointers.{decline-pointer}
use dns_desktop.Dhcp.Pool.Reservations.{
  ReservedFor, Reserves, ReservedFor-if, put_entry-Reserves, expire-Reserves, offer_known-Reserves,
  commit_entry-Reserves,
}

offer-Reserves :
    (a : Addr) (k : Bytes) (p : Pool) (now : ℕ) (key : Bytes) (req : Addr) (hw hostname : Bytes)
    → IsPool p
    → Reserves a k p
    → Reserves a k (offer p now key req hw hostname).0
unfolding offer
offer-Reserves a k p now key req hw hostname v h = elim (Bool-cases (null key)) [
  | inl nobody ↦ rw nobody h
  | inr someone ↦ rw someone (
      let w = expire-IsPool p now v in
      let (l, mine) = entry_of_key-IsLocated (expire p now) key w in
      offer_known-Reserves a k (expire p now) now key hw hostname w (expire-Reserves a k p now h)
        req (entry_of_key (expire p now) key) refl l mine)
]

commit-Reserves :
    (a : Addr) (k : Bytes) (p : Pool) (now : ℕ) (key : Bytes) (b : Addr) (hw hostname : Bytes)
    → IsPool p
    → Reserves a k p
    → Reserves a k (commit p now key b hw hostname).0
unfolding commit
commit-Reserves a k p now key b hw hostname v h = elim (Bool-cases (null key)) [
  | inl nobody ↦ rw nobody h
  | inr someone ↦ rw someone (
      let w = expire-IsPool p now v in
      commit_entry-Reserves a k (expire p now) now key hw hostname w (expire-Reserves a k p now h)
        (lookup b (expire p now).entries) (lookup-IsLocated (expire p now) b w))
]

release-Reserves :
    (a : Addr) (k : Bytes) (p : Pool) (now : ℕ) (key : Bytes) (b : Addr)
    → IsPool p
    → Reserves a k p
    → Reserves a k (release p now key b)
unfolding release
release-Reserves a k p now key b v h = go (lookup b p.entries) (lookup-IsLocated p b v)
  where
    go : (o : Option Entry) → IsLocated p.entries o → Reserves a k (release_entry p now key o)
    go none l = h
    go (some e) l = elim (Bool-cases (not (e.key == key) || is_reserved e.state)) [
      | inl stays ↦ rw stays h
      | inr mine ↦
          rw mine (put_entry-Reserves a k p e (freed e now) l (λ r. absurd (ground (arith, r.0))) h)
    ]

free_addr-Reserves :
    (a : Addr) (k : Bytes) (p : Pool) (now : ℕ) (b : Addr)
    → IsPool p
    → Reserves a k p
    → Reserves a k (free_addr p now b).0
unfolding free_addr
free_addr-Reserves a k p now b v h = go (lookup b p.entries) (lookup-IsLocated p b v)
  where
    by_state :
        (e : Entry) (st : State)
        → e.state ≡ st
        → IsLocated p.entries (some e)
        → Reserves a k (unquarantine p now st e).0
    by_state e declined s l =
        put_entry-Reserves a k p e (record e { state = free; freed_at = now }) l
          (λ r. absurd (ground (arith, r.0, s))) h
    by_state e free s l = h
    by_state e offered s l = h
    by_state e leased s l = h
    by_state e reserved s l = h

    go : (o : Option Entry) → IsLocated p.entries o → Reserves a k (free_entry p now o).0
    go none l = h
    go (some e) l = by_state e e.state refl l

-- A quarantined address was not reserved.
decline-Reserves :
    (a : Addr) (k : Bytes) (p : Pool) (now : ℕ) (key : Bytes) (b : Addr)
    → null k ≡ false
    → (key == k) ≡ false
    → IsPool p
    → Reserves a k p
    → Reserves a k (decline p now key b)
unfolding decline
decline-Reserves a k p now key b named other v h =
    (go (lookup b p.entries) refl, λ e. h.1 (sym (decline-pointer p k now key b named other) ∙ e))
  where
    taken_out : Entry
    taken_out = record (blank b) { state = declined; freed_at = now }

    put :
        (e : Entry)
        → lookup b p.entries ≡ some e
        → is_reserved e.state ≡ false
        → ReservedFor k (lookup a (insert b taken_out p.entries))
    put e found plain = rw (lookup-insert b a taken_out p.entries) (
        ReservedFor-if b a k p.entries e taken_out found (λ r. absurd (ground (arith, r.0, plain)))
          h.0)

    go :
        (o : Option Entry)
        → lookup b p.entries ≡ o
        → ReservedFor k (lookup a (decline_entry p now key b o).entries)
    go none found = h.0
    go (some e) found = elim (Bool-cases (is_reserved e.state)) [
      | inl kept ↦ rw kept h.0
      | inr plain ↦ rw plain (elim (Bool-cases (not (null e.key) && not (e.key == key))) [
        | inl others ↦ rw others h.0
        | inr mine ↦ rw mine (put e found plain)
      ])
    ]

-- A call that is not a decline of the client's own.
abbrev pub NotDeclinedBy : Bytes → ℕ × Call → Type 0
NotDeclinedBy k (now, declines key a) = (key == k) ≡ false
NotDeclinedBy k _ = Unit

step-Reserves :
    (a : Addr) (k : Bytes) (p : Pool) (c : ℕ × Call)
    → null k ≡ false
    → NotDeclinedBy k c
    → IsPool p
    → Reserves a k p
    → Reserves a k (step p c)
unfolding step lookup_key leases
step-Reserves a k p (now, offers key req hw hostname) named n v h =
    offer-Reserves a k p now key req hw hostname v h
step-Reserves a k p (now, commits key b hw hostname) named n v h =
    commit-Reserves a k p now key b hw hostname v h
step-Reserves a k p (now, releases key b) named n v h = release-Reserves a k p now key b v h
step-Reserves a k p (now, declines key b) named n v h = decline-Reserves a k p now key b named n v h
step-Reserves a k p (now, frees b) named n v h = free_addr-Reserves a k p now b v h
step-Reserves a k p (now, looks key) named n v h = expire-Reserves a k p now h
step-Reserves a k p (now, reports) named n v h = expire-Reserves a k p now h

run-Reserves :
    (a : Addr) (k : Bytes) (p : Pool) (cs : List (ℕ × Call))
    → null k ≡ false
    → All (NotDeclinedBy k) cs
    → IsPool p
    → Reserves a k p
    → Reserves a k (run p cs)
unfolding run
run-Reserves a k p [] named n v h = h
run-Reserves a k p (c ∷ cs) named n v h =
    run-Reserves a k (step p c) cs named n.1 (step-IsPool p c v)
      (step-Reserves a k p c named n.0 v h)

ReservedFor-lookup_addr :
    (p : Pool) (a : Addr) (k : Bytes) (t : ℕ)
    → null k ≡ false
    → ReservedFor k (lookup a p.entries)
    → (l : Lease) × (lookup_addr p t a ≡ some l) × (l.key ≡ k) × (l.state ≡ reserved)
unfolding lookup_addr
ReservedFor-lookup_addr p a k t named h = go (lookup a p.entries) refl h
  where
    go :
        (o : Option Entry)
        → lookup a p.entries ≡ o
        → ReservedFor k o
        → (l : Lease) × (lookup_addr p t a ≡ some l) × (l.key ≡ k) × (l.state ≡ reserved)
    go none found r = absurd r
    go (some e) found r =
        (lease_of e, rw found (ground (arith, r.0, ap null r.1 ∙ named)), r.1, ground (arith, r.0))

-- In a well-formed pool an address that is reserved for a client, whose key points at some address,
-- stays reserved for it whatever calls are made and whenever, those of the client itself included,
-- as long as the client declines nothing: `LookupAddr` names the client as its holder at every time.
pub reservation_kept :
    (a : Addr) (k : Bytes) (p : Pool) (cs : List (ℕ × Call)) (t : ℕ)
    → IsPool p
    → null k ≡ false
    → Reserves a k p
    → All (NotDeclinedBy k) cs
    → (l : Lease) × (lookup_addr (run p cs) t a ≡ some l) × (l.key ≡ k) × (l.state ≡ reserved)
reservation_kept a k p cs t v named h n =
    ReservedFor-lookup_addr (run p cs) a k t named (run-Reserves a k p cs named n v h).0
