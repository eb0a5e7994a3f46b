-- ===== src/Dhcp/Pool/Preserve.antt =====
-- Every call of internal/dhcp/pool.go keeps the pool well-formed.
use dns_desktop.Common.{
  ℕ, ◌<◌, ◌≡◌, refl, sym, ◌∙◌, subst, inl, inr, true, false, not, ◌&&◌, ◌||◌, Option, none, some,
  List, [], ◌∷◌, Bytes, null, arith, ◌==◌, ℕ_eq, bytes_eq_instance, bytes_eq_iff, Bool-cases,
}
use dns_desktop.Common.Dict.{lookup, lookup-insert}
use dns_desktop.Net.{Addr, addr_eq_instance}
use dns_desktop.Dhcp.Pool.{
  State, free, declined, Entry, blank, Pool, freed, put_entry, put_bound, is_reserved, available,
  expire, entry_of_key, least_recently_freed,
}
use dns_desktop.Dhcp.Pool.Alloc.{
  offer_free, offer_requested, offer_known, offer, leave_entry, leave, committed, commit_entry,
  commit,
}
use dns_desktop.Dhcp.Pool.Return.{
  release_entry, release, decline_entry, decline, free_entry, unquarantine, free_addr,
}
use dns_desktop.Dhcp.Pool.Query.{lookup_key, leases}
use dns_desktop.Dhcp.Pool.Run.{
  Call, offers, commits, releases, declines, frees, looks, reports, step, run,
}
use dns_desktop.Dhcp.Pool.Invariant.{
  StateOk, IsPool, KeepsReserved, put_entry-IsPool, put_bound-IsPool, expire-IsPool, remove-IsPool,
}
use dns_desktop.Dhcp.Pool.Located.{
  IsLocated, IsMine, lookup-IsLocated, entry_of_key-IsLocated, least_recently_freed-IsLocated,
  located-StateOk, bound-IsPool,
}

module _ (p : Pool) (now : ℕ) (key hw hostname : Bytes) (v : IsPool p)
    (named : null key ≡ false) where
  offer_free-IsPool :
      (o : Option Entry) → IsLocated p.entries o → IsPool (offer_free p now key hw hostname o).0
  offer_free-IsPool none h = v
  offer_free-IsPool (some e) h = bound-IsPool p e key hw hostname now false v h named (λ r. cc)

  offer_requested-IsPool :
      (o : Option Entry)
      → IsLocated p.entries o
      → IsPool (offer_requested p now key hw hostname o).0
  offer_requested-IsPool none h =
      offer_free-IsPool (least_recently_freed p.entries p.addrs none)
        (least_recently_freed-IsLocated p p.addrs none v tt)
  offer_requested-IsPool (some e) h = elim (Bool-cases (available e key)) [
    | inl yours ↦ rw yours (bound-IsPool p e key hw hostname now false v h named (λ r. cc))
    | inr other ↦ rw other (
        offer_free-IsPool (least_recently_freed p.entries p.addrs none)
          (least_recently_freed-IsLocated p p.addrs none v tt))
  ]

  offer_known-IsPool :
      (req : Addr) (o : Option Entry)
      → IsLocated p.entries o × IsMine key o
      → IsPool (offer_known p now key req hw hostname o).0
  offer_known-IsPool req none h =
      offer_requested-IsPool (lookup req p.entries) (lookup-IsLocated p req v)
  offer_known-IsPool req (some e) h =
      bound-IsPool p e key hw hostname now (is_reserved e.state) v h.0 named (λ r. (r, sym (h.1 r)))

offer-IsPool :
    (p : Pool) (now : ℕ) (key : Bytes) (req : Addr) (hw hostname : Bytes)
    → IsPool p
    → IsPool (offer p now key req hw hostname).0
unfolding offer
offer-IsPool p now key req hw hostname v = elim (Bool-cases (null key)) [
  | inl e ↦ rw e v
  | inr e ↦ rw e (
      offer_known-IsPool (expire p now) now key hw hostname (expire-IsPool p now v) e req
        (entry_of_key (expire p now) key)
        (entry_of_key-IsLocated (expire p now) key (expire-IsPool p now v)))
]

-- A freed entry ends no reservation that was there.
freed-IsPool :
    (p : Pool) (e : Entry) (now : ℕ)
    → IsPool p
    → lookup e.addr p.entries ≡ some e
    → IsPool (put_entry p (freed e now))
freed-IsPool p e now v found = put_entry-IsPool p e (freed e now) v found refl (λ r. cc)

leave_entry-IsPool :
    (p : Pool) (now : ℕ) (a : Addr) (o : Option Entry)
    → IsPool p
    → IsLocated p.entries o
    → IsPool (leave_entry p now a o)
leave_entry-IsPool p now a none v h = v
leave_entry-IsPool p now a (some prev) v h =
    elim (Bool-cases (not (prev.addr == a) && not (is_reserved prev.state))) [
      | inl moves ↦ rw moves (freed-IsPool p prev now v h)
      | inr stays ↦ rw stays v
    ]

leave-IsPool : (p : Pool) (now : ℕ) (key : Bytes) (a : Addr) → IsPool p → IsPool (leave p now key a)
unfolding leave
leave-IsPool p now key a v =
    leave_entry-IsPool p now a (entry_of_key p key) v (entry_of_key-IsLocated p key v).0

leave_entry-lookup :
    (p : Pool) (now : ℕ) (a : Addr) (o : Option Entry)
    → lookup a (leave_entry p now a o).entries ≡ lookup a p.entries
leave_entry-lookup p now a none = refl
leave_entry-lookup p now a (some prev) =
    ground (arith, lookup-insert prev.addr a (freed prev now) p.entries)

-- The entry that a client moves to is not the one that it leaves.
pub leave-lookup :
    (p : Pool) (now : ℕ) (key : Bytes) (a : Addr)
    → lookup a (leave p now key a).entries ≡ lookup a p.entries
unfolding leave
leave-lookup p now key a = leave_entry-lookup p now a (entry_of_key p key)

committed-StateOk :
    (p : Pool) (e : Entry) (key hw hostname : Bytes) (now : ℕ)
    → 0 < p.lease
    → null key ≡ false
    → StateOk (committed p e key hw hostname now).state (committed p e key hw hostname now)
committed-StateOk p e key hw hostname now pos named = ground arith

available-key :
    (p : Pool) (e : Entry) (key hw hostname : Bytes) (now : ℕ)
    → available e key ≡ true
    → KeepsReserved e (committed p e key hw hostname now)
unfolding available
available-key p e key hw hostname now h r = ground (arith, bytes_eq_iff e.key key)

module _ (p : Pool) (now : ℕ) (key hw hostname : Bytes) (v : IsPool p)
    (named : null key ≡ false) where
  moved-IsPool :
      (e : Entry)
      → lookup e.addr p.entries ≡ some e
      → available e key ≡ true
      → IsPool (put_bound (leave p now key e.addr) (committed p e key hw hostname now) key)
  moved-IsPool e found yours =
      put_bound-IsPool (leave p now key e.addr) e (committed p e key hw hostname now)
        (leave-IsPool p now key e.addr v) key (leave-lookup p now key e.addr ∙ found)
        (committed-StateOk p e key hw hostname now v.lease_pos named)
        (available-key p e key hw hostname now yours) refl

  commit_entry-IsPool :
      (o : Option Entry) → IsLocated p.entries o → IsPool (commit_entry p now key hw hostname o).0
  commit_entry-IsPool none h = v
  commit_entry-IsPool (some e) h = elim (Bool-cases (available e key)) [
    | inl yours ↦ rw yours (moved-IsPool e h yours)
    | inr other ↦ rw other v
  ]

commit-IsPool :
    (p : Pool) (now : ℕ) (key : Bytes) (a : Addr) (hw hostname : Bytes)
    → IsPool p
    → IsPool (commit p now key a hw hostname).0
unfolding commit
commit-IsPool p now key a hw hostname v = elim (Bool-cases (null key)) [
  | inl e ↦ rw e v
  | inr e ↦ rw e (
      commit_entry-IsPool (expire p now) now key hw hostname (expire-IsPool p now v) e
        (lookup a (expire p now).entries)
        (lookup-IsLocated (expire p now) a (expire-IsPool p now v)))
]

release_entry-IsPool :
    (p : Pool) (now : ℕ) (key : Bytes) (o : Option Entry)
    → IsPool p
    → IsLocated p.entries o
    → IsPool (release_entry p now key o)
release_entry-IsPool p now key none v h = v
release_entry-IsPool p now key (some e) v h =
    elim (Bool-cases (not (e.key == key) || is_reserved e.state)) [
      | inl ignored ↦ rw ignored v
      | inr mine ↦ rw mine (freed-IsPool p e now v h)
    ]

release-IsPool :
    (p : Pool) (now : ℕ) (key : Bytes) (a : Addr) → IsPool p → IsPool (release p now key a)
unfolding release
release-IsPool p now key a v =
    release_entry-IsPool p now key (lookup a p.entries) v (lookup-IsLocated p a v)

quarantined-IsPool :
    (p : Pool) (now : ℕ) (a : Addr) (e : Entry)
    → IsPool p
    → lookup a p.entries ≡ some e
    → IsPool (put_entry p (record (blank a) { state = declined; freed_at = now }))
quarantined-IsPool p now a e v found =
    put_entry-IsPool p e (record (blank a) { state = declined; freed_at = now }) v found
      (refl, refl) (λ r. cc)

decline_entry-IsPool :
    (p : Pool) (now : ℕ) (key : Bytes) (a : Addr) (o : Option Entry)
    → IsPool p
    → lookup a p.entries ≡ o
    → IsPool (decline_entry p now key a o)
decline_entry-IsPool p now key a none v h = v
decline_entry-IsPool p now key a (some e) v h = elim (Bool-cases (is_reserved e.state)) [
  | inl r ↦ rw r v
  | inr r ↦ rw r (elim (Bool-cases (not (null e.key) && not (e.key == key))) [
    | inl other ↦ rw other v
    | inr mine ↦ rw mine (
        remove-IsPool (put_entry p (record (blank a) { state = declined; freed_at = now })) e.key
          (quarantined-IsPool p now a e v h))
  ])
]

decline-IsPool :
    (p : Pool) (now : ℕ) (key : Bytes) (a : Addr) → IsPool p → IsPool (decline p now key a)
unfolding decline
decline-IsPool p now key a v = decline_entry-IsPool p now key a (lookup a p.entries) v refl

unquarantine-IsPool :
    (p : Pool) (now : ℕ) (s : State) (e : Entry)
    → e.state ≡ s
    → IsPool p
    → lookup e.addr p.entries ≡ some e
    → IsPool (unquarantine p now s e).0
unquarantine-IsPool p now declined e h v found =
    put_entry-IsPool p e (record e { state = free; freed_at = now }) v found
      (subst (λ s. StateOk s e) h (located-StateOk p e v found)).1 (λ r. cc)
unquarantine-IsPool p now _ e h v found = v

free_entry-IsPool :
    (p : Pool) (now : ℕ) (o : Option Entry)
    → IsPool p
    → IsLocated p.entries o
    → IsPool (free_entry p now o).0
free_entry-IsPool p now none v h = v
free_entry-IsPool p now (some e) v h = unquarantine-IsPool p now e.state e refl v h

free_addr-IsPool : (p : Pool) (now : ℕ) (a : Addr) → IsPool p → IsPool (free_addr p now a).0
unfolding free_addr
free_addr-IsPool p now a v = free_entry-IsPool p now (lookup a p.entries) v (lookup-IsLocated p a v)

-- From a well-formed pool every call leads to one, whatever its arguments and whether it succeeds:
-- each entry stands at its address, an entry is held by a named client exactly in the states
-- offered, leased and reserved, a lease or an offer has an end and nothing else has one, and no
-- client's pointer leads to another client's reservation.
pub step-IsPool : (p : Pool) (c : ℕ × Call) → IsPool p → IsPool (step p c)
unfolding step lookup_key leases
step-IsPool p (now, offers key req hw hostname) v = offer-IsPool p now key req hw hostname v
step-IsPool p (now, commits key a hw hostname) v = commit-IsPool p now key a hw hostname v
step-IsPool p (now, releases key a) v = release-IsPool p now key a v
step-IsPool p (now, declines key a) v = decline-IsPool p now key a v
step-IsPool p (now, frees a) v = free_addr-IsPool p now a v
step-IsPool p (now, looks key) v = expire-IsPool p now v
step-IsPool p (now, reports) v = expire-IsPool p now v

-- From a well-formed pool every history of calls, each at any reading of the clock, leads to a
-- well-formed pool: who holds an address and until when agrees with its state, and no key points at
-- nothing or at the reservation of another key.
pub run-IsPool : (p : Pool) (cs : List (ℕ × Call)) → IsPool p → IsPool (run p cs)
unfolding run
run-IsPool p [] v = v
run-IsPool p (c ∷ cs) v = run-IsPool (step p c) cs (step-IsPool p c v)
