-- ===== src/Dhcp/Pool/Pointers.antt =====
-- The pointers of `byKey` (internal/dhcp/pool.go), which only the client's own calls move.
use dns_desktop.Common.{
  ℕ, ◌≡◌, refl, ◌∙◌, inl, inr, false, Option, none, some, List, [], ◌∷◌, Bytes, null, arith, ◌==◌,
  ℕ_eq, bytes_eq_instance, bytes_eq_iff, Bool-cases, eq_true, All,
}
use dns_desktop.Common.Dict.{lookup, lookup-insert, lookup-remove}
use dns_desktop.Net.{Addr, addr_eq_instance}
use dns_desktop.Dhcp.Pool.{
  Entry, Pool, bound, put_bound, is_reserved, available, expire, entry_of_key, least_recently_freed,
}
use dns_desktop.Dhcp.Pool.Alloc.{
  offer_free, offer_requested, offer_known, offer, leave_entry, leave, committed, commit_entry,
  commit,
}
use dns_desktop.Dhcp.Pool.Return.{
  release_entry, release, decline_entry, decline, free_entry, free_addr,
}
use dns_desktop.Dhcp.Pool.Query.{lookup_key, leases}
use dns_desktop.Dhcp.Pool.Run.{
  Call, offers, commits, releases, declines, frees, looks, reports, step, run,
}

-- Where a client's key points.
abbrev pub pointer : Pool → Bytes → Option Addr
pointer p k = lookup k p.by_key

put_bound-pointer :
    (p : Pool) (e : Entry) (key k : Bytes)
    → (key == k) ≡ false
    → pointer (put_bound p e key) k ≡ pointer p k
put_bound-pointer p e key k h = rw (lookup-insert key k e.addr p.by_key, h) refl

pub put_bound-pointer_self :
    (p : Pool) (e : Entry) (key : Bytes) → pointer (put_bound p e key) key ≡ some e.addr
put_bound-pointer_self p e key = rw (lookup-insert key key e.addr p.by_key, eq_true key) refl

module _ (p : Pool) (now : ℕ) (key hw hostname k : Bytes) (other : (key == k) ≡ false) where
  offer_free-pointer :
      (o : Option Entry) → pointer (offer_free p now key hw hostname o).0 k ≡ pointer p k
  offer_free-pointer none = refl
  offer_free-pointer (some e) =
      put_bound-pointer p (bound p e key hw hostname now false) key k other

  offer_requested-pointer :
      (o : Option Entry) → pointer (offer_requested p now key hw hostname o).0 k ≡ pointer p k
  offer_requested-pointer none = offer_free-pointer (least_recently_freed p.entries p.addrs none)
  offer_requested-pointer (some e) = elim (Bool-cases (available e key)) [
    | inl yours ↦ rw yours (put_bound-pointer p (bound p e key hw hostname now false) key k other)
    | inr held ↦ rw held (offer_free-pointer (least_recently_freed p.entries p.addrs none))
  ]

  offer_known-pointer :
      (req : Addr) (o : Option Entry)
      → pointer (offer_known p now key req hw hostname o).0 k ≡ pointer p k
  offer_known-pointer req none = offer_requested-pointer (lookup req p.entries)
  offer_known-pointer req (some e) =
      put_bound-pointer p (bound p e key hw hostname now (is_reserved e.state)) key k other

  leave_entry-pointer :
      (a : Addr) (o : Option Entry) → pointer (leave_entry p now a o) k ≡ pointer p k
  leave_entry-pointer a none = refl
  leave_entry-pointer a (some prev) = ground arith

  commit_entry-pointer :
      (o : Option Entry) → pointer (commit_entry p now key hw hostname o).0 k ≡ pointer p k
  unfolding leave
  commit_entry-pointer none = refl
  commit_entry-pointer (some e) = elim (Bool-cases (available e key)) [
    | inl yours ↦ rw yours (
        put_bound-pointer (leave p now key e.addr) (committed p e key hw hostname now) key k other
        ∙ leave_entry-pointer e.addr (entry_of_key p key))
    | inr held ↦ rw held refl
  ]

-- A call that is not an offer, a commit or a decline of the client's own.
abbrev pub ByOthers : Bytes → ℕ × Call → Type 0
ByOthers k (now, offers key req hw hostname) = (key == k) ≡ false
ByOthers k (now, commits key a hw hostname) = (key == k) ≡ false
ByOthers k (now, declines key a) = (key == k) ≡ false
ByOthers k _ = Unit

offer-pointer :
    (p : Pool) (k : Bytes) (now : ℕ) (key : Bytes) (req : Addr) (hw hostname : Bytes)
    → (key == k) ≡ false
    → pointer (offer p now key req hw hostname).0 k ≡ pointer p k
unfolding offer expire
offer-pointer p k now key req hw hostname h = elim (Bool-cases (null key)) [
  | inl nobody ↦ rw nobody refl
  | inr someone ↦ rw someone (
      offer_known-pointer (expire p now) now key hw hostname k h req
        (entry_of_key (expire p now) key))
]

commit-pointer :
    (p : Pool) (k : Bytes) (now : ℕ) (key : Bytes) (a : Addr) (hw hostname : Bytes)
    → (key == k) ≡ false
    → pointer (commit p now key a hw hostname).0 k ≡ pointer p k
unfolding commit expire
commit-pointer p k now key a hw hostname h = elim (Bool-cases (null key)) [
  | inl nobody ↦ rw nobody refl
  | inr someone ↦ rw someone (
      commit_entry-pointer (expire p now) now key hw hostname k h (lookup a (expire p now).entries))
]

release-pointer :
    (p : Pool) (k : Bytes) (now : ℕ) (key : Bytes) (a : Addr)
    → pointer (release p now key a) k ≡ pointer p k
unfolding release
release-pointer p k now key a = go (lookup a p.entries)
  where
    go : (o : Option Entry) → pointer (release_entry p now key o) k ≡ pointer p k
    go none = refl
    go (some e) = ground arith

free_addr-pointer :
    (p : Pool) (k : Bytes) (now : ℕ) (a : Addr) → pointer (free_addr p now a).0 k ≡ pointer p k
unfolding free_addr
free_addr-pointer p k now a = go (lookup a p.entries)
  where
    go : (o : Option Entry) → pointer (free_entry p now o).0 k ≡ pointer p k
    go none = refl
    go (some e) = ground arith

-- The key that is forgotten is the caller's own or the empty one.
pub decline-pointer :
    (p : Pool) (k : Bytes) (now : ℕ) (key : Bytes) (a : Addr)
    → null k ≡ false
    → (key == k) ≡ false
    → pointer (decline p now key a) k ≡ pointer p k
unfolding decline
decline-pointer p k now key a named h = go (lookup a p.entries)
  where
    go : (o : Option Entry) → pointer (decline_entry p now key a o) k ≡ pointer p k
    go none = refl
    go (some e) = ground (
      arith,
      lookup-remove e.key k p.by_key,
      bytes_eq_iff e.key key,
      bytes_eq_iff e.key k,
      bytes_eq_iff key k,
    )

step-pointer :
    (p : Pool) (k : Bytes) (c : ℕ × Call)
    → null k ≡ false
    → ByOthers k c
    → pointer (step p c) k ≡ pointer p k
unfolding step lookup_key leases expire
step-pointer p k (now, offers key req hw hostname) named h =
    offer-pointer p k now key req hw hostname h
step-pointer p k (now, commits key a hw hostname) named h =
    commit-pointer p k now key a hw hostname h
step-pointer p k (now, releases key a) named h = release-pointer p k now key a
step-pointer p k (now, declines key a) named h = decline-pointer p k now key a named h
step-pointer p k (now, frees a) named h = free_addr-pointer p k now a
step-pointer p k (now, looks key) named h = refl
step-pointer p k (now, reports) named h = refl

pub run-pointer :
    (p : Pool) (k : Bytes) (cs : List (ℕ × Call))
    → null k ≡ false
    → All (ByOthers k) cs
    → pointer (run p cs) k ≡ pointer p k
unfolding run
run-pointer p k [] named h = refl
run-pointer p k (c ∷ cs) named h =
    run-pointer (step p c) k cs named h.1 ∙ step-pointer p k c named h.0
