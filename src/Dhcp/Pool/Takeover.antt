-- ===== src/Dhcp/Pool/Takeover.antt =====
-- An offer for a client whose address is another client's by now (internal/dhcp/pool.go).
use dns_desktop.Common.{
  ℕ, ◌+◌, ◌≤◌, ◌<◌, true, bytes_eq_iff, ◌≡◌, ◌≢◌, refl, ap, ◌∙◌, subst, inl, inr, false, none, some,
  Bytes, null, arith, ℕ_eq, bytes_eq_instance, ok,
}
use dns_desktop.Common.Dict.{lookup, lookup-map_values}
use dns_desktop.Net.{Addr, addr_eq_instance}
use dns_desktop.Dhcp.Pool.{
  free, offered, leased, reserved, Entry, lease_of, Pool, freed, bound, put_bound, is_reserved,
  available, expire, expire_entry, entry_of_key,
}
use dns_desktop.Dhcp.Pool.Alloc.{granted, offer}
use dns_desktop.Dhcp.Pool.Query.{lookup_addr}
use dns_desktop.Dhcp.Pool.Invariant.{StateOk, EntryOk, IsPool}
use dns_desktop.Dhcp.Pool.Safety.{expire_entry_live, lookup-put_bound}
use dns_desktop.Dhcp.Pool.Pointers.{pointer}
use dns_desktop.Dhcp.Pool.Keeping.{offer-pointed}

offer-leased_target :
    (p : Pool) (now : ℕ) (key : Bytes) (req : Addr) (hw hostname : Bytes) (a : Addr) (e : Entry)
    → null key ≡ false
    → pointer p key ≡ some a
    → lookup a p.entries ≡ some e
    → e.state ≡ leased
    → now < e.expires
    → offer p now key req hw hostname
      ≡ granted (expire p now) (bound p e key hw hostname now false) key
unfolding expire
offer-leased_target p now key req hw hostname a e named h found is_leased lives =
    offer-pointed p now key req hw hostname a e named h found
    ∙ ap (λ x. granted (expire p now) (bound p x key hw hostname now (is_reserved x.state)) key)
        (expire_entry_live now e (inr (inl is_leased, lives)))
    ∙ ap (λ st. granted (expire p now) (bound p e key hw hostname now (is_reserved st)) key)
        is_leased

lookup_addr-leased :
    (p : Pool) (now : ℕ) (a : Addr) (e : Entry)
    → IsPool p
    → lookup a p.entries ≡ some e
    → e.state ≡ leased
    → now < e.expires
    → lookup_addr p now a ≡ some (lease_of e)
unfolding lookup_addr
lookup_addr-leased p now a e v found is_leased lives =
    let fine = subst (λ st. StateOk st e) is_leased (subst (EntryOk a) found (v.entry a)).1 in
    rw found (ground arith)

lookup_addr-offered :
    (p : Pool) (t : ℕ) (a : Addr) (e : Entry)
    → lookup a p.entries ≡ some e
    → e.state ≡ offered
    → lookup_addr p t a ≡ none
unfolding lookup_addr
lookup_addr-offered p t a e found is_offered = rw found (ground arith)

-- In a well-formed pool a client whose key still points at an address that another client has
-- leased by now, with a lease that has not ended, takes it over with `Offer`: before the call the
-- other client holds the address, after it nobody does at any time, and the address is the one that
-- is offered.
pub offer_takes_over :
    (p : Pool) (now : ℕ) (key : Bytes) (req : Addr) (hw hostname : Bytes) (a : Addr) (e : Entry)
    (t : ℕ)
    → IsPool p
    → null key ≡ false
    → pointer p key ≡ some a
    → lookup a p.entries ≡ some e
    → e.state ≡ leased
    → now < e.expires
    → e.key ≢ key
    → (lookup_addr p now a ≡ some (lease_of e))
      × (lookup_addr (offer p now key req hw hostname).0 t a ≡ none)
      × ((offer p now key req hw hostname).1 ≡ ok (lease_of (bound p e key hw hostname now false)))
unfolding expire
offer_takes_over p now key req hw hostname a e t v named h found is_leased lives other =
    let at_a = (subst (EntryOk a) found (v.entry a)).0 in
    let it = offer-leased_target p now key req hw hostname a e named h found is_leased lives in
    let b = bound p e key hw hostname now false in
    (
      lookup_addr-leased p now a e v found is_leased lives,
      ap (λ r. lookup_addr r.0 t a) it
          ∙ lookup_addr-offered (put_bound (expire p now) b key) t a b
              (lookup-put_bound (expire p now) b key a at_a) refl,
      ap (λ r. r.1) it,
    )

available-own :
    (e : Entry) (key : Bytes) → e.state ≡ reserved → e.key ≡ key → available e key ≡ true
unfolding available
available-own e key is_reserved mine = ground (arith, bytes_eq_iff e.key key)

offer-unpointed :
    (p : Pool) (now : ℕ) (key hw hostname : Bytes) (a : Addr) (e : Entry)
    → null key ≡ false
    → pointer p key ≡ none
    → lookup a p.entries ≡ some e
    → e.state ≡ reserved
    → e.key ≡ key
    → offer p now key a hw hostname
      ≡ granted (expire p now) (bound p e key hw hostname now false) key
unfolding offer expire entry_of_key
offer-unpointed p now key hw hostname a e named h found is_reserved mine =
    rw
      (
        named,
        h,
        lookup-map_values (expire_entry now) a p.entries,
        found,
        expire_entry_live now e (inl is_reserved),
        available-own e key is_reserved mine,
      )
      refl

lookup-expired :
    (p : Pool) (t : ℕ) (a : Addr) (e : Entry)
    → lookup a p.entries ≡ some e
    → e.state ≡ offered
    → 0 < e.expires
    → e.expires ≤ t
    → lookup a (expire p t).entries ≡ some (freed e e.expires)
unfolding expire expire_entry
lookup-expired p t a e found is_offered ends late =
    rw (lookup-map_values (expire_entry t) a p.entries, found) (ground arith)

-- Where a client has no pointer, as after a decline of its own, and asks for the address that is
-- reserved for it, `Offer` on a well-formed pool turns the reservation into an offer that ends: when
-- the time of an offer has passed, nobody holds the address, and it is free for every client.
pub offer_loses_reservation :
    (p : Pool) (now : ℕ) (key hw hostname : Bytes) (a : Addr) (e : Entry) (t : ℕ)
    → IsPool p
    → null key ≡ false
    → pointer p key ≡ none
    → lookup a p.entries ≡ some e
    → e.state ≡ reserved
    → e.key ≡ key
    → now + p.offer_ttl ≤ t
    → (lookup_addr (offer p now key a hw hostname).0 t a ≡ none)
      × (x : Entry) × (lookup a (expire (offer p now key a hw hostname).0 t).entries ≡ some x)
      × (x.state ≡ free)
offer_loses_reservation p now key hw hostname a e t v named h found is_reserved mine late =
    let b = bound p e key hw hostname now false in
    let at_a = (subst (EntryOk a) found (v.entry a)).0 in
    let it = offer-unpointed p now key hw hostname a e named h found is_reserved mine in
    let put = lookup-put_bound (expire p now) b key a at_a in
    (
      ap (λ r. lookup_addr r.0 t a) it
          ∙ lookup_addr-offered (put_bound (expire p now) b key) t a b put refl,
      freed b b.expires,
      ap (λ r. lookup a (expire r.0 t).entries) it
          ∙ lookup-expired (put_bound (expire p now) b key) t a b put refl
              (omega (arith, v.offer_pos)) late,
      refl,
    )
