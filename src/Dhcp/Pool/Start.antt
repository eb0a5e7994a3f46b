-- ===== src/Dhcp/Pool/Start.antt =====
-- `NewPool` of internal/dhcp/pool.go starts from a well-formed pool.
use dns_desktop.Common.{
  ℕ, zero, suc, ◌<◌, ◌≡◌, refl, sym, ap, ◌∙◌, subst, inl, inr, true, false, not, ◌&&◌, Option, none,
  some, List, [], ◌∷◌, Bytes, null, arith, ◌==◌, bytes_eq_instance, bytes_eq_iff, if◌then◌else◌,
  Bool-cases, eq_of_true, eq_true, Result, ok, err,
}
use dns_desktop.Common.Int.{ℤ, pos, negsuc}
use dns_desktop.Common.Dict.{Dict, lookup, insert, lookup-insert}
use dns_desktop.Net.{Addr, addr_eq_instance, contains, Prefix}
use dns_desktop.Dhcp.Pool.{
  State, free, offered, leased, declined, reserved, Entry, blank, Pool, Reservation, put_bound,
  is_reserved,
}
use dns_desktop.Dhcp.Pool.New.{
  PoolOptions, NewError, or_duration, blank_entries, reserve_entry, reserve_at, reserve,
  reserve_all, empty_pool, reserved_elsewhere, default_lease, default_offer_hold,
}
use dns_desktop.Dhcp.Pool.Invariant.{StateOk, EntryOk, TargetOk, KeyOk, IsPool}

-- Before the pool is shared an address is free or reserved.
abbrev FreshState : State → Entry → Type 0
FreshState free e = e.expires ≡ 0
FreshState reserved e = (null e.key ≡ false) × (e.expires ≡ 0)
FreshState _ e = ⊥

abbrev FreshEntry : Addr → Option Entry → Type 0
FreshEntry a none = Unit
FreshEntry a (some e) = (e.addr ≡ a) × FreshState e.state e

-- Every key points at its reservation.
abbrev FreshTarget : Bytes → Option Entry → Type 0
FreshTarget k none = ⊥
FreshTarget k (some e) = (is_reserved e.state ≡ true) × (e.key ≡ k)

abbrev FreshKey : Dict Addr Entry → Bytes → Option Addr → Type 0
FreshKey entries k none = Unit
FreshKey entries k (some a) = FreshTarget k (lookup a entries)

record IsFresh (p : Pool) : Type 0 where
  lease_pos : 0 < p.lease
  offer_pos : 0 < p.offer_ttl
  entry : (a : Addr) → FreshEntry a (lookup a p.entries)
  keyed : (k : Bytes) → FreshKey p.entries k (lookup k p.by_key)

EntryOk-of_fresh : (a : Addr) (o : Option Entry) → FreshEntry a o → EntryOk a o
EntryOk-of_fresh a none h = tt
EntryOk-of_fresh a (some e) h = (h.0, go e.state h.1)
  where
    go : (s : State) → FreshState s e → StateOk s e
    go free x = x
    go reserved x = x
    go offered x = absurd x
    go leased x = absurd x
    go declined x = absurd x

KeyOk-of_fresh :
    (entries : Dict Addr Entry) (k : Bytes) (o : Option Addr)
    → FreshKey entries k o
    → KeyOk entries k o
KeyOk-of_fresh entries k none h = tt
KeyOk-of_fresh entries k (some a) h = go (lookup a entries) h
  where
    go : (o : Option Entry) → FreshTarget k o → TargetOk k o
    go none x = x
    go (some e) x = λ _. x.1

IsPool-of_fresh : (p : Pool) → IsFresh p → IsPool p
IsPool-of_fresh p v = record {
  lease_pos = v.lease_pos;
  offer_pos = v.offer_pos;
  entry = λ a. EntryOk-of_fresh a (lookup a p.entries) (v.entry a);
  keyed = λ k. KeyOk-of_fresh p.entries k (lookup k p.by_key) (v.keyed k);
}

FreshEntry-if :
    (a b : Addr) (e : Entry) (o : Option Entry)
    → FreshEntry a (some e)
    → FreshEntry b o
    → FreshEntry b (if a == b then some e else o)
FreshEntry-if a b e o he ho = elim (Bool-cases (a == b)) [
  | inl same ↦ rw same (he.0 ∙ eq_of_true a b same, he.1)
  | inr other ↦ rw other ho
]

-- The reserved entry, where the one before is absent, free, or reserved for the same key.
module _ (p : Pool) (e : Entry) (v : IsFresh p) (o : Option Entry)
    (found : lookup e.addr p.entries ≡ o) where
  FreshTarget-if :
      (k : Bytes) (b : Addr)
      → (FreshTarget k o → k ≡ e.key)
      → is_reserved e.state ≡ true
      → FreshTarget k (lookup b p.entries)
      → FreshTarget k (if e.addr == b then some e else lookup b p.entries)
  FreshTarget-if k b same_key is_res t = elim (Bool-cases (e.addr == b)) [
    | inl same ↦ rw same (
      is_res,
      sym (
          same_key (
            subst (FreshTarget k)
              (ap (λ c. lookup c p.entries) (sym (eq_of_true e.addr b same)) ∙ found) t)),
    )
    | inr other ↦ rw other t
  ]

  put_reserved-IsFresh :
      FreshState e.state e
      → is_reserved e.state ≡ true
      → ((k : Bytes) → FreshTarget k o → k ≡ e.key)
      → IsFresh (put_bound p e e.key)
  put_reserved-IsFresh fine is_res same_key = record {
    lease_pos = v.lease_pos;
    offer_pos = v.offer_pos;
    entry = λ b.
        rw lookup-insert (FreshEntry-if e.addr b e (lookup b p.entries) (refl, fine) (v.entry b));
    keyed = λ k. rw (lookup-insert e.key k e.addr p.by_key) (go k (lookup k p.by_key) (v.keyed k));
  }
    where
      kept :
          (k : Bytes) (c : Option Addr)
          → FreshKey p.entries k c
          → FreshKey (insert e.addr e p.entries) k c
      kept k none h = tt
      kept k (some b) h = rw lookup-insert (FreshTarget-if k b (same_key k) is_res h)

      go :
          (k : Bytes) (c : Option Addr)
          → FreshKey p.entries k c
          → FreshKey (insert e.addr e p.entries) k (if e.key == k then some e.addr else c)
      go k c h = elim (Bool-cases (e.key == k)) [
        | inl same ↦
            rw (same, lookup-insert e.addr e.addr e p.entries, eq_true e.addr)
              (is_res, eq_of_true e.key k same)
        | inr other ↦ rw other (kept k c h)
      ]

-- The entry that `reserve` writes.
abbrev reserved_entry : Entry → Reservation → Entry
reserved_entry e r = record e { state = reserved; key = r.key; hostname = r.hostname }

Ok-IsFresh : Result NewError Pool → Type 0
Ok-IsFresh (ok p) = IsFresh p
Ok-IsFresh (err e) = Unit

reserve_entry-IsFresh :
    (p : Pool) (r : Reservation) (e : Entry) (o : Option Entry)
    → IsFresh p
    → null r.key ≡ false
    → lookup e.addr p.entries ≡ o
    → e.expires ≡ 0
    → ((k : Bytes) → FreshTarget k o → (is_reserved e.state ≡ true) × (e.key ≡ k))
    → Ok-IsFresh (reserve_entry p r e)
unfolding Ok-IsFresh
reserve_entry-IsFresh p r e o v named found unended held =
    elim (Bool-cases (is_reserved e.state && not (e.key == r.key))) [
      | inl twice ↦ rw twice tt
      | inr once ↦ rw once (elim (Bool-cases (reserved_elsewhere (lookup r.key p.by_key) r.addr)) [
        | inl two ↦ rw two tt
        | inr one ↦ rw one (
            put_reserved-IsFresh p (reserved_entry e r) v o found (named, unended) refl
              λ k t. ground (arith, held k t, bytes_eq_iff e.key r.key))
      ])
    ]

FreshEntry_parts : (e : Entry) → FreshState e.state e → e.expires ≡ 0
FreshEntry_parts e h = go e.state h
  where
    go : (s : State) → FreshState s e → e.expires ≡ 0
    go free x = x
    go reserved x = x.1
    go offered x = absurd x
    go leased x = absurd x
    go declined x = absurd x

reserve_at-IsFresh :
    (p : Pool) (r : Reservation) (o : Option Entry)
    → IsFresh p
    → null r.key ≡ false
    → lookup r.addr p.entries ≡ o
    → FreshEntry r.addr o
    → Ok-IsFresh (reserve_at p r o)
unfolding Ok-IsFresh
reserve_at-IsFresh p r none v named found h = elim (Bool-cases (contains p.subnet r.addr)) [
  | inl inside ↦
      rw inside (reserve_entry-IsFresh p r (blank r.addr) none v named found refl (λ k t. absurd t))
  | inr outside ↦ rw outside tt
]
reserve_at-IsFresh p r (some e) v named found h =
    reserve_entry-IsFresh p r e (some e) v named (ap (λ a. lookup a p.entries) h.0 ∙ found)
      (FreshEntry_parts e h.1) (λ k t. t)

reserve-IsFresh : (p : Pool) (r : Reservation) → IsFresh p → Ok-IsFresh (reserve p r)
unfolding reserve
reserve-IsFresh p r v = elim (Bool-cases (null r.key)) [
  | inl e ↦ rw e (unfold Ok-IsFresh in tt)
  | inr e ↦ rw e (reserve_at-IsFresh p r (lookup r.addr p.entries) v e refl (v.entry r.addr))
]

reserve_all-IsFresh :
    (x : Result NewError Pool) (rs : List Reservation)
    → Ok-IsFresh x
    → Ok-IsFresh (reserve_all x rs)
unfolding reserve_all Ok-IsFresh
reserve_all-IsFresh (err e) rs h = tt
reserve_all-IsFresh (ok p) [] h = h
reserve_all-IsFresh (ok p) (r ∷ rs) h = reserve_all-IsFresh (reserve p r) rs (reserve-IsFresh p r h)

blank_entries-FreshEntry :
    (addrs : List Addr) (a : Addr) → FreshEntry a (lookup a (blank_entries addrs))
unfolding lookup blank_entries
blank_entries-FreshEntry [] a = tt
blank_entries-FreshEntry (b ∷ addrs) a = elim (Bool-cases (b == a)) [
  | inl same ↦ rw same (eq_of_true b a same, refl)
  | inr other ↦ rw other (blank_entries-FreshEntry addrs a)
]

or_duration_pos : (d : ℤ) (default : ℕ) → 0 < default → 0 < or_duration d default
or_duration_pos (pos zero) default h = h
or_duration_pos (pos (suc n)) default h = omega arith
or_duration_pos (negsuc n) default h = h

empty_pool-IsFresh :
    (opts : PoolOptions) (subnet : Prefix) (addrs : List Addr)
    → IsFresh (empty_pool opts subnet addrs)
unfolding lookup
empty_pool-IsFresh opts subnet addrs = record {
  lease_pos = or_duration_pos opts.lease default_lease (omega arith);
  offer_pos = or_duration_pos opts.offer_hold default_offer_hold (omega arith);
  entry = blank_entries-FreshEntry addrs;
  keyed = λ k. tt;
}

-- The pool that the reservations make of the blank one.
pub reserve_all-IsPool :
    (opts : PoolOptions) (subnet : Prefix) (addrs : List Addr) (rs : List Reservation) (p : Pool)
    → reserve_all (ok (empty_pool opts subnet addrs)) rs ≡ ok p
    → IsPool p
unfolding Ok-IsFresh
reserve_all-IsPool opts subnet addrs rs p made = IsPool-of_fresh p (
    subst Ok-IsFresh made (
      reserve_all-IsFresh (ok (empty_pool opts subnet addrs)) rs
        (empty_pool-IsFresh opts subnet addrs)))
