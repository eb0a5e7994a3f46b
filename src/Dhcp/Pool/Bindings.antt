-- ===== src/Dhcp/Pool/Bindings.antt =====
-- Writes to the pool of internal/dhcp/pool.go that leave one live binding alone.
use mathlib.Core.Option
use dns_desktop.Common.{
  ℕ, ◌≡◌, ◌≢◌, sym, ap, ◌∙◌, subst, inl, inr, true, false, not, ◌&&◌, ◌||◌, Option, none, some,
  Bytes, null, arith, ◌==◌, ℕ_eq, bytes_eq_instance, bytes_eq_iff, Bool-cases, eq_of_true,
}
use dns_desktop.Common.Dict.{lookup, lookup-insert, lookup-map_values}
use dns_desktop.Net.{Addr, addr_eq_instance}
use dns_desktop.Dhcp.Pool.{
  free, declined, Entry, blank, Pool, freed, bound, put_entry, is_reserved, available, expire,
  expire_entry, entry_at, entry_of_key, least_recently_freed,
}
use dns_desktop.Dhcp.Pool.Alloc.{
  offer_free, offer_requested, offer_known, leave_entry, leave, committed, commit_entry,
}
use dns_desktop.Dhcp.Pool.Return.{release_entry, decline_entry}
use dns_desktop.Dhcp.Pool.Invariant.{StateOk, EntryOk, IsPool, expire_entry_keeps}
use dns_desktop.Dhcp.Pool.Located.{
  IsLocated, lookup-IsLocated, entry_of_key-IsLocated, least_recently_freed-IsLocated,
}
use dns_desktop.Dhcp.Pool.Preserve.{leave-lookup}
use dns_desktop.Dhcp.Pool.Choice.{IsFree?, least_recently_freed-IsFree?}
use dns_desktop.Dhcp.Pool.Safety.{IsLive, expire_entry_live, available_live}

-- The entry that a client's key points at is the client's own.
abbrev pub IsOwn : Bytes → Option Entry → Type 0
IsOwn key none = Unit
IsOwn key (some e) = e.key ≡ key

-- The binding `x` of the address `b`.
abbrev pub Binds : Addr → Entry → Pool → Type 0
Binds b x p = lookup b p.entries ≡ some x

some-injective : (x y : Entry) → some x ≡ some y → x ≡ y
some-injective x y h = ground arith

module _ (b : Addr) (x : Entry) where
  pub put-Binds :
      (p : Pool) (old e : Entry)
      → lookup e.addr p.entries ≡ some old
      → old ≢ x
      → Binds b x p
      → Binds b x (put_entry p e)
  put-Binds p old e located other h = elim (Bool-cases (e.addr == b)) [
    | inl same ↦ absurd (
        other (
          some-injective old x
            (sym located ∙ (ap (λ c. lookup c p.entries) (eq_of_true e.addr b same) ∙ h))))
    | inr differs ↦ rw (lookup-insert e.addr b e p.entries, differs) h
  ]

  pub expire-Binds : (p : Pool) (now : ℕ) → IsLive now x → Binds b x p → Binds b x (expire p now)
  unfolding expire
  expire-Binds p now live h =
      lookup-map_values (expire_entry now) b p.entries
      ∙ (ap (Option.map (expire_entry now)) h ∙ ap some (expire_entry_live now x live))

pub expire-IsOwn :
    (p : Pool) (now : ℕ) (key : Bytes)
    → IsOwn key (entry_of_key p key)
    → IsOwn key (entry_of_key (expire p now) key)
unfolding expire entry_of_key
expire-IsOwn p now key h = go (lookup key p.by_key) h
  where
    mapped : (o : Option Entry) → IsOwn key o → IsOwn key (Option.map (expire_entry now) o)
    mapped none h = tt
    mapped (some e) h = (expire_entry_keeps now e).1 ∙ h

    go : (o : Option Addr) → IsOwn key (entry_at p o) → IsOwn key (entry_at (expire p now) o)
    go none h = tt
    go (some c) h =
        rw (lookup-map_values (expire_entry now) c p.entries) (mapped (lookup c p.entries) h)

live_not_free : (now : ℕ) (x : Entry) → IsLive now x → x.state ≢ free
live_not_free now x live h = ground arith

pub live_not_declined : (now : ℕ) (x : Entry) → IsLive now x → x.state ≢ declined
live_not_declined now x live h = ground arith

module _ (b : Addr) (x : Entry) (p : Pool) (now : ℕ) (key hw hostname : Bytes) (v : IsPool p)
    (live : IsLive now x) (other : x.key ≢ key) (h : Binds b x p) where
  not_available : (e : Entry) → available e key ≡ true → e ≢ x
  not_available e yours same =
      absurd
        (ground (arith, yours, ap (λ y. available y key) same, available_live now x key live other))

  offer_free-Binds :
      (o : Option Entry)
      → IsLocated p.entries o
      → IsFree? o
      → Binds b x (offer_free p now key hw hostname o).0
  offer_free-Binds none l f = h
  offer_free-Binds (some e) l f =
      put-Binds b x p e (bound p e key hw hostname now false) l
        (λ same. live_not_free now x live (sym (ap Entry.state same) ∙ f)) h

  chosen-Binds :
      Binds b x (offer_free p now key hw hostname (least_recently_freed p.entries p.addrs none)).0
  chosen-Binds =
      offer_free-Binds (least_recently_freed p.entries p.addrs none)
        (least_recently_freed-IsLocated p p.addrs none v tt)
        (least_recently_freed-IsFree? p.entries p.addrs none tt)

  offer_requested-Binds :
      (o : Option Entry)
      → IsLocated p.entries o
      → Binds b x (offer_requested p now key hw hostname o).0
  offer_requested-Binds none l = chosen-Binds
  offer_requested-Binds (some e) l = elim (Bool-cases (available e key)) [
    | inl yours ↦
        rw yours
          (put-Binds b x p e (bound p e key hw hostname now false) l (not_available e yours) h)
    | inr held ↦ rw held chosen-Binds
  ]

  pub offer_known-Binds :
      (req : Addr) (o : Option Entry)
      → IsLocated p.entries o
      → IsOwn key o
      → Binds b x (offer_known p now key req hw hostname o).0
  offer_known-Binds req none l own =
      offer_requested-Binds (lookup req p.entries) (lookup-IsLocated p req v)
  offer_known-Binds req (some e) l own =
      put-Binds b x p e (bound p e key hw hostname now (is_reserved e.state)) l
        (λ same. other (sym (ap Entry.key same) ∙ own)) h

  leave_entry-Binds :
      (a : Addr) (o : Option Entry)
      → IsLocated p.entries o
      → IsOwn key o
      → Binds b x (leave_entry p now a o)
  leave_entry-Binds a none l own = h
  leave_entry-Binds a (some prev) l own =
      elim (Bool-cases (not (prev.addr == a) && not (is_reserved prev.state))) [
        | inl moves ↦ rw moves (
            put-Binds b x p prev (freed prev now) l (λ same. other (sym (ap Entry.key same) ∙ own))
              h)
        | inr stays ↦ rw stays h
      ]

  pub commit_entry-Binds :
      (o : Option Entry)
      → IsLocated p.entries o
      → IsOwn key (entry_of_key p key)
      → Binds b x (commit_entry p now key hw hostname o).0
  unfolding leave
  commit_entry-Binds none l own = h
  commit_entry-Binds (some e) l own = elim (Bool-cases (available e key)) [
    | inl yours ↦ rw yours (
        put-Binds b x (leave p now key e.addr) e (committed p e key hw hostname now)
          (leave-lookup p now key e.addr ∙ l) (not_available e yours)
          (leave_entry-Binds e.addr (entry_of_key p key) (entry_of_key-IsLocated p key v).0 own))
    | inr held ↦ rw held h
  ]

  pub release_entry-Binds :
      (o : Option Entry) → IsLocated p.entries o → Binds b x (release_entry p now key o)
  release_entry-Binds none l = h
  release_entry-Binds (some e) l = elim (Bool-cases (not (e.key == key) || is_reserved e.state)) [
    | inl stays ↦ rw stays h
    | inr mine ↦ rw mine (
        put-Binds b x p e (freed e now) l (λ same. other (sym (ap Entry.key same) ∙ own_key e mine))
          h)
  ]
    where
      own_key : (e : Entry) → (not (e.key == key) || is_reserved e.state) ≡ false → e.key ≡ key
      own_key e mine = ground (arith, bytes_eq_iff e.key key)

  -- A live binding has a key, so a decline that acts on it is its own client's.
  declined_own :
      (e : Entry)
      → StateOk e.state e
      → is_reserved e.state ≡ false
      → (not (null e.key) && not (e.key == key)) ≡ false
      → e ≢ x
  declined_own e fine plain mine same =
      other (ap Entry.key (sym same) ∙ own (subst (IsLive now) (sym same) live))
    where
      own : IsLive now e → e.key ≡ key
      own l = ground (arith, fine, plain, mine, bytes_eq_iff e.key key)

  pub decline_entry-Binds :
      (a : Addr) (o : Option Entry)
      → lookup a p.entries ≡ o
      → EntryOk a o
      → Binds b x (decline_entry p now key a o)
  decline_entry-Binds a none found fine = h
  decline_entry-Binds a (some e) found fine = elim (Bool-cases (is_reserved e.state)) [
    | inl kept ↦ rw kept h
    | inr plain ↦ rw plain (elim (Bool-cases (not (null e.key) && not (e.key == key))) [
      | inl others ↦ rw others h
      | inr mine ↦ rw mine (put-Binds b x p e taken_out found (declined_own e fine.1 plain mine) h)
    ])
  ]
    where
      taken_out : Entry
      taken_out = record (blank a) { state = declined; freed_at = now }
