-- ===== src/Dhcp/Pool/Reservations.antt =====
-- Writes to the pool of internal/dhcp/pool.go that keep one reservation.
use mathlib.Core.Option
use dns_desktop.Common.{
  ℕ, ◌≡◌, ◌≢◌, refl, sym, ap, ◌∙◌, subst, inl, inr, Bool, true, false, not, ◌&&◌, Option, none,
  some, Bytes, arith, ◌==◌, ℕ_eq, bytes_eq_instance, bytes_eq_iff, if◌then◌else◌, Bool-cases,
  eq_of_true,
}
use dns_desktop.Common.Dict.{Dict, lookup, lookup-insert, lookup-map_values}
use dns_desktop.Net.{Addr, addr_eq_instance}
use dns_desktop.Dhcp.Pool.{
  Entry, Pool, freed, bound, put_entry, put_bound, is_reserved, available, expire, expire_entry,
  entry_at, entry_of_key, least_recently_freed,
}
use dns_desktop.Dhcp.Pool.Alloc.{
  offer_free, offer_requested, offer_known, leave_entry, leave, committed, commit_entry,
}
use dns_desktop.Dhcp.Pool.Invariant.{KeyOk, TargetOk, IsPool, expire_entry_keeps}
use dns_desktop.Dhcp.Pool.Located.{
  IsLocated, IsMine, lookup-IsLocated, entry_of_key-IsLocated, least_recently_freed-IsLocated,
}
use dns_desktop.Dhcp.Pool.Preserve.{leave-lookup}
use dns_desktop.Dhcp.Pool.Choice.{IsFree?, least_recently_freed-IsFree?}
use dns_desktop.Dhcp.Pool.Pointers.{pointer}

-- An entry that is reserved for the key `k`.
abbrev pub ReservedFor : Bytes → Option Entry → Type 0
ReservedFor k none = ⊥
ReservedFor k (some e) = (is_reserved e.state ≡ true) × (e.key ≡ k)

-- The address `a` is reserved for the client `k`, and the client's key points somewhere.
abbrev pub Reserves : Addr → Bytes → Pool → Type 0
Reserves a k p = ReservedFor k (lookup a p.entries) × (pointer p k ≢ none)

pub ReservedFor-if :
    (b a : Addr) (k : Bytes) (entries : Dict Addr Entry) (old e : Entry)
    → lookup b entries ≡ some old
    → (ReservedFor k (some old) → ReservedFor k (some e))
    → ReservedFor k (lookup a entries)
    → ReservedFor k (if b == a then some e else lookup a entries)
ReservedFor-if b a k entries old e found keeps h = elim (Bool-cases (b == a)) [
  | inl same ↦ rw same (
      keeps
        (subst (ReservedFor k) (ap (λ c. lookup c entries) (sym (eq_of_true b a same)) ∙ found) h))
  | inr other ↦ rw other h
]

module _ (a : Addr) (k : Bytes) (p : Pool) where
  pub put_entry-Reserves :
      (old e : Entry)
      → lookup e.addr p.entries ≡ some old
      → (ReservedFor k (some old) → ReservedFor k (some e))
      → Reserves a k p
      → Reserves a k (put_entry p e)
  put_entry-Reserves old e found keeps h = (
    rw (lookup-insert e.addr a e p.entries)
        (ReservedFor-if e.addr a k p.entries old e found keeps h.0),
    h.1,
  )

  if_some : (b : Bool) (c : Addr) (o : Option Addr) → o ≢ none → (if b then some c else o) ≢ none
  if_some true c o h e = cc
  if_some false c o h e = h e

  put_bound-Reserves :
      (old e : Entry) (key : Bytes)
      → lookup e.addr p.entries ≡ some old
      → (ReservedFor k (some old) → ReservedFor k (some e))
      → Reserves a k p
      → Reserves a k (put_bound p e key)
  put_bound-Reserves old e key found keeps h = (
    (put_entry-Reserves old e found keeps h).0,
    rw (lookup-insert key k e.addr p.by_key) (if_some (key == k) e.addr (pointer p k) h.1),
  )

  expire-ReservedFor :
      (now : ℕ) (o : Option Entry)
      → ReservedFor k o
      → ReservedFor k (Option.map (expire_entry now) o)
  expire-ReservedFor now none h = h
  expire-ReservedFor now (some e) h =
      ((expire_entry_keeps now e).2 ∙ h.0, (expire_entry_keeps now e).1 ∙ h.1)

  pub expire-Reserves : (now : ℕ) → Reserves a k p → Reserves a k (expire p now)
  unfolding expire
  expire-Reserves now h = (
    rw (lookup-map_values (expire_entry now) a p.entries)
        (expire-ReservedFor now (lookup a p.entries) h.0),
    h.1,
  )

-- The key of a client that has a pointer has an entry.
entry_of_key-some : (p : Pool) (k : Bytes) → IsPool p → pointer p k ≢ none → entry_of_key p k ≢ none
unfolding entry_of_key
entry_of_key-some p k v h = go (lookup k p.by_key) (v.keyed k) h
  where
    at : (o : Option Entry) → TargetOk k o → o ≢ none
    at none t e = t
    at (some x) t e = cc

    go : (o : Option Addr) → KeyOk p.entries k o → o ≢ none → entry_at p o ≢ none
    go none t n e = n refl
    go (some b) t n e = at (lookup b p.entries) t e

module _ (a : Addr) (k : Bytes) (p : Pool) (now : ℕ) (key hw hostname : Bytes) (v : IsPool p)
    (h : Reserves a k p) where
  offer_free-Reserves :
      (o : Option Entry)
      → IsLocated p.entries o
      → IsFree? o
      → Reserves a k (offer_free p now key hw hostname o).0
  offer_free-Reserves none l f = h
  offer_free-Reserves (some e) l f =
      put_bound-Reserves a k p e (bound p e key hw hostname now false) key l
        (λ r. absurd (ground (arith, r.0, f))) h

  chosen_free :
      Reserves a k
        (offer_free p now key hw hostname (least_recently_freed p.entries p.addrs none)).0
  chosen_free =
      offer_free-Reserves (least_recently_freed p.entries p.addrs none)
        (least_recently_freed-IsLocated p p.addrs none v tt)
        (least_recently_freed-IsFree? p.entries p.addrs none tt)

  -- A client without an entry is another one.
  offer_requested-Reserves :
      (o : Option Entry)
      → key ≢ k
      → IsLocated p.entries o
      → Reserves a k (offer_requested p now key hw hostname o).0
  unfolding available
  offer_requested-Reserves none other l = chosen_free
  offer_requested-Reserves (some e) other l = elim (Bool-cases (available e key)) [
    | inl yours ↦ rw yours (
        put_bound-Reserves a k p e (bound p e key hw hostname now false) key l
          (λ r. absurd (ground (arith, r.0, r.1, bytes_eq_iff e.key key))) h)
    | inr held ↦ rw held chosen_free
  ]

  pub offer_known-Reserves :
      (req : Addr) (o : Option Entry)
      → entry_of_key p key ≡ o
      → IsLocated p.entries o
      → IsMine key o
      → Reserves a k (offer_known p now key req hw hostname o).0
  offer_known-Reserves req none e l mine =
      offer_requested-Reserves (lookup req p.entries)
        (λ same. entry_of_key-some p k v h.1 (ap (entry_of_key p) (sym same) ∙ e))
        (lookup-IsLocated p req v)
  offer_known-Reserves req (some x) e l mine =
      put_bound-Reserves a k p x (bound p x key hw hostname now (is_reserved x.state)) key l
        (λ r. (ground (arith, r.0), sym (mine r.0) ∙ r.1)) h

  leave_entry-Reserves :
      (b : Addr) (o : Option Entry) → IsLocated p.entries o → Reserves a k (leave_entry p now b o)
  leave_entry-Reserves b none l = h
  leave_entry-Reserves b (some prev) l =
      elim (Bool-cases (not (prev.addr == b) && not (is_reserved prev.state))) [
        | inl moves ↦
            rw moves (
              put_entry-Reserves a k p prev (freed prev now) l (λ r. absurd (ground (arith, r.0)))
                h)
        | inr stays ↦ rw stays h
      ]

  pub commit_entry-Reserves :
      (o : Option Entry)
      → IsLocated p.entries o
      → Reserves a k (commit_entry p now key hw hostname o).0
  unfolding available leave
  commit_entry-Reserves none l = h
  commit_entry-Reserves (some e) l = elim (Bool-cases (available e key)) [
    | inl yours ↦ rw yours (
        put_bound-Reserves a k (leave p now key e.addr) e (committed p e key hw hostname now) key
          (leave-lookup p now key e.addr ∙ l)
          (λ r. (ground (arith, r.0), ground (arith, r.0, r.1, bytes_eq_iff e.key key)))
          (leave_entry-Reserves e.addr (entry_of_key p key) (entry_of_key-IsLocated p key v).0))
    | inr held ↦ rw held h
  ]
