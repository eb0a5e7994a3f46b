-- ===== src/Dhcp/Pool/Invariant.antt =====
-- The well-formed pools of internal/dhcp/pool.go, and the primitive writes that keep them so.
use mathlib.Core.Option
use dns_desktop.Common.{
  ℕ, ◌<◌, ◌≡◌, refl, sym, ap, ◌∙◌, inl, inr, true, false, Option, none, some, Bytes, null, arith,
  ◌==◌, ℕ_eq, bytes_eq_instance, if◌then◌else◌, Bool-cases, eq_of_true, eq_true, subst,
}
use dns_desktop.Common.Dict.{
  Dict, lookup, insert, remove, map_values, lookup-insert, lookup-remove, lookup-map_values,
}
use dns_desktop.Net.{Addr, addr_eq_instance}
use dns_desktop.Dhcp.Pool.{
  State, free, offered, leased, declined, reserved, Entry, Pool, put_entry, put_bound, is_reserved,
  expire, expire_entry,
}

-- What a state says of the entry: who holds it, and whether it ends.
abbrev pub StateOk : State → Entry → Type 0
StateOk free e = e.expires ≡ 0
StateOk offered e = (null e.key ≡ false) × (0 < e.expires)
StateOk leased e = (null e.key ≡ false) × (0 < e.expires)
StateOk declined e = (null e.key ≡ true) × (e.expires ≡ 0)
StateOk reserved e = (null e.key ≡ false) × (e.expires ≡ 0)

abbrev pub EntryOk : Addr → Option Entry → Type 0
EntryOk a none = Unit
EntryOk a (some e) = (e.addr ≡ a) × StateOk e.state e

-- A key that points at a reservation is the key that it is reserved for.
abbrev pub TargetOk : Bytes → Option Entry → Type 0
TargetOk k none = ⊥
TargetOk k (some e) = is_reserved e.state ≡ true → e.key ≡ k

abbrev pub KeyOk : Dict Addr Entry → Bytes → Option Addr → Type 0
KeyOk entries k none = Unit
KeyOk entries k (some a) = TargetOk k (lookup a entries)

pub record IsPool (p : Pool) : Type 0 where
  pub lease_pos : 0 < p.lease
  pub offer_pos : 0 < p.offer_ttl
  pub entry : (a : Addr) → EntryOk a (lookup a p.entries)
  pub keyed : (k : Bytes) → KeyOk p.entries k (lookup k p.by_key)

-- A write to an entry that is there. It makes no reservation and gives none to another key.
abbrev pub KeepsReserved : Entry → Entry → Type 0
KeepsReserved old e =
    is_reserved e.state ≡ true → (is_reserved old.state ≡ true) × (e.key ≡ old.key)

EntryOk-if :
    (a b : Addr) (e : Entry) (o : Option Entry)
    → EntryOk a (some e)
    → EntryOk b o
    → EntryOk b (if a == b then some e else o)
EntryOk-if a b e o ok_e ok_o = elim (Bool-cases (a == b)) [
  | inl same ↦ rw same (ok_e.0 ∙ eq_of_true a b same, ok_e.1)
  | inr other ↦ rw other ok_o
]

TargetOk-if :
    (k : Bytes) (a b : Addr) (old e : Entry) (entries : Dict Addr Entry)
    → lookup a entries ≡ some old
    → KeepsReserved old e
    → TargetOk k (lookup b entries)
    → TargetOk k (if a == b then some e else lookup b entries)
TargetOk-if k a b old e entries found keeps t = elim (Bool-cases (a == b)) [
  | inl same ↦ rw same (λ r.
      (keeps r).1
      ∙ subst (TargetOk k) (ap (λ c. lookup c entries) (sym (eq_of_true a b same)) ∙ found) t
          (keeps r).0)
  | inr other ↦ rw other t
]

KeyOk-insert :
    (k : Bytes) (a : Addr) (old e : Entry) (entries : Dict Addr Entry) (o : Option Addr)
    → lookup a entries ≡ some old
    → KeepsReserved old e
    → KeyOk entries k o
    → KeyOk (insert a e entries) k o
KeyOk-insert k a old e entries none found keeps h = tt
KeyOk-insert k a old e entries (some b) found keeps h =
    rw lookup-insert (TargetOk-if k a b old e entries found keeps h)

KeyOk-if :
    (entries : Dict Addr Entry) (j k : Bytes) (a : Addr) (o : Option Addr)
    → KeyOk entries j (some a)
    → KeyOk entries k o
    → KeyOk entries k (if j == k then some a else o)
KeyOk-if entries j k a o hj hk = elim (Bool-cases (j == k)) [
  | inl same ↦ rw same (subst (λ i. KeyOk entries i (some a)) (eq_of_true j k same) hj)
  | inr other ↦ rw other hk
]

module _ (p : Pool) (old e : Entry) (v : IsPool p) where
  pub put_entry-IsPool :
      lookup e.addr p.entries ≡ some old
      → StateOk e.state e
      → KeepsReserved old e
      → IsPool (put_entry p e)
  put_entry-IsPool found fine keeps = record {
    lease_pos = v.lease_pos;
    offer_pos = v.offer_pos;
    entry =
        λ b. rw lookup-insert (EntryOk-if e.addr b e (lookup b p.entries) (refl, fine) (v.entry b));
    keyed = λ k. KeyOk-insert k e.addr old e p.entries (lookup k p.by_key) found keeps (v.keyed k);
  }

  -- The same with the key's pointer set to the entry.
  pub put_bound-IsPool :
      (key : Bytes)
      → lookup e.addr p.entries ≡ some old
      → StateOk e.state e
      → KeepsReserved old e
      → e.key ≡ key
      → IsPool (put_bound p e key)
  put_bound-IsPool key found fine keeps mine =
      let w = put_entry-IsPool found fine keeps in
      record {
        lease_pos = v.lease_pos;
        offer_pos = v.offer_pos;
        entry = w.entry;
        keyed = λ k. rw (lookup-insert key k e.addr p.by_key) (
            KeyOk-if (insert e.addr e p.entries) key k e.addr (lookup k p.by_key)
              (rw (lookup-insert e.addr e.addr e p.entries, eq_true e.addr) (λ _. mine))
              (w.keyed k));
      }

-- Time frees leases and offers, and touches nothing else.
expire_entry-StateOk :
    (now : ℕ) (e : Entry)
    → StateOk e.state e
    → StateOk (expire_entry now e).state (expire_entry now e)
unfolding expire_entry
expire_entry-StateOk now e h = ground arith

pub expire_entry_keeps :
    (now : ℕ) (e : Entry)
    → ((expire_entry now e).addr ≡ e.addr)
      × ((expire_entry now e).key ≡ e.key)
      × (is_reserved (expire_entry now e).state ≡ is_reserved e.state)
unfolding expire_entry
expire_entry_keeps now e = ground arith

expire-EntryOk :
    (now : ℕ) (a : Addr) (o : Option Entry)
    → EntryOk a o
    → EntryOk a (Option.map (expire_entry now) o)
expire-EntryOk now a none h = tt
expire-EntryOk now a (some e) h =
    ((expire_entry_keeps now e).0 ∙ h.0, expire_entry-StateOk now e h.1)

expire-TargetOk :
    (now : ℕ) (k : Bytes) (o : Option Entry)
    → TargetOk k o
    → TargetOk k (Option.map (expire_entry now) o)
expire-TargetOk now k none h = h
expire-TargetOk now k (some e) h =
    λ r. (expire_entry_keeps now e).1 ∙ h (sym (expire_entry_keeps now e).2 ∙ r)

expire-KeyOk :
    (now : ℕ) (entries : Dict Addr Entry) (k : Bytes) (o : Option Addr)
    → KeyOk entries k o
    → KeyOk (map_values (expire_entry now) entries) k o
expire-KeyOk now entries k none h = tt
expire-KeyOk now entries k (some a) h =
    rw lookup-map_values (expire-TargetOk now k (lookup a entries) h)

pub expire-IsPool : (p : Pool) (now : ℕ) → IsPool p → IsPool (expire p now)
unfolding expire
expire-IsPool p now v = record {
  lease_pos = v.lease_pos;
  offer_pos = v.offer_pos;
  entry = λ a. rw lookup-map_values (expire-EntryOk now a (lookup a p.entries) (v.entry a));
  keyed = λ k. expire-KeyOk now p.entries k (lookup k p.by_key) (v.keyed k);
}

KeyOk-remove :
    (entries : Dict Addr Entry) (j k : Bytes) (o : Option Addr)
    → KeyOk entries k o
    → KeyOk entries k (if j == k then none else o)
KeyOk-remove entries j k o h = elim (Bool-cases (j == k)) [
  | inl same ↦ rw same tt
  | inr other ↦ rw other h
]

-- A key forgotten.
pub remove-IsPool :
    (p : Pool) (key : Bytes) → IsPool p → IsPool (record p { by_key = remove key p.by_key })
remove-IsPool p key v = record {
  lease_pos = v.lease_pos;
  offer_pos = v.offer_pos;
  entry = v.entry;
  keyed = λ k.
      rw (lookup-remove key k p.by_key)
        (KeyOk-remove p.entries key k (lookup k p.by_key) (v.keyed k));
}
