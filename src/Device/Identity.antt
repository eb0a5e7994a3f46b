-- ===== src/Device/Identity.antt =====
-- What Identify and ObserveLease (internal/device/device.go) promise: a query gets the identity of the
-- device that lists its address, and a lease makes its address that device's.
use dns_desktop.Common.{
  ℕ, ◌<◌, ◌⊎◌, ◌≡◌, refl, sym, ap, ◌∙◌, inl, inr, true, false, Option, none, some, length, null,
  arith, leb, bytes_eq_instance, Bool-cases, Option-cases, eq_of_true, eq_true,
}
use dns_desktop.Common.Dict.{lookup, insert, lookup-insert}
use dns_desktop.Common.Elems.{points}
use dns_desktop.Net.{Addr, is_valid, unmap, addr_eq_instance}
use dns_desktop.Dhcp.Pool.{Lease}
use dns_desktop.Device.{DeviceId, Source, observed, dhcp, manual, Device, IndexEntry, Table}
use dns_desktop.Device.Locked.{new_device, put_device, add_device, entry_of, publish}
use dns_desktop.Device.Observe.{
  Client, identify, is_observed, device_at, or_observed, device_of_lease, told, lease_told,
  observe_lease,
}
use dns_desktop.Device.Invariant.{IsBody, IsTable, known, put_device-IsBody}
use dns_desktop.Device.Learning.{put_key-IsBody, device_of_lease_there}
use dns_desktop.Device.Writes.{under_its_id, lists-attach, by_key-attach}
use dns_desktop.Device.Removal.{bare_device-IsBody}
use dns_desktop.Device.Owned.{lists}

-- The specification: whether a device lists an address.
abbrev pub Owns : Table → DeviceId → Addr → Type 0
Owns t i a = lists (lookup i t.devices) a ≡ true

pointer : (o : Option DeviceId) (i : DeviceId) → points o i ≡ true → o ≡ some i
pointer none i h = cc
pointer (some j) i h = ap some (eq_of_true j i h)

listing : (o : Option Device) (a : Addr) → lists o a ≡ true → (d : Device) × (o ≡ some d)
listing none a h = cc
listing (some d) a h = (d, refl)

nobody-Owns :
    (t : Table) (a : Addr) → IsTable t → lookup a t.by_addr ≡ none → (i : DeviceId) → ¬ Owns t i a
nobody-Owns t a v e i owns =
    no_pointer (lookup a t.by_addr) i e (sym (v.body.owned.owner i a) ∙ owns)
  where
    no_pointer : (o : Option DeviceId) (i : DeviceId) → o ≡ none → points o i ≡ true → ⊥
    no_pointer none i e h = cc
    no_pointer (some j) i e h = cc

-- The index has the device that lists the address, and nothing else.
pub index_of_owner :
    (t : Table) (i : DeviceId) (a : Addr)
    → IsTable t
    → Owns t i a
    → (d : Device) × (lookup i t.devices ≡ some d) × (lookup a t.index ≡ some (entry_of d i))
index_of_owner t i a v owns =
    let (d, here) = listing (lookup i t.devices) a owns in
    (
      d,
      here,
      v.published a
          ∙ rw (pointer (lookup a t.by_addr) i (sym (v.body.owned.owner i a) ∙ owns), here) refl,
    )

pub index_of_stranger :
    (t : Table) (a : Addr) → IsTable t → ((i : DeviceId) → ¬ Owns t i a) → lookup a t.index ≡ none
index_of_stranger t a v nobody = v.published a ∙ elim (Option-cases (lookup a t.by_addr)) [
  | inl e ↦ rw e refl
  | inr (j, e) ↦ absurd (nobody j (v.body.owned.owner j a ∙ rw e (eq_true j)))
]

identity_of :
    (t : Table) (now later : ℕ) (c : Client) (e : IndexEntry)
    → is_valid c.addr ≡ true
    → lookup (unmap c.addr) t.index ≡ some e
    → (identify t now later c).1 ≡ record c { id = e.id }
unfolding identify
identity_of t now later c e valid found = rw (valid, found) refl

no_identity_of :
    (t : Table) (now later : ℕ) (c : Client)
    → is_valid c.addr ≡ true
    → lookup (unmap c.addr) t.index ≡ none
    → (identify t now later c).1 ≡ c
unfolding identify
no_identity_of t now later c valid missing = rw (valid, missing) refl

-- On a well-formed table, Identify gives a client with a valid address the identity of the device
-- that lists the address, without its mapping into IPv6; or no device lists it and the client stays as
-- it is.
pub identify-Owns :
    (t : Table) (now later : ℕ) (c : Client)
    → IsTable t
    → is_valid c.addr ≡ true
    → ((i : DeviceId) × Owns t i (unmap c.addr)
        × ((identify t now later c).1 ≡ record c { id = i }))
      ⊎ (((i : DeviceId) → ¬ Owns t i (unmap c.addr)) × ((identify t now later c).1 ≡ c))
identify-Owns t now later c v valid = elim (Option-cases (lookup (unmap c.addr) t.by_addr)) [
  | inl e ↦
      let nobody = nobody-Owns t (unmap c.addr) v e in
      inr (nobody, no_identity_of t now later c valid (index_of_stranger t (unmap c.addr) v nobody))
  | inr (i, e) ↦
      let owns = v.body.owned.owner i (unmap c.addr) ∙ rw e (eq_true i) in
      let (d, here, found) = index_of_owner t i (unmap c.addr) v owns in
      inl (i, owns, identity_of t now later c (entry_of d i) valid found)
]

-- Where the device of a lease comes from: from its key, or from an observation of its address; and
-- else it is new.
abbrev pub IsOrigin : Table → Lease → DeviceId → Type 0
IsOrigin t l j =
    (lookup l.key t.by_key ≡ some j)
    ⊎ ((d : Device) × (lookup j t.devices ≡ some d) × (d.source ≡ observed))
    ⊎ (lookup j t.devices ≡ none)

abbrev pub IsLeased : Table → Table → Lease → DeviceId → Type 0
IsLeased t u l j = (lookup l.key u.by_key ≡ some j) × Owns u j (unmap l.addr) × IsOrigin t l j

lease_told_result :
    (t : Table) (l : Lease) (now : ℕ) (d : Device)
    → IsBody t
    → lookup d.id t.devices ≡ some d
    → (lookup l.key (lease_told t l now d).by_key ≡ some d.id)
      × Owns (lease_told t l now d) d.id (unmap l.addr)
unfolding publish
lease_told_result t l now d v here =
    let t1 = record t { by_key = insert l.key d.id t.by_key } in
    let u = put_device t1 (told d l now) in
    (
      ap (lookup l.key) (by_key-attach u d.id (unmap l.addr))
          ∙ rw (lookup-insert l.key l.key d.id t.by_key, eq_true l.key) refl,
      lists-attach u d.id (told d l now) (unmap l.addr)
          (put_device-IsBody t1 (told d l now) d (put_key-IsBody t l.key d.id v (ap known here))
            here refl)
          (rw (lookup-insert d.id d.id (told d l now) t.devices, eq_true d.id) refl),
    )

known-IsOrigin :
    (t : Table) (l : Lease) (d : Device)
    → IsBody t
    → device_of_lease t l ≡ some d
    → IsOrigin t l d.id
unfolding device_of_lease
known-IsOrigin t l d v h =
    elim (chosen (device_at t (lookup l.key t.by_key))
      (device_at t (lookup (unmap l.addr) t.by_addr)) d h) [
        | inl by_key ↦ inl (key_points (lookup l.key t.by_key) by_key)
        | inr seen ↦ inr (inl (d, device_of_lease_there t l d v h, seen))
      ]
  where
    is_observed_lem : (s : Source) → is_observed s ≡ true → s ≡ observed
    is_observed_lem observed h = refl
    is_observed_lem dhcp h = cc
    is_observed_lem manual h = cc

    chosen :
        (p q : Option Device) (d : Device)
        → or_observed p q ≡ some d
        → (p ≡ some d) ⊎ (d.source ≡ observed)
    chosen (some e) q d h = inl h
    chosen none none d h = cc
    chosen none (some e) d h = elim (Bool-cases (is_observed e.source)) [
      | inl y ↦ inr (is_observed_lem d.source (ground arith))
      | inr n ↦ absurd (ground arith)
    ]

    key_points : (o : Option DeviceId) → device_at t o ≡ some d → o ≡ some d.id
    key_points none h = cc
    key_points (some i) h = ap some (sym (under_its_id t i d v h))

add_device_room :
    (t : Table) (id : DeviceId) (source : Source) (now : ℕ)
    → length t.devices < t.max
    → add_device t id source now ≡ some (put_device t (new_device id source now))
unfolding add_device
add_device_room t id source now room = rw (has_room (length t.devices) t.max room) refl
  where
    has_room : (n max : ℕ) → n < max → leb max n ≡ false
    has_room n max h = ground arith

-- On a well-formed table with room for a device, a lease with a key and a valid address makes the
-- address the one of a device that the key points to from then on. That device is the one that the key
-- pointed to before, or one whose source was observation at the time of the call, or a new one. The
-- source is what the table has: after a restart or a merge it is also that of devices that have
-- identified themselves.
pub observe_lease-IsLeased :
    (t : Table) (now : ℕ) (id : DeviceId) (l : Lease)
    → IsTable t
    → lookup id t.devices ≡ none
    → length t.devices < t.max
    → null l.key ≡ false
    → is_valid l.addr ≡ true
    → (j : DeviceId) × IsLeased t (observe_lease t now id l) l j
unfolding observe_lease
observe_lease-IsLeased t now id l v fresh room key valid =
    elim (Option-cases (device_of_lease t l)) [
      | inl e ↦
          let n = new_device id dhcp now in
          let u = put_device t n in
          let told =
            lease_told_result u l now n (bare_device-IsBody t n v.body fresh refl room)
              (rw (lookup-insert id id n t.devices, eq_true id) refl) in
          rw (key, valid, e, add_device_room t id dhcp now room)
            (id, (told.0, told.1, inr (inr fresh)))
      | inr (d, e) ↦
          let told = lease_told_result t l now d v.body (device_of_lease_there t l d v.body e) in
          rw (key, valid, e) (d.id, (told.0, told.1, known-IsOrigin t l d v.body e))
    ]
