-- ===== src/Device/Writes.antt =====
-- The calls under the lock of internal/device/device.go, and that they keep the tables well-formed.
use dns_desktop.Common.{
  ◌≡◌, refl, ap, ◌∙◌, inl, inr, true, Option, none, some, length, take, arith, ◌==◌,
  bytes_eq_instance, Bool-cases, Option-cases, eq_true,
}
use dns_desktop.Common.Dict.{Dict, lookup, lookup-insert}
use dns_desktop.Common.Elems.{elem, distinct, keys, distinct-keys_insert, length-insert_old}
use dns_desktop.Net.{Addr, addr_eq_instance}
use dns_desktop.Device.{DeviceId, Device, Table}
use dns_desktop.Device.Locked.{without_addr, taken_away, max_addrs, with_addr, attach_to, attach}
use dns_desktop.Device.Owned.{lists, attach_to-IsOwned}
use dns_desktop.Device.Invariant.{IsBody, known, KeyOk-known, known-insert}

known-taken_away :
    (devices : Dict DeviceId Device) (id j : DeviceId) (a : Addr) (o : Option DeviceId)
    → known (lookup j (taken_away devices id a o)) ≡ known (lookup j devices)
known-taken_away devices id j a none = refl
known-taken_away devices id j a (some prev) = elim (Bool-cases (prev == id)) [
  | inl mine ↦ rw mine refl
  | inr other ↦ rw other (elim (Option-cases (lookup prev devices)) [
    | inl e ↦ rw e refl
    | inr (d, e) ↦ rw e (known-insert prev j (without_addr d a) d devices e)
  ])
]

length-taken_away :
    (devices : Dict DeviceId Device) (id : DeviceId) (a : Addr) (o : Option DeviceId)
    → length (taken_away devices id a o) ≡ length devices
length-taken_away devices id a none = refl
length-taken_away devices id a (some prev) = elim (Bool-cases (prev == id)) [
  | inl mine ↦ rw mine refl
  | inr other ↦ rw other (elim (Option-cases (lookup prev devices)) [
    | inl e ↦ rw e refl
    | inr (d, e) ↦ rw e (length-insert_old prev (without_addr d a) d devices e)
  ])
]

distinct-taken_away :
    (devices : Dict DeviceId Device) (id : DeviceId) (a : Addr) (o : Option DeviceId)
    → distinct (keys devices) ≡ true
    → distinct (keys (taken_away devices id a o)) ≡ true
distinct-taken_away devices id a none h = h
distinct-taken_away devices id a (some prev) h = elim (Bool-cases (prev == id)) [
  | inl mine ↦ rw mine h
  | inr other ↦ rw other (elim (Option-cases (lookup prev devices)) [
    | inl e ↦ rw e h
    | inr (d, e) ↦ rw e (distinct-keys_insert prev (without_addr d a) devices h)
  ])
]

pub of_known : (o : Option Device) → known o ≡ true → (d : Device) × (o ≡ some d)
of_known none h = cc
of_known (some d) h = (d, refl)

module _ (t : Table) (d : Device) (a : Addr) (v : IsBody t)
    (here : lookup d.id t.devices ≡ some d) where
  -- The device is still there when its address has been taken from another.
  still :
      (old : Device) × (lookup d.id (taken_away t.devices d.id a (lookup a t.by_addr)) ≡ some old)
  still =
      of_known (lookup d.id (taken_away t.devices d.id a (lookup a t.by_addr)))
        (known-taken_away t.devices d.id d.id a (lookup a t.by_addr) ∙ ap known here)

  pub known-attach_to :
      (j : DeviceId)
      → known (lookup j (attach_to t a (some d)).devices) ≡ known (lookup j t.devices)
  known-attach_to j =
      let (old, e) = still in
      known-insert d.id j (record d { addrs = take max_addrs (with_addr d.addrs a) }) old
        (taken_away t.devices d.id a (lookup a t.by_addr)) e
      ∙ known-taken_away t.devices d.id j a (lookup a t.by_addr)

  pub length-attach_to : length (attach_to t a (some d)).devices ≡ length t.devices
  length-attach_to =
      let (old, e) = still in
      length-insert_old d.id (record d { addrs = take max_addrs (with_addr d.addrs a) }) old
        (taken_away t.devices d.id a (lookup a t.by_addr)) e
      ∙ length-taken_away t.devices d.id a (lookup a t.by_addr)

  attach_to-IsBody : IsBody (attach_to t a (some d))
  attach_to-IsBody = record {
    owned = attach_to-IsOwned t d a v.owned here;
    bounded = rw length-attach_to v.bounded;
    keyed = λ k.
        KeyOk-known t.devices (attach_to t a (some d)).devices known-attach_to (lookup k t.by_key)
          (v.keyed k);
    id_once =
        distinct-keys_insert d.id (record d { addrs = take max_addrs (with_addr d.addrs a) })
          (taken_away t.devices d.id a (lookup a t.by_addr))
          (distinct-taken_away t.devices d.id a (lookup a t.by_addr) v.id_once);
    key_once = v.key_once;
    waiting = v.waiting;
  }

-- A device stands under its own identity.
pub under_its_id :
    (t : Table) (id : DeviceId) (d : Device) → IsBody t → lookup id t.devices ≡ some d → d.id ≡ id
under_its_id t id d v e = (rw e at (v.owned.device id)).0

pub attach-IsBody : (t : Table) (id : DeviceId) (a : Addr) → IsBody t → IsBody (attach t id a)
unfolding attach
attach-IsBody t id a v = elim (Option-cases (lookup id t.devices)) [
  | inl e ↦ rw e v
  | inr (d, e) ↦
      rw e (attach_to-IsBody t d a v (ap (λ i. lookup i t.devices) (under_its_id t id d v e) ∙ e))
]

pub known-attach :
    (t : Table) (id : DeviceId) (a : Addr) (j : DeviceId)
    → IsBody t
    → known (lookup j (attach t id a).devices) ≡ known (lookup j t.devices)
unfolding attach
known-attach t id a j v = elim (Option-cases (lookup id t.devices)) [
  | inl e ↦ rw e refl
  | inr (d, e) ↦
      rw e (known-attach_to t d a v (ap (λ i. lookup i t.devices) (under_its_id t id d v e) ∙ e) j)
]

-- The device lists the address that has been attached to it.
pub lists-attach :
    (t : Table) (id : DeviceId) (d : Device) (a : Addr)
    → IsBody t
    → lookup id t.devices ≡ some d
    → lists (lookup id (attach t id a).devices) a ≡ true
unfolding attach elem
lists-attach t id d a v here =
    rw (here, lookup-insert, under_its_id t id d v here, eq_true id) (ground (arith, eq_true a))

pub by_key-attach : (t : Table) (id : DeviceId) (a : Addr) → (attach t id a).by_key ≡ t.by_key
unfolding attach
by_key-attach t id a = by_key-attach_to t a (lookup id t.devices)
  where
    by_key-attach_to :
        (t : Table) (a : Addr) (o : Option Device) → (attach_to t a o).by_key ≡ t.by_key
    by_key-attach_to t a none = refl
    by_key-attach_to t a (some d) = refl
