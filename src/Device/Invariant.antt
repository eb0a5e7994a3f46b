-- ===== src/Device/Invariant.antt =====
-- The well-formed tables of internal/device/device.go, and the writes under the lock that keep them
-- so.
use mathlib.Core.Option
use dns_desktop.Common.{
  ◌≤◌, ◌≡◌, refl, ap, ◌∙◌, inl, inr, Bool, true, false, Option, none, some, [], ◌∷◌, Bytes, length,
  arith, ◌==◌, bytes_eq_instance, if◌then◌else◌, Bool-cases, Option-cases, eq_of_true,
}
use dns_desktop.Common.Dict.{Dict, lookup, insert, lookup-insert}
use dns_desktop.Common.Elems.{elem, distinct, keys, distinct-keys_insert, length-insert_old}
use dns_desktop.Net.{Addr, addr_eq_instance}
use dns_desktop.Device.{DeviceId, Device, IndexEntry, Table}
use dns_desktop.Device.Locked.{put_device, entry_of, build_index, publish}
use dns_desktop.Device.Owned.{IsOwned, DeviceOk-if, lists}

abbrev pub known : Option Device → Bool
known none = false
known (some d) = true

abbrev pub KeyOk : Dict DeviceId Device → Option DeviceId → Type 0
KeyOk devices none = Unit
KeyOk devices (some id) = known (lookup id devices) ≡ true

-- What the index says of an address.
abbrev pub indexed : Dict DeviceId Device → Option DeviceId → Option IndexEntry
indexed devices none = none
indexed devices (some id) = Option.map (λ d. entry_of d id) (lookup id devices)

-- A table whose index may be behind.
pub record IsBody (t : Table) : Type 0 where
  pub owned : IsOwned t.devices t.by_addr
  pub bounded : length t.devices ≤ t.max
  pub keyed : (k : Bytes) → KeyOk t.devices (lookup k t.by_key)
  pub id_once : distinct (keys t.devices) ≡ true
  pub key_once : distinct (keys t.by_key) ≡ true
  pub waiting : length t.obs ≤ t.queue

pub record IsTable (t : Table) : Type 0 where
  pub body : IsBody t
  pub published : (a : Addr) → lookup a t.index ≡ indexed t.devices (lookup a t.by_addr)

-- Publishing.
index_absent :
    (devices : Dict DeviceId Device) (m : Dict Addr DeviceId) (a : Addr)
    → elem a (keys m) ≡ false
    → lookup a (build_index devices m) ≡ none
unfolding build_index elem lookup
index_absent devices [] a h = refl
index_absent devices ((b, id) ∷ m) a h = elim (Option-cases (lookup id devices)) [
  | inl e ↦ rw e (index_absent devices m a (ground arith))
  | inr (d, e) ↦
      rw (e, lookup-insert b a (entry_of d id) (build_index devices m))
        (ground (arith, index_absent devices m a))
]

pub lookup-build_index :
    (devices : Dict DeviceId Device) (m : Dict Addr DeviceId) (a : Addr)
    → distinct (keys m) ≡ true
    → lookup a (build_index devices m) ≡ indexed devices (lookup a m)
unfolding build_index distinct lookup
lookup-build_index devices [] a h = refl
lookup-build_index devices ((b, id) ∷ m) a h = elim (Bool-cases (b == a)) [
  | inl here ↦ rw here (elim (Option-cases (lookup id devices)) [
    | inl e ↦ rw e (index_absent devices m a (ground (arith, eq_of_true b a here)))
    | inr (d, e) ↦ rw (e, lookup-insert b a (entry_of d id) (build_index devices m), here) refl
  ])
  | inr there ↦ rw there (elim (Option-cases (lookup id devices)) [
    | inl e ↦ rw e (lookup-build_index devices m a (ground arith))
    | inr (d, e) ↦
        rw (e, lookup-insert b a (entry_of d id) (build_index devices m), there)
          (lookup-build_index devices m a (ground arith))
  ])
]

pub publish-IsTable : (t : Table) → IsBody t → IsTable (publish t)
unfolding publish
publish-IsTable t v = record {
  body = record {
    owned = v.owned;
    bounded = v.bounded;
    keyed = v.keyed;
    id_once = v.id_once;
    key_once = v.key_once;
    waiting = v.waiting;
  };
  published = λ a. lookup-build_index t.devices t.by_addr a v.owned.once;
}

-- A write to a device that leaves its addresses.
lists-if :
    (d old : Device) (devices : Dict DeviceId Device) (i : DeviceId) (a : Addr)
    → lookup d.id devices ≡ some old
    → d.addrs ≡ old.addrs
    → lists (if d.id == i then some d else lookup i devices) a ≡ lists (lookup i devices) a
lists-if d old devices i a here same = elim (Bool-cases (d.id == i)) [
  | inl eq ↦ rw (eq, ← eq_of_true d.id i eq, here) (ap (elem a) same)
  | inr ne ↦ rw ne refl
]

known-if :
    (i j : DeviceId) (d old : Device) (devices : Dict DeviceId Device)
    → lookup i devices ≡ some old
    → known (if i == j then some d else lookup j devices) ≡ known (lookup j devices)
known-if i j d old devices here = elim (Bool-cases (i == j)) [
  | inl eq ↦ rw (eq, ← eq_of_true i j eq, here) refl
  | inr ne ↦ rw ne refl
]

pub known-insert :
    (i j : DeviceId) (d old : Device) (devices : Dict DeviceId Device)
    → lookup i devices ≡ some old
    → known (lookup j (insert i d devices)) ≡ known (lookup j devices)
known-insert i j d old devices here = rw lookup-insert (known-if i j d old devices here)

pub KeyOk-known :
    (devices other : Dict DeviceId Device)
    → ((j : DeviceId) → known (lookup j other) ≡ known (lookup j devices))
    → (o : Option DeviceId) → KeyOk devices o
    → KeyOk other o
KeyOk-known devices other h none k = tt
KeyOk-known devices other h (some id) k = h id ∙ k

pub put_device-IsBody :
    (t : Table) (d old : Device)
    → IsBody t
    → lookup d.id t.devices ≡ some old
    → d.addrs ≡ old.addrs
    → IsBody (put_device t d)
put_device-IsBody t d old v here same = record {
  owned = record {
    device = λ i. rw (lookup-insert d.id i d t.devices) (
        DeviceOk-if d.id i d (lookup i t.devices)
          (
            refl,
            rw same (rw here at (v.owned.device d.id)).1,
            rw same (rw here at (v.owned.device d.id)).2,
          )
          (v.owned.device i));
    owner = λ i a.
        rw (lookup-insert d.id i d t.devices)
          (lists-if d old t.devices i a here same ∙ v.owned.owner i a);
    once = v.owned.once;
  };
  bounded = rw (length-insert_old d.id d old t.devices here) v.bounded;
  keyed = λ k.
      KeyOk-known t.devices (insert d.id d t.devices)
        (λ j. known-insert d.id j d old t.devices here) (lookup k t.by_key) (v.keyed k);
  id_once = distinct-keys_insert d.id d t.devices v.id_once;
  key_once = v.key_once;
  waiting = v.waiting;
}
