-- ===== src/Device/Moved.antt =====
-- Lemmas on what Merge (internal/device/device.go) moves: the keys, and a device that is taken out.
use mathlib.Core.Option
use dns_desktop.Common.{
  ℕ, zero, suc, ◌+◌, ◌≡◌, refl, sym, ap, ◌∙◌, inl, inr, Bool, true, false, Option, none, some, [],
  ◌∷◌, Bytes, arith, ◌==◌, bytes_eq_iff, bytes_eq_instance, if◌then◌else◌, Bool-cases, eq_of_true,
}
use dns_desktop.Common.Dict.{Dict, lookup, remove, map_values, lookup-remove}
use dns_desktop.Common.Elems.{keys, distinct-keys_remove, points, length-remove-le}
use dns_desktop.Net.{Addr, addr_eq_instance}
use dns_desktop.Device.{DeviceId, Device, Table}
use dns_desktop.Device.Locked.{attach}
use dns_desktop.Device.Edit.{place, merge_addrs, moved}
use dns_desktop.Device.Owned.{lists, DeviceOk}
use dns_desktop.Device.Invariant.{IsBody, known, KeyOk}
use dns_desktop.Device.Writes.{by_key-attach}

pub keys-map_values :
    (f : DeviceId → DeviceId) (m : Dict Bytes DeviceId) → keys (map_values f m) ≡ keys m
unfolding map_values
keys-map_values f [] = refl
keys-map_values f ((k, w) ∷ m) = ap (λ ks. k ∷ ks) (keys-map_values f m)

pub by_key-merge_addrs :
    (left i : ℕ) (t : Table) (into from : DeviceId)
    → (merge_addrs left i t into from).by_key ≡ t.by_key
unfolding merge_addrs
by_key-merge_addrs zero i t into from = refl
by_key-merge_addrs (suc left) i t into from =
    by_key-merge_addrs left (i + 1) (attach t into (place (lookup from t.devices) i)) into from
    ∙ by_key-attach t into (place (lookup from t.devices) i)

pub moved_away :
    (into from : DeviceId) (o : Option DeviceId)
    → (into == from) ≡ false
    → points (Option.map (moved into from) o) from ≡ false
moved_away into from none two = refl
moved_away into from (some j) two = elim (Bool-cases (j == from)) [
  | inl same ↦ rw same two
  | inr other ↦ rw other other
]

pub KeyOk-moved :
    (devices : Dict DeviceId Device) (into from : DeviceId) (o : Option DeviceId)
    → known (lookup into devices) ≡ true
    → KeyOk devices o
    → KeyOk devices (Option.map (moved into from) o)
KeyOk-moved devices into from none there h = tt
KeyOk-moved devices into from (some j) there h = elim (Bool-cases (j == from)) [
  | inl same ↦ rw same there
  | inr other ↦ rw other h
]

pub DeviceOk-unless :
    (b : Bool) (i : DeviceId) (o : Option Device)
    → DeviceOk i o
    → DeviceOk i (if b then none else o)
DeviceOk-unless true i o h = tt
DeviceOk-unless false i o h = h

pub KeyOk-unless :
    (devices : Dict DeviceId Device) (id : DeviceId) (o : Option DeviceId)
    → points o id ≡ false
    → KeyOk devices o
    → KeyOk (remove id devices) o
KeyOk-unless devices id none other h = tt
KeyOk-unless devices id (some j) other h =
    rw lookup-remove (ground (arith, (bytes_eq_iff id j).0, (bytes_eq_iff j id).1))

pub lists-unless :
    (devices : Dict DeviceId Device) (id i : DeviceId) (a : Addr)
    → lists (lookup id devices) a ≡ false
    → lists (if id == i then none else lookup i devices) a ≡ lists (lookup i devices) a
lists-unless devices id i a bare = elim (Bool-cases (id == i)) [
  | inl same ↦ rw (same, ← eq_of_true id i same) (sym bare)
  | inr other ↦ rw other refl
]

-- A device with no address and no key is taken out.
pub drop_bare-IsBody :
    (t : Table) (id : DeviceId)
    → IsBody t
    → ((a : Addr) → lists (lookup id t.devices) a ≡ false)
    → ((k : Bytes) → points (lookup k t.by_key) id ≡ false)
    → IsBody (record t { devices = remove id t.devices })
drop_bare-IsBody t id v bare no_key = record {
  owned = record {
    device = λ i.
        rw (lookup-remove id i t.devices)
          (DeviceOk-unless (id == i) i (lookup i t.devices) (v.owned.device i));
    owner = λ i a.
        rw (lookup-remove id i t.devices)
          (lists-unless t.devices id i a (bare a) ∙ v.owned.owner i a);
    once = v.owned.once;
  };
  bounded = omega (arith, length-remove-le id t.devices, v.bounded);
  keyed = λ k. KeyOk-unless t.devices id (lookup k t.by_key) (no_key k) (v.keyed k);
  id_once = distinct-keys_remove id t.devices v.id_once;
  key_once = v.key_once;
  waiting = v.waiting;
}
