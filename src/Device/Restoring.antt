-- ===== src/Device/Restoring.antt =====
-- What Restore (internal/device/device.go) makes of a saved table is well-formed.
use dns_desktop.Common.{
  ◌≡◌, refl, ap, ◌∙◌, inl, inr, true, false, Option, none, some, List, [], ◌∷◌, Bytes, length, null,
  arith, ◌==◌, ℕ_eq, leb, bytes_eq_iff, bytes_eq_instance, Bool-cases, Option-cases, All,
}
use dns_desktop.Common.Dict.{Dict, lookup, insert, lookup-insert}
use dns_desktop.Common.Elems.{elem, distinct, keys, distinct-keys_insert}
use dns_desktop.Net.{addr_eq_instance}
use dns_desktop.Device.{DeviceId, Device, Table}
use dns_desktop.Device.Locked.{put_device}
use dns_desktop.Device.Edit.{attach_all}
use dns_desktop.Device.Saved.{Saved, restore_devices, restore_keys, emptied, restore}
use dns_desktop.Device.Invariant.{IsBody, IsTable, known, KeyOk}
use dns_desktop.Device.Removal.{bare_device-IsBody}
use dns_desktop.Device.Editing.{attach_all-IsBody, known-attach_all}
use dns_desktop.Device.Learning.{publish_and_notify-IsTable, KeyOk-if}

emptied-IsBody : (t : Table) → IsBody t → IsBody (emptied t)
unfolding lookup distinct
emptied-IsBody t v = record {
  owned = record { device = λ i. tt; owner = λ i a. refl; once = refl };
  bounded = omega arith;
  keyed = λ k. tt;
  id_once = refl;
  key_once = refl;
  waiting = v.waiting;
}

-- The devices of a saved table have different identities.
abbrev pub ids : List Device → List DeviceId
ids [] = []
ids (d ∷ rest) = d.id ∷ ids rest

known-none : (o : Option Device) → known o ≡ false → o ≡ none
known-none none h = refl
known-none (some d) h = cc

module _ (t : Table) (d : Device) (v : IsBody t) (fresh : known (lookup d.id t.devices) ≡ false)
    (room : leb t.max (length t.devices) ≡ false) where
  restored_one-IsBody : IsBody (attach_all (put_device t (record d { addrs = [] })) d.id d.addrs)
  restored_one-IsBody = attach_all-IsBody (put_device t (record d { addrs = [] })) d.id d.addrs (
      bare_device-IsBody t (record d { addrs = [] }) v (known-none (lookup d.id t.devices) fresh)
        refl (ground arith))

  known-restored_one :
      (j : DeviceId)
      → (d.id == j) ≡ false
      → known (lookup j (attach_all (put_device t (record d { addrs = [] })) d.id d.addrs).devices)
        ≡ known (lookup j t.devices)
  known-restored_one j other =
      known-attach_all (put_device t (record d { addrs = [] })) d.id d.addrs j (
        bare_device-IsBody t (record d { addrs = [] }) v (known-none (lookup d.id t.devices) fresh)
          refl (ground arith))
      ∙ rw (lookup-insert d.id j (record d { addrs = [] }) t.devices, other) refl

abbrev pub AllNew : Dict DeviceId Device → List Device → Type 0
AllNew devices = All (λ d. known (lookup d.id devices) ≡ false)

AllNew-restored :
    (t : Table) (d : Device) (rest : List Device)
    → IsBody t
    → known (lookup d.id t.devices) ≡ false
    → leb t.max (length t.devices) ≡ false
    → elem d.id (ids rest) ≡ false
    → AllNew t.devices rest
    → AllNew (attach_all (put_device t (record d { addrs = [] })) d.id d.addrs).devices rest
unfolding elem
AllNew-restored t d [] v fresh room other new = tt
AllNew-restored t d (e ∷ rest) v fresh room other (here, new) = (
  known-restored_one t d v fresh room e.id
        (ground (arith, (bytes_eq_iff d.id e.id).0, (bytes_eq_iff e.id d.id).1))
      ∙ here,
  AllNew-restored t d rest v fresh room (ground arith) new,
)

pub restore_devices-IsBody :
    (saved : List Device) (t : Table)
    → IsBody t
    → distinct (ids saved) ≡ true
    → AllNew t.devices saved
    → IsBody (restore_devices saved t)
unfolding restore_devices distinct
restore_devices-IsBody [] t v once new = v
restore_devices-IsBody (d ∷ rest) t v once (here, new) = elim (Bool-cases (null d.id)) [
  | inl unnamed ↦ rw unnamed (restore_devices-IsBody rest t v (ground arith) new)
  | inr has_id ↦ rw has_id (elim (Bool-cases (leb t.max (length t.devices))) [
    | inl full ↦ rw full v
    | inr room ↦ rw room (
        restore_devices-IsBody rest
          (attach_all (put_device t (record d { addrs = [] })) d.id d.addrs)
          (restored_one-IsBody t d v here room) (ground arith)
          (AllNew-restored t d rest v here room (ground arith) new))
  ])
]

restore_keys-Fine :
    (devices : Dict DeviceId Device) (saved m : Dict Bytes DeviceId)
    → ((k : Bytes) → KeyOk devices (lookup k m))
    → distinct (keys m) ≡ true
    → ((k : Bytes) → KeyOk devices (lookup k (restore_keys devices saved m)))
      × (distinct (keys (restore_keys devices saved m)) ≡ true)
unfolding restore_keys
restore_keys-Fine devices [] m fine once = (fine, once)
restore_keys-Fine devices ((k, id) ∷ rest) m fine once = elim (Option-cases (lookup id devices)) [
  | inl e ↦ rw e (restore_keys-Fine devices rest m fine once)
  | inr (d, e) ↦ rw e (
      restore_keys-Fine devices rest (insert k id m)
        (λ j.
          rw (lookup-insert k j id m)
            (KeyOk-if devices (k == j) id (lookup j m) (ap known e) (fine j)))
        (distinct-keys_insert k id m once))
]

AllNew-nothing : (saved : List Device) → AllNew [] saved
unfolding lookup
AllNew-nothing [] = tt
AllNew-nothing (d ∷ rest) = (refl, AllNew-nothing rest)

restored-IsBody :
    (u : Table) (keys : Dict Bytes DeviceId)
    → IsBody u
    → IsBody (record u { by_key = restore_keys u.devices keys [] })
unfolding lookup distinct
restored-IsBody u keys v =
    let (fine, once) = restore_keys-Fine u.devices keys [] (λ k. tt) refl in
    record {
      owned = v.owned;
      bounded = v.bounded;
      keyed = fine;
      id_once = v.id_once;
      key_once = once;
      waiting = v.waiting;
    }

pub restore-IsTable :
    (t : Table) (s : Saved) → IsTable t → distinct (ids s.devices) ≡ true → IsTable (restore t s).0
unfolding restore
restore-IsTable t s v once = elim (Bool-cases (s.version == 1)) [
  | inl right ↦ rw right (
      publish_and_notify-IsTable
        (record (restore_devices s.devices (emptied t)) {
          by_key = restore_keys (restore_devices s.devices (emptied t)).devices s.keys [];
        })
        (restored-IsBody (restore_devices s.devices (emptied t)) s.keys (
          restore_devices-IsBody s.devices (emptied t) (emptied-IsBody t v.body) once
            (AllNew-nothing s.devices))))
  | inr wrong ↦ rw wrong v
]
