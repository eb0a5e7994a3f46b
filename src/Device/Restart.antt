-- ===== src/Device/Restart.antt =====
-- What a restart does to the table: internal/app/app.go writes its saved form to a file and reads it
-- back, and the JSON of a device (internal/device/device.go) has no source.
use dns_desktop.Common.{
  ℕ, ◌≡◌, refl, ap, ◌∙◌, subst, inl, inr, Bool, true, false, Option, none, some, List, [], ◌∷◌,
  Bytes, length, null, ◌==◌, ℕ_eq, leb, bytes_eq_instance, if◌then◌else◌, Bool-cases, Option-cases,
  eq_true,
}
use dns_desktop.Common.Dict.{Dict, lookup, insert, lookup-insert}
use dns_desktop.Net.{Addr, is_valid, unmap, addr_eq_instance}
use dns_desktop.Text.{runes, encode_runes}
use dns_desktop.Dhcp.Pool.{Lease}
use dns_desktop.Device.{DeviceId, observed, Device, TableError, Table}
use dns_desktop.Device.Locked.{put_device, taken_away, without_addr, attach, publish}
use dns_desktop.Device.Observe.{device_of_lease, told, observe_lease}
use dns_desktop.Device.Edit.{attach_all}
use dns_desktop.Device.Saved.{
  Saved, sort_by, by_id, values, snapshot, restore_devices, emptied, restore,
}
use dns_desktop.Device.Invariant.{IsBody, IsTable}
use dns_desktop.Device.Decisions.{Survives}
use dns_desktop.Device.Lasting.{lease_told-Survives}
use dns_desktop.Device.Writes.{by_key-attach, under_its_id}

-- What comes back of a text from its JSON: bytes that are no UTF-8 have become U+FFFD.
unfoldable pub json_text : Bytes → Bytes
json_text s = encode_runes (runes s)

-- What comes back of a device: all fields but `Source`, which has its zero value.
unfoldable pub json_device : Device → Device
unfolding json_text
json_device d = record d {
  id = json_text d.id;
  name = json_text d.name;
  profile = json_text d.profile;
  hwaddr = json_text d.hwaddr;
  hostname = json_text d.hostname;
  vendor = json_text d.vendor;
  source = observed;
}

unfoldable pub json_devices : List Device → List Device
unfolding json_device
json_devices [] = []
json_devices (d ∷ rest) = json_device d ∷ json_devices rest

-- And of the keys; of two that have become one, the last is kept.
unfoldable pub json_keys : Dict Bytes DeviceId → Dict Bytes DeviceId → Dict Bytes DeviceId
unfolding json_text
json_keys [] m = m
json_keys ((k, id) ∷ rest) m = json_keys rest (insert (json_text k) (json_text id) m)

unfoldable pub through_json : Saved → Saved
unfolding json_devices json_keys
through_json s = record {
  version = s.version;
  devices = json_devices s.devices;
  keys = json_keys s.keys [];
}

-- `saveDevices` of the running application and `loadDevices` of the next one, where both succeed.
unfoldable pub restarted : Table → Table → Table × Option TableError
unfolding through_json
restarted before next = restore next (through_json (snapshot before))

-- Every device is known from observation alone.
abbrev SourceOk : Option Device → Type 0
SourceOk none = Unit
SourceOk (some d) = d.source ≡ observed

AllObserved : Dict DeviceId Device → Type 0
AllObserved devices = (i : DeviceId) → SourceOk (lookup i devices)

SourceOk-if :
    (b : Bool) (d : Device) (o : Option Device)
    → d.source ≡ observed
    → SourceOk o
    → SourceOk (if b then some d else o)
SourceOk-if true d o h k = h
SourceOk-if false d o h k = k

AllObserved-insert :
    (id : DeviceId) (d : Device) (devices : Dict DeviceId Device)
    → d.source ≡ observed
    → AllObserved devices
    → AllObserved (insert id d devices)
unfolding AllObserved
AllObserved-insert id d devices h all =
    λ i. rw (lookup-insert id i d devices) (SourceOk-if (id == i) d (lookup i devices) h (all i))

source_at :
    (devices : Dict DeviceId Device) (i : DeviceId) (d : Device)
    → AllObserved devices
    → lookup i devices ≡ some d
    → d.source ≡ observed
unfolding AllObserved
source_at devices i d all here = subst SourceOk here (all i)

AllObserved-taken_away :
    (devices : Dict DeviceId Device) (id : DeviceId) (a : Addr) (o : Option DeviceId)
    → AllObserved devices
    → AllObserved (taken_away devices id a o)
AllObserved-taken_away devices id a none all = all
AllObserved-taken_away devices id a (some prev) all = elim (Bool-cases (prev == id)) [
  | inl mine ↦ rw mine all
  | inr other ↦ rw other (elim (Option-cases (lookup prev devices)) [
    | inl e ↦ rw e all
    | inr (d, e) ↦
        rw e
          (AllObserved-insert prev (without_addr d a) devices (source_at devices prev d all e) all)
  ])
]

AllObserved-attach :
    (t : Table) (id : DeviceId) (a : Addr)
    → AllObserved t.devices
    → AllObserved (attach t id a).devices
unfolding attach
AllObserved-attach t id a all = elim (Option-cases (lookup id t.devices)) [
  | inl e ↦ rw e all
  | inr (d, e) ↦ rw e (
      AllObserved-insert d.id _ (taken_away t.devices d.id a (lookup a t.by_addr))
        (source_at t.devices id d all e)
        (AllObserved-taken_away t.devices d.id a (lookup a t.by_addr) all))
]

AllObserved-attach_if :
    (b : Bool) (t : Table) (id : DeviceId) (a : Addr)
    → AllObserved t.devices
    → AllObserved (if b then attach t id (unmap a) else t).devices
AllObserved-attach_if true t id a all = AllObserved-attach t id (unmap a) all
AllObserved-attach_if false t id a all = all

AllObserved-attach_all :
    (t : Table) (id : DeviceId) (addrs : List Addr)
    → AllObserved t.devices
    → AllObserved (attach_all t id addrs).devices
unfolding attach_all
AllObserved-attach_all t id [] all = all
AllObserved-attach_all t id (a ∷ rest) all =
    AllObserved-attach_all (if is_valid a then attach t id (unmap a) else t) id rest
      (AllObserved-attach_if (is_valid a) t id a all)

AllObserved-if :
    (b : Bool) (t u : Table)
    → AllObserved t.devices
    → AllObserved u.devices
    → AllObserved (if b then t else u).devices
AllObserved-if true t u h k = h
AllObserved-if false t u h k = k

AllObserved-restore_devices :
    (saved : List Device) (t : Table)
    → AllObserved t.devices
    → AllObserved (restore_devices (json_devices saved) t).devices
unfolding restore_devices json_devices
AllObserved-restore_devices [] t all = all
AllObserved-restore_devices (d ∷ rest) t all =
    let bare = record (json_device d) { addrs = [] } in
    let u = attach_all (put_device t bare) (json_device d).id (json_device d).addrs in
    AllObserved-if (null (json_device d).id) (restore_devices (json_devices rest) t)
      (if leb t.max (length t.devices) then t else restore_devices (json_devices rest) u)
      (AllObserved-restore_devices rest t all)
      (AllObserved-if (leb t.max (length t.devices)) t (restore_devices (json_devices rest) u) all (
        AllObserved-restore_devices rest u (
          AllObserved-attach_all (put_device t bare) (json_device d).id (json_device d).addrs (
            AllObserved-insert (json_device d).id bare t.devices (unfold json_device in refl)
              all))))

nothing-AllObserved : AllObserved []
unfolding AllObserved lookup
nothing-AllObserved = λ i. tt

restarted-AllObserved : (before next : Table) → AllObserved (restarted before next).0.devices
unfolding restarted restore through_json snapshot publish
restarted-AllObserved before next =
    AllObserved-restore_devices (sort_by by_id (values before.devices)) (emptied next)
      nothing-AllObserved

-- A lease with a key that the table does not know goes to the device at its address, if that one is
-- known from observation alone.
adopts :
    (t : Table) (now : ℕ) (id : DeviceId) (l : Lease) (j : DeviceId) (d : Device)
    → IsBody t
    → AllObserved t.devices
    → d.id ≡ j
    → null l.key ≡ false
    → is_valid l.addr ≡ true
    → lookup l.key t.by_key ≡ none
    → lookup (unmap l.addr) t.by_addr ≡ some j
    → lookup j t.devices ≡ some d
    → (lookup l.key (observe_lease t now id l).by_key ≡ some j)
      × Survives (observe_lease t now id l).devices j d
unfolding observe_lease publish device_of_lease
adopts t now id l j d v all same key valid unknown held here =
    let t1 = record t { by_key = insert l.key d.id t.by_key } in
    rw (key, valid, unknown, held, here, source_at t.devices j d all here)
      (
        ap (lookup l.key) (by_key-attach (put_device t1 (told d l now)) d.id (unmap l.addr))
            ∙ rw (lookup-insert l.key l.key d.id t.by_key, eq_true l.key, same) refl,
        lease_told-Survives j d t l now d v (ap (λ i. lookup i t.devices) same ∙ here)
            (d, here, (refl, refl, refl, λ set. refl)),
      )

-- After a restart, a lease with a key that the table does not know takes over the device that holds its
-- address, whether or not that device had identified itself before: the key points to the device, which
-- keeps its profile, its pause and whether a person has named it, and its name if so.
pub adopted_after_restart :
    (before next : Table) (now : ℕ) (id : DeviceId) (l : Lease) (j : DeviceId) (d : Device)
    → IsTable (restarted before next).0
    → null l.key ≡ false
    → is_valid l.addr ≡ true
    → lookup l.key (restarted before next).0.by_key ≡ none
    → lookup (unmap l.addr) (restarted before next).0.by_addr ≡ some j
    → lookup j (restarted before next).0.devices ≡ some d
    → (lookup l.key (observe_lease (restarted before next).0 now id l).by_key ≡ some j)
      × Survives (observe_lease (restarted before next).0 now id l).devices j d
adopted_after_restart before next now id l j d v key valid unknown held here =
    adopts (restarted before next).0 now id l j d v.body (restarted-AllObserved before next)
      (under_its_id (restarted before next).0 j d v.body here) key valid unknown held here
