-- ===== src/Device/Locked.antt =====
-- What internal/device/device.go does under the table's lock: creating and removing devices,
-- pointing addresses at them, and publishing the index.
use dns_desktop.Common.{
  ℕ, Bool, true, false, not, ◌||◌, Option, none, some, List, [], ◌∷◌, length, null, take, drop,
  ◌==◌, ltb, leb, bytes_eq_instance, if◌then◌else◌,
}
use dns_desktop.Common.Dict.{Dict, lookup, insert, remove}
use dns_desktop.Common.Elems.{delete_all, remove_value, points}
use dns_desktop.Net.{Addr, addr_eq_instance}
use dns_desktop.Device.{DeviceId, Source, Device, IndexEntry, Table, add_one}

-- A write through the pointer to a device.
abbrev pub put_device : Table → Device → Table
put_device t d = record t { devices = insert d.id d t.devices }

abbrev pub new_device : DeviceId → Source → ℕ → Device
new_device id source now = record {
  id = id;
  name = [];
  name_set_by_user = false;
  profile = [];
  paused = false;
  hwaddr = [];
  hostname = [];
  vendor = [];
  addrs = [];
  source = source;
  first_seen = now;
  last_seen = now;
}

-- What a person has decided on: such a device is not evicted.
abbrev pub is_customised : Device → Bool
is_customised d = d.name_set_by_user || d.paused || not (null d.profile)

abbrev pub seen_before : Device → Option Device → Bool
seen_before d none = true
seen_before d (some victim) = ltb d.last_seen victim.last_seen

-- The loop of `evictLocked`, with the victim so far.
unfoldable pub victim_among : Dict DeviceId Device → Option Device → Option Device
victim_among [] victim = victim
victim_among ((_, d) ∷ rest) victim =
    victim_among rest
      (if is_customised d then victim else if seen_before d victim then some d else victim)

-- `removeLocked`
unfoldable pub remove_device : DeviceId → Table → Table
remove_device id t = record t {
  by_addr = remove_value id t.by_addr;
  by_key = remove_value id t.by_key;
  devices = remove id t.devices;
}

-- `evictLocked`; `none` where it returns false.
abbrev pub evict_victim : Table → Option Device → Option Table
evict_victim t none = none
evict_victim t (some victim) =
    let u = remove_device victim.id t in some (record u { evicted = add_one u.evicted })

unfoldable pub evict : Table → Option Table
unfolding victim_among
evict t = evict_victim t (victim_among t.devices none)

-- `newDeviceLocked`, with the identity that `newID` has drawn; `none` where it returns nil. The
-- device is registered under its identity.
abbrev pub register : DeviceId → Source → ℕ → Option Table → Option Table
register id source now none = none
register id source now (some t) = some (put_device t (new_device id source now))

unfoldable pub add_device : Table → DeviceId → Source → ℕ → Option Table
unfolding evict
add_device t id source now =
    register id source now (if leb t.max (length t.devices) then evict t else some t)

-- `attachAddrLocked`, in its three steps: the address is taken from the device that had it,
abbrev pub without_addr : Device → Addr → Device
without_addr d a = record d { addrs = delete_all a d.addrs }

abbrev pub take_from : Dict DeviceId Device → DeviceId → Addr → Option Device → Dict DeviceId Device
take_from devices prev a none = devices
take_from devices prev a (some old) = insert prev (without_addr old a) devices

abbrev pub taken_away :
    Dict DeviceId Device → DeviceId → Addr → Option DeviceId → Dict DeviceId Device
taken_away devices id a none = devices
taken_away devices id a (some prev) =
    if prev == id then devices else take_from devices prev a (lookup prev devices)

-- it becomes the first of the device's addresses, of which eight are kept,
abbrev pub max_addrs : ℕ
max_addrs = 8

abbrev pub with_addr : List Addr → Addr → List Addr
with_addr addrs a = a ∷ delete_all a addrs

-- and the others lose their pointer to the device.
unfoldable pub drop_gone : List Addr → DeviceId → Dict Addr DeviceId → Dict Addr DeviceId
drop_gone [] id by_addr = by_addr
drop_gone (gone ∷ rest) id by_addr =
    drop_gone rest id (if points (lookup gone by_addr) id then remove gone by_addr else by_addr)

abbrev pub attach_to : Table → Addr → Option Device → Table
attach_to t a none = t
attach_to t a (some d) =
    let all = with_addr d.addrs a in
    record t {
      devices =
          insert d.id (record d { addrs = take max_addrs all })
            (taken_away t.devices d.id a (lookup a t.by_addr));
      by_addr = drop_gone (drop max_addrs all) d.id (insert a d.id t.by_addr);
    }

-- The pointer to a device is its identity, which `devices` always holds when this is called.
unfoldable pub attach : Table → DeviceId → Addr → Table
unfolding drop_gone delete_all
attach t id a = attach_to t a (lookup id t.devices)

-- `publishLocked`
abbrev pub entry_of : Device → DeviceId → IndexEntry
entry_of d id = record { id = id; paused = d.paused; profile = d.profile; last_seen = d.last_seen }

abbrev pub index_pair :
    Addr → DeviceId → Option Device → Dict Addr IndexEntry → Dict Addr IndexEntry
index_pair a id none next = next
index_pair a id (some d) next = insert a (entry_of d id) next

unfoldable pub build_index : Dict DeviceId Device → Dict Addr DeviceId → Dict Addr IndexEntry
build_index devices [] = []
build_index devices ((a, id) ∷ rest) =
    index_pair a id (lookup id devices) (build_index devices rest)

unfoldable pub publish : Table → Table
unfolding build_index
publish t = record t { index = build_index t.devices t.by_addr }
