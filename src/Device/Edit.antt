-- ===== src/Device/Edit.antt =====
-- What a person does to the table of internal/device/device.go, and what is read, saved and
-- restored of it.
use dns_desktop.Common.{
  ℕ, zero, suc, ◌+◌, Bool, false, not, ◌&&◌, ◌||◌, Option, none, some, List, [], ◌∷◌, Bytes, length,
  null, get_or, ◌==◌, ℕ_eq, ltb, bytes_eq_instance, if◌then◌else◌, Result, ok, err,
}
use dns_desktop.Common.Dict.{lookup, insert, remove, map_values}
use dns_desktop.Net.{Addr, no_addr, is_valid, unmap, addr_eq_instance}
use dns_desktop.Device.{
  DeviceId, manual, Device, TableError, unknown_device, table_full, merge_with_itself, Table,
  notify, device_name,
}
use dns_desktop.Device.Locked.{new_device, put_device, remove_device, add_device, attach, publish}
use dns_desktop.Device.Observe.{hardware_text}

-- `update` with a change that does not fail, as all its callers' changes.
abbrev pub updated : Table → (Device → Device) → Option Device → Table × Option TableError
updated t f none = (t, some unknown_device)
updated t f (some d) = (notify (publish (put_device t (f d))), none)

unfoldable pub update : Table → DeviceId → (Device → Device) → Table × Option TableError
unfolding publish
update t id f = updated t f (lookup id t.devices)

unfoldable pub rename : Table → DeviceId → Bytes → Table × Option TableError
unfolding update
rename t id text =
    let name = device_name text in
    update t id (λ d. record d { name = name; name_set_by_user = not (null name) })

unfoldable pub set_profile : Table → DeviceId → Bytes → Table × Option TableError
unfolding update
set_profile t id profile = update t id (λ d. record d { profile = profile })

unfoldable pub set_paused : Table → DeviceId → Bool → Table × Option TableError
unfolding update
set_paused t id paused = update t id (λ d. record d { paused = paused })

-- `Merge`. What the target takes over from the source,
abbrev pub absorbed : Device → Device → Device
absorbed target source = record target {
  first_seen =
      if target.first_seen == 0
        || not (source.first_seen == 0) && ltb source.first_seen target.first_seen
      then source.first_seen
      else target.first_seen;
  last_seen = if ltb target.last_seen source.last_seen then source.last_seen else target.last_seen;
  hostname = if null target.hostname then source.hostname else target.hostname;
  hwaddr = if null target.hwaddr then source.hwaddr else target.hwaddr;
}

-- and its addresses. The loop visits the places of the array under `source.Addrs`, out of which each
-- `attachAddrLocked` deletes the address that it takes: `slices.DeleteFunc` moves the later addresses
-- down in that array and clears its end. So the array is always what the source still lists, filled
-- up with zero addresses.
abbrev pub place : Option Device → ℕ → Addr
place none i = no_addr
place (some source) i = get_or source.addrs i no_addr

unfoldable pub merge_addrs : ℕ → ℕ → Table → DeviceId → DeviceId → Table
unfolding attach
merge_addrs zero i t into from = t
merge_addrs (suc left) i t into from =
    merge_addrs left (i + 1) (attach t into (place (lookup from t.devices) i)) into from

abbrev pub moved : DeviceId → DeviceId → DeviceId → DeviceId
moved into from holder = if holder == from then into else holder

abbrev pub merge_devices :
    Table → DeviceId → DeviceId → Option Device → Option Device → Table × Option TableError
merge_devices t into from none _ = (t, some unknown_device)
merge_devices t into from (some target) none = (t, some unknown_device)
merge_devices t into from (some target) (some source) =
    let t1 = put_device t (absorbed target source) in
    let t2 = record t1 { by_key = map_values (moved into from) t1.by_key } in
    let t3 = merge_addrs (length source.addrs) 0 t2 into from in
    (notify (publish (record t3 { devices = remove from t3.devices })), none)

unfoldable pub merge : Table → DeviceId → DeviceId → Table × Option TableError
unfolding merge_addrs publish
merge t into from =
    if into == from
    then (t, some merge_with_itself)
    else merge_devices t into from (lookup into t.devices) (lookup from t.devices)

-- `Forget`
abbrev pub forgotten : Table → DeviceId → Option Device → Table × Option TableError
forgotten t id none = (t, some unknown_device)
forgotten t id (some _) = (notify (publish (remove_device id t)), none)

unfoldable pub forget : Table → DeviceId → Table × Option TableError
unfolding remove_device publish
forget t id = forgotten t id (lookup id t.devices)

-- The loop over the addresses of `Add` and `Restore`.
unfoldable pub attach_all : Table → DeviceId → List Addr → Table
unfolding attach
attach_all t id [] = t
attach_all t id (a ∷ rest) = attach_all (if is_valid a then attach t id (unmap a) else t) id rest

-- `Add`. `id` is the identity for the device.
abbrev pub hardware_key : Bytes → Bytes
hardware_key hw = b'h' ∷ b'w' ∷ b':' ∷ hw

abbrev pub named : Device → Bytes → Bytes → Device
named d name hw = record d {
  name = name;
  name_set_by_user = not (null name);
  hwaddr = if null hw then d.hwaddr else hardware_text hw;
}

abbrev pub added :
    Table → DeviceId → Bytes → Bytes → List Addr → Device → Table × Result TableError Device
added t id name hw addrs d =
    let v = put_device t (named d name hw) in
    let w = if null hw then v else record v { by_key = insert (hardware_key hw) id v.by_key } in
    let x = attach_all w id addrs in
    (
      notify (publish x),
      elim (lookup id x.devices) [ none ↦ err unknown_device | some out ↦ ok out ],
    )

abbrev pub add_to :
    Table
    → ℕ
    → DeviceId
    → Bytes
    → Bytes
    → List Addr
    → Option Table
    → Table × Result TableError Device
add_to t now id name hw addrs none = (t, err table_full)
add_to t now id name hw addrs (some u) = added u id name hw addrs (new_device id manual now)

unfoldable pub add :
    Table → ℕ → DeviceId → Bytes → Bytes → List Addr → Table × Result TableError Device
unfolding add_device attach_all publish hardware_text
add t now id text hw addrs =
    add_to t now id (device_name text) hw addrs (add_device t id manual now)

-- `Lookup` and `Get`
unfoldable pub get_device : Table → DeviceId → Option Device
get_device t id = lookup id t.devices

unfoldable pub lookup_device : Table → Addr → Option Device
unfolding get_device
lookup_device t a = elim (lookup (unmap a) t.index) [ none ↦ none | some e ↦ get_device t e.id ]

-- `Close`: the call returns when the learner has stopped.
unfoldable pub close : Table → Table
close t = record t { running = false }

pub record TableStats : Type 0 where
  pub devices : ℕ
  pub addrs : ℕ
  pub dropped : ℕ
  pub evicted : ℕ
  pub capacity : ℕ

unfoldable pub table_stats : Table → TableStats
table_stats t = record {
  devices = length t.devices;
  addrs = length t.by_addr;
  dropped = t.dropped;
  evicted = t.evicted;
  capacity = t.max;
}
