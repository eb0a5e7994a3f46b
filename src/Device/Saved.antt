-- ===== src/Device/Saved.antt =====
-- The saved form of the table of internal/device/device.go: Snapshot, Restore, and the list that
-- Devices returns. The order of `strings.Compare` is that of the bytes.
use dns_desktop.Common.{
  ℕ, Bool, true, false, ◌&&◌, ◌||◌, Option, none, some, List, [], ◌∷◌, Bytes, length, null, ◌==◌,
  ℕ_eq, ltb, leb, bytes_eq_instance, if◌then◌else◌,
}
use dns_desktop.Common.Dict.{Dict, lookup, insert}
use dns_desktop.Device.{DeviceId, Device, TableError, bad_version, Table, notify}
use dns_desktop.Device.Locked.{put_device, publish}
use dns_desktop.Device.Edit.{attach_all}

abbrev pub bytes_lt : Bytes → Bytes → Bool
bytes_lt [] [] = false
bytes_lt [] (y ∷ ys) = true
bytes_lt (x ∷ xs) [] = false
bytes_lt (x ∷ xs) (y ∷ ys) = ltb x y || x == y && bytes_lt xs ys

-- `slices.SortFunc` on items that the order tells apart.
unfoldable pub place_by : (Device → Device → Bool) → Device → List Device → List Device
place_by before d [] = d ∷ []
place_by before d (e ∷ rest) =
    let further = place_by before d rest in if before e d then e ∷ further else d ∷ e ∷ rest

unfoldable pub sort_by : (Device → Device → Bool) → List Device → List Device
unfolding place_by
sort_by before [] = []
sort_by before (d ∷ rest) = place_by before d (sort_by before rest)

abbrev pub by_id : Device → Device → Bool
by_id a b = bytes_lt a.id b.id

-- The latest seen first, and by identity among those seen at one time.
abbrev pub by_last_seen : Device → Device → Bool
by_last_seen a b = ltb b.last_seen a.last_seen || b.last_seen == a.last_seen && by_id a b

unfoldable pub values : Dict DeviceId Device → List Device
values [] = []
values ((_, d) ∷ rest) = d ∷ values rest

-- `Devices`
unfoldable pub devices_seen : Table → List Device
unfolding sort_by values
devices_seen t = sort_by by_last_seen (values t.devices)

pub record Saved : Type 0 where
  pub version : ℕ
  pub devices : List Device
  pub keys : Dict Bytes DeviceId

unfoldable pub snapshot : Table → Saved
unfolding sort_by values
snapshot t = record { version = 1; devices = sort_by by_id (values t.devices); keys = t.by_key }

-- The loop of `Restore` over the devices.
unfoldable pub restore_devices : List Device → Table → Table
unfolding attach_all
restore_devices [] t = t
restore_devices (d ∷ rest) t =
    let skipped = restore_devices rest t in
    let restored =
      restore_devices rest (attach_all (put_device t (record d { addrs = [] })) d.id d.addrs) in
    if null d.id then skipped else if leb t.max (length t.devices) then t else restored

-- The loop over the keys.
abbrev pub keep_key : Bytes → DeviceId → Option Device → Dict Bytes DeviceId → Dict Bytes DeviceId
keep_key k id none m = m
keep_key k id (some _) m = insert k id m

unfoldable pub restore_keys :
    Dict DeviceId Device → Dict Bytes DeviceId → Dict Bytes DeviceId → Dict Bytes DeviceId
restore_keys devices [] m = m
restore_keys devices ((k, id) ∷ rest) m =
    restore_keys devices rest (keep_key k id (lookup id devices) m)

abbrev pub emptied : Table → Table
emptied t = record t { devices = []; by_addr = []; by_key = [] }

unfoldable pub restore : Table → Saved → Table × Option TableError
unfolding restore_devices restore_keys publish
restore t s =
    if s.version == 1
    then (let u = restore_devices s.devices (emptied t) in
        (notify (publish (record u { by_key = restore_keys u.devices s.keys [] })), none))
    else (t, some bad_version)
