-- ===== src/Device/Tests.antt =====
-- Runs of the device table (internal/device/device.go) on a small home network.
use dns_desktop.Common.{
  ℕ, ◌+◌, ◌*◌, ◌^◌, ◌≡◌, ◌⊎◌, refl, true, false, none, some, List, [], ◌∷◌, Bytes, arith,
  bytes_eq_instance,
}
use dns_desktop.Common.Int.{pos}
use dns_desktop.Common.Dict.{lookup, insert, remove}
use dns_desktop.Common.Elems.{delete_all, elem, distinct}
use dns_desktop.Text.{runes, encode_runes}
use dns_desktop.Device.Saved.{snapshot, restore}
use dns_desktop.Device.Restoring.{restore-IsTable}
use dns_desktop.Device.Locked.{add_device, attach, publish}
use dns_desktop.Net.{Addr, v4, v6, unmap, addr_eq_instance}
use dns_desktop.Dhcp.Pool.{Lease, leased}
use dns_desktop.Device.{DeviceId, observed, dhcp, Device, TableOptions, Table, new_table}
use dns_desktop.Device.Observe.{Client, identify, apply_observation, device_of_lease, observe_lease}
use dns_desktop.Device.Edit.{merge, set_paused}
use dns_desktop.Device.History.{
  TableCall, identifies, learns, observes_lease, renames, sets_paused, forgets, run, AllAllowed,
  run-IsTable, new_table-IsTable,
}
use dns_desktop.Device.Invariant.{IsTable}
use dns_desktop.Device.Identity.{Owns, identify-Owns, IsLeased, observe_lease-IsLeased}
use dns_desktop.Device.Decisions.{Survives}
use dns_desktop.Device.MergeLoss.{merge_loses_address}
use dns_desktop.Device.Restart.{through_json, restarted, adopted_after_restart}

-- 192.168.1.n
abbrev host : ℕ → Addr
host n = v4 (3232235776 + n)

abbrev lease : Bytes → ℕ → Bytes → Lease
lease key n hostname = record {
  key = key;
  addr = host n;
  hwaddr = [];
  hostname = hostname;
  state = leased;
  expires = 0;
  first_seen = 0;
  last_seen = 0;
}

abbrev phone : DeviceId
phone = 100 ∷ []

abbrev tablet : DeviceId
tablet = 101 ∷ []

abbrev default_options : TableOptions
default_options = record { max_devices = pos 0; seen_interval = pos 0; observe_queue = pos 0 }

abbrev empty : Table
empty = new_table default_options

-- The phone comes, and then the tablet, which moves to another address and is paused.
abbrev arrivals : List TableCall
arrivals =
    observes_lease 1000 phone (lease (1 ∷ []) 10 (112 ∷ []))
    ∷ observes_lease 2000 tablet (lease (2 ∷ []) 20 [])
    ∷ observes_lease 3000 (102 ∷ []) (lease (2 ∷ []) 21 [])
    ∷ sets_paused tablet true
    ∷ []

arrivals-AllAllowed : AllAllowed empty arrivals
unfolding new_table run observe_lease lookup insert add_device device_of_lease set_paused remove
arrivals-AllAllowed = (refl, (refl, (refl, (tt, tt))))

run-IsTable_example : IsTable (run empty arrivals)
run-IsTable_example =
    run-IsTable empty arrivals (new_table-IsTable default_options) arrivals-AllAllowed

-- A query from the tablet's older address, mapped into IPv6.
tablet_query : Client
tablet_query = record { addr = v6 (0xffff * 2 ^ 32 + 3232235796); id = [] }

identify-Owns_example :
    ((i : DeviceId) × Owns (run empty arrivals) i (unmap tablet_query.addr)
      × ((identify (run empty arrivals) 4000 4000 tablet_query).1 ≡ record tablet_query { id = i }))
    ⊎ (((i : DeviceId) → ¬ Owns (run empty arrivals) i (unmap tablet_query.addr))
        × ((identify (run empty arrivals) 4000 4000 tablet_query).1 ≡ tablet_query))
unfolding tablet_query
identify-Owns_example =
    identify-Owns (run empty arrivals) 4000 4000 tablet_query run-IsTable_example refl

tablet_identified : (identify (run empty arrivals) 4000 4000 tablet_query).1.id ≡ tablet
unfolding new_table run observe_lease lookup insert add_device device_of_lease set_paused remove
    tablet_query identify publish attach delete_all
tablet_identified = refl

-- A laptop gets the phone's address.
abbrev laptop_lease : Lease
laptop_lease = lease (3 ∷ []) 10 []

observe_lease-IsLeased_example :
    (j : DeviceId) × IsLeased
      (run empty arrivals)
      (observe_lease (run empty arrivals) 5000 (103 ∷ []) laptop_lease)
      laptop_lease
      j
unfolding new_table run observe_lease lookup insert add_device device_of_lease set_paused remove
    publish attach delete_all
observe_lease-IsLeased_example =
    observe_lease-IsLeased (run empty arrivals) 5000 (103 ∷ []) laptop_lease run-IsTable_example
      refl (omega arith) refl refl

-- The tablet's record after its arrival.
abbrev tablet_device : Device
tablet_device = record {
  id = tablet;
  name = [];
  name_set_by_user = false;
  profile = [];
  paused = true;
  hwaddr = [];
  hostname = [];
  vendor = [];
  addrs = host 21 ∷ host 20 ∷ [];
  source = dhcp;
  first_seen = 2000;
  last_seen = 3000;
}

tablet_there : lookup tablet (run empty arrivals).devices ≡ some tablet_device
unfolding new_table run observe_lease lookup insert add_device device_of_lease set_paused remove
    publish attach delete_all
tablet_there = refl

-- A stranger is seen and named, and the phone is forgotten: the tablet stays paused.
abbrev evening : List TableCall
evening =
    identifies (record { addr = host 30; id = [] }) 5000 5000
    ∷ learns (104 ∷ [])
    ∷ renames (104 ∷ []) (116 ∷ 118 ∷ [])
    ∷ forgets phone
    ∷ []

-- The tablet is merged into the phone: its older address is nobody's.
abbrev phone_device : Device
phone_device = record {
  id = phone;
  name = 112 ∷ [];
  name_set_by_user = false;
  profile = [];
  paused = false;
  hwaddr = [];
  hostname = 112 ∷ [];
  vendor = [];
  addrs = host 10 ∷ [];
  source = dhcp;
  first_seen = 1000;
  last_seen = 1000;
}

phone_there : lookup phone (run empty arrivals).devices ≡ some phone_device
unfolding new_table run observe_lease lookup insert add_device device_of_lease set_paused remove
    publish attach delete_all
phone_there = refl

merge_loses_address_example :
    ((merge (run empty arrivals) phone tablet).1 ≡ none)
    × ((identify (merge (run empty arrivals) phone tablet).0 5000 5000 tablet_query).1
        ≡ tablet_query)
    × (apply_observation
          (merge (run empty arrivals) phone tablet).0
          (105 ∷ [])
          (record { addr = host 20; at = 5000 })
        ≡ (merge (run empty arrivals) phone tablet).0)
unfolding tablet_query
merge_loses_address_example =
    merge_loses_address (run empty arrivals) phone tablet phone_device tablet_device (host 21)
      (host 20) [] 5000 5000 5000 tablet_query (105 ∷ []) run-IsTable_example refl phone_there
      tablet_there refl refl refl refl

-- After a restart the laptop takes over the tablet by its address, the tablet's pause with it.
restarted_home-IsTable : IsTable (restarted (run empty arrivals) empty).0
unfolding restarted new_table run observe_lease lookup insert add_device device_of_lease set_paused
    remove publish attach delete_all snapshot through_json distinct elem runes encode_runes
restarted_home-IsTable =
    restore-IsTable empty (through_json (snapshot (run empty arrivals)))
      (new_table-IsTable default_options) refl

restarted-tablet :
    lookup tablet (restarted (run empty arrivals) empty).0.devices
    ≡ some (record tablet_device { addrs = host 20 ∷ host 21 ∷ []; source = observed })
unfolding restarted new_table run observe_lease lookup insert add_device device_of_lease set_paused
    remove publish attach delete_all snapshot through_json restore runes encode_runes
restarted-tablet = refl

abbrev adopted : Table
adopted =
    observe_lease (restarted (run empty arrivals) empty).0 9000 (106 ∷ []) (lease (3 ∷ []) 21 [])

adopted_after_restart_example :
    (lookup (3 ∷ []) adopted.by_key ≡ some tablet)
    × Survives adopted.devices tablet
        (record tablet_device { addrs = host 20 ∷ host 21 ∷ []; source = observed })
unfolding restarted new_table run observe_lease lookup insert add_device device_of_lease set_paused
    remove publish attach delete_all snapshot through_json restore runes encode_runes
adopted_after_restart_example =
    adopted_after_restart (run empty arrivals) empty 9000 (106 ∷ []) (lease (3 ∷ []) 21 []) tablet
      (record tablet_device { addrs = host 20 ∷ host 21 ∷ []; source = observed })
      restarted_home-IsTable refl refl refl refl restarted-tablet
