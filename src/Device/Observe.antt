-- ===== src/Device/Observe.antt =====
-- How internal/device/device.go comes to know a device: Identify with the queue of observations, the
-- learner, and ObserveLease.
use dns_desktop.Common.{
  ℕ, ◌+◌, ◌-◌, ◌/◌, ◌%◌, Bool, true, false, not, ◌&&◌, ◌||◌, Option, none, some, List, [], ◌∷◌,
  ◌++◌, Bytes, length, null, ◌==◌, ℕ_eq, ltb, leb, bytes_eq_instance, if◌then◌else◌,
}
use dns_desktop.Common.Dict.{lookup, insert}
use dns_desktop.Net.{Addr, is_valid, unmap, addr_eq_instance}
use dns_desktop.Dhcp.Pool.{Lease}
use dns_desktop.Device.{
  DeviceId, Source, observed, dhcp, Device, IndexEntry, Observation, Table, add_one, notify,
}
use dns_desktop.Device.Locked.{new_device, put_device, add_device, attach, publish}

-- The fields of `resolver.Client` that are used: where a query comes from, and its identity.
pub record Client : Type 0 where
  pub addr : Addr
  pub id : Bytes

-- `observe`: a send on the channel that does not wait.
unfoldable pub observe : Table → Addr → ℕ → Table
observe t a now =
    if ltb (length t.obs) t.queue
    then record t { obs = t.obs ++ (record { addr = a; at = now } ∷ []) }
    else record t { dropped = add_one t.dropped }

abbrev pub identified : Table → Addr → Client → ℕ → ℕ → Option IndexEntry → Table × Client
identified t a c now later none = (observe t a now, c)
identified t a c now later (some e) =
    (if leb t.seen_gap (now - e.last_seen) then observe t a later else t, record c { id = e.id })

-- `Identify`, with the two readings of the clock that it makes at most.
unfoldable pub identify : Table → ℕ → ℕ → Client → Table × Client
unfolding observe
identify t now later c =
    if is_valid c.addr
    then identified t (unmap c.addr) c now later (lookup (unmap c.addr) t.index)
    else (t, c)

-- `applyObservation`. `id` is the identity for a new device.
abbrev pub seen_again : Table → ℕ → Option Device → Table
seen_again t at none = t
seen_again t at (some d) =
    if ltb d.last_seen at then notify (publish (put_device t (record d { last_seen = at }))) else t

abbrev pub seen_first : Table → DeviceId → Addr → Option Table → Table
seen_first t id a none = t
seen_first t id a (some u) = notify (publish (attach u id a))

abbrev pub apply_to : Table → DeviceId → Observation → Option DeviceId → Table
apply_to t id o (some holder) = seen_again t o.at (lookup holder t.devices)
apply_to t id o none = seen_first t id o.addr (add_device t id observed o.at)

unfoldable pub apply_observation : Table → DeviceId → Observation → Table
unfolding add_device attach publish
apply_observation t id o = apply_to t id o (lookup o.addr t.by_addr)

-- One round of `learn`.
abbrev pub learn_from : Table → DeviceId → List Observation → Table
learn_from t id [] = t
learn_from t id (o ∷ rest) = apply_observation (record t { obs = rest }) id o

unfoldable pub learn : Table → DeviceId → Table
unfolding apply_observation
learn t id = if t.running then learn_from t id t.obs else t

-- `net.HardwareAddr.String`: two hexadecimal digits for a byte, with colons between.
abbrev hex_digit : ℕ → ℕ
hex_digit n = if ltb n 10 then b'0' + n else b'a' + n - 10

unfoldable pub hardware_text : Bytes → Bytes
hardware_text [] = []
hardware_text (b ∷ bs) =
    let rest = hardware_text bs in
    hex_digit (b / 16) ∷ hex_digit (b % 16) ∷ (if null bs then [] else b':' ∷ rest)

-- The device that a lease belongs to: that of its key, or else one that is known from observation
-- alone at its address.
abbrev pub is_observed : Source → Bool
is_observed observed = true
is_observed _ = false

abbrev pub device_at : Table → Option DeviceId → Option Device
device_at t none = none
device_at t (some id) = lookup id t.devices

abbrev pub only_observed : Option Device → Option Device
only_observed none = none
only_observed (some d) = if is_observed d.source then some d else none

abbrev pub or_observed : Option Device → Option Device → Option Device
or_observed (some d) cand = some d
or_observed none cand = only_observed cand

unfoldable pub device_of_lease : Table → Lease → Option Device
device_of_lease t l =
    or_observed (device_at t (lookup l.key t.by_key))
      (device_at t (lookup (unmap l.addr) t.by_addr))

-- What the lease tells of the device.
abbrev pub told : Device → Lease → ℕ → Device
told d l now = record d {
  source = dhcp;
  hwaddr = if null l.hwaddr then d.hwaddr else hardware_text l.hwaddr;
  hostname = if null l.hostname then d.hostname else l.hostname;
  name = if not (null l.hostname) && not d.name_set_by_user then l.hostname else d.name;
  first_seen =
      if not (l.first_seen == 0) && (d.first_seen == 0 || ltb l.first_seen d.first_seen)
      then l.first_seen
      else d.first_seen;
  last_seen = if ltb d.last_seen now then now else d.last_seen;
}

abbrev pub lease_told : Table → Lease → ℕ → Device → Table
lease_told t l now d =
    let u = put_device (record t { by_key = insert l.key d.id t.by_key }) (told d l now) in
    notify (publish (attach u d.id (unmap l.addr)))

abbrev pub lease_to_new : Table → Lease → ℕ → DeviceId → Option Table → Table
lease_to_new t l now id none = t
lease_to_new t l now id (some u) = lease_told u l now (new_device id dhcp now)

abbrev pub lease_to : Table → Lease → ℕ → DeviceId → Option Device → Table
lease_to t l now id (some d) = lease_told t l now d
lease_to t l now id none = lease_to_new t l now id (add_device t id dhcp now)

-- `ObserveLease`. `id` is the identity for a new device.
unfoldable pub observe_lease : Table → ℕ → DeviceId → Lease → Table
unfolding device_of_lease hardware_text add_device attach publish
observe_lease t now id l =
    if null l.key || not (is_valid l.addr) then t else lease_to t l now id (device_of_lease t l)
