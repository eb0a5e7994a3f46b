-- ===== src/Device/Learning.antt =====
-- What is learned of the network (internal/device/device.go: applyObservation, ObserveLease) keeps the
-- table well-formed.
use dns_desktop.Common.{
  ℕ, ◌-◌, ◌≤◌, ◌≡◌, refl, ap, ◌∙◌, inl, inr, Bool, true, false, not, ◌||◌, Option, none, some, List,
  [], ◌∷◌, ◌++◌, Bytes, length, length-append, null, arith, ◌==◌, ltb, leb, bytes_eq_instance,
  if◌then◌else◌, Bool-cases, Option-cases,
}
use dns_desktop.Common.Dict.{Dict, lookup, insert, lookup-insert}
use dns_desktop.Common.Elems.{distinct-keys_insert}
use dns_desktop.Net.{Addr, is_valid, unmap, addr_eq_instance}
use dns_desktop.Dhcp.Pool.{Lease}
use dns_desktop.Device.{DeviceId, observed, dhcp, Device, Observation, Table, notify}
use dns_desktop.Device.Locked.{new_device, put_device, add_device, attach, publish}
use dns_desktop.Device.Observe.{
  Client, observe, identify, seen_again, seen_first, apply_observation, learn_from, learn,
  device_at, or_observed, device_of_lease, told, lease_told, lease_to_new, observe_lease,
}
use dns_desktop.Device.Invariant.{IsBody, IsTable, known, KeyOk, publish-IsTable, put_device-IsBody}
use dns_desktop.Device.Writes.{under_its_id, attach-IsBody}
use dns_desktop.Device.Removal.{add_device-IsBody, add_device_there}

pub publish_and_notify-IsTable : (t : Table) → IsBody t → IsTable (notify (publish t))
unfolding publish
publish_and_notify-IsTable t v =
    let w = publish-IsTable t v in
    record {
      body = record {
        owned = v.owned;
        bounded = v.bounded;
        keyed = v.keyed;
        id_once = v.id_once;
        key_once = v.key_once;
        waiting = v.waiting;
      };
      published = w.published;
    }

-- A pointer set from a key to a device that is there.
pub KeyOk-if :
    (devices : Dict DeviceId Device) (b : Bool) (id : DeviceId) (o : Option DeviceId)
    → known (lookup id devices) ≡ true
    → KeyOk devices o
    → KeyOk devices (if b then some id else o)
KeyOk-if devices true id o h k = h
KeyOk-if devices false id o h k = k

pub put_key-IsBody :
    (t : Table) (key : Bytes) (id : DeviceId)
    → IsBody t
    → known (lookup id t.devices) ≡ true
    → IsBody (record t { by_key = insert key id t.by_key })
put_key-IsBody t key id v there = record {
  owned = v.owned;
  bounded = v.bounded;
  keyed = λ k.
      rw (lookup-insert key k id t.by_key)
        (KeyOk-if t.devices (key == k) id (lookup k t.by_key) there (v.keyed k));
  id_once = v.id_once;
  key_once = distinct-keys_insert key id t.by_key v.key_once;
  waiting = v.waiting;
}

-- The queue.
queue-IsTable :
    (t : Table) (obs : List Observation) (dropped : ℕ)
    → IsTable t
    → length obs ≤ t.queue
    → IsTable (record t { obs = obs; dropped = dropped })
queue-IsTable t obs dropped v room = record {
  body = record {
    owned = v.body.owned;
    bounded = v.body.bounded;
    keyed = v.body.keyed;
    id_once = v.body.id_once;
    key_once = v.body.key_once;
    waiting = room;
  };
  published = v.published;
}

pub observe-IsTable : (t : Table) (a : Addr) (now : ℕ) → IsTable t → IsTable (observe t a now)
unfolding observe
observe-IsTable t a now v = elim (Bool-cases (ltb (length t.obs) t.queue)) [
  | inl room ↦ rw room (
      queue-IsTable t (t.obs ++ (record { addr = a; at = now } ∷ [])) t.dropped v
        (ground (arith, length-append t.obs (record { addr = a; at = now } ∷ []))))
  | inr full ↦ rw full (queue-IsTable t t.obs _ v v.body.waiting)
]

pub identify-IsTable :
    (t : Table) (now later : ℕ) (c : Client) → IsTable t → IsTable (identify t now later c).0
unfolding identify
identify-IsTable t now later c v = elim (Bool-cases (is_valid c.addr)) [
  | inl valid ↦ rw valid (elim (Option-cases (lookup (unmap c.addr) t.index)) [
    | inl e ↦ rw e (observe-IsTable t (unmap c.addr) now v)
    | inr (x, e) ↦ rw e (elim (Bool-cases (leb t.seen_gap (now - x.last_seen))) [
      | inl old ↦ rw old (observe-IsTable t (unmap c.addr) later v)
      | inr recent ↦ rw recent v
    ])
  ])
  | inr invalid ↦ rw invalid v
]

seen_again-IsTable :
    (t : Table) (at : ℕ) (id : DeviceId)
    → IsTable t
    → IsTable (seen_again t at (lookup id t.devices))
seen_again-IsTable t at id v = elim (Option-cases (lookup id t.devices)) [
  | inl e ↦ rw e v
  | inr (d, e) ↦ rw e (elim (Bool-cases (ltb d.last_seen at)) [
    | inl later ↦ rw later (
        publish_and_notify-IsTable (put_device t (record d { last_seen = at })) (
          put_device-IsBody t (record d { last_seen = at }) d v.body
            (ap (λ i. lookup i t.devices) (under_its_id t id d v.body e) ∙ e) refl))
    | inr known ↦ rw known v
  ])
]

seen_first-IsTable :
    (t : Table) (id : DeviceId) (a : Addr) (o : Option Table)
    → IsTable t
    → ((u : Table) → o ≡ some u → IsBody u)
    → IsTable (seen_first t id a o)
seen_first-IsTable t id a none v h = v
seen_first-IsTable t id a (some u) v h =
    publish_and_notify-IsTable (attach u id a) (attach-IsBody u id a (h u refl))

pub apply_observation-IsTable :
    (t : Table) (id : DeviceId) (o : Observation)
    → IsTable t
    → lookup id t.devices ≡ none
    → IsTable (apply_observation t id o)
unfolding apply_observation
apply_observation-IsTable t id o v fresh = elim (Option-cases (lookup o.addr t.by_addr)) [
  | inl e ↦ rw e (
      seen_first-IsTable t id o.addr (add_device t id observed o.at) v
        (add_device-IsBody t id observed o.at v.body fresh))
  | inr (holder, e) ↦ rw e (seen_again-IsTable t o.at holder v)
]

pub IsTable-if : (b : Bool) (t u : Table) → IsTable t → IsTable u → IsTable (if b then t else u)
IsTable-if true t u h k = h
IsTable-if false t u h k = k

learn_from-IsTable :
    (t : Table) (id : DeviceId) (obs : List Observation)
    → IsTable t
    → length obs ≤ t.queue
    → lookup id t.devices ≡ none
    → IsTable (learn_from t id obs)
learn_from-IsTable t id [] v room fresh = v
learn_from-IsTable t id (o ∷ rest) v room fresh =
    apply_observation-IsTable (record t { obs = rest }) id o
      (queue-IsTable t rest t.dropped v (omega arith)) fresh

pub learn-IsTable :
    (t : Table) (id : DeviceId) → IsTable t → lookup id t.devices ≡ none → IsTable (learn t id)
unfolding learn
learn-IsTable t id v fresh =
    IsTable-if t.running (learn_from t id t.obs) t
      (learn_from-IsTable t id t.obs v v.body.waiting fresh) v

-- A lease.
pub lease_told-IsTable :
    (t : Table) (l : Lease) (now : ℕ) (d : Device)
    → IsBody t
    → lookup d.id t.devices ≡ some d
    → IsTable (lease_told t l now d)
lease_told-IsTable t l now d v here =
    let t1 = record t { by_key = insert l.key d.id t.by_key } in
    let u = put_device t1 (told d l now) in
    publish_and_notify-IsTable (attach u d.id (unmap l.addr)) (
      attach-IsBody u d.id (unmap l.addr) (
        put_device-IsBody t1 (told d l now) d (put_key-IsBody t l.key d.id v (ap known here)) here
          refl))

lease_to_new-IsTable :
    (t : Table) (l : Lease) (now : ℕ) (id : DeviceId) (o : Option Table)
    → IsTable t
    → ((u : Table) → o ≡ some u → IsBody u)
    → ((u : Table) → o ≡ some u → lookup id u.devices ≡ some (new_device id dhcp now))
    → IsTable (lease_to_new t l now id o)
lease_to_new-IsTable t l now id none v h there = v
lease_to_new-IsTable t l now id (some u) v h there =
    lease_told-IsTable u l now (new_device id dhcp now) (h u refl) (there u refl)

pub device_of_lease_there :
    (t : Table) (l : Lease) (d : Device)
    → IsBody t
    → device_of_lease t l ≡ some d
    → lookup d.id t.devices ≡ some d
unfolding device_of_lease
device_of_lease_there t l d v h =
    or_observed_there (device_at t (lookup l.key t.by_key))
      (device_at t (lookup (unmap l.addr) t.by_addr)) d h (at_there (lookup l.key t.by_key))
      (at_there (lookup (unmap l.addr) t.by_addr))
  where
    at_there :
        (o : Option DeviceId) (d : Device) → device_at t o ≡ some d → lookup d.id t.devices ≡ some d
    at_there none d h = cc
    at_there (some id) d h = ap (λ i. lookup i t.devices) (under_its_id t id d v h) ∙ h

    or_observed_there :
        (p q : Option Device) (d : Device)
        → or_observed p q ≡ some d
        → ((d : Device) → p ≡ some d → lookup d.id t.devices ≡ some d)
        → ((d : Device) → q ≡ some d → lookup d.id t.devices ≡ some d)
        → lookup d.id t.devices ≡ some d
    or_observed_there (some e) q d h hp hq = hp d h
    or_observed_there none none d h hp hq = cc
    or_observed_there none (some e) d h hp hq = hq d (ground arith)

pub observe_lease-IsTable :
    (t : Table) (now : ℕ) (id : DeviceId) (l : Lease)
    → IsTable t
    → lookup id t.devices ≡ none
    → IsTable (observe_lease t now id l)
unfolding observe_lease
observe_lease-IsTable t now id l v fresh = elim (Bool-cases (null l.key || not (is_valid l.addr))) [
  | inl nothing ↦ rw nothing v
  | inr some_lease ↦ rw some_lease (elim (Option-cases (device_of_lease t l)) [
    | inl e ↦ rw e (
        lease_to_new-IsTable t l now id (add_device t id dhcp now) v
          (add_device-IsBody t id dhcp now v.body fresh) (add_device_there t id dhcp now))
    | inr (d, e) ↦ rw e (lease_told-IsTable t l now d v.body (device_of_lease_there t l d v.body e))
  ])
]
