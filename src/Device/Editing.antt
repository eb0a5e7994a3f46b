-- ===== src/Device/Editing.antt =====
-- What a person does to the table (internal/device/device.go: update, Forget, Add, Merge of a device
-- with one address, Restore) keeps it well-formed.
use dns_desktop.Common.{
  ℕ, ◌≡◌, refl, ap, ◌∙◌, inl, inr, Bool, true, false, Option, none, some, List, [], ◌∷◌, Bytes,
  null, bytes_eq_instance, if◌then◌else◌, Bool-cases, Option-cases,
}
use dns_desktop.Common.Dict.{lookup, insert}
use dns_desktop.Net.{Addr, is_valid, unmap, addr_eq_instance}
use dns_desktop.Device.{DeviceId, manual, Device, Table, device_name}
use dns_desktop.Device.Locked.{new_device, put_device, remove_device, add_device, attach}
use dns_desktop.Device.Edit.{
  update, rename, set_profile, set_paused, forget, attach_all, hardware_key, named, add_to, add,
  close,
}
use dns_desktop.Device.Invariant.{IsBody, IsTable, known, put_device-IsBody, known-insert}
use dns_desktop.Device.Writes.{under_its_id, attach-IsBody, known-attach}
use dns_desktop.Device.Removal.{remove_device-IsBody, add_device-IsBody, add_device_there}
use dns_desktop.Device.Learning.{publish_and_notify-IsTable, put_key-IsBody}

-- A change of a device that leaves its identity and its addresses.
pub update-IsTable :
    (t : Table) (id : DeviceId) (f : Device → Device)
    → ((d : Device) → (f d).id ≡ d.id)
    → ((d : Device) → (f d).addrs ≡ d.addrs)
    → IsTable t
    → IsTable (update t id f).0
unfolding update
update-IsTable t id f same_id same_addrs v = elim (Option-cases (lookup id t.devices)) [
  | inl e ↦ rw e v
  | inr (d, e) ↦ rw e (
      publish_and_notify-IsTable (put_device t (f d)) (
        put_device-IsBody t (f d) d v.body
          (ap (λ i. lookup i t.devices) (same_id d ∙ under_its_id t id d v.body e) ∙ e)
          (same_addrs d)))
]

pub rename-IsTable :
    (t : Table) (id : DeviceId) (text : Bytes) → IsTable t → IsTable (rename t id text).0
unfolding rename
rename-IsTable t id text v = update-IsTable t id _ (λ d. refl) (λ d. refl) v

pub set_profile-IsTable :
    (t : Table) (id : DeviceId) (profile : Bytes) → IsTable t → IsTable (set_profile t id profile).0
unfolding set_profile
set_profile-IsTable t id profile v = update-IsTable t id _ (λ d. refl) (λ d. refl) v

pub set_paused-IsTable :
    (t : Table) (id : DeviceId) (paused : Bool) → IsTable t → IsTable (set_paused t id paused).0
unfolding set_paused
set_paused-IsTable t id paused v = update-IsTable t id _ (λ d. refl) (λ d. refl) v

pub forget-IsTable : (t : Table) (id : DeviceId) → IsTable t → IsTable (forget t id).0
unfolding forget
forget-IsTable t id v = elim (Option-cases (lookup id t.devices)) [
  | inl e ↦ rw e v
  | inr (d, e) ↦
      rw e (publish_and_notify-IsTable (remove_device id t) (remove_device-IsBody t id v.body))
]

pub IsBody-if : (b : Bool) (t u : Table) → IsBody t → IsBody u → IsBody (if b then t else u)
IsBody-if true t u h k = h
IsBody-if false t u h k = k

pub attach_all-IsBody :
    (t : Table) (id : DeviceId) (addrs : List Addr) → IsBody t → IsBody (attach_all t id addrs)
unfolding attach_all
attach_all-IsBody t id [] v = v
attach_all-IsBody t id (a ∷ rest) v = elim (Bool-cases (is_valid a)) [
  | inl valid ↦
      rw valid (attach_all-IsBody (attach t id (unmap a)) id rest (attach-IsBody t id (unmap a) v))
  | inr invalid ↦ rw invalid (attach_all-IsBody t id rest v)
]

known-attach_if_valid :
    (t : Table) (id : DeviceId) (a : Addr) (j : DeviceId) (b : Bool)
    → IsBody t
    → known (lookup j (if b then attach t id (unmap a) else t).devices) ≡ known (lookup j t.devices)
known-attach_if_valid t id a j true v = known-attach t id (unmap a) j v
known-attach_if_valid t id a j false v = refl

pub known-attach_all :
    (t : Table) (id : DeviceId) (addrs : List Addr) (j : DeviceId)
    → IsBody t
    → known (lookup j (attach_all t id addrs).devices) ≡ known (lookup j t.devices)
unfolding attach_all
known-attach_all t id [] j v = refl
known-attach_all t id (a ∷ rest) j v =
    known-attach_all (if is_valid a then attach t id (unmap a) else t) id rest j
      (IsBody-if (is_valid a) (attach t id (unmap a)) t (attach-IsBody t id (unmap a) v) v)
    ∙ known-attach_if_valid t id a j (is_valid a) v

add_to-IsTable :
    (t : Table) (now : ℕ) (id : DeviceId) (name hw : Bytes) (addrs : List Addr) (o : Option Table)
    → IsTable t
    → ((u : Table) → o ≡ some u → IsBody u)
    → ((u : Table) → o ≡ some u → lookup id u.devices ≡ some (new_device id manual now))
    → IsTable (add_to t now id name hw addrs o).0
add_to-IsTable t now id name hw addrs none v h there = v
add_to-IsTable t now id name hw addrs (some u) v h there =
    let d = named (new_device id manual now) name hw in
    let w = put_device u d in
    let wv = put_device-IsBody u d (new_device id manual now) (h u refl) (there u refl) refl in
    let x = if null hw then w else record w { by_key = insert (hardware_key hw) id w.by_key } in
    publish_and_notify-IsTable (attach_all x id addrs) (
      attach_all-IsBody x id addrs (
        IsBody-if (null hw) w (record w { by_key = insert (hardware_key hw) id w.by_key }) wv
          (put_key-IsBody w (hardware_key hw) id wv (
            known-insert id id d (new_device id manual now) u.devices (there u refl)
            ∙ ap known (there u refl)))))

pub add-IsTable :
    (t : Table) (now : ℕ) (id : DeviceId) (text hw : Bytes) (addrs : List Addr)
    → IsTable t
    → lookup id t.devices ≡ none
    → IsTable (add t now id text hw addrs).0
unfolding add
add-IsTable t now id text hw addrs v fresh =
    add_to-IsTable t now id (device_name text) hw addrs (add_device t id manual now) v
      (add_device-IsBody t id manual now v.body fresh) (add_device_there t id manual now)

pub close-IsTable : (t : Table) → IsTable t → IsTable (close t)
unfolding close
close-IsTable t v = record {
  body = record {
    owned = v.body.owned;
    bounded = v.body.bounded;
    keyed = v.body.keyed;
    id_once = v.body.id_once;
    key_once = v.body.key_once;
    waiting = v.body.waiting;
  };
  published = v.published;
}
