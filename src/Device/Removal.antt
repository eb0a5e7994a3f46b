-- ===== src/Device/Removal.antt =====
-- Removing, evicting and creating devices (internal/device/device.go), and that this keeps the tables
-- well-formed.
use dns_desktop.Common.{
  ℕ, ◌<◌, ◌≡◌, refl, ap, ◌∙◌, subst, ◌⊎◌, inl, inr, Bool, true, false, Option, none, some, [], ◌∷◌,
  length, arith, ◌==◌, leb, bytes_eq_iff, bytes_eq_instance, if◌then◌else◌, Bool-cases,
  Option-cases, eq_of_true, eq_true,
}
use dns_desktop.Common.Dict.{Dict, lookup, insert, remove, lookup-insert, lookup-remove}
use dns_desktop.Common.Elems.{
  elem, distinct, keys, points, lookup-remove_value, distinct-keys_remove_value,
  distinct-keys_insert, distinct-keys_remove, lookup-missing, length-insert_new, length-remove-le,
  length-remove-lt,
}
use dns_desktop.Net.{Addr, addr_eq_instance}
use dns_desktop.Device.{DeviceId, Source, Device, Table, add_one}
use dns_desktop.Device.Locked.{
  put_device, new_device, is_customised, seen_before, victim_among, remove_device, evict, register,
  add_device,
}
use dns_desktop.Device.Owned.{DeviceOk, DeviceOk-if, lists}
use dns_desktop.Device.Writes.{under_its_id}
use dns_desktop.Device.Invariant.{IsBody, KeyOk}

DeviceOk-unless :
    (b : Bool) (i : DeviceId) (o : Option Device)
    → DeviceOk i o
    → DeviceOk i (if b then none else o)
DeviceOk-unless true i o h = tt
DeviceOk-unless false i o h = h

owner-removed :
    (id i : DeviceId) (o : Option Device) (p : Option DeviceId) (a : Addr)
    → lists o a ≡ points p i
    → lists (if id == i then none else o) a ≡ points (if points p id then none else p) i
owner-removed id i o p a h = elim (Bool-cases (id == i)) [
  | inl same ↦ rw same (removed_pointer id i p same)
  | inr other ↦ rw other (h ∙ kept_pointer id i p other)
]
  where
    removed_pointer :
        (id i : DeviceId) (p : Option DeviceId)
        → (id == i) ≡ true
        → false ≡ points (if points p id then none else p) i
    removed_pointer id i none same = refl
    removed_pointer id i (some j) same = ground (arith, eq_of_true id i same)

    kept_pointer :
        (id i : DeviceId) (p : Option DeviceId)
        → (id == i) ≡ false
        → points p i ≡ points (if points p id then none else p) i
    kept_pointer id i none other = refl
    kept_pointer id i (some j) other = ground (arith, (bytes_eq_iff j id).0)

KeyOk-removed :
    (id : DeviceId) (devices : Dict DeviceId Device) (o : Option DeviceId)
    → KeyOk devices o
    → KeyOk (remove id devices) (if points o id then none else o)
KeyOk-removed id devices none h = tt
KeyOk-removed id devices (some j) h = elim (Bool-cases (j == id)) [
  | inl same ↦ rw same tt
  | inr other ↦
      rw other (rw lookup-remove (ground (arith, (bytes_eq_iff id j).0, (bytes_eq_iff j id).1)))
]

pub remove_device-IsBody : (t : Table) (id : DeviceId) → IsBody t → IsBody (remove_device id t)
unfolding remove_device
remove_device-IsBody t id v = record {
  owned = record {
    device = λ i.
        rw (lookup-remove id i t.devices)
          (DeviceOk-unless (id == i) i (lookup i t.devices) (v.owned.device i));
    owner = λ i a.
        rw (lookup-remove id i t.devices, lookup-remove_value a id t.by_addr v.owned.once)
          (owner-removed id i (lookup i t.devices) (lookup a t.by_addr) a (v.owned.owner i a));
    once = distinct-keys_remove_value id t.by_addr v.owned.once;
  };
  bounded = omega (arith, length-remove-le id t.devices, v.bounded);
  keyed = λ k.
      rw (lookup-remove_value k id t.by_key v.key_once)
        (KeyOk-removed id t.devices (lookup k t.by_key) (v.keyed k));
  id_once = distinct-keys_remove id t.devices v.id_once;
  key_once = distinct-keys_remove_value id t.by_key v.key_once;
  waiting = v.waiting;
}

-- What the loop of `evictLocked` has chosen: a device that nobody has customised.
abbrev pub IsVictim : Dict DeviceId Device → Device → Type 0
IsVictim devices d = (i : DeviceId) × (lookup i devices ≡ some d) × (is_customised d ≡ false)

IsVictim-cons :
    (i : DeviceId) (e d : Device) (rest : Dict DeviceId Device)
    → distinct (keys ((i, e) ∷ rest)) ≡ true
    → IsVictim rest d
    → IsVictim ((i, e) ∷ rest) d
unfolding lookup distinct
IsVictim-cons i e d rest once (j, found, free) =
    (j, ground (arith, lookup-missing j rest, (bytes_eq_iff i j).0), free)

tail_once :
    (i : DeviceId) (e : Device) (rest : Dict DeviceId Device)
    → distinct (keys ((i, e) ∷ rest)) ≡ true
    → distinct (keys rest) ≡ true
unfolding distinct
tail_once i e rest h = ground arith

first_choice :
    (i : DeviceId) (e d : Device) (rest : Dict DeviceId Device) (best : Option Device)
    → (if is_customised e then best else if seen_before e best then some e else best) ≡ some d
    → (best ≡ some d) ⊎ IsVictim ((i, e) ∷ rest) d
unfolding lookup
first_choice i e d rest best h = elim (Bool-cases (is_customised e)) [
  | inl kept ↦ inl (rw kept at h)
  | inr free ↦ elim (Bool-cases (seen_before e best)) [
    | inl earlier ↦ inr (i, ground (arith, eq_true i), ground arith)
    | inr later ↦ inl (ground arith)
  ]
]

pub victim_among-IsVictim :
    (devices : Dict DeviceId Device) (best : Option Device) (d : Device)
    → distinct (keys devices) ≡ true
    → victim_among devices best ≡ some d
    → (best ≡ some d) ⊎ IsVictim devices d
unfolding victim_among
victim_among-IsVictim [] best d once h = inl h
victim_among-IsVictim ((i, e) ∷ rest) best d once h =
    elim (victim_among-IsVictim rest
      (if is_customised e then best else if seen_before e best then some e else best) d
      (tail_once i e rest once) h) [
        | inl chosen ↦ first_choice i e d rest best chosen
        | inr later ↦ inr (IsVictim-cons i e d rest once later)
      ]

missing_if : (b : Bool) (o : Option Device) → o ≡ none → (if b then none else o) ≡ none
missing_if true o h = refl
missing_if false o h = h

none-ne-some : {u : Table} → none ≡ some u → ⊥
none-ne-some h = cc

some_inj : {t u : Table} → some t ≡ some u → t ≡ u
some_inj h = cc

module _ (t : Table) (v : IsBody t) where
  -- A well-formed table in which a device has room, and no new identity.
  abbrev IsRoom : Table → Type 0
  IsRoom u =
      IsBody u
      × (length u.devices < t.max)
      × (u.max ≡ t.max)
      × ((i : DeviceId) → lookup i t.devices ≡ none → lookup i u.devices ≡ none)

  -- The victim stands in the table under its identity.
  pub victim_there :
      (d : Device)
      → victim_among t.devices none ≡ some d
      → (lookup d.id t.devices ≡ some d) × (is_customised d ≡ false)
  victim_there d h = elim (victim_among-IsVictim t.devices none d v.id_once h) [
    | inl no_best ↦ cc
    | inr (i, found, free) ↦
        (ap (λ j. lookup j t.devices) (under_its_id t i d v found) ∙ found, free)
  ]

  evicted-IsBody :
      (d : Device)
      → victim_among t.devices none ≡ some d
      → IsRoom (record (remove_device d.id t) { evicted = add_one t.evicted })
  unfolding remove_device
  evicted-IsBody d h =
      let w = remove_device-IsBody t d.id v in
      let (found, free) = victim_there d h in
      (
        record {
          owned = w.owned;
          bounded = w.bounded;
          keyed = w.keyed;
          id_once = w.id_once;
          key_once = w.key_once;
          waiting = w.waiting;
        },
        omega (arith, length-remove-lt d.id d t.devices found, v.bounded),
        refl,
        λ i e. rw lookup-remove (missing_if (d.id == i) (lookup i t.devices) e),
      )

  pub evict-IsBody : (u : Table) → evict t ≡ some u → IsRoom u
  unfolding evict remove_device
  evict-IsBody u h = elim (Option-cases (victim_among t.devices none)) [
    | inl e ↦ absurd (none-ne-some (rw e at h))
    | inr (d, e) ↦ subst IsRoom (some_inj (rw e at h)) (evicted-IsBody d e)
  ]

lists-new :
    (id i : DeviceId) (d : Device) (devices : Dict DeviceId Device) (a : Addr)
    → elem a d.addrs ≡ false
    → lookup id devices ≡ none
    → lists (if id == i then some d else lookup i devices) a ≡ lists (lookup i devices) a
lists-new id i d devices a h fresh = elim (Bool-cases (id == i)) [
  | inl same ↦ rw (same, ← eq_of_true id i same, fresh) h
  | inr other ↦ rw other refl
]

KeyOk-more :
    (id : DeviceId) (d : Device) (devices : Dict DeviceId Device) (o : Option DeviceId)
    → KeyOk devices o
    → KeyOk (insert id d devices) o
KeyOk-more id d devices none h = tt
KeyOk-more id d devices (some j) h = rw lookup-insert (ground arith)

bare-DeviceOk : (d : Device) → d.addrs ≡ [] → DeviceOk d.id (some d)
unfolding distinct
bare-DeviceOk d h = (refl, rw h refl, rw h (omega arith))

-- A new device under an identity that is not in use.
pub bare_device-IsBody :
    (t : Table) (d : Device)
    → IsBody t
    → lookup d.id t.devices ≡ none
    → d.addrs ≡ []
    → length t.devices < t.max
    → IsBody (put_device t d)
bare_device-IsBody t d v fresh bare room = record {
  owned = record {
    device = λ i.
        rw (lookup-insert d.id i d t.devices)
          (DeviceOk-if d.id i d (lookup i t.devices) (bare-DeviceOk d bare) (v.owned.device i));
    owner = λ i a.
        rw (lookup-insert d.id i d t.devices) (
          lists-new d.id i d t.devices a (rw bare (unfold elem in refl)) fresh ∙ v.owned.owner i a);
    once = v.owned.once;
  };
  bounded = omega (arith, length-insert_new d.id d t.devices);
  keyed = λ k. KeyOk-more d.id d t.devices (lookup k t.by_key) (v.keyed k);
  id_once = distinct-keys_insert d.id d t.devices v.id_once;
  key_once = v.key_once;
  waiting = v.waiting;
}

module _ (t : Table) (id : DeviceId) (source : Source) (now : ℕ) (v : IsBody t)
    (fresh : lookup id t.devices ≡ none) where
  add_to_evicted :
      (u : Table) (o : Option Table) → evict t ≡ o → register id source now o ≡ some u → IsBody u
  add_to_evicted u none e h = absurd (none-ne-some h)
  add_to_evicted u (some w) e h =
      let (body, room, same, missing) = evict-IsBody t v w e in
      subst IsBody (some_inj h)
        (bare_device-IsBody w (new_device id source now) body (missing id fresh) refl (omega arith))

  pub add_device-IsBody : (u : Table) → add_device t id source now ≡ some u → IsBody u
  unfolding add_device
  add_device-IsBody u h = elim (Bool-cases (leb t.max (length t.devices))) [
    | inl full ↦ add_to_evicted u (evict t) refl (rw full at h)
    | inr room ↦
        subst IsBody (some_inj (rw room at h))
          (bare_device-IsBody t (new_device id source now) v fresh refl (ground arith))
  ]

there_when_registered :
    (id : DeviceId) (source : Source) (now : ℕ) (o : Option Table) (u : Table)
    → register id source now o ≡ some u
    → lookup id u.devices ≡ some (new_device id source now)
there_when_registered id source now none u h = absurd (none-ne-some h)
there_when_registered id source now (some t) u h =
    subst (λ w. lookup id w.devices ≡ some (new_device id source now)) (some_inj h)
      (rw (lookup-insert, eq_true id) refl)

-- The new device stands in the table.
pub add_device_there :
    (t : Table) (id : DeviceId) (source : Source) (now : ℕ) (u : Table)
    → add_device t id source now ≡ some u
    → lookup id u.devices ≡ some (new_device id source now)
unfolding add_device
add_device_there t id source now u h =
    there_when_registered id source now (if leb t.max (length t.devices) then evict t else some t) u
      h
