-- ===== src/Device/Lasting.antt =====
-- Decisions outlast histories of the table's calls (internal/device/device.go).
use dns_desktop.Common.{
  ℕ, ◌≤◌, ◌≡◌, ◌⊎◌, refl, ap, ◌∙◌, inl, inr, Bool, true, false, not, ◌&&◌, ◌||◌, Option, none, some,
  List, [], ◌∷◌, Bytes, length, null, arith, ◌==◌, ℕ_eq, ltb, bytes_eq_instance, if◌then◌else◌,
  Bool-cases, Option-cases,
}
use dns_desktop.Common.Dict.{Dict, lookup, insert, lookup-insert}
use dns_desktop.Net.{Addr, is_valid, unmap, addr_eq_instance}
use dns_desktop.Dhcp.Pool.{Lease}
use dns_desktop.Device.{DeviceId, observed, dhcp, Device, Observation, Table}
use dns_desktop.Device.Locked.{new_device, put_device, is_customised, add_device, publish}
use dns_desktop.Device.Observe.{
  seen_again, seen_first, apply_observation, learn_from, device_of_lease, told, lease_told,
  lease_to_new, lease_to, observe_lease,
}
use dns_desktop.Device.Edit.{update}
use dns_desktop.Device.Invariant.{IsBody, known, put_device-IsBody}
use dns_desktop.Device.Writes.{under_its_id}
use dns_desktop.Device.Removal.{add_device-IsBody, add_device_there}
use dns_desktop.Device.Learning.{device_of_lease_there, put_key-IsBody}
use dns_desktop.Device.Decisions.{
  SameDecisions, Survives, insert-Survives, attach-Survives, add_device-Survives,
}

module _ (i : DeviceId) (d : Device) where
  -- A write to another device.
  pub other-Survives :
      (devices : Dict DeviceId Device) (e : Device)
      → (e.id == i) ≡ false
      → Survives devices i d
      → Survives (insert e.id e devices) i d
  other-Survives devices e ne (f, found, kept) =
      (f, rw (lookup-insert e.id i e devices, ne) found, kept)

  pub update-Survives :
      (t : Table) (id : DeviceId) (f : Device → Device)
      → ((x : Device) → (f x).id ≡ x.id)
      → IsBody t
      → (id == i) ≡ false
      → Survives t.devices i d
      → Survives (update t id f).0.devices i d
  unfolding update publish
  update-Survives t id f same v ne s = elim (Option-cases (lookup id t.devices)) [
    | inl e ↦ rw e s
    | inr (x, e) ↦ rw e (
        other-Survives t.devices (f x) (ap (λ j. j == i) (same x ∙ under_its_id t id x v e) ∙ ne) s)
  ]

  seen_again-Survives :
      (t : Table) (at : ℕ) (id : DeviceId)
      → IsBody t
      → Survives t.devices i d
      → Survives (seen_again t at (lookup id t.devices)).devices i d
  unfolding publish
  seen_again-Survives t at id v s = elim (Option-cases (lookup id t.devices)) [
    | inl e ↦ rw e s
    | inr (x, e) ↦ rw e (elim (Bool-cases (ltb x.last_seen at)) [
      | inl later ↦ rw later (
          insert-Survives t.devices i d x.id x (record x { last_seen = at })
            (ap (λ j. lookup j t.devices) (under_its_id t id x v e) ∙ e)
            (refl, refl, refl, λ h. refl) s)
      | inr known ↦ rw known s
    ])
  ]

  seen_first-Survives :
      (t : Table) (id : DeviceId) (a : Addr) (at : ℕ)
      → IsBody t
      → is_customised d ≡ true
      → lookup id t.devices ≡ none
      → Survives t.devices i d
      → Survives (seen_first t id a (add_device t id observed at)).devices i d
  unfolding publish
  seen_first-Survives t id a at v custom fresh s =
      elim (table_cases (add_device t id observed at)) [
        | inl e ↦ rw e s
        | inr (u, e) ↦ rw e (
            attach-Survives i d u id a (add_device-IsBody t id observed at v fresh u e)
              (add_device-Survives i d t u id observed at v custom fresh e s))
      ]
    where
      table_cases : (o : Option Table) → (o ≡ none) ⊎ ((u : Table) × (o ≡ some u))
      table_cases none = inl refl
      table_cases (some u) = inr (u, refl)

  apply-Survives :
      (t : Table) (id : DeviceId) (o : Observation)
      → IsBody t
      → is_customised d ≡ true
      → lookup id t.devices ≡ none
      → Survives t.devices i d
      → Survives (apply_observation t id o).devices i d
  unfolding apply_observation
  apply-Survives t id o v custom fresh s = elim (Option-cases (lookup o.addr t.by_addr)) [
    | inl e ↦ rw e (seen_first-Survives t id o.addr o.at v custom fresh s)
    | inr (holder, e) ↦ rw e (seen_again-Survives t o.at holder v s)
  ]

  pub if-Survives :
      (b : Bool) (t u : Table)
      → Survives t.devices i d
      → Survives u.devices i d
      → Survives (if b then t else u).devices i d
  if-Survives true t u h k = h
  if-Survives false t u h k = k

  pub learn-Survives :
      (t : Table) (id : DeviceId) (obs : List Observation)
      → IsBody t
      → is_customised d ≡ true
      → lookup id t.devices ≡ none
      → length obs ≤ t.queue
      → Survives t.devices i d
      → Survives (learn_from t id obs).devices i d
  learn-Survives t id [] v custom fresh room s = s
  learn-Survives t id (o ∷ rest) v custom fresh room s =
      apply-Survives (record t { obs = rest }) id o
        (record {
          owned = v.owned;
          bounded = v.bounded;
          keyed = v.keyed;
          id_once = v.id_once;
          key_once = v.key_once;
          waiting = omega arith;
        })
        custom fresh s

  -- A lease gives a name only where nobody has chosen one.
  told-SameDecisions : (x : Device) (l : Lease) (now : ℕ) → SameDecisions x (told x l now)
  told-SameDecisions x l now =
      (refl, refl, refl, λ set. rw set (name_kept (null l.hostname) l.hostname x.name))
    where
      name_kept : (b : Bool) (new old : Bytes) → (if not b && not true then new else old) ≡ old
      name_kept true new old = refl
      name_kept false new old = refl

  pub lease_told-Survives :
      (t : Table) (l : Lease) (now : ℕ) (x : Device)
      → IsBody t
      → lookup x.id t.devices ≡ some x
      → Survives t.devices i d
      → Survives (lease_told t l now x).devices i d
  unfolding publish
  lease_told-Survives t l now x v here s =
      let t1 = record t { by_key = insert l.key x.id t.by_key } in
      attach-Survives i d (put_device t1 (told x l now)) x.id (unmap l.addr)
        (put_device-IsBody t1 (told x l now) x (put_key-IsBody t l.key x.id v (ap known here)) here
          refl)
        (insert-Survives t.devices i d x.id x (told x l now) here (told-SameDecisions x l now) s)

  lease_to_new-Survives :
      (t : Table) (l : Lease) (now : ℕ) (id : DeviceId) (o : Option Table)
      → add_device t id dhcp now ≡ o
      → IsBody t
      → is_customised d ≡ true
      → lookup id t.devices ≡ none
      → Survives t.devices i d
      → Survives (lease_to_new t l now id o).devices i d
  lease_to_new-Survives t l now id none e v custom fresh s = s
  lease_to_new-Survives t l now id (some u) e v custom fresh s =
      lease_told-Survives u l now (new_device id dhcp now)
        (add_device-IsBody t id dhcp now v fresh u e) (add_device_there t id dhcp now u e)
        (add_device-Survives i d t u id dhcp now v custom fresh e s)

  pub observe_lease-Survives :
      (t : Table) (now : ℕ) (id : DeviceId) (l : Lease)
      → IsBody t
      → is_customised d ≡ true
      → lookup id t.devices ≡ none
      → Survives t.devices i d
      → Survives (observe_lease t now id l).devices i d
  unfolding observe_lease
  observe_lease-Survives t now id l v custom fresh s =
      if-Survives (null l.key || not (is_valid l.addr)) t
        (lease_to t l now id (device_of_lease t l)) s
        (elim (Option-cases (device_of_lease t l)) [
          | inl e ↦
              rw e
                (lease_to_new-Survives t l now id (add_device t id dhcp now) refl v custom fresh s)
          | inr (x, e) ↦ rw e (lease_told-Survives t l now x v (device_of_lease_there t l x v e) s)
        ])
