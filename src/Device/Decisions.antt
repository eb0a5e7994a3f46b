-- ===== src/Device/Decisions.antt =====
-- What a person has decided on a device (internal/device/device.go: its name, its profile, whether it is
-- paused) outlasts what is learned and what is done to other devices.
use dns_desktop.Common.{
  ℕ, ◌≡◌, refl, sym, ap, ◌∙◌, subst, inl, inr, Bool, true, false, Option, none, some, length, take,
  ◌==◌, leb, bytes_eq_instance, Bool-cases, Option-cases, eq_of_true,
}
use dns_desktop.Common.Dict.{Dict, lookup, insert, remove, lookup-insert, lookup-remove}
use dns_desktop.Net.{Addr, addr_eq_instance}
use dns_desktop.Device.{DeviceId, Source, Device, Table}
use dns_desktop.Device.Locked.{
  new_device, is_customised, victim_among, remove_device, evict, register, add_device, without_addr,
  taken_away, max_addrs, with_addr, attach,
}
use dns_desktop.Device.Invariant.{IsBody}
use dns_desktop.Device.Writes.{under_its_id}
use dns_desktop.Device.Removal.{victim_there, evict-IsBody}

-- The decisions on a device are the same on another version of it.
abbrev pub SameDecisions : Device → Device → Type 0
SameDecisions d e =
    (e.paused ≡ d.paused)
    × (e.profile ≡ d.profile)
    × (e.name_set_by_user ≡ d.name_set_by_user)
    × (d.name_set_by_user ≡ true → e.name ≡ d.name)

pub same_again : (d e f : Device) → SameDecisions d e → SameDecisions e f → SameDecisions d f
same_again d e f (p, q, r, s) (p', q', r', s') =
    (p' ∙ p, q' ∙ q, r' ∙ r, λ set. s' (r ∙ set) ∙ s set)

abbrev pub Survives : Dict DeviceId Device → DeviceId → Device → Type 0
Survives devices i d = (e : Device) × (lookup i devices ≡ some e) × SameDecisions d e

customised-same :
    (d e : Device) → SameDecisions d e → is_customised d ≡ true → is_customised e ≡ true
customised-same d e (p, q, r, s) h = rw (p, q, r) h

module _ (devices : Dict DeviceId Device) (i : DeviceId) (d : Device) where
  pub insert-Survives :
      (k : DeviceId) (cur e : Device)
      → lookup k devices ≡ some cur
      → SameDecisions cur e
      → Survives devices i d
      → Survives (insert k e devices) i d
  insert-Survives k cur e here same (f, found, kept) = elim (Bool-cases (k == i)) [
    | inl eq ↦ (
      e,
      rw (lookup-insert k i e devices, eq) refl,
      same_again d cur e
          (subst (λ x. SameDecisions d x)
            (some_inj (sym found ∙ (ap (λ j. lookup j devices) (sym (eq_of_true k i eq)) ∙ here)))
            kept)
          same,
    )
    | inr ne ↦ (f, rw (lookup-insert k i e devices, ne) found, kept)
  ]
    where
      some_inj : {x y : Device} → some x ≡ some y → x ≡ y
      some_inj h = cc

  pub new-Survives :
      (k : DeviceId) (e : Device)
      → lookup k devices ≡ none
      → Survives devices i d
      → Survives (insert k e devices) i d
  new-Survives k e fresh (f, found, kept) = elim (Bool-cases (k == i)) [
    | inl eq ↦ absurd (clash (sym fresh ∙ (ap (λ j. lookup j devices) (eq_of_true k i eq) ∙ found)))
    | inr ne ↦ (f, rw (lookup-insert k i e devices, ne) found, kept)
  ]
    where
      clash : {x : Device} → none ≡ some x → ⊥
      clash h = cc

  pub remove-Survives :
      (k : DeviceId) → (k == i) ≡ false → Survives devices i d → Survives (remove k devices) i d
  remove-Survives k ne (f, found, kept) = (f, rw (lookup-remove k i devices, ne) found, kept)

  taken_away-Survives :
      (id : DeviceId) (a : Addr) (o : Option DeviceId)
      → Survives devices i d
      → Survives (taken_away devices id a o) i d
  taken_away-Survives id a none h = h
  taken_away-Survives id a (some prev) h = elim (Bool-cases (prev == id)) [
    | inl mine ↦ rw mine h
    | inr other ↦ rw other (elim (Option-cases (lookup prev devices)) [
      | inl e ↦ rw e h
      | inr (x, e) ↦
          rw e (insert-Survives prev x (without_addr x a) e (refl, refl, refl, λ s. refl) h)
    ])
  ]

module _ (i : DeviceId) (d : Device) where
  -- The device after another has been taken an address from is one of the old versions.
  same_taken_away :
      (devices : Dict DeviceId Device) (id : DeviceId) (a : Addr) (x : Device) (o : Option DeviceId)
      → lookup id devices ≡ some x
      → lookup id (taken_away devices id a o) ≡ some x
  same_taken_away devices id a x none here = here
  same_taken_away devices id a x (some prev) here = elim (Bool-cases (prev == id)) [
    | inl mine ↦ rw mine here
    | inr other ↦ rw other (elim (Option-cases (lookup prev devices)) [
      | inl e ↦ rw e here
      | inr (y, e) ↦ rw (e, lookup-insert prev id (without_addr y a) devices, other) here
    ])
  ]

  pub attach-Survives :
      (t : Table) (id : DeviceId) (a : Addr)
      → IsBody t
      → Survives t.devices i d
      → Survives (attach t id a).devices i d
  unfolding attach
  attach-Survives t id a v h = elim (Option-cases (lookup id t.devices)) [
    | inl e ↦ rw e h
    | inr (x, e) ↦ rw e (
        insert-Survives (taken_away t.devices x.id a (lookup a t.by_addr)) i d x.id x
          (record x { addrs = take max_addrs (with_addr x.addrs a) })
          (same_taken_away t.devices x.id a x (lookup a t.by_addr)
            (ap (λ j. lookup j t.devices) (under_its_id t id x v e) ∙ e))
          (refl, refl, refl, λ s. refl)
          (taken_away-Survives t.devices i d x.id a (lookup a t.by_addr) h))
  ]

  no_table : {u : Table} → none ≡ some u → ⊥
  no_table h = cc

  table_inj : {t u : Table} → some t ≡ some u → t ≡ u
  table_inj h = cc

  not_victim :
      (devices : Dict DeviceId Device) (w : Device)
      → lookup w.id devices ≡ some w
      → is_customised w ≡ false
      → is_customised d ≡ true
      → Survives devices i d
      → (w.id == i) ≡ false
  not_victim devices w there free custom (f, found, kept) = elim (Bool-cases (w.id == i)) [
    | inl eq ↦ absurd (
        both (customised-same d f kept custom) (
          ap custom_of
            (sym found ∙ (ap (λ j. lookup j devices) (sym (eq_of_true w.id i eq)) ∙ there))
          ∙ free))
    | inr ne ↦ ne
  ]
    where
      custom_of : Option Device → Bool
      custom_of none = false
      custom_of (some x) = is_customised x

      both : {b : Bool} → b ≡ true → b ≡ false → ⊥
      both p q = cc

  evict-Survives :
      (t u : Table)
      → IsBody t
      → is_customised d ≡ true
      → evict t ≡ some u
      → Survives t.devices i d
      → Survives u.devices i d
  unfolding evict remove_device
  evict-Survives t u v custom h s = elim (Option-cases (victim_among t.devices none)) [
    | inl e ↦ absurd (no_table (rw e at h))
    | inr (w, e) ↦
        let (there, free) = victim_there t v w e in
        subst (λ x. Survives x.devices i d) (table_inj (rw e at h))
          (remove-Survives t.devices i d w.id (not_victim t.devices w there free custom s) s)
  ]

  pub add_device-Survives :
      (t u : Table) (id : DeviceId) (source : Source) (now : ℕ)
      → IsBody t
      → is_customised d ≡ true
      → lookup id t.devices ≡ none
      → add_device t id source now ≡ some u
      → Survives t.devices i d
      → Survives u.devices i d
  unfolding add_device
  add_device-Survives t u id source now v custom fresh h s =
      elim (Bool-cases (leb t.max (length t.devices))) [
        | inl full ↦ registered (evict t) refl (rw full at h)
        | inr room ↦
            subst (λ x. Survives x.devices i d) (table_inj (rw room at h))
              (new-Survives t.devices i d id (new_device id source now) fresh s)
      ]
    where
      registered :
          (o : Option Table)
          → evict t ≡ o
          → register id source now o ≡ some u
          → Survives u.devices i d
      registered none e r = absurd (no_table r)
      registered (some w) e r =
          let (body, room, same, missing) = evict-IsBody t v w e in
          subst (λ x. Survives x.devices i d) (table_inj r)
            (new-Survives w.devices i d id (new_device id source now) (missing id fresh)
              (evict-Survives t w v custom e s))
