-- ===== src/Device/Owned.antt =====
-- Addresses belong to one device at a time (internal/device/device.go): what `byAddr` and the
-- devices' lists of addresses say of one another, and that `attachAddrLocked` keeps it.
use dns_desktop.Common.{
  ℕ, ◌≤◌, ◌≡◌, refl, sym, ap, ◌∙◌, subst, inl, inr, Bool, true, false, not, ◌&&◌, ◌||◌, Option,
  none, some, List, [], ◌∷◌, length, take, drop, length-take, arith, ◌==◌, bytes_eq_iff,
  bytes_eq_instance, if◌then◌else◌, Bool-cases, Option-cases, eq_of_true, eq_true,
}
use dns_desktop.Common.Dict.{Dict, lookup, insert, remove, lookup-insert, lookup-remove}
use dns_desktop.Common.Elems.{
  elem, distinct-delete_all, distinct, keys, points, elem-delete_all, distinct-cons_delete_all,
  length-delete_all-le, elem-take, distinct-take, distinct-keys_insert, distinct-keys_remove,
}
use dns_desktop.Net.{Addr, addr_eq_instance}
use dns_desktop.Device.{DeviceId, Device, Table}
use dns_desktop.Device.Locked.{
  without_addr, take_from, taken_away, max_addrs, with_addr, drop_gone, attach_to,
}

-- Whether the device, if there is one, lists the address.
abbrev pub lists : Option Device → Addr → Bool
lists none a = false
lists (some d) a = elem a d.addrs

abbrev pub DeviceOk : DeviceId → Option Device → Type 0
DeviceOk i none = Unit
DeviceOk i (some d) = (d.id ≡ i) × (distinct d.addrs ≡ true) × (length d.addrs ≤ max_addrs)

-- A device lists an address exactly when `byAddr` points from the address to it. So no two devices
-- list one address.
pub record IsOwned (devices : Dict DeviceId Device) (by_addr : Dict Addr DeviceId) : Type 0 where
  pub device : (i : DeviceId) → DeviceOk i (lookup i devices)
  pub owner : (i : DeviceId) (a : Addr) → lists (lookup i devices) a ≡ points (lookup a by_addr) i
  pub once : distinct (keys by_addr) ≡ true

-- The first step: nobody but the device itself lists the address any more.
lists-take_from :
    (devices : Dict DeviceId Device) (prev i : DeviceId) (a b : Addr)
    → lists (lookup i (take_from devices prev a (lookup prev devices))) b
      ≡ (lists (lookup i devices) b && not (prev == i && a == b))
lists-take_from devices prev i a b = elim (Option-cases (lookup prev devices)) [
  | inl e ↦ rw e (elim (Bool-cases (prev == i)) [
    | inl same ↦ rw same (rw (← eq_of_true prev i same, e) refl)
    | inr other ↦ ground (arith)
  ])
  | inr (d, e) ↦
      rw (e, lookup-insert prev i (without_addr d a) devices)
        (elim (Bool-cases (prev == i)) [
          | inl same ↦
              rw (same, ← eq_of_true prev i same, e) (ground (arith, elem-delete_all a b d.addrs))
          | inr other ↦ rw other (ground arith)
        ])
]

at_same : (o : Option Device) (a b : Addr) → (a == b) ≡ true → lists o b ≡ lists o a
at_same o a b h = ap (lists o) (sym (eq_of_true a b h))

lists-taken_away :
    (devices : Dict DeviceId Device) (by_addr : Dict Addr DeviceId) (id i : DeviceId) (a b : Addr)
    → lists (lookup i devices) a ≡ points (lookup a by_addr) i
    → lists (lookup i (taken_away devices id a (lookup a by_addr))) b
      ≡ (lists (lookup i devices) b && not (a == b && not (i == id)))
lists-taken_away devices by_addr id i a b h = elim (Option-cases (lookup a by_addr)) [
  | inl e ↦ rw e (ground (arith, at_same (lookup i devices) a b, rw e at h))
  | inr (prev, e) ↦ rw e (elim (Bool-cases (prev == id)) [
    | inl mine ↦ rw mine (
        ground (
          arith,
          at_same (lookup i devices) a b,
          rw e at h,
          (bytes_eq_iff prev id).0 mine,
          (bytes_eq_iff i id).1,
          (bytes_eq_iff prev i).0,
        ))
    | inr other ↦ rw other (
        ground (
          arith,
          at_same (lookup i devices) a b,
          rw e at h,
          (bytes_eq_iff prev i).0,
          (bytes_eq_iff i id).0,
          (bytes_eq_iff prev id).1,
          lists-take_from devices prev i a b,
        ))
  ])
]

without_addr-DeviceOk :
    (i : DeviceId) (d : Device) (a : Addr)
    → DeviceOk i (some d)
    → DeviceOk i (some (without_addr d a))
without_addr-DeviceOk i d a (named, once, few) =
    (named, distinct-delete_all a d.addrs once, omega (arith, length-delete_all-le a d.addrs))

pub DeviceOk-if :
    (prev i : DeviceId) (d : Device) (o : Option Device)
    → DeviceOk prev (some d)
    → DeviceOk i o
    → DeviceOk i (if prev == i then some d else o)
DeviceOk-if prev i d o fine h = elim (Bool-cases (prev == i)) [
  | inl same ↦ rw same (subst (λ j. DeviceOk j (some d)) (eq_of_true prev i same) fine)
  | inr other ↦ rw other h
]

DeviceOk-take_from :
    (devices : Dict DeviceId Device) (prev i : DeviceId) (a : Addr)
    → ((j : DeviceId) → DeviceOk j (lookup j devices))
    → (o : Option Device) → DeviceOk prev o
    → DeviceOk i (lookup i (take_from devices prev a o))
DeviceOk-take_from devices prev i a h none ok = h i
DeviceOk-take_from devices prev i a h (some d) ok =
    rw (lookup-insert prev i (without_addr d a) devices) (
      DeviceOk-if prev i (without_addr d a) (lookup i devices) (without_addr-DeviceOk prev d a ok)
        (h i))

pub DeviceOk-taken_away :
    (devices : Dict DeviceId Device) (o : Option DeviceId) (id i : DeviceId) (a : Addr)
    → ((j : DeviceId) → DeviceOk j (lookup j devices))
    → DeviceOk i (lookup i (taken_away devices id a o))
DeviceOk-taken_away devices none id i a h = h i
DeviceOk-taken_away devices (some prev) id i a h = elim (Bool-cases (prev == id)) [
  | inl mine ↦ rw mine (h i)
  | inr other ↦ rw other (DeviceOk-take_from devices prev i a h (lookup prev devices) (h prev))
]

-- The third step.
at_same_key : (m : Dict Addr DeviceId) (a b : Addr) → (a == b) ≡ true → lookup b m ≡ lookup a m
at_same_key m a b h = ap (λ c. lookup c m) (sym (eq_of_true a b h))

lookup-drop_gone :
    (gone : List Addr) (id : DeviceId) (m : Dict Addr DeviceId) (b : Addr)
    → lookup b (drop_gone gone id m)
      ≡ (if elem b gone && points (lookup b m) id then none else lookup b m)
unfolding drop_gone elem
lookup-drop_gone [] id m b = refl
lookup-drop_gone (g ∷ gs) id m b = elim (Bool-cases (points (lookup g m) id)) [
  | inl y ↦ rw y (
      ground (arith, lookup-drop_gone gs id (remove g m) b, lookup-remove g b m, at_same_key m g b))
  | inr n ↦ rw n (ground (arith, lookup-drop_gone gs id m b, at_same_key m g b))
]

distinct-drop_gone :
    (gone : List Addr) (id : DeviceId) (m : Dict Addr DeviceId)
    → distinct (keys m) ≡ true
    → distinct (keys (drop_gone gone id m)) ≡ true
unfolding drop_gone
distinct-drop_gone [] id m h = h
distinct-drop_gone (g ∷ gs) id m h = elim (Bool-cases (points (lookup g m) id)) [
  | inl y ↦ rw y (distinct-drop_gone gs id (remove g m) (distinct-keys_remove g m h))
  | inr n ↦ rw n (distinct-drop_gone gs id m h)
]

-- The first items of a list and what is left of the pointers after the third step.
points-drop_gone_own :
    (n : ℕ) (all : List Addr) (id : DeviceId) (m : Dict Addr DeviceId) (b : Addr)
    → distinct all ≡ true
    → elem b all ≡ points (lookup b m) id
    → elem b (take n all) ≡ points (lookup b (drop_gone (drop n all) id m)) id
points-drop_gone_own n all id m b once h =
    rw (elem-take b n all once, lookup-drop_gone (drop n all) id m b, h)
      (own_bool (elem b (drop n all)) id (lookup b m))
  where
    own_bool :
        (g : Bool) (id : DeviceId) (o : Option DeviceId)
        → (points o id && not g) ≡ points (if g && points o id then none else o) id
    own_bool g id o = ground arith

points-drop_gone_other :
    (gone : List Addr) (id i : DeviceId) (m : Dict Addr DeviceId) (b : Addr)
    → (id == i) ≡ false
    → points (lookup b (drop_gone gone id m)) i ≡ points (lookup b m) i
points-drop_gone_other gone id i m b other =
    rw (lookup-drop_gone gone id m b) (other_bool (elem b gone) id i (lookup b m) other)
  where
    other_bool :
        (g : Bool) (id i : DeviceId) (o : Option DeviceId)
        → (id == i) ≡ false
        → points (if g && points o id then none else o) i ≡ points o i
    other_bool g id i none other = ground arith
    other_bool g id i (some j) other = ground (arith, (bytes_eq_iff j id).0)

module _ (t : Table) (d : Device) (a : Addr) (v : IsOwned t.devices t.by_addr)
    (here : lookup d.id t.devices ≡ some d) where
  listed_here : (b : Addr) → elem b d.addrs ≡ points (lookup b t.by_addr) d.id
  listed_here b = rw here at (v.owner d.id b)

  elem-with_addr : (b : Addr) → elem b (with_addr d.addrs a) ≡ (a == b || elem b d.addrs)
  unfolding elem
  elem-with_addr b = ground (arith, elem-delete_all a b d.addrs)

  -- The two sides for the device itself, and for any other.
  own_side :
      (b : Addr)
      → elem b (take max_addrs (with_addr d.addrs a))
        ≡ points
            (lookup b
              (drop_gone (drop max_addrs (with_addr d.addrs a)) d.id (insert a d.id t.by_addr)))
            d.id
  own_side b =
      points-drop_gone_own max_addrs (with_addr d.addrs a) d.id (insert a d.id t.by_addr) b
        (distinct-cons_delete_all a d.addrs (rw here at (v.device d.id)).1)
        (elem-with_addr b ∙ rw lookup-insert (ground (arith, listed_here b, eq_true d.id)))

  other_side :
      (i : DeviceId) (b : Addr)
      → (d.id == i) ≡ false
      → lists (lookup i (taken_away t.devices d.id a (lookup a t.by_addr))) b
        ≡ points
            (lookup b
              (drop_gone (drop max_addrs (with_addr d.addrs a)) d.id (insert a d.id t.by_addr)))
            i
  other_side i b other =
      lists-taken_away t.devices t.by_addr d.id i a b (v.owner i a)
      ∙ (rw lookup-insert
            (ground (arith, v.owner i b, other, (bytes_eq_iff i d.id).0, eq_true d.id))
          ∙ sym (
              points-drop_gone_other (drop max_addrs (with_addr d.addrs a)) d.id i
                (insert a d.id t.by_addr) b other))

  attached : Device
  attached = record d { addrs = take max_addrs (with_addr d.addrs a) }

  attached-DeviceOk : DeviceOk d.id (some attached)
  unfolding attached
  attached-DeviceOk = (
    refl,
    distinct-take max_addrs (with_addr d.addrs a)
        (distinct-cons_delete_all a d.addrs (rw here at (v.device d.id)).1),
    omega (arith, length-take max_addrs (with_addr d.addrs a)),
  )

  owner-attached :
      (i : DeviceId) (b : Addr)
      → lists
          (if d.id == i
            then some attached
            else lookup i (taken_away t.devices d.id a (lookup a t.by_addr)))
          b
        ≡ points
            (lookup b
              (drop_gone (drop max_addrs (with_addr d.addrs a)) d.id (insert a d.id t.by_addr)))
            i
  unfolding attached
  owner-attached i b = elim (Bool-cases (d.id == i)) [
    | inl same ↦ rw same (
        subst
          (λ j.
            elem b (take max_addrs (with_addr d.addrs a))
            ≡ points
                (lookup b
                  (drop_gone (drop max_addrs (with_addr d.addrs a)) d.id (insert a d.id t.by_addr)))
                j)
          (eq_of_true d.id i same) (own_side b))
    | inr other ↦ rw other (other_side i b other)
  ]

  pub attach_to-IsOwned : let u = attach_to t a (some d) in IsOwned u.devices u.by_addr
  unfolding attached
  attach_to-IsOwned = record {
    device = λ i. rw lookup-insert (
        DeviceOk-if d.id i attached (lookup i (taken_away t.devices d.id a (lookup a t.by_addr)))
          attached-DeviceOk (DeviceOk-taken_away t.devices (lookup a t.by_addr) d.id i a v.device));
    owner = λ i b. rw (lookup-insert d.id i attached) (owner-attached i b);
    once =
        distinct-drop_gone (drop max_addrs (with_addr d.addrs a)) d.id (insert a d.id t.by_addr)
          (distinct-keys_insert a d.id t.by_addr v.once);
  }
