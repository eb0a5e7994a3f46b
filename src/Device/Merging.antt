-- ===== src/Device/Merging.antt =====
-- Merge (internal/device/device.go): what becomes of the addresses of the device that is merged away.
use dns_desktop.Common.{
  ℕ, zero, suc, ◌+◌, ◌≡◌, ◌⊎◌, refl, sym, ap, ◌∙◌, subst, inl, inr, true, false, Option, none, some,
  List, [], ◌∷◌, take, get_or, arith, ◌==◌, bytes_eq_instance, Bool-cases, Option-cases, eq_true,
  eq_of_true,
}
use dns_desktop.Common.Dict.{Dict, lookup, lookup-insert}
use dns_desktop.Common.Elems.{elem, delete_all, distinct, points}
use dns_desktop.Net.{Addr, no_addr, addr_eq_iff, addr_eq_instance}
use dns_desktop.Device.{DeviceId, Device, Table}
use dns_desktop.Device.Locked.{attach, without_addr, taken_away, max_addrs, with_addr}
use dns_desktop.Device.Edit.{place, merge_addrs}
use dns_desktop.Device.Owned.{lists}
use dns_desktop.Device.Invariant.{IsBody}
use dns_desktop.Device.Writes.{under_its_id, attach-IsBody, lists-attach}

-- What another device lists after an address has been attached to `into`.
abbrev pub Kept : Option Device → Device → Addr → Type 0
Kept o s a =
    (s' : Device) × (o ≡ some s') × ((s'.addrs ≡ delete_all a s.addrs) ⊎ (s'.addrs ≡ s.addrs))

Kept-taken_away :
    (devices : Dict DeviceId Device) (into from : DeviceId) (a : Addr) (o : Option DeviceId)
    (s : Device)
    → lookup from devices ≡ some s
    → Kept (lookup from (taken_away devices into a o)) s a
Kept-taken_away devices into from a none s here = (s, here, inr refl)
Kept-taken_away devices into from a (some prev) s here = elim (Bool-cases (prev == into)) [
  | inl mine ↦ rw mine (s, here, inr refl)
  | inr other ↦ rw other (elim (Option-cases (lookup prev devices)) [
    | inl e ↦ rw e (s, here, inr refl)
    | inr (d, e) ↦
        rw (e, lookup-insert prev from (without_addr d a) devices)
          (elim (Bool-cases (prev == from)) [
            | inl same ↦ rw same (
              without_addr d a,
              refl,
              inl (
                  ap (λ x. delete_all a (addrs_of d x))
                    (sym e ∙ (ap (λ i. lookup i devices) (eq_of_true prev from same) ∙ here))),
            )
            | inr third ↦ rw third (s, here, inr refl)
          ])
  ])
]
  where
    addrs_of : Device → Option Device → List Addr
    addrs_of d none = d.addrs
    addrs_of d (some x) = x.addrs

module _ (t : Table) (into from : DeviceId) (v : IsBody t) (two : (into == from) ≡ false) where
  pub Kept-attach :
      (s : Device) (a : Addr)
      → lookup from t.devices ≡ some s
      → Kept (lookup from (attach t into a).devices) s a
  unfolding attach
  Kept-attach s a here = elim (Option-cases (lookup into t.devices)) [
    | inl e ↦ rw e (s, here, inr refl)
    | inr (d, e) ↦
        rw
          (
            e,
            lookup-insert d.id from (record d { addrs = all_of d }) (rest d),
            ap (λ i. i == from) (under_its_id t into d v e) ∙ two,
          )
          (Kept-taken_away t.devices d.id from a (lookup a t.by_addr) s here)
  ]
    where
      all_of : Device → List Addr
      all_of d = take max_addrs (with_addr d.addrs a)

      rest : Device → Dict DeviceId Device
      rest d = taken_away t.devices d.id a (lookup a t.by_addr)

-- The places of the array after the first hold other addresses than the first.
other_place :
    (b : Addr) (xs : List Addr) (i : ℕ)
    → elem b xs ≡ false
    → (no_addr == b) ≡ false
    → (get_or xs i no_addr == b) ≡ false
unfolding elem
other_place b [] i h valid = valid
other_place b (x ∷ xs) zero h valid = ground arith
other_place b (x ∷ xs) (suc i) h valid = other_place b xs i (ground arith) valid

head_kept :
    (s s' : Device) (a b : Addr) (rest : List Addr)
    → s.addrs ≡ b ∷ rest
    → (a == b) ≡ false
    → (s'.addrs ≡ delete_all a s.addrs) ⊎ (s'.addrs ≡ s.addrs)
    → (rest' : List Addr) × (s'.addrs ≡ b ∷ rest')
unfolding delete_all
head_kept s s' a b rest at_head other (inl less) =
    (delete_all a rest, less ∙ (ap (delete_all a) at_head ∙ rw (sym_eq a b other) refl))
  where
    sym_eq : (a b : Addr) → (a == b) ≡ false → (b == a) ≡ false
    sym_eq a b h = ground (arith, (addr_eq_iff b a).0, (addr_eq_iff a b).1)
head_kept s s' a b rest at_head other (inr same) = (rest, same ∙ at_head)

pub head_not_in : (b : Addr) (rest : List Addr) → distinct (b ∷ rest) ≡ true → elem b rest ≡ false
unfolding distinct
head_not_in b rest h = ground arith

first_not_in : (a : Addr) (rest : List Addr) → elem a (a ∷ rest) ≡ false → ⊥
unfolding elem
first_not_in a rest h = ground (arith, eq_true a)

-- Whatever is left of the loop after its first round, the first address that the source still lists
-- stays with it.
abbrev pub Holds : Option Device → Addr → Type 0
Holds o b = (s : Device) × (rest : List Addr) × (o ≡ some s) × (s.addrs ≡ b ∷ rest)

abbrev pub Left : Table → DeviceId → Addr → Type 0
Left t from b = Holds (lookup from t.devices) b × IsBody t

place-head :
    (o : Option Device) (s : Device) (b : Addr) (rest : List Addr) (i : ℕ)
    → o ≡ some s
    → s.addrs ≡ b ∷ rest
    → place o (suc i) ≡ get_or rest i no_addr
place-head o s b rest i here at_head = rw (here, at_head) refl

pub merge_addrs-Holds :
    (left i : ℕ) (t : Table) (into from : DeviceId) (b : Addr)
    → IsBody t
    → (into == from) ≡ false
    → (no_addr == b) ≡ false
    → Holds (lookup from t.devices) b
    → Left (merge_addrs left (suc i) t into from) from b
unfolding merge_addrs
merge_addrs-Holds zero i t into from b v two valid h = (h, v)
merge_addrs-Holds (suc left) i t into from b v two valid (s, rest, here, at_head) =
    let a = get_or rest i no_addr in
    let once : distinct (b ∷ rest) ≡ true = rw at_head at (rw here at (v.owned.device from)).1 in
    let other = other_place b rest i (head_not_in b rest once) valid in
    let (s', found, kept) = Kept-attach t into from v two s a here in
    let (rest', at_head') = head_kept s s' a b rest at_head other kept in
    let e : suc i + 1 ≡ suc (suc i) = omega arith in
    let round = place-head (lookup from t.devices) s b rest i here at_head in
    subst (λ u. Left u from b)
      (sym (
        ap (λ c. merge_addrs left (suc i + 1) (attach t into c) into from) round
        ∙ ap (λ k. merge_addrs left k (attach t into a) into from) e))
      (merge_addrs-Holds left (suc i) (attach t into a) into from b (attach-IsBody t into a v) two
        valid (s', rest', found, at_head'))

pub loop_none : (t : Table) (into from : DeviceId) (i : ℕ) → merge_addrs 0 i t into from ≡ t
unfolding merge_addrs
loop_none t into from i = refl

pub loop_first :
    (left : ℕ) (t : Table) (into from : DeviceId) (s : Device) (a : Addr) (rest : List Addr)
    → lookup from t.devices ≡ some s
    → s.addrs ≡ a ∷ rest
    → merge_addrs (suc left) 0 t into from ≡ merge_addrs left 1 (attach t into a) into from
unfolding merge_addrs
loop_first left t into from s a rest here at_head =
    ap (λ c. merge_addrs left 1 (attach t into c) into from)
      (first_place (lookup from t.devices) s a rest here at_head)
  where
    first_place :
        (o : Option Device) (s : Device) (a : Addr) (rest : List Addr)
        → o ≡ some s
        → s.addrs ≡ a ∷ rest
        → place o 0 ≡ a
    first_place o s a rest here at_head = rw (here, at_head) refl

-- The first round takes the first address away.
module _ (t : Table) (into from : DeviceId) (v : IsBody t) (two : (into == from) ≡ false) where
  gone_from :
      (d : Device) (a : Addr)
      → lookup into t.devices ≡ some d
      → lists (lookup from (attach t into a).devices) a ≡ false
  gone_from d a here =
      (attach-IsBody t into a v).owned.owner from a
      ∙ not_both (lookup a (attach t into a).by_addr)
          (sym ((attach-IsBody t into a v).owned.owner into a) ∙ lists-attach t into d a v here)
    where
      not_both : (o : Option DeviceId) → points o into ≡ true → points o from ≡ false
      not_both none h = cc
      not_both (some j) h = rw (eq_of_true j into h) two

  pub first_round :
      (d s : Device) (a : Addr) (rest : List Addr)
      → lookup into t.devices ≡ some d
      → lookup from t.devices ≡ some s
      → s.addrs ≡ a ∷ rest
      → (s' : Device) × (lookup from (attach t into a).devices ≡ some s')
        × (s'.addrs ≡ delete_all a (a ∷ rest))
  first_round d s a rest target source at_head =
      let (s', found, kept) = Kept-attach t into from v two s a source in
      (s', found, taken s' (rw found at (gone_from d a target)) kept)
    where
      taken :
          (s' : Device)
          → elem a s'.addrs ≡ false
          → (s'.addrs ≡ delete_all a s.addrs) ⊎ (s'.addrs ≡ s.addrs)
          → s'.addrs ≡ delete_all a (a ∷ rest)
      taken s' h (inl less) = less ∙ ap (delete_all a) at_head
      taken s' h (inr same) = absurd (first_not_in a rest (ap (elem a) (sym (same ∙ at_head)) ∙ h))

-- The source has lost its only address, or its first one.
pub bare_after_one :
    (t : Table) (into from : DeviceId) (d s : Device) (a : Addr)
    → IsBody t
    → (into == from) ≡ false
    → lookup into t.devices ≡ some d
    → lookup from t.devices ≡ some s
    → s.addrs ≡ a ∷ []
    → (b : Addr) → lists (lookup from (attach t into a).devices) b ≡ false
unfolding delete_all elem
bare_after_one t into from d s a v two target source one b =
    let (s', found, fewer) = first_round t into from v two d s a [] target source one in
    rw (found, fewer, eq_true a) refl

pub second_after_first :
    (t : Table) (into from : DeviceId) (d s : Device) (a b : Addr) (rest : List Addr)
    → IsBody t
    → (into == from) ≡ false
    → lookup into t.devices ≡ some d
    → lookup from t.devices ≡ some s
    → s.addrs ≡ a ∷ b ∷ rest
    → Holds (lookup from (attach t into a).devices) b
unfolding delete_all
second_after_first t into from d s a b rest v two target source more =
    let (s', found, fewer) = first_round t into from v two d s a (b ∷ rest) target source more in
    let once : distinct (a ∷ b ∷ rest) ≡ true = rw more at (rw source at (v.owned.device from)).1 in
    (
      s',
      delete_all a rest,
      found,
      fewer ∙ rw (eq_true a, apart a b rest (head_not_in a (b ∷ rest) once)) refl,
    )
  where
    apart : (a b : Addr) (rest : List Addr) → elem a (b ∷ rest) ≡ false → (b == a) ≡ false
    apart a b rest h = unfold elem in ground (arith, h)
