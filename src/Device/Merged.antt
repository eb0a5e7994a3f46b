-- ===== src/Device/Merged.antt =====
-- What Merge (internal/device/device.go) does to the table.
use dns_desktop.Common.{
  ◌≤◌, ◌≡◌, refl, sym, ap, ◌∙◌, subst, inl, inr, true, false, Option, none, some, List, [], ◌∷◌,
  Bytes, length, arith, ◌==◌, bytes_eq_instance, Bool-cases, Option-cases, eq_true, eq_of_true,
}
use dns_desktop.Common.Dict.{
  lookup, remove, map_values, lookup-insert, lookup-remove, lookup-map_values,
}
use dns_desktop.Common.Elems.{elem, points}
use dns_desktop.Net.{Addr, no_addr, is_valid, addr_eq_instance}
use dns_desktop.Device.{DeviceId, Device, Table, notify}
use dns_desktop.Device.Locked.{put_device, attach, publish}
use dns_desktop.Device.Edit.{absorbed, merge_addrs, moved, merge}
use dns_desktop.Device.Owned.{lists}
use dns_desktop.Device.Invariant.{IsBody, IsTable, known, lookup-build_index, put_device-IsBody}
use dns_desktop.Device.Writes.{under_its_id, attach-IsBody}
use dns_desktop.Device.Merging.{
  Left, merge_addrs-Holds, loop_none, loop_first, bare_after_one, second_after_first,
}
use dns_desktop.Device.Learning.{publish_and_notify-IsTable}
use dns_desktop.Device.Moved.{
  keys-map_values, by_key-merge_addrs, moved_away, KeyOk-moved, drop_bare-IsBody,
}

module _ (t : Table) (into from : DeviceId) (target source : Device) (v : IsTable t)
    (two : (into == from) ≡ false) (to_there : lookup into t.devices ≡ some target)
    (from_there : lookup from t.devices ≡ some source) where
  -- The table before the loop over the addresses.
  abbrev pub before : Table
  before =
      let t1 = put_device t (absorbed target source) in
      record t1 { by_key = map_values (moved into from) t1.by_key }

  target_id : target.id ≡ into
  target_id = under_its_id t into target v.body to_there

  put-IsBody : IsBody (put_device t (absorbed target source))
  put-IsBody =
      put_device-IsBody t (absorbed target source) target v.body
        (ap (λ i. lookup i t.devices) target_id ∙ to_there) refl

  source_before : lookup from before.devices ≡ some source
  source_before =
      rw (lookup-insert target.id from (absorbed target source) t.devices, target_id, two)
        from_there

  target_before : lookup into before.devices ≡ some (absorbed target source)
  target_before =
      rw (lookup-insert target.id into (absorbed target source) t.devices, target_id, eq_true into)
        refl

  pub before-IsBody : IsBody before
  before-IsBody = record {
    owned = put-IsBody.owned;
    bounded = put-IsBody.bounded;
    keyed = λ k. rw (lookup-map_values (moved into from) k t.by_key) (
        KeyOk-moved (put_device t (absorbed target source)).devices into from (lookup k t.by_key)
          (ap known target_before) (put-IsBody.keyed k));
    id_once = put-IsBody.id_once;
    key_once = rw (keys-map_values (moved into from) t.by_key) put-IsBody.key_once;
    waiting = v.body.waiting;
  }

  -- What the loop leaves, and the table after the call.
  abbrev pub after : Table
  after = merge_addrs (length source.addrs) 0 before into from

  abbrev pub result : Table
  result = notify (publish (record after { devices = remove from after.devices }))

  pub merge-result : (merge t into from).0 ≡ result
  unfolding merge
  merge-result = rw (two, to_there, from_there) refl

  -- No key points at the device that is merged away.
  no_key : (k : Bytes) → points (lookup k after.by_key) from ≡ false
  no_key k =
      rw
        (
          by_key-merge_addrs (length source.addrs) 0 before into from,
          lookup-map_values (moved into from) k t.by_key,
        )
        (moved_away into from (lookup k t.by_key) two)

  result-IsTable :
      IsBody after → ((a : Addr) → lists (lookup from after.devices) a ≡ false) → IsTable result
  result-IsTable w bare =
      publish_and_notify-IsTable (record after { devices = remove from after.devices })
        (drop_bare-IsBody after from w bare no_key)

  -- One round of the loop.
  one_round : (a : Addr) → source.addrs ≡ a ∷ [] → after ≡ attach before into a
  one_round a one =
      ap (λ n. merge_addrs n 0 before into from) (ap length one)
      ∙ (loop_first 0 before into from source a [] source_before one
          ∙ loop_none (attach before into a) into from 1)

  merged_one-IsTable : (a : Addr) → source.addrs ≡ a ∷ [] → IsTable result
  merged_one-IsTable a one =
      result-IsTable
        (subst IsBody (sym (one_round a one)) (attach-IsBody before into a before-IsBody))
        (λ b.
          subst (λ u. lists (lookup from u.devices) b ≡ false) (sym (one_round a one))
            (bare_after_one before into from (absorbed target source) source a before-IsBody two
              target_before source_before one b))

  merged_none-IsTable : source.addrs ≡ [] → IsTable result
  merged_none-IsTable none_left =
      let still =
        ap (λ n. merge_addrs n 0 before into from) (ap length none_left)
        ∙ loop_none before into from 0 in
      result-IsTable (subst IsBody (sym still) before-IsBody) (λ b.
        subst (λ u. lists (lookup from u.devices) b ≡ false) (sym still)
          (rw (source_before, none_left) (unfold elem in refl)))

  merged_short-IsTable :
      (addrs : List Addr) → source.addrs ≡ addrs → length addrs ≤ 1 → IsTable result
  merged_short-IsTable [] e h = merged_none-IsTable e
  merged_short-IsTable (a ∷ []) e h = merged_one-IsTable a e
  merged_short-IsTable (a ∷ b ∷ rest) e h = absurd (omega arith)

  -- The second address is left behind.
  second-Left :
      (a b : Addr) (rest : List Addr)
      → source.addrs ≡ a ∷ b ∷ rest
      → is_valid b ≡ true
      → Left after from b
  second-Left a b rest more valid =
      let later =
        merge_addrs-Holds (length (b ∷ rest)) 0 (attach before into a) into from b
          (attach-IsBody before into a before-IsBody) two (valid_ne b valid)
          (second_after_first before into from (absorbed target source) source a b rest
            before-IsBody two target_before source_before more) in
      subst (λ u. Left u from b)
        (sym (
          ap (λ n. merge_addrs n 0 before into from) (ap length more)
          ∙ loop_first (length (b ∷ rest)) before into from source a (b ∷ rest) source_before more))
        later
    where
      valid_ne : (b : Addr) → is_valid b ≡ true → (no_addr == b) ≡ false
      valid_ne b h = ground arith

  -- `byAddr` still points from the second address to the device that is gone.
  pub points_still :
      (a b : Addr) (rest : List Addr)
      → source.addrs ≡ a ∷ b ∷ rest
      → is_valid b ≡ true
      → lookup b after.by_addr ≡ some from
  points_still a b rest more valid =
      let ((s, left, found, at_head), w) = second-Left a b rest more valid in
      pointer_of (lookup b after.by_addr) (
        sym (w.owned.owner from b) ∙ rw (found, at_head) (unfold elem in ground (arith, eq_true b)))
    where
      pointer_of : (o : Option DeviceId) → points o from ≡ true → o ≡ some from
      pointer_of none h = cc
      pointer_of (some j) h = ap some (eq_of_true j from h)

  pub not_indexed :
      (a b : Addr) (rest : List Addr)
      → source.addrs ≡ a ∷ b ∷ rest
      → is_valid b ≡ true
      → lookup b result.index ≡ none
  unfolding publish
  not_indexed a b rest more valid =
      lookup-build_index (remove from after.devices) after.by_addr b
        (second-Left a b rest more valid).1.owned.once
      ∙ rw (points_still a b rest more valid, lookup-remove from from after.devices, eq_true from)
          refl

  pub gone : lookup from result.devices ≡ none
  unfolding publish
  gone = rw (lookup-remove from from after.devices, eq_true from) refl

pub merge_refused :
    (t : Table) (into from : DeviceId) → (into == from) ≡ true → (merge t into from).0 ≡ t
unfolding merge
merge_refused t into from one = rw one refl

pub merge_without_target :
    (t : Table) (into from : DeviceId)
    → (into == from) ≡ false
    → lookup into t.devices ≡ none
    → (merge t into from).0 ≡ t
unfolding merge
merge_without_target t into from two h = rw (two, h) refl

pub merge_without_source :
    (t : Table) (into from : DeviceId) (target : Device)
    → (into == from) ≡ false
    → lookup into t.devices ≡ some target
    → lookup from t.devices ≡ none
    → (merge t into from).0 ≡ t
unfolding merge
merge_without_source t into from target two to_there h = rw (two, to_there, h) refl

-- Merge of two devices keeps the table well-formed if the one that is merged away has at most one
-- address.
pub merge-IsTable :
    (t : Table) (into from : DeviceId)
    → IsTable t
    → ((source : Device) → lookup from t.devices ≡ some source → length source.addrs ≤ 1)
    → IsTable (merge t into from).0
merge-IsTable t into from v short = elim (Bool-cases (into == from)) [
  | inl one ↦ subst IsTable (sym (merge_refused t into from one)) v
  | inr two ↦ elim (Option-cases (lookup into t.devices)) [
    | inl no_target ↦ subst IsTable (sym (merge_without_target t into from two no_target)) v
    | inr (target, to_there) ↦ elim (Option-cases (lookup from t.devices)) [
      | inl no_source ↦
          subst IsTable (sym (merge_without_source t into from target two to_there no_source)) v
      | inr (source, from_there) ↦
          subst IsTable (sym (merge-result t into from target source v two to_there from_there)) (
            merged_short-IsTable t into from target source v two to_there from_there source.addrs
              refl (short source from_there))
    ]
  ]
]
