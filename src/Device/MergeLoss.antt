-- ===== src/Device/MergeLoss.antt =====
-- Merge (internal/device/device.go) moves one address of a device, and of several it leaves the second
-- behind.
use dns_desktop.Common.{
  ℕ, ◌≡◌, refl, sym, ap, ◌∙◌, subst, true, false, none, some, List, ◌∷◌, ◌==◌, bytes_eq_instance,
}
use dns_desktop.Common.Dict.{lookup}
use dns_desktop.Net.{Addr, is_valid, unmap, addr_eq_instance}
use dns_desktop.Device.{DeviceId, Device, Table}
use dns_desktop.Device.Locked.{publish}
use dns_desktop.Device.Edit.{merge_addrs, merge}
use dns_desktop.Device.Invariant.{IsTable}
use dns_desktop.Device.Observe.{Client, identify, apply_observation}
use dns_desktop.Device.Merged.{result, merge-result, points_still, not_indexed, gone}

merge-no_error :
    (t : Table) (into from : DeviceId) (target source : Device)
    → (into == from) ≡ false
    → lookup into t.devices ≡ some target
    → lookup from t.devices ≡ some source
    → (merge t into from).1 ≡ none
unfolding merge
merge-no_error t into from target source two to_there from_there =
    rw (two, to_there, from_there) refl

not_identified :
    (u : Table) (now later : ℕ) (c : Client)
    → is_valid c.addr ≡ true
    → lookup (unmap c.addr) u.index ≡ none
    → (identify u now later c).1 ≡ c
unfolding identify
not_identified u now later c valid h = rw (valid, h) refl

nothing_learned :
    (u : Table) (id from : DeviceId) (b : Addr) (at : ℕ)
    → lookup b u.by_addr ≡ some from
    → lookup from u.devices ≡ none
    → apply_observation u id (record { addr = b; at = at }) ≡ u
unfolding apply_observation
nothing_learned u id from b at held gone = rw (held, gone) refl

-- When Merge succeeds on a device with two addresses or more, its second address is lost: queries
-- from it get no identity, and what the learner hears of it changes nothing.
pub merge_loses_address :
    (t : Table) (into from : DeviceId) (target source : Device) (a b : Addr) (rest : List Addr)
    (now later at : ℕ) (c : Client) (id : DeviceId)
    → IsTable t
    → (into == from) ≡ false
    → lookup into t.devices ≡ some target
    → lookup from t.devices ≡ some source
    → source.addrs ≡ a ∷ b ∷ rest
    → is_valid b ≡ true
    → is_valid c.addr ≡ true
    → unmap c.addr ≡ b
    → let u = (merge t into from).0 in
      ((merge t into from).1 ≡ none)
      × ((identify u now later c).1 ≡ c)
      × (apply_observation u id (record { addr = b; at = at }) ≡ u)
unfolding publish merge_addrs
merge_loses_address t into from target source a b rest now later at c id v two to_there from_there
      more valid here same =
    let r = merge-result t into from target source v two to_there from_there in
    (
      merge-no_error t into from target source two to_there from_there,
      ap (λ u. (identify u now later c).1) r
          ∙ not_identified (result t into from target source v two to_there from_there) now later c
              here
              (ap (λ e. lookup e (result t into from target source v two to_there from_there).index)
                  same
                ∙ not_indexed t into from target source v two to_there from_there a b rest more
                    valid),
      subst (λ u. apply_observation u id (record { addr = b; at = at }) ≡ u) (sym r)
          (nothing_learned (result t into from target source v two to_there from_there) id from b at
            (points_still t into from target source v two to_there from_there a b rest more valid)
            (gone t into from target source v two to_there from_there)),
    )
