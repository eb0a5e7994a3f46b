-- ===== src/Device/History.antt =====
-- Histories of calls of the table (internal/device/device.go). Every call holds the table's lock from
-- its first to its last write, or reads the published index alone, so threads see the table change by
-- whole calls; the learner's rounds stand among them.
use dns_desktop.Common.{
  ℕ, ◌≤◌, ◌≡◌, refl, Bool, true, none, some, List, [], ◌∷◌, Bytes, length, arith, bytes_eq_instance,
}
use dns_desktop.Common.Dict.{lookup}
use dns_desktop.Common.Elems.{distinct}
use dns_desktop.Net.{Addr, addr_eq_instance}
use dns_desktop.Dhcp.Pool.{Lease}
use dns_desktop.Device.{DeviceId, Device, TableOptions, Table, new_table}
use dns_desktop.Device.Observe.{Client, identify, learn, observe_lease}
use dns_desktop.Device.Edit.{rename, set_profile, set_paused, merge, forget, add, close}
use dns_desktop.Device.Saved.{Saved, restore}
use dns_desktop.Device.Invariant.{IsTable}
use dns_desktop.Device.Learning.{identify-IsTable, learn-IsTable, observe_lease-IsTable}
use dns_desktop.Device.Editing.{
  rename-IsTable, set_profile-IsTable, set_paused-IsTable, forget-IsTable, add-IsTable,
  close-IsTable,
}
use dns_desktop.Device.Restoring.{ids, restore-IsTable}
use dns_desktop.Device.Merged.{merge-IsTable}

-- A call with what it reads of the clock, and the identity that `newID` draws in it.
pub data TableCall : Type 0 where
  identifies : Client → ℕ → ℕ → TableCall
  learns : DeviceId → TableCall
  observes_lease : ℕ → DeviceId → Lease → TableCall
  renames : DeviceId → Bytes → TableCall
  sets_profile : DeviceId → Bytes → TableCall
  sets_paused : DeviceId → Bool → TableCall
  merges : DeviceId → DeviceId → TableCall
  forgets : DeviceId → TableCall
  adds : ℕ → DeviceId → Bytes → Bytes → List Addr → TableCall
  restores : Saved → TableCall
  closes : TableCall

unfoldable pub step : Table → TableCall → Table
step t (identifies c now later) = (identify t now later c).0
step t (learns id) = learn t id
step t (observes_lease now id l) = observe_lease t now id l
step t (renames id text) = (rename t id text).0
step t (sets_profile id profile) = (set_profile t id profile).0
step t (sets_paused id paused) = (set_paused t id paused).0
step t (merges into from) = (merge t into from).0
step t (forgets id) = (forget t id).0
step t (adds now id text hw addrs) = (add t now id text hw addrs).0
step t (restores s) = (restore t s).0
step t closes = close t

unfoldable pub run : Table → List TableCall → Table
unfolding step
run t [] = t
run t (c ∷ cs) = run (step t c) cs

-- What the theorem on histories asks of a call: a drawn identity is not in use, a device that is
-- merged away has at most one address, and the devices of a saved state have different identities.
abbrev pub Allowed : Table → TableCall → Type 0
Allowed t (learns id) = lookup id t.devices ≡ none
Allowed t (observes_lease now id l) = lookup id t.devices ≡ none
Allowed t (adds now id text hw addrs) = lookup id t.devices ≡ none
Allowed t (merges into from) =
    (source : Device) → lookup from t.devices ≡ some source → length source.addrs ≤ 1
Allowed t (restores s) = distinct (ids s.devices) ≡ true
Allowed t _ = Unit

abbrev pub AllAllowed : Table → List TableCall → Type 0
AllAllowed t [] = Unit
AllAllowed t (c ∷ cs) = Allowed t c × AllAllowed (step t c) cs

pub step-IsTable : (t : Table) (c : TableCall) → IsTable t → Allowed t c → IsTable (step t c)
unfolding step
step-IsTable t (identifies c now later) v ok = identify-IsTable t now later c v
step-IsTable t (learns id) v ok = learn-IsTable t id v ok
step-IsTable t (observes_lease now id l) v ok = observe_lease-IsTable t now id l v ok
step-IsTable t (renames id text) v ok = rename-IsTable t id text v
step-IsTable t (sets_profile id profile) v ok = set_profile-IsTable t id profile v
step-IsTable t (sets_paused id paused) v ok = set_paused-IsTable t id paused v
step-IsTable t (merges into from) v ok = merge-IsTable t into from v ok
step-IsTable t (forgets id) v ok = forget-IsTable t id v
step-IsTable t (adds now id text hw addrs) v ok = add-IsTable t now id text hw addrs v ok
step-IsTable t (restores s) v ok = restore-IsTable t s v ok
step-IsTable t closes v ok = close-IsTable t v

-- The table stays well-formed over every history of calls in which drawn identities are not in use, a
-- device that is merged away has at most one address, and the devices of a restored state have
-- different identities: a device lists an address exactly when the map of addresses points to it, the
-- published index agrees with the map, keys point to devices that are there, a device has at most
-- eight addresses, and the table and the queue of observations keep their bounds.
pub run-IsTable :
    (t : Table) (cs : List TableCall) → IsTable t → AllAllowed t cs → IsTable (run t cs)
unfolding run
run-IsTable t [] v ok = v
run-IsTable t (c ∷ cs) v (ok, oks) = run-IsTable (step t c) cs (step-IsTable t c v ok) oks

pub new_table-IsTable : (opts : TableOptions) → IsTable (new_table opts)
unfolding new_table lookup distinct
new_table-IsTable opts = record {
  body = record {
    owned = record { device = λ i. tt; owner = λ i a. refl; once = refl };
    bounded = omega arith;
    keyed = λ k. tt;
    id_once = refl;
    key_once = refl;
    waiting = omega arith;
  };
  published = λ a. refl;
}
