-- ===== src/Device/Kept.antt =====
-- A decision of a person on a device (internal/device/device.go) is undone by no call that does not name
-- the device.
use dns_desktop.Common.{◌≡◌, false, List, [], ◌∷◌, ◌==◌, ℕ_eq, bytes_eq_instance}
use dns_desktop.Common.Dict.{Dict}
use dns_desktop.Net.{addr_eq_instance}
use dns_desktop.Device.{DeviceId, Device}
use dns_desktop.Device.History.{
  TableCall, renames, sets_profile, sets_paused, merges, forgets, restores,
}

-- A call that does not name the device: it decides nothing on it, and neither forgets it nor merges
-- it away.
abbrev pub Spares : DeviceId → TableCall → Type 0
Spares i (renames id text) = (id == i) ≡ false
Spares i (sets_profile id profile) = (id == i) ≡ false
Spares i (sets_paused id paused) = (id == i) ≡ false
Spares i (merges into from) = (from == i) ≡ false
Spares i (forgets id) = (id == i) ≡ false
Spares i (restores s) = ⊥
Spares i _ = Unit

abbrev pub AllSpare : DeviceId → List TableCall → Type 0
AllSpare i [] = Unit
AllSpare i (c ∷ cs) = Spares i c × AllSpare i cs
