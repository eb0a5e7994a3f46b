-- ===== src/Device.antt =====
-- internal/device/device.go: the table of devices and the index from an address to a device. A time
-- is its number of nanoseconds since the zero `time.Time`, which is 0; each call takes the clock's
-- reading. A map's pointer to a device is its identity, under which `devices` holds it.
pub mod Locked
pub mod Observe
pub mod Edit
pub mod Saved
pub mod Owned
pub mod Invariant
pub mod Writes
pub mod Removal
pub mod Learning
pub mod Editing
pub mod Restoring
pub mod Merging
pub mod Moved
pub mod Merged
pub mod MergeLoss
pub mod History
pub mod Identity
pub mod Decisions
pub mod Lasting
pub mod Kept
pub mod Restart
mod Tests
use dns_desktop.Common.{
  ℕ, ◌+◌, ◌-◌, ◌*◌, ◌%◌, ◌^◌, Bool, true, false, Option, none, some, List, [], ◌∷◌, ◌++◌, Bytes,
  length, null, ◌==◌, ℕ_eq, ltb, leb, ◌||◌, if◌then◌else◌, bytes_eq_instance,
}
use dns_desktop.Common.Dict.{Dict}
use dns_desktop.Common.Int.{ℤ, pos, negsuc}
use dns_desktop.Net.{Addr}
use dns_desktop.Text.{runes, encode_runes, trim_space}

abbrev pub DeviceId : Type 0
DeviceId = Bytes

pub data Source : Type 0 where
  observed dhcp manual : Source

pub record Device : Type 0 where
  pub id : DeviceId
  pub name : Bytes
  pub name_set_by_user : Bool
  pub profile : Bytes
  pub paused : Bool
  pub hwaddr : Bytes
  pub hostname : Bytes
  pub vendor : Bytes
  pub addrs : List Addr
  pub source : Source
  pub first_seen : ℕ
  pub last_seen : ℕ

-- `DisplayName`; `text` is how package netip prints an address.
unfoldable pub display_name : (Addr → Bytes) → Device → Bytes
display_name text d =
    if null d.name
    then if null d.hostname
      then elim d.addrs [ [] ↦ if null d.hwaddr then d.id else d.hwaddr | a ∷ _ ↦ text a ]
      else d.hostname
    else d.name

-- The errors of the table's calls.
pub data TableError : Type 0 where
  unknown_device table_full merge_with_itself bad_version : TableError

-- An entry of the index that queries read.
pub record IndexEntry : Type 0 where
  pub id : DeviceId
  pub paused : Bool
  pub profile : Bytes
  pub last_seen : ℕ

pub record Observation : Type 0 where
  pub addr : Addr
  pub at : ℕ

-- The table, with the channel `obs` as a queue of at most `queue` observations, `running` for the
-- goroutine that drains it, and the number of calls of the hook `onChange`.
pub record Table : Type 0 where
  pub max : ℕ
  pub seen_gap : ℕ
  pub queue : ℕ
  pub index : Dict Addr IndexEntry
  pub devices : Dict DeviceId Device
  pub by_addr : Dict Addr DeviceId
  pub by_key : Dict Bytes DeviceId
  pub obs : List Observation
  pub dropped : ℕ
  pub evicted : ℕ
  pub running : Bool
  pub changes : ℕ

abbrev pub default_max_devices : ℕ
default_max_devices = 4096

-- A minute.
abbrev pub default_seen_interval : ℕ
default_seen_interval = 60_000_000_000

abbrev pub default_observe_queue : ℕ
default_observe_queue = 1024

pub record TableOptions : Type 0 where
  pub max_devices : ℤ
  pub seen_interval : ℤ
  pub observe_queue : ℤ

-- `orInt` and `orDuration`: what is not positive selects the default.
unfoldable pub or_default : ℤ → ℕ → ℕ
or_default (pos v) default = if v == 0 then default else v
or_default (negsuc v) default = default

unfoldable pub new_table : TableOptions → Table
unfolding or_default
new_table opts = record {
  max = or_default opts.max_devices default_max_devices;
  seen_gap = or_default opts.seen_interval default_seen_interval;
  queue = or_default opts.observe_queue default_observe_queue;
  index = [];
  devices = [];
  by_addr = [];
  by_key = [];
  obs = [];
  dropped = 0;
  evicted = 0;
  running = true;
  changes = 0;
}

-- `atomic.Uint64.Add(1)`
abbrev pub add_one : ℕ → ℕ
add_one n = (n + 1) % 2 ^ 64

abbrev pub notify : Table → Table
notify t = record t { changes = t.changes + 1 }

-- The loop of `SanitiseName`; `sb` holds the runes that the builder has been given.
abbrev pub max_device_name : ℕ
max_device_name = 64

unfoldable pub sanitise_runes : List ℕ → List ℕ → List ℕ
sanitise_runes [] sb = sb
sanitise_runes (r ∷ rs) sb =
    let rest = sanitise_runes rs (if ltb r 0x20 || r == 0x7f then sb else sb ++ (r ∷ [])) in
    if leb max_device_name (length (encode_runes sb)) || r == 0 then sb else rest

unfoldable pub device_name : Bytes → Bytes
unfolding sanitise_runes
device_name s = encode_runes (trim_space (sanitise_runes (runes s) []))
