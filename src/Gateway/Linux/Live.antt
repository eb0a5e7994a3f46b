-- ===== src/Gateway/Linux/Live.antt =====
-- A running session of internal/gateway/linux_session.go: SetDNSCapture, Block, Close and Status, with what
-- the session remembers. Times are not modelled.
use dns_desktop.Common.{
  Bool, true, false, not, ◌&&◌, Option, none, some, List, [], ◌∷◌, Bytes, Result, ok, err,
  if◌then◌else◌,
}
use dns_desktop.Common.Elems.{delete_all}
use dns_desktop.Net.{Addr, addr_eq_instance}
use dns_desktop.Gateway.{HotspotConfig}
use dns_desktop.Gateway.Nftables.{RuleError, capture, block}
use dns_desktop.Gateway.Linux.{
  Command, nft_script, Act, ◌>>=◌, return, attempt, execute, StepName, LinuxError, bad_rules,
  command_failed,
}
use dns_desktop.Gateway.Linux.Session.{Setup}
use dns_desktop.Gateway.Linux.Undo.{undo_session}

pub data SessionState : Type 0 where
  state_starting state_running state_degraded state_stopped state_failed : SessionState

-- What the session remembers. `warned` is whether there is a detail.
pub record Live : Type 0 where
  pub setup : Setup
  pub state : SessionState
  pub captures : Bool
  pub warned : Bool
  pub blocked : List Addr

-- As `Start` returns it.
abbrev pub running : Setup → Live
running s = record {
  setup = s;
  state = state_running;
  captures = false;
  warned = false;
  blocked = [];
}

abbrev pub is_degraded : SessionState → Bool
is_degraded state_degraded = true
is_degraded _ = false

-- The session after the command of `SetDNSCapture`.
abbrev pub captured : Live → Bool → Option Bytes → Live
captured l true none = l
captured l false none = record l { state = state_degraded; warned = true }
captured l on (some out) =
    if not on && is_degraded l.state
    then record l { captures = on; state = state_running; warned = false }
    else record l { captures = on }

abbrev pub replied : Option Bytes → Result LinuxError Unit
replied none = err command_failed
replied (some out) = ok tt

-- The session after the command of `Block`.
abbrev pub marked : Live → Addr → Bool → Option Bytes → Live
marked l a on none = l
marked l a on (some out) =
    let rest = delete_all a l.blocked in record l { blocked = if on then a ∷ rest else rest }

module _ {M : Type 0} (run : M → Command → M × Option Bytes) where
  abbrev pub capture_with :
      Live → Bool → Result (List RuleError) Bytes → Act M (Live × Result LinuxError Unit)
  capture_with l on (err es) = return (l, err (bad_rules es))
  capture_with l on (ok text) = do
    out ← attempt (execute run (nft_script text))
    return (captured l on out, replied out)

  -- `SetDNSCapture`
  unfoldable pub switch_capture : Live → Bool → Act M (Live × Result LinuxError Unit)
  unfolding execute capture
  switch_capture l on = capture_with l on (capture l.setup.iface on)

  abbrev pub block_with :
      Live → Addr → Bool → Result (List RuleError) Bytes → Act M (Live × Result LinuxError Unit)
  block_with l a on (err es) = return (l, err (bad_rules es))
  block_with l a on (ok text) = do
    out ← attempt (execute run (nft_script text))
    return (marked l a on out, replied out)

  -- `Block`
  unfoldable pub switch_block : Live → Addr → Bool → Act M (Live × Result LinuxError Unit)
  unfolding execute block
  switch_block l a on = block_with l a on (block a on)

  -- `Close`: the session is stopped, and the steps that could not be undone are returned.
  unfoldable pub close_session : Live → Act M (Live × List StepName × Option Bytes)
  unfolding undo_session switch_capture
  close_session l = do
    result ← switch_capture l false
    undone ← undo_session run
    return (record (result.0) { state = state_stopped }, undone.0, undone.1)

abbrev ssid_of : Option HotspotConfig → Bytes
ssid_of none = []
ssid_of (some h) = h.ssid

-- `Status`
pub record Status : Type 0 where
  pub state : SessionState
  pub uplink : Bytes
  pub hotspot : Bytes
  pub redirects : Bool
  pub warned : Bool

abbrev pub status : Live → Status
status l = record {
  state = l.state;
  uplink = l.setup.uplink;
  hotspot = ssid_of l.setup.config.hotspot;
  redirects = l.captures;
  warned = l.warned;
}
