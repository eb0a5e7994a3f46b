-- ===== src/Gateway/Linux.antt =====
-- internal/gateway/linux_session.go: bringing a Linux machine up as a gateway and undoing it. What the
-- commands do to the machine is not the repository's code: `run` is a parameter. A process performs
-- its writes and commands one by one, and may be killed before any of them.
pub mod Session
pub mod Undo
pub mod Laws
pub mod Covered
pub mod BringUp
pub mod Settled
pub mod Record
pub mod Start
pub mod Live
pub mod Agree
pub mod Restores
use dns_desktop.Common.{
  ℕ, zero, suc, ◌+◌, Bool, true, false, not, ◌&&◌, ◌||◌, Option, none, some, List, [], ◌∷◌, ◌++◌,
  Bytes, length, null, Result, ok, err, ◌==◌, ℕ_eq, bytes_eq_instance, if◌then◌else◌,
}
use dns_desktop.Net.{Addr, Prefix, bits}
use dns_desktop.Text.{runes, encode_runes, trim_space}
use dns_desktop.Gateway.{ConfigError, Capability, SelectError}
use dns_desktop.Gateway.Nftables
use dns_desktop.Gateway.Nftables.{
  codes, addr_text, decimal, RuleOptions, RuleError, render_rules, destroy, delete_fallback,
  capture,
}

-- The step names that the journal holds.
pub data StepName : Type 0 where
  forwarding nftables_table interface_address hostapd : StepName

abbrev pub step_eq : StepName → StepName → Bool
step_eq forwarding forwarding = true
step_eq nftables_table nftables_table = true
step_eq interface_address interface_address = true
step_eq hostapd hostapd = true
step_eq _ _ = false

pub record JournalEntry : Type 0 where
  pub step : StepName
  pub text : Bytes

-- The file of the journal.
pub data JournalFile : Type 0 where
  absent unreadable : JournalFile
  saved : List JournalEntry → JournalFile

-- The commands that are run, each with its input.
pub data Command : Type 0 where
  sysctl_read : Command
  sysctl_write : Bytes → Command
  nft_list : Command
  nft_script : Bytes → Command
  addr_replace : Bytes → Bytes → Command
  addr_delete : Bytes → Bytes → Command
  start_hostapd stop_hostapd : Command

-- Why a call failed.
pub data LinuxError : Type 0 where
  command_failed : LinuxError
  journal_failed : LinuxError
  conf_failed : LinuxError
  bad_rules : List RuleError → LinuxError
  not_an_address_record : LinuxError
  bad_config : List ConfigError → LinuxError
  unsupported : List Capability → LinuxError
  bad_interface : SelectError → LinuxError
  not_managed no_interfaces nothing_to_serve_on : LinuxError

-- How a call ends, with its value: it may also be cut off by the end of its process.
pub data Outcome (A : Type 0) : Type 0 where
  done : A → Outcome A
  failed : LinuxError → Outcome A
  killed : Outcome A

abbrev pub succeeds : Option Bytes → Bool
succeeds none = false
succeeds (some out) = true

-- The machine, the file of the journal, and what the process does and knows: the steps of its session,
-- after how many more writes and commands it is killed (`none` for never), and whether its next
-- writes to the disk fail.
pub record World (M : Type 0) : Type 0 where
  pub machine : M
  pub file : JournalFile
  pub steps : List JournalEntry
  pub life : Option ℕ
  pub disk_full : List Bool

abbrev pub Act : Type 0 → Type 0 → Type 0
Act M A = World M → World M × Outcome A

-- `strings.Cut` at the first "@".
unfoldable pub cut_at : Bytes → Option (Bytes × Bytes)
cut_at [] = none
cut_at (c ∷ cs) =
    let rest = cut_at cs in
    if c == b'@'
    then some ([], cs)
    else elim rest [ none ↦ none | some (before, after) ↦ some (c ∷ before, after) ]

module _ {M : Type 0} where
  -- A sequence of two calls, the second of which sees the value of the first. `after` runs where the
  -- first has returned with or without an error.
  abbrev pub bind_outcome :
      {A B : Type 0} → World M → Outcome A → (A → Act M B) → World M × Outcome B
  bind_outcome w (done a) f = f a w
  bind_outcome w (failed e) f = (w, failed e)
  bind_outcome w killed f = (w, killed)

  infixl 5 ◌>>=◌ ◌>>◌
  abbrev pub ◌>>=◌ : {A B : Type 0} → Act M A → (A → Act M B) → Act M B
  ◌>>=◌ m f w = let (w', o) = m w in bind_outcome w' o f

  abbrev pub ◌>>◌ : {A B : Type 0} → Act M A → Act M B → Act M B
  m >> k = m >>= λ _. k

  abbrev pub return : {A : Type 0} → A → Act M A
  return a w = (w, done a)

  abbrev pub fail : {A : Type 0} → LinuxError → Act M A
  fail e w = (w, failed e)

  -- The error of a call as a value, as the code that goes on after one reads it.
  abbrev pub tried : World M → Outcome Bytes → World M × Outcome (Option Bytes)
  tried w (done a) = (w, done (some a))
  tried w (failed e) = (w, done none)
  tried w killed = (w, killed)

  abbrev pub attempt : Act M Bytes → Act M (Option Bytes)
  attempt m w = let (w', o) = m w in tried w' o

  -- One write or command, unless the process is killed before it.
  abbrev pub alive : {A : Type 0} → Act M A → World M → Option ℕ → World M × Outcome A
  alive m w none = m (record w { life = none })
  alive m w (some zero) = (w, killed)
  alive m w (some (suc n)) = m (record w { life = some n })

  abbrev pub once : {A : Type 0} → Act M A → Act M A
  once m w = alive m w w.life

  -- A write to the disk that may fail, and then leaves the file as it was: `record` writes another file
  -- and renames it.
  abbrev pub disk_write : JournalFile → Act M Bytes
  disk_write file w = elim w.disk_full [
    | [] ↦ (record w { file = file }, done [])
    | false ∷ rest ↦ (record w { file = file; disk_full = rest }, done [])
    | true ∷ rest ↦ (record w { disk_full = rest }, failed journal_failed)
  ]

  -- `journal.record` and `journal.clear`
  unfoldable pub record_entries : List JournalEntry → Act M Bytes
  record_entries entries = once (disk_write (saved entries))

  unfoldable pub clear_journal : Act M Bytes
  clear_journal = once (disk_write absent)

  abbrev pub set_steps : List JournalEntry → Act M Bytes
  set_steps steps w = (record w { steps = steps }, done [])

  abbrev pub get_steps : Act M (List JournalEntry)
  get_steps w = (w, done w.steps)

module _ {M : Type 0} (run : M → Command → M × Option Bytes) where
  abbrev pub ran : World M → M × Option Bytes → World M × Outcome Bytes
  ran w (m, none) = (record w { machine = m }, failed command_failed)
  ran w (m, some out) = (record w { machine = m }, done out)

  -- `Runner.Run`
  unfoldable pub execute : Command → Act M Bytes
  execute c = once (λ w. ran w (run w.machine c))

  -- `apply` records a step, then performs it.
  unfoldable pub apply : JournalEntry → Act M Bytes → Act M Bytes
  unfolding record_entries
  apply e action = do
    steps ← get_steps
    record_entries (steps ++ (e ∷ []))
    set_steps (steps ++ (e ∷ []))
    action

  -- `tableExists`, `destroyTable`, `writeSysctl`, `readSysctl` and `removeAddress`; the last three return
  -- the error as it is.
  unfoldable pub table_exists : Act M Bool
  unfolding execute
  table_exists = do out ← attempt (execute nft_list); return (succeeds out)

  abbrev pub fallback_result : Option Bytes → Act M Bytes
  fallback_result (some out) = return []
  fallback_result none = do there ← table_exists; if there then fail command_failed else return []

  abbrev pub destroy_result : Option Bytes → Act M Bytes
  destroy_result (some out) = return []
  destroy_result none = do out ← attempt (execute (nft_script delete_fallback)); fallback_result out

  unfoldable pub destroy_table : Act M Bytes
  unfolding execute table_exists
  destroy_table = do out ← attempt (execute (nft_script destroy)); destroy_result out

  unfoldable pub read_sysctl : Act M Bytes
  unfolding execute
  read_sysctl = do out ← execute sysctl_read; return (encode_runes (trim_space (runes out)))

  unfoldable pub remove_address : Bytes → Act M Bytes
  unfolding execute
  remove_address spec = elim (cut_at spec) [
    | none ↦ fail not_an_address_record
    | some (addr, iface) ↦ execute (addr_delete addr iface)
  ]
