-- ===== src/Gateway/Linux/Undo.antt =====
-- Undoing a session (internal/gateway/linux_session.go): tearDown of the session itself, and Reconcile of
-- a later process, which has the journal and the live machine alone.
use dns_desktop.Common.{
  Bool, true, false, Option, none, some, List, [], ◌∷◌, ◌++◌, Bytes, Result, ok, err, ℕ_eq,
  bytes_eq_instance, if◌then◌else◌,
}
use mathlib.Core.List.{reverse}
use dns_desktop.Gateway.Nftables.{RuleError, capture}
use dns_desktop.Gateway.Linux.{
  StepName, forwarding, nftables_table, interface_address, hostapd, step_eq, JournalEntry,
  JournalFile, absent, unreadable, saved, Command, sysctl_write, nft_script, stop_hostapd,
  bad_rules, Act, ◌>>=◌, ◌>>◌, return, fail, attempt, clear_journal, set_steps, get_steps, execute,
  table_exists, destroy_table, remove_address,
}

-- What the report of Reconcile has been told, in its order.
pub data Note : Type 0 where
  journal_step : StepName → Note
  journal_unreadable live_table_unrecorded : Note
  undone not_undone : StepName → Note
  journal_not_cleared : Note

abbrev pub entries_of : JournalFile → List JournalEntry
entries_of (saved es) = es
entries_of _ = []

-- `byStep`: the last entry of a step counts.
abbrev or_else : Option Bytes → Option Bytes → Option Bytes
or_else none o = o
or_else (some x) o = some x

unfoldable pub text_of : StepName → List JournalEntry → Option Bytes
text_of step [] = none
text_of step (e ∷ es) =
    or_else (text_of step es) (if step_eq e.step step then some e.text else none)

unfoldable pub journal_notes : List JournalEntry → List Note
journal_notes [] = []
journal_notes (e ∷ es) = journal_step e.step ∷ journal_notes es

abbrev pub file_notes : JournalFile → List Note
file_notes absent = []
file_notes unreadable = journal_unreadable ∷ []
file_notes (saved es) = journal_notes es

-- The steps of `tearDown` that could not be undone, and the notes of `Reconcile`.
abbrev keep_error : StepName → Option Bytes → List StepName → List StepName
keep_error step none errs = errs ++ (step ∷ [])
keep_error step (some out) errs = errs

abbrev pub undo_note : StepName → Option Bytes → Note
undo_note step none = not_undone step
undo_note step (some out) = undone step

abbrev pub reconcile_hostapd : Option Bytes → List Note
reconcile_hostapd none = []
reconcile_hostapd (some text) = undone hostapd ∷ []

abbrev pub cleared_note : Option Bytes → List Note
cleared_note none = journal_not_cleared ∷ []
cleared_note (some out) = []

module _ {M : Type 0} (run : M → Command → M × Option Bytes) where
  -- `SetDNSCapture` as the commands that it runs; the error is returned.
  abbrev with_script : Result (List RuleError) Bytes → Act M Bytes
  with_script (ok text) = execute run (nft_script text)
  with_script (err es) = fail (bad_rules es)

  unfoldable pub set_dns_capture : Bytes → Bool → Act M Bytes
  unfolding execute capture
  set_dns_capture iface on = with_script (capture iface on)

  -- The undoing of one recorded step by `tearDown`. A process that `pkill` does not find is gone already.
  unfoldable pub undo_step : StepName → Bytes → Act M Bytes
  unfolding execute destroy_table remove_address
  undo_step hostapd text = do attempt (execute run stop_hostapd); return []
  undo_step nftables_table text = destroy_table run
  undo_step interface_address text = remove_address run text
  undo_step forwarding text = execute run (sysctl_write text)

  -- The loop of `tearDown` over the steps, the last first; the steps that could not be undone.
  unfoldable pub undo_steps : List JournalEntry → List StepName → Act M (List StepName)
  unfolding undo_step
  undo_steps [] errs = return errs
  undo_steps (e ∷ es) errs = do
    out ← attempt (undo_step e.step e.text)
    undo_steps es (keep_error e.step out errs)

  -- `tearDown` after the capture is off: the steps that could not be undone, and whether the journal has
  -- been cleared.
  unfoldable pub undo_session : Act M (List StepName × Option Bytes)
  unfolding undo_steps clear_journal
  undo_session = do
    steps ← get_steps
    errs ← undo_steps (reverse steps) []
    cleared ← attempt clear_journal
    set_steps []
    return (errs, cleared)

  -- `tearDown`
  unfoldable pub tear_down : Bytes → Act M (List StepName × Option Bytes)
  unfolding set_dns_capture undo_session
  tear_down iface = attempt (set_dns_capture iface false) >> undo_session

  -- `Reconcile`.
  abbrev pub reconcile_table : Option Bytes → Bool → Act M (List Note)
  reconcile_table recorded false = return []
  reconcile_table recorded true = do
    out ← attempt (destroy_table run)
    return (elim recorded [
      | none ↦ live_table_unrecorded ∷ undo_note nftables_table out ∷ []
      | some text ↦ undo_note nftables_table out ∷ []
    ])

  abbrev pub reconcile_forwarding : Option Bytes → Act M (List Note)
  reconcile_forwarding none = return []
  reconcile_forwarding (some prev) = do
    out ← attempt (execute run (sysctl_write prev))
    return (undo_note forwarding out ∷ [])

  abbrev pub reconcile_address : Option Bytes → Act M (List Note)
  reconcile_address none = return []
  reconcile_address (some spec) = do
    out ← attempt (remove_address run spec)
    return (undo_note interface_address out ∷ [])

  abbrev pub reconcile_entries : JournalFile → Act M (List Note)
  reconcile_entries file = do
    let es = entries_of file
    there ← table_exists run
    n1 ← reconcile_table (text_of nftables_table es) there
    n2 ← reconcile_forwarding (text_of forwarding es)
    n3 ← reconcile_address (text_of interface_address es)
    out ← attempt clear_journal
    return (
        file_notes file
        ++ n1
        ++ n2
        ++ reconcile_hostapd (text_of hostapd es)
        ++ n3
        ++ cleared_note out)

  unfoldable pub reconcile : Act M (List Note)
  unfolding table_exists destroy_table execute remove_address clear_journal text_of journal_notes
  reconcile w = reconcile_entries w.file w
