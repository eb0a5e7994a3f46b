-- ===== src/Gateway/Linux/Restores.antt =====
-- Reconcile of internal/gateway/linux_session.go restores a machine that the journal covers.
use dns_desktop.Common.{
  ◌≡◌, refl, sym, ap, ◌∙◌, subst, Bool, true, false, Option, none, some, List, [], ◌∷◌, ◌++◌, Bytes,
}
use dns_desktop.Gateway.{HotspotConfig}
use dns_desktop.Net.{is4}
use dns_desktop.Gateway.Linux.{
  forwarding, nftables_table, interface_address, hostapd, JournalFile, absent, JournalEntry,
  Command, sysctl_write, addr_delete, Outcome, done, failed, killed, World, Act, attempt, execute,
  clear_journal, table_exists, destroy_table, remove_address, ◌>>=◌, return, fail,
  not_an_address_record,
}
use dns_desktop.Gateway.Linux.Session.{Setup, cidr, address_record, bring_up}
use dns_desktop.Gateway.Linux.Undo.{
  Note, entries_of, text_of, undo_note, reconcile_table, reconcile_forwarding, reconcile_address,
  reconcile, reconcile_hostapd, file_notes, cleared_note, live_table_unrecorded,
}
use dns_desktop.Gateway.Linux.Laws.{IsMachine}
use dns_desktop.Gateway.Linux.Covered.{Covered, Ends, Synced, ForwardingOk, AddressOk}
use dns_desktop.Gateway.Linux.BringUp.{bring_up-Ends}
use dns_desktop.Gateway.Linux.Record.{cut_at-address_record}
use dns_desktop.Gateway.Linux.Settled.{
  fresh, Settles, Settles-bind, Settles-weaken, Attempted, execute-Settles, SameButTable, Listed,
  table_exists-Settles, Destroyed, destroy_table-Settles,
}

module _ {M : Type 0} (run : M → Command → M × Option Bytes) {forwards : M → Bytes}
    {has_table : M → Bool} {has_address : M → Bytes → Bytes → Bool} {has_ap : M → Bool}
    (law : IsMachine run forwards has_table has_address has_ap) (s : Setup) (start : M) where
  abbrev Before : Option Bytes → Option Bytes → M → M → Type 0
  Before fx ax m m' =
      ForwardingOk run law s (forwards start) fx m'
      × AddressOk run law s (forwards start) ax m'
      × (has_ap m' ≡ has_ap m)

  abbrev WithoutTable : Option Bytes → Option Bytes → M → M → Type 0
  WithoutTable fx ax m m' = Before fx ax m m' × (has_table m' ≡ false)

  abbrev Forwarded : Option Bytes → M → M → Type 0
  Forwarded ax m m' =
      (forwards m' ≡ forwards start)
      × AddressOk run law s (forwards start) ax m'
      × (has_ap m' ≡ has_ap m)
      × (has_table m' ≡ false)

  -- The machine is as the session found it, but for the access point, which is as it was left.
  abbrev pub Restored : M → M → Type 0
  Restored m m' =
      (forwards m' ≡ forwards start)
      × (has_address m' (cidr s.config) s.iface ≡ false)
      × (has_table m' ≡ false)
      × (has_ap m' ≡ has_ap m)

  keep_forwarding :
      (fx : Option Bytes) (m m' : M)
      → forwards m' ≡ forwards m
      → ForwardingOk run law s (forwards start) fx m
      → ForwardingOk run law s (forwards start) fx m'
  keep_forwarding none m m' e h = e ∙ h
  keep_forwarding (some v) m m' e h = h

  keep_address :
      (ax : Option Bytes) (m m' : M)
      → ((addr iface : Bytes) → has_address m' addr iface ≡ has_address m addr iface)
      → AddressOk run law s (forwards start) ax m
      → AddressOk run law s (forwards start) ax m'
  keep_address none m m' e h = e (cidr s.config) s.iface ∙ h
  keep_address (some v) m m' e h = h

  keep_Before :
      (fx ax : Option Bytes) (m m' m'' : M)
      → SameButTable run law m' m''
      → Before fx ax m m'
      → Before fx ax m m''
  keep_Before fx ax m m' m'' (f, a, p) (hf, ha, hp) =
      (keep_forwarding fx m' m'' f hf, keep_address ax m' m'' a ha, p ∙ hp)

  reconcile_table-Settles :
      (recorded fx ax : Option Bytes) (there : Bool) (m m' : M) (file : JournalFile)
      → Before fx ax m m'
      → there ≡ has_table m'
      → Settles
          (λ (ns : List Note). WithoutTable fx ax m)
          file
          (reconcile_table run recorded there (fresh m' file))
  reconcile_table-Settles recorded fx ax false m m' file h e = (m', (refl, (h, sym e)))
  reconcile_table-Settles recorded fx ax true m m' file h e =
      Settles-bind (λ out. Destroyed run law m') (λ (ns : List Note). WithoutTable fx ax m) file
        file (attempt (destroy_table run) (fresh m' file))
        (λ out. return (elim recorded [
          | none ↦ live_table_unrecorded ∷ undo_note nftables_table out ∷ []
          | some text ↦ undo_note nftables_table out ∷ []
        ]))
        (destroy_table-Settles run law m' file)
        (λ out u (same, gone). (u, (refl, (keep_Before fx ax m m' u same h, gone))))

  reconcile_forwarding-Settles :
      (fx ax : Option Bytes) (m m' : M) (file : JournalFile)
      → WithoutTable fx ax m m'
      → Settles
          (λ (ns : List Note). Forwarded ax m)
          file
          (reconcile_forwarding run fx (fresh m' file))
  reconcile_forwarding-Settles none ax m m' file ((f, a, p), gone) = (m', (refl, (f, a, p, gone)))
  reconcile_forwarding-Settles (some prev) ax m m' file ((f, a, p), gone) =
      let c = sysctl_write prev in
      Settles-bind (Attempted run (run m' c)) (λ (ns : List Note). Forwarded ax m) file file
        (attempt (execute run c) (fresh m' file)) (λ out. return (undo_note forwarding out ∷ []))
        (execute-Settles run c m' file)
        (λ out u (e, reply). (
          u,
          (
            refl,
            subst (Forwarded ax m) (sym e) (
              subst (λ v. forwards (run m' (sysctl_write v)).0 ≡ forwards start) (sym f)
                  (law.writes start m'),
              keep_address ax m' (run m' c).0 (λ x y. law.keeps_address m' c x y refl) a,
              law.keeps_ap m' c refl ∙ p,
              law.keeps_table m' c refl ∙ gone,
            ),
          ),
        ))

  remove_recorded :
      remove_address run (address_record s) ≡ execute run (addr_delete (cidr s.config) s.iface)
  unfolding remove_address
  remove_recorded =
      ap
        (λ (cut : Option (Bytes × Bytes)). elim cut as (λ x. Act M Bytes) [
          | none ↦ fail not_an_address_record
          | some (addr, iface) ↦ execute run (addr_delete addr iface)
        ])
        (cut_at-address_record s)

  reconcile_address-Settles :
      (ax : Option Bytes) (m m' : M) (file : JournalFile)
      → Forwarded ax m m'
      → Settles (λ (ns : List Note). Restored m) file (reconcile_address run ax (fresh m' file))
  reconcile_address-Settles none m m' file (f, a, p, gone) = (m', (refl, (f, a, gone, p)))
  reconcile_address-Settles (some spec) m m' file (f, a, p, gone) =
      Settles-bind (λ (out : Option Bytes). Restored m) (λ (ns : List Note). Restored m) file file
        (attempt (remove_address run spec) (fresh m' file))
        (λ out. return (undo_note interface_address out ∷ []))
        (subst
          (λ act. Settles (λ (out : Option Bytes). Restored m) file (attempt act (fresh m' file)))
          (sym (ap (remove_address run) a ∙ remove_recorded))
          (Settles-weaken (Attempted run (run m' c)) (λ (out : Option Bytes). Restored m) file
            (attempt (execute run c) (fresh m' file))
            (λ out u (e, reply). subst (Restored m) (sym e) deleted)
            (execute-Settles run c m' file)))
        (λ out u h. (u, (refl, h)))
    where
      c : Command
      c = addr_delete (cidr s.config) s.iface

      deleted : Restored m (run m' c).0
      deleted = (
        law.keeps_forwarding m' c refl ∙ f,
        law.deletes m' (cidr s.config) s.iface,
        law.keeps_table m' c refl ∙ gone,
        law.keeps_ap m' c refl ∙ p,
      )

  pub reconcile-Settles :
      (m : M) (file : JournalFile)
      → Covered run law s (forwards start) (entries_of file) m
      → Settles (λ (ns : List Note). Restored m) absent (reconcile run (fresh m file))
  unfolding reconcile clear_journal
  reconcile-Settles m file (f, a) =
      let result = λ (ns : List Note). Restored m in
      Settles-bind (Listed run law m) result file absent (table_exists run (fresh m file))
        (λ there. reconcile_table run tx there >>= from_table) (table_exists-Settles run law m file)
        (λ there m1 (same, kept, e).
          Settles-bind (λ (ns : List Note). WithoutTable fx ax m) result file absent
            (reconcile_table run tx there (fresh m1 file)) from_table
            (reconcile_table-Settles tx fx ax there m m1 file
              (keep_Before fx ax m m m1 same (f, a, refl)) (e ∙ sym kept))
            (λ n1 m2 h.
              Settles-bind (λ (ns : List Note). Forwarded ax m) result file absent
                (reconcile_forwarding run fx (fresh m2 file)) (from_forwarding n1)
                (reconcile_forwarding-Settles fx ax m m2 file h)
                (λ n2 m3 h'.
                  Settles-bind result result file absent (reconcile_address run ax (fresh m3 file))
                    (from_address n1 n2) (reconcile_address-Settles ax m m3 file h')
                    (λ n3 m4 h''. (m4, (refl, h''))))))
    where
      es : List JournalEntry
      es = entries_of file

      tx : Option Bytes
      tx = text_of nftables_table es

      fx : Option Bytes
      fx = text_of forwarding es

      ax : Option Bytes
      ax = text_of interface_address es

      from_address : List Note → List Note → List Note → Act M (List Note)
      from_address n1 n2 n3 = attempt clear_journal >>= λ out. return (
          file_notes file
          ++ n1
          ++ n2
          ++ reconcile_hostapd (text_of hostapd es)
          ++ n3
          ++ cleared_note out)

      from_forwarding : List Note → List Note → Act M (List Note)
      from_forwarding n1 n2 = reconcile_address run ax >>= from_address n1 n2

      from_table : List Note → Act M (List Note)
      from_table n1 = reconcile_forwarding run fx >>= from_forwarding n1

  -- The journal that bringUp leaves, whatever happened, covers the machine.
  Ends-Covered :
      {A : Type 0} (r : World M × Outcome A)
      → Ends run law s
          (forwards start)
          (λ a w. (es : List JournalEntry) × Synced run law s (forwards start) w es)
          r
      → Covered run law s (forwards start) (entries_of r.0.file) r.0.machine
  Ends-Covered (w, done a) (es, (file, steps, covered)) =
      subst (λ x. Covered run law s (forwards start) x w.machine) (sym file) covered
  Ends-Covered (w, failed e) (es, (file, steps, covered)) =
      subst (λ x. Covered run law s (forwards start) x w.machine) (sym file) covered
  Ends-Covered (w, killed) covered = covered

-- Wherever bringUp stops, by success, by an error of any of its commands or writes, or because its
-- process is killed before any of them, Reconcile of a new process gives the machine the forwarding that
-- it had before, without the firewall table and without the address of the gateway, and removes the
-- journal. The session starts without a journal, on a machine that does not have the address, and the
-- later process is not killed and can write to the disk. The address is IPv4. The access point stays as
-- bringUp left it.
pub crash_then_reconcile :
    {M : Type 0} (run : M → Command → M × Option Bytes)
    (render : HotspotConfig → Bytes → Option Bytes) {forwards : M → Bytes} {has_table : M → Bool}
    {has_address : M → Bytes → Bytes → Bool} {has_ap : M → Bool}
    (law : IsMachine run forwards has_table has_address has_ap) (s : Setup) (w : World M)
    → is4 s.config.addr ≡ true
    → w.file ≡ absent
    → w.steps ≡ []
    → has_address w.machine (cidr s.config) s.iface ≡ false
    → let stopped = (bring_up run render s w).0 in
      Settles
        (λ (ns : List Note). Restored run law s w.machine stopped.machine)
        absent
        (reconcile run (fresh stopped.machine stopped.file))
crash_then_reconcile run render law s w four file steps free =
    let r = bring_up run render s w in
    reconcile-Settles run law s w.machine r.0.machine r.0.file
      (Ends-Covered run law s w.machine r (bring_up-Ends run render law s _ w refl free file steps))
