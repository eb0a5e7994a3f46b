-- ===== src/Gateway/Linux/Covered.antt =====
-- The journal of internal/gateway/linux_session.go is written ahead: at any moment it covers what the
-- session has done to the machine.
use dns_desktop.Common.{
  ℕ, zero, suc, ◌≡◌, refl, sym, subst, Bool, true, false, Option, none, some, List, [], ◌∷◌, ◌++◌,
  Bytes, ℕ_eq, bytes_eq_instance,
}
use dns_desktop.Gateway.Linux.{
  forwarding, interface_address, JournalEntry, saved, Command, journal_failed, Outcome, done,
  failed, killed, World, Act, bind_outcome, alive, disk_write, ran, once, record_entries, execute,
  apply,
}
use dns_desktop.Gateway.Linux.Session.{Setup, cidr, address_record}
use dns_desktop.Gateway.Linux.Undo.{entries_of, text_of}
use dns_desktop.Gateway.Linux.Laws.{IsMachine}

module _ {M : Type 0} (run : M → Command → M × Option Bytes) {forwards : M → Bytes}
    {has_table : M → Bool} {has_address : M → Bytes → Bytes → Bool} {has_ap : M → Bool}
    (law : IsMachine run forwards has_table has_address has_ap) (s : Setup) (before : Bytes) where
  -- What is not recorded has not been changed, and what is recorded can be undone.
  abbrev pub ForwardingOk : Option Bytes → M → Type 0
  ForwardingOk none m = forwards m ≡ before
  ForwardingOk (some v) m = v ≡ before

  abbrev pub AddressOk : Option Bytes → M → Type 0
  AddressOk none m = has_address m (cidr s.config) s.iface ≡ false
  AddressOk (some v) m = v ≡ address_record s

  abbrev pub Covered : List JournalEntry → M → Type 0
  Covered es m = ForwardingOk (text_of forwarding es) m × AddressOk (text_of interface_address es) m

  abbrev pub Synced : World M → List JournalEntry → Type 0
  Synced w es = (entries_of w.file ≡ es) × (w.steps ≡ es) × Covered es w.machine

  -- How a call may end: with its own condition, with an error, or killed; the journal covers the machine.
  abbrev pub Ends : {A : Type 0} → (A → World M → Type 0) → World M × Outcome A → Type 0
  Ends Q (w, done a) = Q a w
  Ends Q (w, failed e) = (es : List JournalEntry) × Synced w es
  Ends Q (w, killed) = Covered (entries_of w.file) w.machine

  pub Ends-bind :
      {A B : Type 0} (Q : A → World M → Type 0) (R : B → World M → Type 0) (r : World M × Outcome A)
      (f : A → Act M B)
      → Ends Q r
      → ((a : A) (w : World M) → Q a w → Ends R (f a w))
      → Ends R (bind_outcome r.0 r.1 f)
  Ends-bind Q R (w, done a) f h k = k a w h
  Ends-bind Q R (w, failed e) f h k = h
  Ends-bind Q R (w, killed) f h k = h

  pub once-Ends :
      {A : Type 0} (Q : A → World M → Type 0) (m : Act M A) (w : World M)
      → Covered (entries_of w.file) w.machine
      → ((life : Option ℕ) → Ends Q (m (record w { life = life })))
      → Ends Q (once m w)
  once-Ends Q m w covered h = by_life w.life refl
    where
      by_life : (life : Option ℕ) → w.life ≡ life → Ends Q (alive m w life)
      by_life none e = h none
      by_life (some zero) e = covered
      by_life (some (suc n)) e = h (some n)

  -- What a write of entries, a command and a recorded step leave when they succeed.
  abbrev Written : World M → List JournalEntry → List JournalEntry → Bytes → World M → Type 0
  Written w es more out u = (entries_of u.file ≡ more) × (u.steps ≡ es) × (u.machine ≡ w.machine)

  abbrev pub Executed : M × Option Bytes → List JournalEntry → Bytes → World M → Type 0
  Executed r es out u = Synced u es × (r.1 ≡ some out) × (u.machine ≡ r.0)

  -- The journal takes the entries as they are, or fails and stays as it was.
  record_entries-Ends :
      (w : World M) (es more : List JournalEntry)
      → Synced w es
      → Covered more w.machine
      → Ends (Written w es more) (record_entries more w)
  unfolding record_entries
  record_entries-Ends w es more (file, steps, covered) covers =
      once-Ends (Written w es more) (disk_write (saved more)) w
        (subst (λ x. Covered x w.machine) (sym file) covered) (λ life. by_disk life w.disk_full)
    where
      by_disk :
          (life : Option ℕ) (faults : List Bool)
          → Ends (Written w es more) (elim faults [
            | [] ↦ (record w { life = life; file = saved more }, done [])
            | false ∷ rest ↦
                (record w { life = life; file = saved more; disk_full = rest }, done [])
            | true ∷ rest ↦ (record w { life = life; disk_full = rest }, failed journal_failed)
          ])
      by_disk life [] = (refl, steps, refl)
      by_disk life (false ∷ rest) = (refl, steps, refl)
      by_disk life (true ∷ rest) = (es, (file, steps, covered))

  pub execute-Ends :
      (c : Command) (w : World M) (es : List JournalEntry)
      → Synced w es
      → Covered es (run w.machine c).0
      → Ends (Executed (run w.machine c) es) (execute run c w)
  unfolding execute
  execute-Ends c w es (file, steps, covered) covers =
      once-Ends (Executed (run w.machine c) es) (λ u. ran run u (run u.machine c)) w
        (subst (λ x. Covered x w.machine) (sym file) covered)
        (λ life. by_reply life (run w.machine c) covers)
    where
      by_reply :
          (life : Option ℕ) (r : M × Option Bytes)
          → Covered es r.0
          → Ends (Executed r es) (ran run (record w { life = life }) r)
      by_reply life (m, none) after = (es, (file, steps, after))
      by_reply life (m, some out) after = ((file, steps, after), refl, refl)

  -- What is left of a recorded step: to tell the session, and to run the command.
  abbrev rest_of_apply : List JournalEntry → Command → Bytes → Act M Bytes
  rest_of_apply next c out w = execute run c (record w { steps = next })

  rest_of_apply-Ends :
      (c : Command) (w : World M) (es next : List JournalEntry) (out : Bytes) (u : World M)
      → Covered next w.machine
      → Covered next (run w.machine c).0
      → Written w es next out u
      → Ends (Executed (run w.machine c) next) (rest_of_apply next c out u)
  rest_of_apply-Ends c w es next out u first after (file, steps, same) =
      let covered = λ (m : M) (e : m ≡ w.machine). subst (λ x. Covered next x) (sym e) first in
      subst (λ x. Ends (Executed (run x c) next) (rest_of_apply next c out u)) same
        (execute-Ends c (record u { steps = next }) next (file, refl, covered u.machine same)
          (subst (λ x. Covered next (run x c).0) (sym same) after))

  -- A recorded step.
  pub apply-Ends :
      (e : JournalEntry) (c : Command) (w : World M) (es : List JournalEntry)
      → Synced w es
      → Covered (es ++ (e ∷ [])) w.machine
      → Covered (es ++ (e ∷ [])) (run w.machine c).0
      → Ends (Executed (run w.machine c) (es ++ (e ∷ []))) (apply run e (execute run c) w)
  unfolding apply
  apply-Ends e c w es (file, steps, covered) first after =
      subst
        (λ x. Ends (Executed (run w.machine c) (es ++ (e ∷ []))) (
          bind_outcome (record_entries (x ++ (e ∷ [])) w).0 (record_entries (x ++ (e ∷ [])) w).1
            (rest_of_apply (x ++ (e ∷ [])) c)))
        (sym steps)
        (Ends-bind (Written w es (es ++ (e ∷ []))) (Executed (run w.machine c) (es ++ (e ∷ [])))
          (record_entries (es ++ (e ∷ [])) w) (rest_of_apply (es ++ (e ∷ [])) c)
          (record_entries-Ends w es (es ++ (e ∷ [])) (file, steps, covered) first)
          (λ out u. rest_of_apply-Ends c w es (es ++ (e ∷ [])) out u first after))
