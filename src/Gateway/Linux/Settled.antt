-- ===== src/Gateway/Linux/Settled.antt =====
-- Calls of internal/gateway/linux_session.go by a process that nobody kills and whose disk takes its
-- writes, as those of Reconcile: what they leave of the machine.
use dns_desktop.Common.{
  ◌≡◌, refl, sym, ap, ◌∙◌, subst, Bool, true, false, Option, none, some, [], Bytes, if◌then◌else◌,
}
use dns_desktop.Gateway.Nftables.{destroy, delete_fallback}
use dns_desktop.Gateway.Linux.{
  JournalFile, Command, nft_list, nft_script, Outcome, done, failed, killed, World, Act,
  bind_outcome, tried, ran, attempt, execute, succeeds, table_exists, destroy_table, destroy_result,
  fallback_result, return, command_failed, fail,
}
use dns_desktop.Gateway.Linux.Laws.{IsMachine}

-- A new process on a machine.
abbrev pub fresh : {M : Type 0} → M → JournalFile → World M
fresh m file = record { machine = m; file = file; steps = []; life = none; disk_full = [] }

module _ {M : Type 0} where
  -- A call that returns, with its value and the machine in a relation, and that leaves a process like
  -- the new one.
  abbrev pub Settles : {A : Type 0} → (A → M → Type 0) → JournalFile → World M × Outcome A → Type 0
  Settles P file (w, done a) = (m : M) × ((w ≡ fresh m file) × P a m)
  Settles P file (w, failed e) = ⊥
  Settles P file (w, killed) = ⊥

  pub Settles-bind :
      {A B : Type 0} (P : A → M → Type 0) (Q : B → M → Type 0) (file file' : JournalFile)
      (r : World M × Outcome A) (f : A → Act M B)
      → Settles P file r
      → ((a : A) (m : M) → P a m → Settles Q file' (f a (fresh m file)))
      → Settles Q file' (bind_outcome r.0 r.1 f)
  Settles-bind P Q file file' (w, done a) f (m, (e, p)) k =
      subst (λ x. Settles Q file' (f a x)) (sym e) (k a m p)
  Settles-bind P Q file file' (w, failed e) f h k = absurd h
  Settles-bind P Q file file' (w, killed) f h k = absurd h

  pub Settles-weaken :
      {A : Type 0} (P Q : A → M → Type 0) (file : JournalFile) (r : World M × Outcome A)
      → ((a : A) (m : M) → P a m → Q a m)
      → Settles P file r
      → Settles Q file r
  Settles-weaken P Q file (w, done a) f (m, (e, p)) = (m, (e, f a m p))
  Settles-weaken P Q file (w, failed e) f h = absurd h
  Settles-weaken P Q file (w, killed) f h = absurd h

  -- A call that returns, with or without an error.
  abbrev pub Leaves : {A : Type 0} → (M → Type 0) → JournalFile → World M × Outcome A → Type 0
  Leaves P file (w, done a) = (m : M) × ((w ≡ fresh m file) × P m)
  Leaves P file (w, failed e) = (m : M) × ((w ≡ fresh m file) × P m)
  Leaves P file (w, killed) = ⊥

  pub Leaves-bind :
      {A B : Type 0} (P : A → M → Type 0) (Q : M → Type 0) (file : JournalFile)
      (r : World M × Outcome A) (f : A → Act M B)
      → Settles P file r
      → ((a : A) (m : M) → P a m → Leaves Q file (f a (fresh m file)))
      → Leaves Q file (bind_outcome r.0 r.1 f)
  Leaves-bind P Q file (w, done a) f (m, (e, p)) k =
      subst (λ x. Leaves Q file (f a x)) (sym e) (k a m p)
  Leaves-bind P Q file (w, failed e) f h k = absurd h
  Leaves-bind P Q file (w, killed) f h k = absurd h

  pub Leaves-tried :
      (P : M → Type 0) (file : JournalFile) (r : World M × Outcome Bytes)
      → Leaves P file r
      → Settles (λ (out : Option Bytes). P) file (tried r.0 r.1)
  Leaves-tried P file (w, done a) h = h
  Leaves-tried P file (w, failed e) h = h
  Leaves-tried P file (w, killed) h = h

module _ {M : Type 0} (run : M → Command → M × Option Bytes) where
  abbrev pub Attempted : M × Option Bytes → Option Bytes → M → Type 0
  Attempted r out m = (m ≡ r.0) × (out ≡ r.1)

  pub execute-Settles :
      (c : Command) (m : M) (file : JournalFile)
      → Settles (Attempted (run m c)) file (attempt (execute run c) (fresh m file))
  unfolding execute
  execute-Settles c m file = by_reply (run m c)
    where
      by_reply :
          (r : M × Option Bytes)
          → Settles
              (Attempted r)
              file
              (tried (ran run (fresh m file) r).0 (ran run (fresh m file) r).1)
      by_reply (m', none) = (m', (refl, (refl, refl)))
      by_reply (m', some out) = (m', (refl, (refl, refl)))

module _ {M : Type 0} (run : M → Command → M × Option Bytes) {forwards : M → Bytes}
    {has_table : M → Bool} {has_address : M → Bytes → Bytes → Bool} {has_ap : M → Bool}
    (law : IsMachine run forwards has_table has_address has_ap) where
  -- What a command leaves that touches the firewall table alone.
  abbrev pub SameButTable : M → M → Type 0
  SameButTable m m' =
      (forwards m' ≡ forwards m)
      × ((addr iface : Bytes) → has_address m' addr iface ≡ has_address m addr iface)
      × (has_ap m' ≡ has_ap m)

  same_trans : (m m' m'' : M) → SameButTable m m' → SameButTable m' m'' → SameButTable m m''
  same_trans m m' m'' (f, a, p) (f', a', p') = (f' ∙ f, (λ x y. a' x y ∙ a x y), p' ∙ p)

  same_nft : (m : M) (text : Bytes) → SameButTable m (run m (nft_script text)).0
  same_nft m text = (
    law.keeps_forwarding m (nft_script text) refl,
    (λ x y. law.keeps_address m (nft_script text) x y refl),
    law.keeps_ap m (nft_script text) refl,
  )

  same_list : (m : M) → SameButTable m (run m nft_list).0
  same_list m = (
    law.keeps_forwarding m nft_list refl,
    (λ x y. law.keeps_address m nft_list x y refl),
    law.keeps_ap m nft_list refl,
  )

  abbrev pub Listed : M → Bool → M → Type 0
  Listed m there m' = SameButTable m m' × (has_table m' ≡ has_table m) × (there ≡ has_table m)

  pub table_exists-Settles :
      (m : M) (file : JournalFile) → Settles (Listed m) file (table_exists run (fresh m file))
  unfolding table_exists
  table_exists-Settles m file =
      Settles-bind (Attempted run (run m nft_list)) (Listed m) file file
        (attempt (execute run nft_list) (fresh m file)) (λ out. return (succeeds out))
        (execute-Settles run nft_list m file)
        (λ out m' (e, reply). (
          m',
          (
            refl,
            (
              subst (SameButTable m) (sym e) (same_list m),
              ap has_table e ∙ law.keeps_table m nft_list refl,
              ap succeeds reply ∙ law.lists m,
            ),
          ),
        ))

  abbrev pub Destroyed : M → M → Type 0
  Destroyed m m' = SameButTable m m' × (has_table m' ≡ false)

  fallback_result-Leaves :
      (m m' : M) (out : Option Bytes) (file : JournalFile)
      → Destroyed m m'
      → Leaves (Destroyed m) file (fallback_result run out (fresh m' file))
  fallback_result-Leaves m m' (some out) file d = (m', (refl, d))
  fallback_result-Leaves m m' none file (same, gone) =
      Leaves-bind (Listed m') (Destroyed m) file (table_exists run (fresh m' file))
        (λ there. if there then fail command_failed else return []) (table_exists-Settles m' file)
        (λ there u (same', kept, e). by_there there u (same_trans m m' u same same', kept ∙ gone))
    where
      by_there :
          (there : Bool) (u : M)
          → Destroyed m u
          → Leaves {A = Bytes}
              (Destroyed m)
              file
              ((if there then fail command_failed else return []) (fresh u file))
      by_there true u d = (u, (refl, d))
      by_there false u d = (u, (refl, d))

  destroy_result-Leaves :
      (m m' : M) (out : Option Bytes) (file : JournalFile)
      → Attempted run (run m (nft_script destroy)) out m'
      → Leaves (Destroyed m) file (destroy_result run out (fresh m' file))
  destroy_result-Leaves m m' (some out) file (e, reply) = (
    m',
    (
      refl,
      (
        subst (SameButTable m) (sym e) (same_nft m destroy),
        ap has_table e ∙ law.destroys m (ap succeeds (sym reply)),
      ),
    ),
  )
  destroy_result-Leaves m m' none file (e, reply) =
      Leaves-bind (Attempted run (run m' (nft_script delete_fallback))) (Destroyed m) file
        (attempt (execute run (nft_script delete_fallback)) (fresh m' file)) (fallback_result run)
        (execute-Settles run (nft_script delete_fallback) m' file)
        (λ out u (e', reply'). fallback_result-Leaves m u out file (
          same_trans m m' u (subst (SameButTable m) (sym e) (same_nft m destroy))
              (subst (SameButTable m') (sym e') (same_nft m' delete_fallback)),
          ap has_table e' ∙ law.deletes_table m',
        ))

  pub destroy_table-Settles :
      (m : M) (file : JournalFile)
      → Settles
          (λ (out : Option Bytes). Destroyed m)
          file
          (attempt (destroy_table run) (fresh m file))
  unfolding destroy_table
  destroy_table-Settles m file =
      Leaves-tried (Destroyed m) file (destroy_table run (fresh m file)) (
        Leaves-bind (Attempted run (run m (nft_script destroy))) (Destroyed m) file
          (attempt (execute run (nft_script destroy)) (fresh m file)) (destroy_result run)
          (execute-Settles run (nft_script destroy) m file)
          (λ out m' h. destroy_result-Leaves m m' out file h))
