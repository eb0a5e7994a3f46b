-- ===== src/Gateway/Linux/BringUp.antt =====
-- However bringUp of internal/gateway/linux_session.go ends, the journal covers what it has done.
use dns_desktop.Common.{
  ℕ, ◌≡◌, refl, sym, ◌∙◌, subst, Bool, true, false, Option, none, some, List, [], ◌∷◌, ◌++◌, Bytes,
  Result, ok, err,
}
use dns_desktop.Gateway.{HotspotConfig}
use dns_desktop.Gateway.Nftables.{codes, render_rules, RuleError}
use dns_desktop.Text.{runes, encode_runes, trim_space}
use dns_desktop.Gateway.Linux.{
  forwarding, nftables_table, interface_address, hostapd, JournalEntry, absent, Command,
  sysctl_read, sysctl_write, nft_script, addr_replace, start_hostapd, conf_failed, Outcome, done,
  failed, killed, World, ◌>>◌, once, execute, apply, read_sysctl, return,
}
use dns_desktop.Gateway.Linux.Session.{
  Setup, cidr, address_record, rules_of, entry, bring_up, address_step, rules_step, hotspot_step,
  with_conf, with_rules, disk_write_conf,
}
use dns_desktop.Gateway.Linux.Undo.{entries_of, text_of}
use dns_desktop.Gateway.Linux.Laws.{IsMachine}
use dns_desktop.Gateway.Linux.Covered.{
  Covered, Synced, Ends, Executed, Ends-bind, once-Ends, execute-Ends, apply-Ends,
}

module _ {M : Type 0} (run : M → Command → M × Option Bytes)
    (render : HotspotConfig → Bytes → Option Bytes) {forwards : M → Bytes} {has_table : M → Bool}
    {has_address : M → Bytes → Bytes → Bool} {has_ap : M → Bool}
    (law : IsMachine run forwards has_table has_address has_ap) (s : Setup) (before : Bytes) where
  -- At the end of a call, whatever its value, the journal is what the session knows.
  abbrev Recorded : {A : Type 0} → A → World M → Type 0
  Recorded a w = (es : List JournalEntry) × Synced run law s before w es

  abbrev At : List JournalEntry → Bytes → World M → Type 0
  At es out w = Synced run law s before w es

  Ends-weaken :
      {A : Type 0} (Q R : A → World M → Type 0) (r : World M × Outcome A)
      → ((a : A) (w : World M) → Q a w → R a w)
      → Ends run law s before Q r
      → Ends run law s before R r
  Ends-weaken Q R (w, done a) f h = f a w h
  Ends-weaken Q R (w, failed e) f h = h
  Ends-weaken Q R (w, killed) f h = h

  abbrev first_entry : Bytes → List JournalEntry
  first_entry prev = entry forwarding prev ∷ []

  abbrev two_entries : Bytes → List JournalEntry
  two_entries prev = entry forwarding prev ∷ entry interface_address (address_record s) ∷ []

  abbrev three_entries : Bytes → List JournalEntry
  three_entries prev = two_entries prev ++ (entry nftables_table [] ∷ [])

  -- The file of hostapd is not the journal.
  conf-Ends :
      (es : List JournalEntry) (w : World M)
      → Synced run law s before w es
      → Ends run law s before (At es) (once (disk_write_conf run render) w)
  conf-Ends es w (file, steps, covered) =
      once-Ends run law s before (At es) (disk_write_conf run render) w
        (subst (λ x. Covered run law s before x w.machine) (sym file) covered)
        (λ life. by_disk life w.disk_full)
    where
      by_disk :
          (life : Option ℕ) (faults : List Bool)
          → Ends run law s before (At es) (elim faults [
            | [] ↦ (record w { life = life }, done [])
            | false ∷ rest ↦ (record w { life = life; disk_full = rest }, done [])
            | true ∷ rest ↦ (record w { life = life; disk_full = rest }, failed conf_failed)
          ])
      by_disk life [] = (file, steps, covered)
      by_disk life (false ∷ rest) = (file, steps, covered)
      by_disk life (true ∷ rest) = (es, (file, steps, covered))

  -- A step that is recorded after the address changes nothing that the journal does not cover.
  hotspot_step-Ends :
      (prev : Bytes) (w : World M)
      → prev ≡ before
      → Synced run law s before w (three_entries prev)
      → Ends run law s before Recorded (hotspot_step run render s s.config.hotspot w)
  unfolding text_of
  hotspot_step-Ends prev w same here = by_config s.config.hotspot
    where
      by_text : (text : Option Bytes) → Ends run law s before Recorded (with_conf run render text w)
      by_text none = (three_entries prev, here)
      by_text (some conf) =
          Ends-bind run law s before (At (three_entries prev)) Recorded
            (once (disk_write_conf run render) w)
            (λ _. apply run (entry hostapd (codes "hostapd.conf")) (execute run start_hostapd))
            (conf-Ends (three_entries prev) w here)
            (λ out u synced.
              Ends-weaken
                (Executed run law s before (run u.machine start_hostapd)
                  (three_entries prev ++ (entry hostapd (codes "hostapd.conf") ∷ [])))
                Recorded
                (apply run (entry hostapd (codes "hostapd.conf")) (execute run start_hostapd) u)
                (λ b v (known, replied, machine).
                  (three_entries prev ++ (entry hostapd (codes "hostapd.conf") ∷ []), known))
                (apply-Ends run law s before (entry hostapd (codes "hostapd.conf")) start_hostapd u
                  (three_entries prev) synced (same, refl) (same, refl)))

      by_config :
          (h : Option HotspotConfig)
          → Ends run law s before Recorded (hotspot_step run render s h w)
      by_config none = (three_entries prev, here)
      by_config (some h) = by_text (render h s.iface)

  rules_step-Ends :
      (prev : Bytes) (w : World M)
      → prev ≡ before
      → Synced run law s before w (two_entries prev)
      → Ends run law s before Recorded (rules_step run render s w)
  unfolding text_of
  rules_step-Ends prev w same here = by_rules (render_rules (rules_of s))
    where
      by_rules :
          (r : Result (List RuleError) Bytes)
          → Ends run law s before Recorded (
              with_rules run render r
                (λ text.
                  apply run (entry nftables_table []) (execute run (nft_script text))
                  >> hotspot_step run render s s.config.hotspot)
                w)
      by_rules (err es) = (two_entries prev, here)
      by_rules (ok text) =
          Ends-bind run law s before
            (Executed run law s before (run w.machine (nft_script text)) (three_entries prev))
            Recorded (apply run (entry nftables_table []) (execute run (nft_script text)) w)
            (λ _. hotspot_step run render s s.config.hotspot)
            (apply-Ends run law s before (entry nftables_table []) (nft_script text) w
              (two_entries prev) here (same, refl) (same, refl))
            (λ out u (synced, replied, machine). hotspot_step-Ends prev u same synced)

  address_step-Ends :
      (prev : Bytes) (w : World M)
      → prev ≡ before
      → has_address w.machine (cidr s.config) s.iface ≡ false
      → Synced run law s before w (first_entry prev)
      → Ends run law s before Recorded (address_step run render s w)
  unfolding text_of
  address_step-Ends prev w same free here =
      let e = entry interface_address (address_record s) in
      let c = addr_replace (cidr s.config) s.iface in
      Ends-bind run law s before (Executed run law s before (run w.machine c) (two_entries prev))
        Recorded (apply run e (execute run c) w) (λ _. rules_step run render s)
        (apply-Ends run law s before e c w (first_entry prev) here (same, refl) (same, refl))
        (λ out u (synced, replied, machine). rules_step-Ends prev u same synced)

  -- The value of the forwarding is read before it is changed.
  abbrev ReadBefore : Bytes → World M → Type 0
  ReadBefore prev w =
      Synced run law s before w []
      × (prev ≡ before)
      × (has_address w.machine (cidr s.config) s.iface ≡ false)

  read_sysctl-Ends :
      (w : World M)
      → forwards w.machine ≡ before
      → has_address w.machine (cidr s.config) s.iface ≡ false
      → Synced run law s before w []
      → Ends run law s before ReadBefore (read_sysctl run w)
  unfolding read_sysctl text_of
  read_sysctl-Ends w old free here =
      let m = w.machine in
      let r = run m sysctl_read in
      let kept = law.keeps_forwarding m sysctl_read refl ∙ old in
      let free' = law.keeps_address m sysctl_read (cidr s.config) s.iface refl ∙ free in
      Ends-bind run law s before (Executed run law s before r []) ReadBefore
        (execute run sysctl_read w) (λ out. return (encode_runes (trim_space (runes out))))
        (execute-Ends run law s before sysctl_read w [] here (kept, free'))
        (λ out u (synced, replied, machine). (
          synced,
          law.reads m out replied ∙ old,
          subst (λ x. has_address x (cidr s.config) s.iface ≡ false) (sym machine) free',
        ))

  pub bring_up-Ends :
      (w : World M)
      → forwards w.machine ≡ before
      → has_address w.machine (cidr s.config) s.iface ≡ false
      → w.file ≡ absent
      → w.steps ≡ []
      → Ends run law s before Recorded (bring_up run render s w)
  unfolding bring_up text_of
  bring_up-Ends w old free file steps =
      Ends-bind run law s before ReadBefore Recorded (read_sysctl run w)
        (λ prev.
          apply run (entry forwarding prev) (execute run (sysctl_write (codes "1")))
          >> address_step run render s)
        (read_sysctl-Ends w old free
          (subst (λ f. entries_of f ≡ []) (sym file) refl, steps, (old, free)))
        (λ prev u (synced, same, free'). forwarding_step-Ends prev u same free' synced)
    where
      forwarding_step-Ends :
          (prev : Bytes) (u : World M)
          → prev ≡ before
          → has_address u.machine (cidr s.config) s.iface ≡ false
          → Synced run law s before u []
          → Ends run law s before Recorded (
              (apply run (entry forwarding prev) (execute run (sysctl_write (codes "1")))
                  >> address_step run render s)
                u)
      forwarding_step-Ends prev u same free' synced =
          let e = entry forwarding prev in
          let c = sysctl_write (codes "1") in
          let kept = law.keeps_address u.machine c (cidr s.config) s.iface refl ∙ free' in
          Ends-bind run law s before
            (Executed run law s before (run u.machine c) (first_entry prev)) Recorded
            (apply run e (execute run c) u) (λ _. address_step run render s)
            (apply-Ends run law s before e c u [] synced (same, free') (same, kept))
            (λ out v (known, replied, machine).
              address_step-Ends prev v same
                (subst (λ x. has_address x (cidr s.config) s.iface ≡ false) (sym machine) kept)
                known)
