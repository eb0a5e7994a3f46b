-- ===== src/Gateway/Admission.antt =====
-- What Start of internal/gateway/linux_session.go lets through, and what it starts a session on.
use dns_desktop.Common.{
  ◌≡◌, refl, sym, ap, ◌∙◌, true, Option, none, some, List, [], ◌∷◌, Bytes, Result, ok, err,
  bytes_eq_instance,
}
use dns_desktop.Gateway.{
  Config, SharingModel, sharing_managed, sharing_none, sharing_platform, is_managed, Capability,
  ConfigError, HotspotConfig, Interface, select_uplink, select_ap_interface, validate,
  check_capabilities, SelectError,
}
use dns_desktop.Gateway.Linux.{
  LinuxError, Command, World, Outcome, done, failed, killed, bind_outcome, fail,
}
use dns_desktop.Gateway.Linux.Session.{Setup, bring_up}
use dns_desktop.Gateway.Linux.Undo.{Note, reconcile, tear_down}
use dns_desktop.Gateway.Linux.Start.{
  Probes, capabilities, admit, choose, start, served, served_as, sharing_guard, capability_guard,
  config_guard, undo_failed, open_session, start_admitted, with_ap, with_uplink, with_interfaces,
}
use dns_desktop.Gateway.Selection.{
  IsUplink, IsHost, select_uplink-IsUplink, select_ap_interface-IsHost,
}

same_of_ok : {A : Type 0} {x y : A} {r : Result LinuxError A} → r ≡ ok x → r ≡ ok y → x ≡ y
same_of_ok h k = cc

-- What Start has chosen: interfaces of the machine that can do what the configuration asks for.
abbrev pub IsChosen : Config → HotspotConfig → List Interface → Setup → Type 0
IsChosen c h ifaces s =
    (up : Interface) × ((host : Interface) × (IsUplink ifaces c.uplink up
        × IsHost ifaces h.interface up.name host
        × (s.config ≡ c)
        × (s.uplink ≡ up.name)
        × (s.iface ≡ host.name)))

choose-IsChosen :
    (p : Probes) (c : Config) (s : Setup)
    → choose p c ≡ ok s
    → (ifaces : List Interface) × ((h : HotspotConfig) × ((p.interfaces ≡ some ifaces)
          × (c.hotspot ≡ some h)
          × IsChosen c h ifaces s))
unfolding choose
choose-IsChosen p c s e = by_interfaces p.interfaces refl e
  where
    Chosen : Type 0
    Chosen =
        (ifaces : List Interface) × ((h : HotspotConfig) × ((p.interfaces ≡ some ifaces)
            × (c.hotspot ≡ some h)
            × IsChosen c h ifaces s))

    by_host :
        (ifaces : List Interface) (up : Interface) (h : HotspotConfig) (host : Interface)
        (name : Bytes)
        → p.interfaces ≡ some ifaces
        → c.hotspot ≡ some h
        → IsUplink ifaces c.uplink up
        → IsHost ifaces h.interface up.name host
        → host.name ≡ name
        → served_as c up name ≡ ok s
        → Chosen
    by_host ifaces up h host [] i j good good' n k = cc
    by_host ifaces up h host (x ∷ xs) i j good good' n k =
        let same = same_of_ok {r = served_as c up (x ∷ xs)} refl k in
        (
          ifaces,
          (
            h,
            (
              i,
              j,
              (
                up,
                (
                  host,
                  (
                    good,
                    good',
                    ap (λ (z : Setup). z.config) (sym same),
                    ap (λ (z : Setup). z.uplink) (sym same),
                    ap (λ (z : Setup). z.iface) (sym same) ∙ sym n,
                  ),
                ),
              ),
            ),
          ),
        )

    by_ap :
        (ifaces : List Interface) (up : Interface) (h : HotspotConfig)
        (r : Result SelectError Interface)
        → p.interfaces ≡ some ifaces
        → c.hotspot ≡ some h
        → IsUplink ifaces c.uplink up
        → select_ap_interface ifaces h.interface up.name ≡ r
        → served c up r ≡ ok s
        → Chosen
    by_ap ifaces up h (err x) i j good k e' = cc
    by_ap ifaces up h (ok host) i j good k e' =
        by_host ifaces up h host host.name i j good
          (select_ap_interface-IsHost ifaces h.interface up.name host k) refl e'

    by_hotspot :
        (ifaces : List Interface) (up : Interface) (o : Option HotspotConfig)
        → p.interfaces ≡ some ifaces
        → c.hotspot ≡ o
        → IsUplink ifaces c.uplink up
        → with_ap c ifaces up o ≡ ok s
        → Chosen
    by_hotspot ifaces up none i j good e' = cc
    by_hotspot ifaces up (some h) i j good e' =
        by_ap ifaces up h (select_ap_interface ifaces h.interface up.name) i j good refl e'

    by_uplink :
        (ifaces : List Interface) (r : Result SelectError Interface)
        → p.interfaces ≡ some ifaces
        → select_uplink ifaces c.uplink ≡ r
        → with_uplink c ifaces r ≡ ok s
        → Chosen
    by_uplink ifaces (err x) i k e' = cc
    by_uplink ifaces (ok up) i k e' =
        by_hotspot ifaces up c.hotspot i refl (select_uplink-IsUplink ifaces c.uplink up k) e'

    by_interfaces :
        (o : Option (List Interface)) → p.interfaces ≡ o → with_interfaces c o ≡ ok s → Chosen
    by_interfaces none i e' = cc
    by_interfaces (some ifaces) i e' = by_uplink ifaces (select_uplink ifaces c.uplink) i refl e'

-- The guards of Start.
abbrev pub IsAdmitted : Probes → Config → Type 0
IsAdmitted p c =
    (validate c ≡ []) × (check_capabilities (capabilities p) c ≡ []) × (is_managed c.sharing ≡ true)

admit-IsAdmitted : (p : Probes) (c : Config) (u : Unit) → admit p c ≡ ok u → IsAdmitted p c
unfolding admit
admit-IsAdmitted p c u e = by_errors (validate c) refl e
  where
    by_sharing : (m : SharingModel) → sharing_guard m ≡ ok u → is_managed m ≡ true
    by_sharing sharing_managed h = refl
    by_sharing sharing_none h = cc
    by_sharing sharing_platform h = cc

    by_missing :
        (xs : List Capability)
        → validate c ≡ []
        → check_capabilities (capabilities p) c ≡ xs
        → capability_guard xs c ≡ ok u
        → IsAdmitted p c
    by_missing [] i k h = (i, k, by_sharing c.sharing h)
    by_missing (x ∷ xs) i k h = cc

    by_errors :
        (es : List ConfigError) → validate c ≡ es → config_guard es p c ≡ ok u → IsAdmitted p c
    by_errors [] i h = by_missing (check_capabilities (capabilities p) c) i refl h
    by_errors (x ∷ xs) i h = cc

never_done :
    {M A B : Type 0} (w : World M) (o : Outcome A) (e : LinuxError) (b : B)
    → (bind_outcome w o (λ a. fail e)).1 ≡ done b
    → ⊥
never_done w (done a) e b h = cc
never_done w (failed x) e b h = cc
never_done w killed e b h = cc

module _ {M : Type 0} (run : M → Command → M × Option Bytes)
    (render : HotspotConfig → Bytes → Option Bytes) where
  undo_failed-done :
      (s s' : Setup) (w : World M) (o : Outcome Bytes)
      → (undo_failed run render s (w, o)).1 ≡ done s'
      → s ≡ s'
  unfolding tear_down
  undo_failed-done s s' w (done out) h = cc
  undo_failed-done s s' w (failed e) h =
      let r = tear_down run s.iface w in absurd (never_done r.0 r.1 e s' h)
  undo_failed-done s s' w killed h = cc

  open_session-done :
      (r : Result LinuxError Setup) (s : Setup) (w : World M)
      → (open_session run render r w).1 ≡ done s
      → r ≡ ok s
  open_session-done (err e) s w h = cc
  open_session-done (ok s') s w h =
      let r = bring_up run render s' w in ap ok (undo_failed-done s' s r.0 r.1 h)

  -- Where Start succeeds, the configuration is valid and asks for nothing that the machine lacks, sharing
  -- is managed and there is a hotspot, and the session has the interfaces that the choice allows. The
  -- uplink is an interface of the machine that is up: the one of the asked name, and if none was asked
  -- for, one that has the default route and is no loopback. The other one can host an access point: it
  -- is the one of the asked name, and if none was asked for, not the uplink.
  pub start-IsChosen :
      (p : Probes) (c : Config) (w : World M) (s : Setup)
      → (start run render p c w).1 ≡ done s
      → IsAdmitted p c
        × ((ifaces : List Interface) × ((h : HotspotConfig) × ((p.interfaces ≡ some ifaces)
                × (c.hotspot ≡ some h)
                × IsChosen c h ifaces s)))
  unfolding start
  start-IsChosen p c w s e = by_guard (admit p c) refl e
    where
      fresh_world : World M
      fresh_world = record w { steps = [] }

      by_reconcile :
          (u : World M) (o : Outcome (List Note))
          → (bind_outcome u o (λ ns. open_session run render (choose p c))).1 ≡ done s
          → choose p c ≡ ok s
      by_reconcile u (done ns) h = open_session-done (choose p c) s u h
      by_reconcile u (failed x) h = cc
      by_reconcile u killed h = cc

      by_guard :
          (r : Result LinuxError Unit)
          → admit p c ≡ r
          → (start_admitted run render p c r fresh_world).1 ≡ done s
          → IsAdmitted p c
            × ((ifaces : List Interface) × ((h : HotspotConfig) × ((p.interfaces ≡ some ifaces)
                    × (c.hotspot ≡ some h)
                    × IsChosen c h ifaces s)))
      by_guard (err x) i h = cc
      by_guard (ok u) i h =
          let r = reconcile run fresh_world in
          (admit-IsAdmitted p c u i, choose-IsChosen p c s (by_reconcile r.0 r.1 h))
